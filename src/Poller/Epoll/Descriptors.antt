-- ===== src/Poller/Epoll/Descriptors.antt =====
-- Which socket a descriptor stands for, while the sockets of a name are open.
use Prim.Native.String.{String}
use exaproxy.Common.{
  ℕ, ◌≡◌, ◌≢◌, inl, inr, refl, nat_beq_iff, true, Option, none, some, arith, number_key, text_key,
  if◌then◌else◌, Option-cases,
}
use exaproxy.Dict.{
  Dict, lookup, contains, contains-insert, contains-remove, lookup-insert, lookup-remove,
}
use exaproxy.Poller.Epoll.{
  Mask, Channel, add, take_out, cork, uncork, forget_fd, Call, EPoller, empty_channel, readable,
  writable, step, add_read, remove_read, cork_read, uncork_read, add_write, remove_write,
  cork_write, uncork_write, set_up_read, set_up_write, clear_reads, clear_writes,
}
use exaproxy.Poller.Epoll.Kept.{Left, AllOf, Kept, step-AllOf}
use exaproxy.Poller.Epoll.Safety.{IsReadyFor}

-- Open sockets have descriptors of their own.
abbrev pub IsDistinct : (ℕ → Option ℕ) → Type 0
IsDistinct fileno = (s t fd : ℕ) → fileno s ≡ some fd → fileno t ≡ some fd → s ≡ t

-- A descriptor of a socket stands for that socket if it is in, and for none if it is not.
abbrev pub IsIndexed : (ℕ → Option ℕ) → Channel → Type 0
IsIndexed fileno c =
    (s fd : ℕ)
    → fileno s ≡ some fd
    → lookup fd c.fdtosock ≡ (if contains s c.sockets then some s else none)

module _ (fileno : ℕ → Option ℕ) (distinct : IsDistinct fileno) (m : Mask) (sock : ℕ) (c : Channel)
    (k : IsIndexed fileno c) (opened : fileno sock ≢ none) where
  add-IsIndexed : {d : Channel} → Left (add fileno m sock c) d → IsIndexed fileno d
  unfolding add
  add-IsIndexed {d} h s fd here = elim (Option-cases (fileno sock)) [
    | inl gone ↦ absurd (opened gone)
    | inr (own, e) ↦ ground (
      arith,
      k s fd here,
      contains-insert sock s true c.sockets,
      lookup-insert own fd sock c.fdtosock,
      distinct sock s fd,
      nat_beq_iff sock s,
      nat_beq_iff own fd,
    )
  ]

  take_out-IsIndexed : {d : Channel} → Left (take_out fileno sock c) d → IsIndexed fileno d
  unfolding take_out forget_fd
  take_out-IsIndexed {d} h s fd here = elim (Option-cases (fileno sock)) [
    | inl gone ↦ absurd (opened gone)
    | inr (own, e) ↦ ground (
      arith,
      k s fd here,
      contains-remove sock s c.sockets,
      lookup-remove own fd c.fdtosock,
      distinct sock s fd,
      nat_beq_iff sock s,
      nat_beq_iff own fd,
    )
  ]

  cork-IsIndexed : {d : Channel} → Left (cork fileno sock c) d → IsIndexed fileno d
  unfolding cork
  cork-IsIndexed {d} h s fd here = ground (arith, k s fd here)

  uncork-IsIndexed : {d : Channel} → Left (uncork fileno m sock c) d → IsIndexed fileno d
  unfolding uncork
  uncork-IsIndexed {d} h s fd here = ground (arith, k s fd here)

-- The descriptors of every name.
abbrev pub AllIndexed : (ℕ → Option ℕ) → Dict String Channel → Type 0
AllIndexed fileno = AllOf (λ n. IsIndexed fileno)

empty-IsIndexed : (fileno : ℕ → Option ℕ) → IsIndexed fileno empty_channel
unfolding lookup contains
empty-IsIndexed fileno s fd h = refl

module _ (fileno : ℕ → Option ℕ) (distinct : IsDistinct fileno) (p : EPoller) where
  every_call-IsIndexed :
      (call : Call)
      → IsReadyFor fileno p call
      → Kept (λ n. IsIndexed fileno) (λ n. empty-IsIndexed fileno) fileno call
  every_call-IsIndexed (add_read n s) (known, opened) =
      λ c k d. add-IsIndexed fileno distinct readable s c k opened
  every_call-IsIndexed (remove_read n s) (known, opened) =
      λ c k d. take_out-IsIndexed fileno distinct readable s c k opened
  every_call-IsIndexed (cork_read n s) (known, opened) =
      λ c k d. cork-IsIndexed fileno distinct readable s c k opened
  every_call-IsIndexed (uncork_read n s) (known, opened) =
      λ c k d. uncork-IsIndexed fileno distinct readable s c k opened
  every_call-IsIndexed (add_write n s) (known, opened) =
      λ c k d. add-IsIndexed fileno distinct writable s c k opened
  every_call-IsIndexed (remove_write n s) (known, opened) =
      λ c k d. take_out-IsIndexed fileno distinct writable s c k opened
  every_call-IsIndexed (cork_write n s) (known, opened) =
      λ c k d. cork-IsIndexed fileno distinct writable s c k opened
  every_call-IsIndexed (uncork_write n s) (known, opened) =
      λ c k d. uncork-IsIndexed fileno distinct writable s c k opened
  every_call-IsIndexed (set_up_read n) r = tt
  every_call-IsIndexed (set_up_write n) r = tt
  every_call-IsIndexed (clear_reads n) r = tt
  every_call-IsIndexed (clear_writes n) r = tt

  pub step-AllIndexed :
      (call : Call) (q : EPoller)
      → AllIndexed fileno p.channels
      → IsReadyFor fileno p call
      → step fileno call p ≡ some q
      → AllIndexed fileno q.channels
  step-AllIndexed call q all ready =
      step-AllOf (λ n. IsIndexed fileno) (λ n. empty-IsIndexed fileno) fileno call p q all
        (every_call-IsIndexed call ready)
