-- ===== src/Poller/Epoll/Kept.antt =====
-- A predicate on the tables of one name that every method keeps is kept by every call.
use Prim.Native.String.{String}
use text.Mathlib.TextEquality.{eq_iff}
use exaproxy.Common.{
  ℕ, ◌≡◌, ◌⊎◌, inl, inr, refl, Bool, Option, none, some, [], ◌∷◌, arith, number_key, text_key,
  Bool-cases, Option-cases, ◌==◌, subst, ap,
}
use exaproxy.Dict.{Dict, lookup, insert, remove, contains, lookup-insert, lookup-remove}
use exaproxy.Poller.Epoll.{
  readable, writable, Channel, EPoller, Change, same, fault, done, closed, add, take_out, cork,
  uncork, empty_channel, on_channel, settle, Outcome, unless_fault, drop_error, setup_read,
  setup_write, clear_popped, clear_read, clear_write, add_read_socket, remove_read_socket,
  cork_read_socket, uncork_read_socket, add_write_socket, remove_write_socket, cork_write_socket,
  uncork_write_socket, step, Call, add_read, remove_read, cork_read, uncork_read, add_write,
  remove_write, cork_write, uncork_write, set_up_read, set_up_write, clear_reads, clear_writes,
}

-- What a method may leave in the tables of one name, whether it returned True or False.
abbrev pub Left : Change → Channel → Type 0
Left r c = (r ≡ done c) ⊎ (r ≡ closed c)

some_inj : {p q : EPoller} → some p ≡ some q → p ≡ q
some_inj h = cc

module _ (Holds : String → Channel → Type 0) where
  abbrev pub AllOf : Dict String Channel → Type 0
  AllOf chs = (n : String) (c : Channel) → lookup n chs ≡ some c → Holds n c

  -- A method keeps the predicate.
  abbrev pub KeptBy : String → (Channel → Change) → Type 0
  KeptBy n f = (c : Channel) → Holds n c → (d : Channel) → Left (f c) d → Holds n d

  pub insert-AllOf :
      (name : String) (c : Channel) (chs : Dict String Channel)
      → AllOf chs
      → Holds name c
      → AllOf (insert name c chs)
  insert-AllOf name c chs all v n d h = elim (Bool-cases (name == n)) [
    | inl hit ↦
        let same_one : c ≡ d = ground (arith, lookup-insert name n c chs) in
        let same_name : name ≡ n = ground (arith, eq_iff name n) in
        subst (λ (m : String). Holds m d) same_name (subst (Holds name) same_one v)
    | inr miss ↦ all n d (ground (arith, lookup-insert name n c chs))
  ]

  remove-AllOf : (name : String) (chs : Dict String Channel) → AllOf chs → AllOf (remove name chs)
  remove-AllOf name chs all n d h = all n d (ground (arith, lookup-remove name n chs))

  settle-AllOf :
      (name : String) (sock : ℕ) (p : EPoller) {q : EPoller} {b : Bool} (r : Change)
      → AllOf p.channels
      → ((d : Channel) → Left r d → Holds name d)
      → settle name sock p r ≡ some (b, q)
      → AllOf q.channels
  settle-AllOf name sock p {q} {b} same all keep h =
      let e : p.channels ≡ q.channels = ground arith in subst (AllOf) e all
  settle-AllOf name sock p fault all keep h = cc
  settle-AllOf name sock p {q} {b} (done d) all keep h =
      let e : insert name d p.channels ≡ q.channels = ground arith in
      subst (AllOf) e (insert-AllOf name d p.channels all (keep d (inl refl)))
  settle-AllOf name sock p {q} {b} (closed d) all keep h =
      let e : insert name d p.channels ≡ q.channels = ground arith in
      subst (AllOf) e (insert-AllOf name d p.channels all (keep d (inr refl)))

  on_channel-AllOf :
      (name : String) (sock : ℕ) (f : Channel → Change) (p : EPoller) {q : EPoller} {b : Bool}
      → AllOf p.channels
      → ((c : Channel) → Holds name c → (d : Channel) → Left (f c) d → Holds name d)
      → on_channel name sock f p ≡ some (b, q)
      → AllOf q.channels
  on_channel-AllOf name sock f p all keep h = elim (Option-cases (lookup name p.channels)) [
    | inl missing ↦ cc (rw (missing, on_channel) at h)
    | inr (c, found) ↦
        settle-AllOf name sock p (f c) all (keep c (all name c found)) (rw (found, on_channel) at h)
  ]

  step_lem :
      (p : EPoller) {q : EPoller} (o : Outcome)
      → ((r : EPoller) (b : Bool) → o ≡ some (b, r) → AllOf r.channels)
      → unless_fault p o ≡ some q
      → AllOf q.channels
  step_lem p none k h = cc
  step_lem p {q} (some (b, r)) k h =
      let e : r.channels ≡ q.channels = ground arith in subst (AllOf) e (k r b refl)

  drop_error-AllOf :
      (sock : ℕ) (o : Outcome) {q : EPoller} {b : Bool}
      → ((r : EPoller) (b : Bool) → o ≡ some (b, r) → AllOf r.channels)
      → drop_error sock o ≡ some (b, q)
      → AllOf q.channels
  drop_error-AllOf sock none k h = cc
  drop_error-AllOf sock (some (b, r)) {q} k h =
      let e : r.channels ≡ q.channels = ground arith in subst (AllOf) e (k r b refl)

  module _ (empty : (n : String) → Holds n empty_channel) where
    setup-AllOf : (n : String) (p : EPoller) → AllOf p.channels → AllOf (setup_read n p).channels
    unfolding setup_read
    setup-AllOf n p all = elim (Bool-cases (contains n p.channels)) [
      | inl known ↦ rw (known, setup_read) all
      | inr fresh ↦ rw (fresh, setup_read) (insert-AllOf n empty_channel p.channels all (empty n))
    ]

    clear-AllOf :
        (n : String) (p : EPoller) (o : Option Channel)
        → AllOf p.channels
        → AllOf (clear_popped n p o (setup_read n)).channels
    clear-AllOf n p none all = all
    clear-AllOf n p (some c) all = go c.sockets
      where
        popped : EPoller
        popped = record p { channels = remove n p.channels }

        fine : AllOf popped.channels
        fine = remove-AllOf n p.channels all

        go :
            (l : Dict ℕ Bool)
            → AllOf (
                let q : EPoller = elim l [ [] ↦ popped | x ∷ r ↦ setup_read n popped ] in
                q.channels)
        go [] = fine
        go (x ∷ r) = setup-AllOf n popped fine

    module _ (fileno : ℕ → Option ℕ) where
      -- The method behind a call keeps the predicate.
      abbrev pub Kept : Call → Type 0
      Kept (add_read n s) = KeptBy n (add fileno readable s)
      Kept (remove_read n s) = KeptBy n (take_out fileno s)
      Kept (cork_read n s) = KeptBy n (cork fileno s)
      Kept (uncork_read n s) = KeptBy n (uncork fileno readable s)
      Kept (add_write n s) = KeptBy n (add fileno writable s)
      Kept (remove_write n s) = KeptBy n (take_out fileno s)
      Kept (cork_write n s) = KeptBy n (cork fileno s)
      Kept (uncork_write n s) = KeptBy n (uncork fileno writable s)
      Kept _ = Unit

      pub step-AllOf :
          (call : Call) (p q : EPoller)
          → AllOf p.channels
          → Kept call
          → step fileno call p ≡ some q
          → AllOf q.channels
      unfolding step setup_write clear_read clear_write add_read_socket remove_read_socket
          cork_read_socket uncork_read_socket add_write_socket remove_write_socket cork_write_socket
          uncork_write_socket
      step-AllOf (add_read n s) p q all k h =
          step_lem p _ (λ r b. on_channel-AllOf n s (add fileno readable s) p all k) h
      step-AllOf (remove_read n s) p q all k h =
          step_lem p _
            (λ r b. drop_error-AllOf s _ (λ r b. on_channel-AllOf n s (take_out fileno s) p all k))
            h
      step-AllOf (cork_read n s) p q all k h =
          step_lem p _ (λ r b. on_channel-AllOf n s (cork fileno s) p all k) h
      step-AllOf (uncork_read n s) p q all k h =
          step_lem p _ (λ r b. on_channel-AllOf n s (uncork fileno readable s) p all k) h
      step-AllOf (add_write n s) p q all k h =
          step_lem p _ (λ r b. on_channel-AllOf n s (add fileno writable s) p all k) h
      step-AllOf (remove_write n s) p q all k h =
          step_lem p _
            (λ r b. drop_error-AllOf s _ (λ r b. on_channel-AllOf n s (take_out fileno s) p all k))
            h
      step-AllOf (cork_write n s) p q all k h =
          step_lem p _ (λ r b. on_channel-AllOf n s (cork fileno s) p all k) h
      step-AllOf (uncork_write n s) p q all k h =
          step_lem p _ (λ r b. on_channel-AllOf n s (uncork fileno writable s) p all k) h
      step-AllOf (set_up_read n) p q all k h =
          let e : (setup_read n p).channels ≡ q.channels = ground arith in
          subst (AllOf) e (setup-AllOf n p all)
      step-AllOf (set_up_write n) p q all k h =
          let e : (setup_read n p).channels ≡ q.channels = unfold setup_read in ground arith in
          subst (AllOf) e (setup-AllOf n p all)
      step-AllOf (clear_reads n) p q all k h =
          let o : Option Channel = lookup n p.channels in
          let e : (clear_popped n p o (setup_read n)).channels ≡ q.channels =
            ap (λ (r : EPoller). r.channels) (some_inj h) in
          subst (AllOf) e (clear-AllOf n p o all)
      step-AllOf (clear_writes n) p q all k h =
          let o : Option Channel = lookup n p.channels in
          let e : (clear_popped n p o (setup_read n)).channels ≡ q.channels =
            unfold setup_read in ap (λ (r : EPoller). r.channels) (some_inj h) in
          subst (AllOf) e (clear-AllOf n p o all)
