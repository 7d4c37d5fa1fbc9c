-- ===== src/Poller/Select/Agree.antt =====
-- The select poller against the description of what a poller promises.
use Prim.Native.String.{String}
use exaproxy.Common.{
  ℕ, ◌≡◌, ◌≢◌, ◌+◌, refl, nat_beq_iff, true, false, ◌&&◌, Option, none, some, arith, number_key,
  text_key, ◌==◌, if◌then◌else◌,
}
use exaproxy.Dict.{contains, contains-lookup}
use exaproxy.Poller.Epoll.{
  Call, add_read, remove_read, cork_read, uncork_read, add_write, remove_write, cork_write,
  uncork_write, set_up_read, set_up_write, clear_reads, clear_writes,
}
use exaproxy.Poller.Select.{
  SelectPoller, Sockets, Change, Side, add, take_out, on_name, on_reads, on_writes, act,
  add_read_socket, remove_read_socket, add_write_socket, remove_write_socket,
}
use exaproxy.Poller.Select.Counts.{
  counts, AllListed, IsMoved, at_least_one, one_less, add_lem, take_out_lem,
}
use exaproxy.Poller.Seats.{Seat, out, held, join, leave, hold, resume, at, move, is_polled}

abbrev unit_of : Seat → ℕ
unit_of seat = if is_polled seat then 1 else 0

-- How often a socket stands among the sockets that are given to `select` for a name.
abbrev pub stands : String → ℕ → SelectPoller → ℕ
stands m t u = counts m t u.reads + counts m t u.writes

pub record Agrees (σ : String → ℕ → Seat) (u : SelectPoller) : Type 0 where
  pub shown : (m : String) (t : ℕ) → stands m t u ≡ unit_of (σ m t)
  pub reads_listed : AllListed u.reads
  pub writes_listed : AllListed u.writes
  pub apart : (m : String) → contains m u.reads.sockets ≡ true → contains m u.writes.sockets ≡ false

-- What a call leaves: a poller with the same names that shows the seats after the call.
abbrev Acted :
    (String → ℕ → Seat) → SelectPoller → (String → ℕ → Seat) → Option SelectPoller → Type 0
Acted σ u τ o =
    (w : SelectPoller) × (o ≡ some w)
    × Agrees τ w
    × ((m : String) → contains m w.reads.sockets ≡ contains m u.reads.sockets)
    × ((m : String) → contains m w.writes.sockets ≡ contains m u.writes.sockets)

module _ (σ : String → ℕ → Seat) (u : SelectPoller) (v : Agrees σ u) (n : String) (s : ℕ)
    (go : ℕ → ℕ) (mv : Seat → Seat) (same_turn : go (unit_of (σ n s)) ≡ unit_of (mv (σ n s))) where
  read-Agrees :
      (r : Side)
      → contains n u.reads.sockets ≡ true
      → IsMoved n s go u.reads r
      → Agrees (λ m t. at (n == m && s == t) mv (σ m t)) (record u { reads = r })
  read-Agrees r known moved = record {
    shown = λ m t. ground (
      arith,
      moved.counted m t,
      v.shown m t,
      v.apart n,
      contains-lookup n u.writes.sockets,
      text_key.same_iff n m,
      nat_beq_iff s t,
    );
    reads_listed = moved.lists;
    writes_listed = v.writes_listed;
    apart = λ m. ground (arith, moved.known m, v.apart m);
  }

  write-Agrees :
      (w : Side)
      → contains n u.writes.sockets ≡ true
      → IsMoved n s go u.writes w
      → Agrees (λ m t. at (n == m && s == t) mv (σ m t)) (record u { writes = w })
  write-Agrees w known moved = record {
    shown = λ m t. ground (
      arith,
      moved.counted m t,
      v.shown m t,
      v.apart n,
      contains-lookup n u.reads.sockets,
      text_key.same_iff n m,
      nat_beq_iff s t,
    );
    reads_listed = v.reads_listed;
    writes_listed = moved.lists;
    apart = λ m. ground (arith, moved.known m, v.apart m);
  }

  read_acts :
      (f : Sockets → Change)
      → contains n u.reads.sockets ≡ true
      → (r : Side) × (on_name n f u.reads ≡ some r) × IsMoved n s go u.reads r
      → Acted σ u (λ m t. at (n == m && s == t) mv (σ m t)) (on_reads u (on_name n f u.reads))
  read_acts f known (r, e, moved) =
      (record u { reads = r }, rw e, read-Agrees r known moved, moved.known, λ m. refl)

  write_acts :
      (f : Sockets → Change)
      → contains n u.writes.sockets ≡ true
      → (r : Side) × (on_name n f u.writes ≡ some r) × IsMoved n s go u.writes r
      → Acted σ u (λ m t. at (n == m && s == t) mv (σ m t)) (on_writes u (on_name n f u.writes))
  write_acts f known (r, e, moved) =
      (record u { writes = r }, rw e, write-Agrees r known moved, λ m. refl, moved.known)

module _ (fileno : ℕ → Option ℕ) (s : ℕ) where
  add_turn :
      (seat : Seat)
      → fileno s ≢ none
      → seat ≢ held
      → at_least_one (unit_of seat) ≡ unit_of (join (fileno s) seat)
  add_turn seat opened fit = ground arith

  uncork_turn :
      (seat : Seat)
      → fileno s ≢ none
      → seat ≢ out
      → at_least_one (unit_of seat) ≡ unit_of (resume (fileno s) seat)
  uncork_turn seat opened fit = ground arith

remove_turn : (seat : Seat) → one_less (unit_of seat) ≡ unit_of (leave seat)
remove_turn seat = ground arith

cork_turn : (seat : Seat) → one_less (unit_of seat) ≡ unit_of (hold seat)
cork_turn seat = ground arith

-- What select can follow: the name is one of the direction, a socket that is added is open and not
-- held back, and one that is let go is open and in. The set-up of a name, and emptying one, are left
-- out.
module _ (fileno : ℕ → Option ℕ) (σ : String → ℕ → Seat) (u : SelectPoller) where
  abbrev pub IsAllowed : Call → Type 0
  IsAllowed (add_read n s) =
      (contains n u.reads.sockets ≡ true) × (fileno s ≢ none) × (σ n s ≢ held)
  IsAllowed (remove_read n s) = contains n u.reads.sockets ≡ true
  IsAllowed (cork_read n s) = contains n u.reads.sockets ≡ true
  IsAllowed (uncork_read n s) =
      (contains n u.reads.sockets ≡ true) × (fileno s ≢ none) × (σ n s ≢ out)
  IsAllowed (add_write n s) =
      (contains n u.writes.sockets ≡ true) × (fileno s ≢ none) × (σ n s ≢ held)
  IsAllowed (remove_write n s) = contains n u.writes.sockets ≡ true
  IsAllowed (cork_write n s) = contains n u.writes.sockets ≡ true
  IsAllowed (uncork_write n s) =
      (contains n u.writes.sockets ≡ true) × (fileno s ≢ none) × (σ n s ≢ out)
  IsAllowed _ = true ≡ false

module _ (fileno : ℕ → Option ℕ) (σ : String → ℕ → Seat) (u : SelectPoller) (v : Agrees σ u) where
  pub act-Agrees :
      (call : Call)
      → IsAllowed fileno σ u call
      → Acted σ u (λ m t. move fileno m t call (σ m t)) (act call u)
  unfolding act add_read_socket remove_read_socket add_write_socket remove_write_socket
  act-Agrees (add_read n s) (known, opened, fit) =
      read_acts σ u v n s at_least_one (join (fileno s)) (add_turn fileno s (σ n s) opened fit)
        (add s) known (add_lem n s u.reads v.reads_listed known)
  act-Agrees (remove_read n s) known =
      read_acts σ u v n s one_less leave (remove_turn (σ n s)) (take_out s) known
        (take_out_lem n s u.reads v.reads_listed known)
  act-Agrees (cork_read n s) known =
      read_acts σ u v n s one_less hold (cork_turn (σ n s)) (take_out s) known
        (take_out_lem n s u.reads v.reads_listed known)
  act-Agrees (uncork_read n s) (known, opened, fit) =
      read_acts σ u v n s at_least_one (resume (fileno s)) (uncork_turn fileno s (σ n s) opened fit)
        (add s) known (add_lem n s u.reads v.reads_listed known)
  act-Agrees (add_write n s) (known, opened, fit) =
      write_acts σ u v n s at_least_one (join (fileno s)) (add_turn fileno s (σ n s) opened fit)
        (add s) known (add_lem n s u.writes v.writes_listed known)
  act-Agrees (remove_write n s) known =
      write_acts σ u v n s one_less leave (remove_turn (σ n s)) (take_out s) known
        (take_out_lem n s u.writes v.writes_listed known)
  act-Agrees (cork_write n s) known =
      write_acts σ u v n s one_less hold (cork_turn (σ n s)) (take_out s) known
        (take_out_lem n s u.writes v.writes_listed known)
  act-Agrees (uncork_write n s) (known, opened, fit) =
      write_acts σ u v n s at_least_one (resume (fileno s))
        (uncork_turn fileno s (σ n s) opened fit) (add s) known
        (add_lem n s u.writes v.writes_listed known)
  act-Agrees (set_up_read n) h = cc
  act-Agrees (set_up_write n) h = cc
  act-Agrees (clear_reads n) h = cc
  act-Agrees (clear_writes n) h = cc
