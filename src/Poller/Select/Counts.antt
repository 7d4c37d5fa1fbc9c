-- ===== src/Poller/Select/Counts.antt =====
-- How often a socket stands under a name of one direction, before and after a call.
use Prim.Native.String.{String}
use exaproxy.Common.{
  ℕ, ◌≡◌, ◌≢◌, ◌-◌, refl, nat_beq, nat_beq_iff, true, ◌&&◌, none, some, List, [], ◌∷◌, ◌++◌, arith,
  number_key, text_key, Option-cases, Bool-cases, inl, inr, ◌==◌, if◌then◌else◌, mem, count,
  remove_first, count-append, count-remove_first, mem-count,
}
use exaproxy.Dict.{lookup, insert, contains, contains-insert, lookup-insert, contains-lookup}
use exaproxy.Poller.Select.{
  Sockets, listed, emptied, Side, Change, same, done, add, take_out, settle, on_name,
}

abbrev pub sockets_of : Sockets → List ℕ
sockets_of (listed l) = l
sockets_of emptied = []

abbrev pub counts : String → ℕ → Side → ℕ
counts m t p = elim (lookup m p.sockets) [ none ↦ 0 | some l ↦ count t (sockets_of l) ]

-- No name was cleared.
abbrev pub AllListed : Side → Type 0
AllListed p = (m : String) → lookup m p.sockets ≢ some emptied

abbrev pub at_least_one : ℕ → ℕ
at_least_one n = if nat_beq n 0 then 1 else n

abbrev pub one_less : ℕ → ℕ
one_less n = n - 1

-- A side on which one socket of one name has moved.
pub record IsMoved (n : String) (s : ℕ) (go : ℕ → ℕ) (p q : Side) : Type 0 where
  pub counted :
      (m : String) (t : ℕ)
      → counts m t q ≡ (if n == m && s == t then go (counts m t p) else counts m t p)
  pub known : (m : String) → contains m q.sockets ≡ contains m p.sockets
  pub lists : AllListed q

module _ (n : String) (s : ℕ) (p : Side) (all : AllListed p) where
  done-IsMoved :
      (go : ℕ → ℕ) (l k : List ℕ)
      → lookup n p.sockets ≡ some (listed l)
      → ((t : ℕ) → count t k ≡ (if s == t then go (count t l) else count t l))
      → (q : Side) × (settle n p (done (listed k)) ≡ some q) × IsMoved n s go p q
  done-IsMoved go l k found h = (
    record p { sockets = insert n (listed k) p.sockets; modified = insert n true p.modified },
    refl,
    record {
      counted =
          λ m t. ground (arith, text_key.same_iff n m, lookup-insert n m (listed k) p.sockets, h t);
      known = λ m. ground (
        arith,
        text_key.same_iff n m,
        contains-insert n m (listed k) p.sockets,
        contains-lookup n p.sockets,
      );
      lists = λ m e. ground (arith, all m, lookup-insert n m (listed k) p.sockets);
    },
  )

  same-IsMoved :
      (go : ℕ → ℕ) (l : List ℕ)
      → lookup n p.sockets ≡ some (listed l)
      → go (count s l) ≡ count s l
      → (q : Side) × (settle n p same ≡ some q) × IsMoved n s go p q
  same-IsMoved go l found h = (
    p,
    refl,
    record {
      counted = λ m t. ground (arith, text_key.same_iff n m, nat_beq_iff s t);
      known = λ m. refl;
      lists = all;
    },
  )

  on_list : contains n p.sockets ≡ true → (l : List ℕ) × (lookup n p.sockets ≡ some (listed l))
  on_list known = elim (Option-cases (lookup n p.sockets)) [
    | inl missing ↦ absurd (ground (arith, contains-lookup n p.sockets))
    | inr (k, found) ↦ listed_one k found
  ]
    where
      listed_one :
          (k : Sockets)
          → lookup n p.sockets ≡ some k
          → (l : List ℕ) × (lookup n p.sockets ≡ some (listed l))
      listed_one (listed l) found = (l, found)
      listed_one emptied found = absurd (all n found)

  through :
      (f : Sockets → Change) (go : ℕ → ℕ) {l : Sockets} (r : Change)
      → lookup n p.sockets ≡ some l
      → f l ≡ r
      → (q : Side) × (settle n p r ≡ some q) × IsMoved n s go p q
      → (q : Side) × (on_name n f p ≡ some q) × IsMoved n s go p q
  through f go r found e (q, h, v) = (q, rw (found, e, on_name) h, v)

  pub add_lem :
      contains n p.sockets ≡ true
      → (q : Side) × (on_name n (add s) p ≡ some q) × IsMoved n s at_least_one p q
  unfolding add
  add_lem known =
      let (l, found) = on_list known in
      elim (Bool-cases (mem s l)) [
        | inl there ↦
            through (add s) at_least_one same found (ground arith)
              (same-IsMoved at_least_one l found (ground (arith, mem-count s l)))
        | inr missing ↦
            through (add s) at_least_one (done (listed (l ++ s ∷ []))) found (ground arith) (
              done-IsMoved at_least_one l (l ++ (s ∷ [])) found
                (λ t. ground (arith, count-append t l (s ∷ []), mem-count s l, nat_beq_iff s t)))
      ]

  pub take_out_lem :
      contains n p.sockets ≡ true
      → (q : Side) × (on_name n (take_out s) p ≡ some q) × IsMoved n s one_less p q
  unfolding take_out
  take_out_lem known =
      let (l, found) = on_list known in
      elim (Bool-cases (mem s l)) [
        | inl there ↦
            through (take_out s) one_less (done (listed (remove_first s l))) found (ground arith) (
              done-IsMoved one_less l (remove_first s l) found
                (λ t. ground (arith, count-remove_first t s l, nat_beq_iff s t)))
        | inr missing ↦
            through (take_out s) one_less same found (ground arith)
              (same-IsMoved one_less l found (ground (arith, mem-count s l)))
      ]
