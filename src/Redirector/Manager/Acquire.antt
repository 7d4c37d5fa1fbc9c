-- ===== src/Redirector/Manager/Acquire.antt =====
-- The loop of `acquire`: its fuel is enough, and a request waits only where no worker is available.
use exaproxy.Common.{
  ℕ, zero, suc, ◌≤◌, ◌≡◌, subst, inl, inr, Bool, true, false, none, some, [], ◌∷◌, arith,
  nat_beq_iff, number_key, Option-cases, Bool-cases, length,
}
use exaproxy.Dict.{Dict, remove, contains, contains-remove, length-remove}
use exaproxy.Redirector.Manager.{RedirectorManager, Worker, popped, acquire_loop, acquire}
use exaproxy.Redirector.Manager.Staffed.{IsStaffed}
use exaproxy.Redirector.Manager.Requests.{popped-contains}

module _ (pick : Dict ℕ Bool → ℕ) where
  acquire_loop-none :
      (fuel : ℕ) (worker : Dict ℕ Worker) (l : Dict ℕ Bool)
      → length l ≤ fuel
      → (acquire_loop pick fuel worker l).0 ≡ none
      → (w : ℕ) → contains w l ≡ true
      → contains w worker ≡ false
  unfolding acquire_loop contains
  acquire_loop-none fuel worker [] few h w inside = absurd cc
  acquire_loop-none zero worker ((first, b) ∷ l) few h w inside = absurd (omega arith)
  acquire_loop-none (suc fuel) worker ((first, b) ∷ l) few h w inside =
      let d = (first, b) ∷ l in
      let x = popped pick first d in
      let held = popped-contains pick first b l in
      let less = length-remove x d held in
      let left = remove x d in
      elim (Bool-cases (contains x worker)) [
        | inl known ↦ absurd (let g : some x ≡ none = rw (known, acquire_loop) at h in cc)
        | inr gone ↦
            let g : (acquire_loop pick fuel worker left).0 ≡ none = rw (gone, acquire_loop) at h in
            elim (Bool-cases (contains w left)) [
              | inl later ↦ acquire_loop-none fuel worker left (omega arith) g w later
              | inr taken ↦
                  let same : x ≡ w = ground (arith, contains-remove x w d, nat_beq_iff x w) in
                  subst (λ y. contains y worker ≡ false) same gone
            ]
      ]

  -- From sets of workers that agree, where a worker is available `acquire` gives one, whichever
  -- elements `set.pop` takes: the fuel of its loop is enough.
  pub acquire_complete :
      (m : RedirectorManager) (wid : ℕ)
      → IsStaffed m
      → contains wid m.available ≡ true
      → (given : ℕ) × ((acquire pick m).0 ≡ some given)
  unfolding acquire
  acquire_complete m wid v some_one = elim (Option-cases (acquire pick m).0) [
    | inl nobody ↦ absurd (
        let unknown =
          acquire_loop-none (length m.available) m.worker m.available (omega arith) nobody wid
            some_one in
        let known = v.available_known wid some_one in cc)
    | inr (given, found) ↦ (given, found)
  ]
