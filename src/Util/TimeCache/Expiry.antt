-- ===== src/Util/TimeCache/Expiry.antt =====
-- Which keys a `TimeCache` hands out as expired.
use exaproxy.Common.{
  ℕ, ◌+◌, ◌≤◌, ◌<◌, ◌≡◌, ◌⊎◌, inl, inr, true, false, none, some, [], ◌∷◌, ltb, Key, arith, subst,
  ap, ◌∙◌, Bool-cases, Option-cases,
}
use exaproxy.Dict.{Dict, contains, contains-insert}
use exaproxy.Util.TimeCache.{
  TimeCache, Budget, Phase, start, behind_last, looping, finished, drain, next, set_item, is_spent,
}

-- `k` was stamped, at a time from which the timeout has gone by.
abbrev pub IsOverdue : {K : Type 0} → ℕ → ℕ → Dict K ℕ → K → Type 0
IsOverdue now timeout [] k = ⊥
IsOverdue now timeout ((j, t) ∷ rest) k =
    ((j ≡ k) × (t + timeout ≤ now)) ⊎ IsOverdue now timeout rest k

-- Every stamp is at `since` or later.
abbrev pub From : {K : Type 0} → ℕ → Dict K ℕ → Type 0
From since [] = Unit
From since ((j, t) ∷ rest) = (since ≤ t) × From since rest

-- The stamps stand in the order of time.
abbrev pub InOrder : {K : Type 0} → Dict K ℕ → Type 0
InOrder [] = Unit
InOrder ((j, t) ∷ rest) = From t rest × InOrder rest

-- No timeout has gone by.
abbrev pub AllYoung : {K : Type 0} → ℕ → ℕ → Dict K ℕ → Type 0
AllYoung now timeout [] = Unit
AllYoung now timeout ((j, t) ∷ rest) = (now < t + timeout) × AllYoung now timeout rest

From-AllYoung :
    {K : Type 0} (now timeout t : ℕ) (l : Dict K ℕ)
    → now < t + timeout
    → From t l
    → AllYoung now timeout l
From-AllYoung now timeout t [] h f = tt
From-AllYoung now timeout t ((j, u) ∷ rest) h f =
    (omega arith, From-AllYoung now timeout t rest h f.1)

module _ {K V : Type 0} ⦃e : Key K⦄ where
  drain-IsOverdue :
      (now : ℕ) (b : Budget) (c : TimeCache K V) (l : Dict K ℕ) (k : K)
      → (drain now b c l).0 ≡ some k
      → IsOverdue now c.timeout l k × (contains k c.entries ≡ true)
  unfolding drain
  drain-IsOverdue now b c [] k h = cc
  drain-IsOverdue now b c ((j, t) ∷ rest) k h = elim (Bool-cases (is_spent b)) [
    | inl spent ↦ cc (rw (spent, drain) at h)
    | inr left ↦ elim (Bool-cases (ltb now (t + c.timeout))) [
      | inl young ↦ cc (rw (left, young, drain) at h)
      | inr old ↦ elim (Bool-cases (contains j c.entries)) [
        | inl held ↦
            let e : j ≡ k = ground arith in
            (inl (e, ground arith), subst (λ x. contains x c.entries ≡ true) e held)
        | inr gone ↦ let ih = drain-IsOverdue now b c rest k (ground arith) in (inr ih.0, ih.1)
      ]
    ]
  ]

  drain_complete :
      (now : ℕ) (b : Budget) (c : TimeCache K V) (l : Dict K ℕ)
      → InOrder l
      → (drain now b c l).0 ≡ none
      → is_spent b ≡ false
      → AllYoung now c.timeout (drain now b c l).3.time
  unfolding drain
  drain_complete now b c [] o h s = tt
  drain_complete now b c ((j, t) ∷ rest) o h s = elim (Bool-cases (ltb now (t + c.timeout))) [
    | inl young ↦ rw (s, young, drain) (From-AllYoung now c.timeout t rest (ground arith) o.0)
    | inr old ↦ elim (Bool-cases (contains j c.entries)) [
      | inl held ↦ cc (rw (s, old, held, drain) at h)
      | inr gone ↦
          rw (s, old, gone, drain)
            (drain_complete now b c rest o.1 (rw (s, old, gone, drain) at h) s)
    ]
  ]

  -- A key that the generator hands out is in the cache, and its timeout has gone by since it was
  -- stamped, in the list of stamps or as the one held back last time.
  pub next-IsOverdue :
      (now : ℕ) (ph : Phase) (b : Budget) (c : TimeCache K V) (k : K)
      → (next now ph b c).0 ≡ some k
      → (IsOverdue now c.timeout c.time k
          ⊎ ((t : ℕ) × (c.last ≡ some (k, t)) × (t + c.timeout ≤ now)))
        × (contains k c.entries ≡ true)
  unfolding next
  next-IsOverdue now start b c k h = elim (Option-cases c.last) [
    | inl nothing ↦
        let r = drain-IsOverdue now b c c.time k (rw (nothing, next) at h) in (inl r.0, r.1)
    | inr (last, held) ↦
        from_last last held (Bool-cases (ltb now (last.1 + c.timeout)))
          (Bool-cases (contains last.0 c.entries))
  ]
    where
      from_last :
          (last : K × ℕ)
          → c.last ≡ some last
          → (ltb now (last.1 + c.timeout) ≡ true) ⊎ (ltb now (last.1 + c.timeout) ≡ false)
          → (contains last.0 c.entries ≡ true) ⊎ (contains last.0 c.entries ≡ false)
          → (IsOverdue now c.timeout c.time k
              ⊎ ((t : ℕ) × (c.last ≡ some (k, t)) × (t + c.timeout ≤ now)))
            × (contains k c.entries ≡ true)
      from_last (j, t) held (inl young) _ = cc (rw (held, young, next) at h)
      from_last (j, t) held (inr old) (inl here) =
          let e : j ≡ k = ground arith in
          (
            inr (t, held ∙ ap (λ x. some (x, t)) e, ground arith),
            subst (λ x. contains x c.entries ≡ true) e here,
          )
      from_last (j, t) held (inr old) (inr gone) =
          let r =
            drain-IsOverdue now b (record c { last = none }) c.time k
              (rw (held, old, gone, next) at h) in
          (inl r.0, r.1)
  next-IsOverdue now behind_last b c k h =
      let r = drain-IsOverdue now b (record c { last = none }) c.time k h in (inl r.0, r.1)
  next-IsOverdue now looping b c k h = let r = drain-IsOverdue now b c c.time k h in (inl r.0, r.1)
  next-IsOverdue now finished b c k h = cc

  -- Where the stamps are in the order of time, a generator in its loop that ends before it has
  -- handed out as many keys as it may leaves no stamp whose timeout has gone by.
  pub next_complete :
      (now : ℕ) (b : Budget) (c : TimeCache K V)
      → InOrder c.time
      → is_spent b ≡ false
      → (next now looping b c).0 ≡ none
      → AllYoung now c.timeout (next now looping b c).3.time
  unfolding next
  next_complete now b c o s h = drain_complete now b c c.time o h s

  -- A key that was held back when the last round of expiry ended, and is then set anew, is handed
  -- out as expired by the old stamp's time, however fresh the new one is.
  pub reset_expires :
      (now : ℕ) (b : Budget) (c : TimeCache K V) (k : K) (v : V) (t : ℕ)
      → c.last ≡ some (k, t)
      → t + c.timeout ≤ now
      → (next now start b (set_item now k v c)).0 ≡ some k
  unfolding next set_item
  reset_expires now b c k v t held old =
      ground (arith, contains-insert k k v c.entries, e.same_iff k k)
