-- ===== src/Util/TimeCache/Tests.antt =====
-- The cache's theorems at concrete inputs.
use exaproxy.Common.{ℕ, ◌+◌, ◌≤◌, ◌≡◌, ◌⊎◌, refl, true, none, some, [], ◌∷◌, number_key}
use exaproxy.Dict.{lookup, contains}
use exaproxy.Util.TimeCache.{TimeCache, looping, start, drain, next}
use exaproxy.Util.TimeCache.Expiry.{IsOverdue, AllYoung, next-IsOverdue, next_complete}

-- Keys 5 and 6, stamped at 10 and 50, live for 30.
abbrev cache : TimeCache ℕ ℕ
cache = record {
  entries = (5, 0) ∷ (6, 0) ∷ [];
  timeout = 30;
  last = none;
  time = (5, 10) ∷ (6, 50) ∷ [];
}

-- Key 5 is gone, and 6 is the last stamp.
abbrev later : TimeCache ℕ ℕ
later = record cache { entries = (6, 0) ∷ []; time = (6, 50) ∷ [] }

next-IsOverdue_example :
    (IsOverdue 40 30 cache.time 5 ⊎ ((t : ℕ) × (cache.last ≡ some (5, t)) × (t + 30 ≤ 40)))
    × (contains 5 cache.entries ≡ true)
unfolding next drain contains lookup
next-IsOverdue_example = next-IsOverdue 40 start (some 100) cache 5 refl

next_complete_example : AllYoung 60 30 (next 60 looping (some 100) later).3.time
unfolding next drain
next_complete_example = next_complete 60 (some 100) later ((tt, tt)) refl refl

-- Key 6 was held back at 50 and is set again at 90.
abbrev held : TimeCache ℕ ℕ
held = record later { time = []; last = some (6, 50) }
