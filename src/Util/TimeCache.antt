-- ===== src/Util/TimeCache.antt =====
-- lib/exaproxy/util/cache.py, class `TimeCache`: a dictionary that remembers when each key was set.
-- Times are whole numbers, the value of `time()` is an argument. `t > time() - timeout` is written
-- without the subtraction. `expired` is a generator: `next` runs it up to its next `yield`.
pub mod Expiry
mod Tests
use exaproxy.Common.{
  ℕ, zero, suc, ◌+◌, Bool, true, false, Option, none, some, [], ◌∷◌, if◌then◌else◌, ltb, Key,
}
use exaproxy.Dict.{Dict, lookup, insert, remove, contains}

pub record TimeCache {ℓ κ} (K : Type ℓ) (V : Type κ) : Type (ℓ ⊔ κ) where
  pub entries : Dict K V
  pub timeout : ℕ
  pub last : Option (K × ℕ)
  pub time : Dict K ℕ

-- `maximum`, an int that is only tested for zero and counted down: `none` stands for every value
-- below zero, which counting down never brings to zero.
abbrev pub Budget : Type 0
Budget = Option ℕ

abbrev pub spend : Budget → Budget
spend none = none
spend (some zero) = none
spend (some (suc n)) = some n

abbrev pub is_spent : Budget → Bool
is_spent (some zero) = true
is_spent _ = false

-- Where the generator stands: before its first statement, behind the `yield` of `self.last`, in the
-- loop, or at its end.
pub data Phase : Type 0 where
  start behind_last looping finished : Phase

module _ {ℓ κ} {K : Type ℓ} {V : Type κ} ⦃e : Key K⦄ where
  abbrev pub create : ℕ → TimeCache K V
  create timeout = record { entries = []; timeout = timeout; last = none; time = [] }

  unfoldable pub set_item : ℕ → K → V → TimeCache K V → TimeCache K V
  set_item now key value c = record c {
    entries = insert key value c.entries;
    time = if ltb 0 c.timeout then insert key now c.time else c.time;
  }

  -- `none` is the KeyError of `dict.__delitem__`
  unfoldable pub del_item : K → TimeCache K V → Option (TimeCache K V)
  del_item key c =
      if contains key c.entries
      then some (record c { entries = remove key c.entries; time = remove key c.time })
      else none

  -- `pop(key, default)`, which leaves the default to its caller
  unfoldable pub pop : K → TimeCache K V → Option V × TimeCache K V
  pop key c =
      (lookup key c.entries, record c { entries = remove key c.entries; time = remove key c.time })

  -- `while self.time and maximum`, up to a `yield`, the `break` or the end
  unfoldable pub drain :
      ℕ → Budget → TimeCache K V → Dict K ℕ → Option K × Phase × Budget × TimeCache K V
  drain now maximum c [] = (none, finished, maximum, record c { time = [] })
  drain now maximum c ((k, t) ∷ rest) =
      let later = drain now maximum c rest in
      if is_spent maximum
      then (none, finished, maximum, record c { time = (k, t) ∷ rest })
      else if ltb now (t + c.timeout)
      then (none, finished, maximum, record c { time = rest; last = some (k, t) })
      else if contains k c.entries
      then (some k, looping, spend maximum, record c { time = rest })
      else later

  -- One `next()` of the generator that `expired(maximum)` returns. The value of `now` is read once,
  -- by the first of them.
  unfoldable pub next :
      ℕ → Phase → Budget → TimeCache K V → Option K × Phase × Budget × TimeCache K V
  next now start maximum c = elim c.last [
    | none ↦ drain now maximum c c.time
    | some (k, t) ↦
        if ltb now (t + c.timeout)
        then (none, finished, maximum, c)
        else if contains k c.entries
        then (some k, behind_last, spend maximum, c)
        else drain now maximum (record c { last = none }) c.time
  ]
  next now behind_last maximum c = drain now maximum (record c { last = none }) c.time
  next now looping maximum c = drain now maximum c c.time
  next now finished maximum c = (none, finished, maximum, c)
