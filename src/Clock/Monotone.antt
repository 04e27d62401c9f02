-- ===== src/Clock/Monotone.antt =====
-- The order of the timestamps that HybridLogicalClock hands out, on its fields.
use tauri_boilerplate.Base.{if_ind, Bool, ◌&&◌, ℕ, ◌≤◌, ◌<◌, ◌≡◌, ◌⊎◌, max, arith, ok, Result}
use tauri_boilerplate.Base.Int.{ℤ, pos, ◌≤ℤ◌, ◌<ℤ◌, ltb_ℤ, eq_ℤ}
use tauri_boilerplate.Clock.Format.{Text}
use tauri_boilerplate.Clock.Hlc.{HybridLogicalClock, increment, tick, merge}
use tauri_boilerplate.Clock.Parse.{max_safe, HlcTimestamp, RangeError}

-- A time and a counter come before another pair, lexicographically.
abbrev pub Before : ℤ → ℕ → ℤ → ℕ → Type 0
Before p c q d = (p ≤ℤ q) × ((p <ℤ q) ⊎ (c < d))

-- The clock's time and counter are nonnegative safe integers, so no arithmetic on them rounds.
pub record IsSafe (c : HybridLogicalClock) : Type 0 where
  pub nonneg : pos 0 ≤ℤ c.latest_time
  pub time_safe : c.latest_time ≤ℤ pos max_safe
  pub counter_safe : c.counter ≤ max_safe

-- The clock that a step leaves is safe.
abbrev pub SafeAfter : Result RangeError (Unit {0}) × HybridLogicalClock → Type 0
SafeAfter (r, c') = IsSafe c'

-- A step that returns leaves the clock later than the given time and counter.
abbrev pub Advances : ℤ → ℕ → Result RangeError (Unit {0}) × HybridLogicalClock → Type 0
Advances p k (r, c') = r ≡ ok tt → Before p k c'.latest_time c'.counter

increment-Advances : (c : HybridLogicalClock) → Advances c.latest_time c.counter (increment c)
unfolding increment
increment-Advances c h = ground arith

increment-IsSafe : (c : HybridLogicalClock) → IsSafe c → IsSafe (increment c).1
unfolding increment
increment-IsSafe c h = ground arith

-- A step, whether it returns or throws, does not set the clock back.
abbrev pub Keeps : ℤ → ℕ → Result RangeError (Unit {0}) × HybridLogicalClock → Type 0
Keeps p k (r, c') = (p ≤ℤ c'.latest_time) × ((p <ℤ c'.latest_time) ⊎ (k ≤ c'.counter))

increment-Keeps : (c : HybridLogicalClock) → Keeps c.latest_time c.counter (increment c)
unfolding increment
increment-Keeps c = ground arith

increment-Keeps_from :
    (p : ℤ) (k : ℕ) (c : HybridLogicalClock)
    → p ≤ℤ c.latest_time
    → (p <ℤ c.latest_time) ⊎ (k ≤ c.counter)
    → Keeps p k (increment c)
increment-Keeps_from p k c le lex = ground (arith, increment-Keeps c)

tick-Keeps :
    (physical : ℤ) (c : HybridLogicalClock) → Keeps c.latest_time c.counter (tick physical c)
unfolding tick
tick-Keeps physical c =
    if_ind (Keeps c.latest_time c.counter) (ltb_ℤ c.latest_time physical) (λ later. ground arith)
      (λ _. increment-Keeps c)

increment-Advances_from :
    (p : ℤ) (k : ℕ) (c : HybridLogicalClock)
    → p ≤ℤ c.latest_time
    → (p <ℤ c.latest_time) ⊎ (k ≤ c.counter)
    → Advances p k (increment c)
increment-Advances_from p k c le lex h = ground (arith, increment-Advances c h)

-- No step changes the node name.
abbrev pub SameNode : Text → Result RangeError (Unit {0}) × HybridLogicalClock → Type 0
SameNode node (r, c') = c'.node_id ≡ node

increment-SameNode : (c : HybridLogicalClock) → SameNode c.node_id (increment c)
unfolding increment
increment-SameNode c = ground arith

-- What one step of the clock does, from the clock before it.
pub record StepFacts (c : HybridLogicalClock)
    (s : Result RangeError (Unit {0}) × HybridLogicalClock) : Type 0 where
  pub advances : Advances c.latest_time c.counter s
  pub keeps : Keeps c.latest_time c.counter s
  pub safe : SafeAfter s
  pub same_node : SameNode c.node_id s

tick-Advances :
    (physical : ℤ) (c : HybridLogicalClock) → Advances c.latest_time c.counter (tick physical c)
unfolding tick
tick-Advances physical c =
    if_ind (Advances c.latest_time c.counter) (ltb_ℤ c.latest_time physical)
      (λ later _. ground arith) (λ _. increment-Advances c)

tick-IsSafe :
    (physical : ℤ) (c : HybridLogicalClock)
    → pos 0 ≤ℤ physical
    → physical ≤ℤ pos max_safe
    → IsSafe c
    → IsSafe (tick physical c).1
unfolding tick
tick-IsSafe physical c lo hi h = ground (arith, increment-IsSafe c h)

tick-SameNode : (physical : ℤ) (c : HybridLogicalClock) → SameNode c.node_id (tick physical c)
unfolding tick
tick-SameNode physical c = ground (arith, increment-SameNode c)

pub tick-StepFacts :
    (physical : ℤ) (c : HybridLogicalClock)
    → pos 0 ≤ℤ physical
    → physical ≤ℤ pos max_safe
    → IsSafe c
    → StepFacts c (tick physical c)
tick-StepFacts physical c lo hi h = record {
  advances = tick-Advances physical c;
  keeps = tick-Keeps physical c;
  safe = tick-IsSafe physical c lo hi h;
  same_node = tick-SameNode physical c;
}

module _ (physical : ℤ) (remote : HlcTimestamp) (c : HybridLogicalClock) where
  -- The clocks that `merge` increments in the branches that take the remote counter.
  abbrev same_time : HybridLogicalClock
  same_time = record c { counter = max c.counter remote.counter }

  abbrev ahead : HybridLogicalClock
  ahead = record c { latest_time = remote.physical_time; counter = remote.counter }

  -- The tests of `merge`.
  abbrev is_fresh : Bool
  is_fresh = ltb_ℤ c.latest_time physical && ltb_ℤ remote.physical_time physical

  abbrev is_level : Bool
  is_level = eq_ℤ c.latest_time remote.physical_time

  abbrev is_behind : Bool
  is_behind = ltb_ℤ c.latest_time remote.physical_time

  merge-Advances_local : Advances c.latest_time c.counter (merge physical remote c)
  unfolding merge
  merge-Advances_local =
      if_ind (Advances c.latest_time c.counter) is_fresh (λ e _. ground arith)
        λ _.
          if_ind (Advances c.latest_time c.counter) is_level
            (λ e.
              increment-Advances_from c.latest_time c.counter same_time (ground arith)
                (ground arith))
            λ _.
              if_ind (Advances c.latest_time c.counter) is_behind
                (λ e.
                  increment-Advances_from c.latest_time c.counter ahead (ground arith)
                    (ground arith))
                (λ _. increment-Advances c)

  pub merge-Advances-remote : Advances remote.physical_time remote.counter (merge physical remote c)
  unfolding merge
  merge-Advances-remote =
      if_ind (Advances remote.physical_time remote.counter) is_fresh (λ e _. ground arith)
        λ _.
          if_ind (Advances remote.physical_time remote.counter) is_level
            (λ e.
              increment-Advances_from remote.physical_time remote.counter same_time (ground arith)
                (ground arith))
            λ level.
              if_ind (Advances remote.physical_time remote.counter) is_behind
                (λ e. increment-Advances ahead)
                (λ e.
                  increment-Advances_from remote.physical_time remote.counter c (ground arith)
                    (ground arith))

  merge-Keeps : Keeps c.latest_time c.counter (merge physical remote c)
  unfolding merge
  merge-Keeps =
      if_ind (Keeps c.latest_time c.counter) is_fresh (λ e. ground arith)
        λ _.
          if_ind (Keeps c.latest_time c.counter) is_level
            (λ e.
              increment-Keeps_from c.latest_time c.counter same_time (ground arith) (ground arith))
            λ _.
              if_ind (Keeps c.latest_time c.counter) is_behind
                (λ e.
                  increment-Keeps_from c.latest_time c.counter ahead (ground arith) (ground arith))
                (λ _. increment-Keeps c)

  merge-IsSafe :
      pos 0 ≤ℤ physical
      → physical ≤ℤ pos max_safe
      → remote.physical_time ≤ℤ pos max_safe
      → remote.counter ≤ max_safe
      → IsSafe c
      → IsSafe (merge physical remote c).1
  unfolding merge
  merge-IsSafe lo hi rt rc h =
      if_ind SafeAfter is_fresh (λ e. ground arith)
        λ _.
          if_ind SafeAfter is_level (λ e. increment-IsSafe same_time (ground arith))
            λ _.
              if_ind SafeAfter is_behind (λ e. increment-IsSafe ahead (ground arith))
                (λ _. increment-IsSafe c h)

  merge-SameNode : SameNode c.node_id (merge physical remote c)
  unfolding merge
  merge-SameNode =
      ground (arith, increment-SameNode c, increment-SameNode same_time, increment-SameNode ahead)

  pub merge-StepFacts :
      pos 0 ≤ℤ physical
      → physical ≤ℤ pos max_safe
      → remote.physical_time ≤ℤ pos max_safe
      → remote.counter ≤ max_safe
      → IsSafe c
      → StepFacts c (merge physical remote c)
  merge-StepFacts lo hi rt rc h = record {
    advances = merge-Advances_local;
    keeps = merge-Keeps;
    safe = merge-IsSafe lo hi rt rc h;
    same_node = merge-SameNode;
  }
