-- ===== src/Clock/Hlc.antt =====
-- class HybridLogicalClock of packages/sync-protocol/src/hlc/HybridLogicalClock.ts. A throw leaves
-- the fields as they stand at the `throw`, so each method returns its result with the state.
use Prim.Native.Nat.{Ordering}
use tauri_boilerplate.Base.{ℕ, ◌+◌, max, ◌&&◌, ltb, ◌==◌, nat_eq, if◌then◌else◌, Result, ok, err}
use tauri_boilerplate.Base.Int.{ℤ, pos, ◌+ℤ◌, ltb_ℤ, leb_ℤ, eq_ℤ}
use tauri_boilerplate.Clock.Format.{Text, format}
use tauri_boilerplate.Clock.Parse.{max_safe, HlcTimestamp, RangeError, space_exhausted, parse}

pub record HybridLogicalClock : Type 0 where
  pub latest_time : ℤ
  pub counter : ℕ
  pub node_id : Text

-- The constructor, at the wall clock's time.
unfoldable pub new_clock : Text → ℤ → HybridLogicalClock
new_clock node_id physical = record { latest_time = physical; counter = 0; node_id = node_id }

unfoldable pub increment : HybridLogicalClock → Result RangeError (Unit {0}) × HybridLogicalClock
increment c =
    if ltb c.counter max_safe
    then (ok tt, record c { counter = c.counter + 1 })
    else if leb_ℤ (pos max_safe) c.latest_time
    then (err space_exhausted, c)
    else (ok tt, record c { latest_time = c.latest_time +ℤ pos 1; counter = 0 })

-- `return this.format(…)`, where no statement before it threw.
unfoldable pub emit :
    Result RangeError (Unit {0}) × HybridLogicalClock → Result RangeError Text × HybridLogicalClock
emit (ok _, c) = (ok (format c.latest_time c.counter c.node_id), c)
emit (err e, c) = (err e, c)

-- The fields after `now`, before the text is built.
unfoldable pub tick : ℤ → HybridLogicalClock → Result RangeError (Unit {0}) × HybridLogicalClock
unfolding increment
tick physical c =
    if ltb_ℤ c.latest_time physical
    then (ok tt, record c { latest_time = physical; counter = 0 })
    else increment c

-- now(), where `Date.now()` is `physical`
unfoldable pub now : ℤ → HybridLogicalClock → Result RangeError Text × HybridLogicalClock
unfolding emit tick
now physical c = emit (tick physical c)

-- The fields after `update`, for a remote timestamp that parsed.
unfoldable pub merge :
    ℤ → HlcTimestamp → HybridLogicalClock → Result RangeError (Unit {0}) × HybridLogicalClock
unfolding increment
merge physical remote c =
    if ltb_ℤ c.latest_time physical && ltb_ℤ remote.physical_time physical
    then (ok tt, record c { latest_time = physical; counter = 0 })
    else if eq_ℤ c.latest_time remote.physical_time
    then increment (record c { counter = max c.counter remote.counter })
    else if ltb_ℤ c.latest_time remote.physical_time
    then increment (record c { latest_time = remote.physical_time; counter = remote.counter })
    else increment c

-- update(remoteTimestampStr), where `Date.now()` is `physical`
unfoldable pub update : ℤ → Text → HybridLogicalClock → Result RangeError Text × HybridLogicalClock
unfolding emit merge
update physical remote_text c = elim (parse remote_text) [
  | err e ↦ (err e, c)
  | ok remote ↦ emit (merge physical remote c)
]

module _ (locale_compare : Text → Text → Ordering) where
  -- The sign of what `compare` returns for two timestamps that parsed.
  unfoldable pub compare_stamps : HlcTimestamp → HlcTimestamp → Ordering
  compare_stamps a b =
      if eq_ℤ a.physical_time b.physical_time
      then if a.counter == b.counter
        then locale_compare a.node_id b.node_id
        else if ltb a.counter b.counter
        then Ordering.lt
        else Ordering.gt
      else if ltb_ℤ a.physical_time b.physical_time
      then Ordering.lt
      else Ordering.gt

  -- The parse of the first text is taken before that of the second.
  unfoldable pub compare_results :
      Result RangeError HlcTimestamp → Result RangeError HlcTimestamp → Result RangeError Ordering
  compare_results (ok a) (ok b) = ok (compare_stamps a b)
  compare_results (ok a) (err e) = err e
  compare_results (err e) b = err e

  -- static compare
  unfoldable pub compare : Text → Text → Result RangeError Ordering
  unfolding compare_results compare_stamps
  compare a b = compare_results (parse a) (parse b)
