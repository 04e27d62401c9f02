-- ===== src/Maintenance.antt =====
-- MaintenanceOrchestrator of packages/maintenance/src/orchestrator/MaintenanceOrchestrator.ts. A handler prunes a
-- database of any type. Numbers of days and dates are parameters: `is_positive` is the test for a positive
-- finite number and `date_of` the cutoff, where it is a date. The abort signal is read before each
-- handler and behind all of them.
use tauri_boilerplate.Base.{
  ℕ, ◌+◌, Bool, true, false, not, ◌&&◌, ◌||◌, ◌==◌, nat_eq, string_eq, ltb, if◌then◌else◌, String,
  Option, none, some, List, [], ◌∷◌, all, Result, ok, err, ◌>>=◌, ◌>>◌, throw_if, or_throw, truthy,
  Dict, get, put,
}
use tauri_boilerplate.Base.Int.{ℤ}
use tauri_boilerplate.Tasks.Table.{is_positive_safe}
pub mod Success
mod Tests

pub data MaintenanceError : Type 0 where
  batch_size_invalid retention_invalid handler_not_found : MaintenanceError
  handler_failed : String → MaintenanceError

pub record PruningResult : Type 0 where
  pub handler_id : String
  pub display_name : String
  pub rows_pruned : ℕ
  pub error : Option String

pub record MaintenanceReport : Type 0 where
  pub total_rows_pruned : ℕ
  pub results : List PruningResult
  pub vacuum_executed : Bool
  pub success : Bool
  pub aborted : Bool

-- The signal before a handler's turn and behind the loop.
pub record Signal : Type 0 where
  pub aborted_before : String → Bool
  pub aborted_last : Bool

module _ (Days Date Db : Type 0) where
  -- A handler; `prune` returns, or throws a text.
  pub record Handler : Type 0 where
    pub id : String
    pub display_name : String
    pub default_retention_days : Days
    pub prune : Date → (batch_size : ℤ) → Db → Result String PruningResult × Db

  pub record Plan : Type 0 where
    pub handler : Handler
    pub cutoff_date : Date

abbrev pub default_or : {Days : Type 0} → Days → Option Days → Days
default_or d none = d
default_or d (some o) = o

-- getRetentionDays(handlerId, fallbackDefault)
abbrev pub get_retention_days : {Days : Type 0} → Dict Days → String → Days → Days
get_retention_days overrides i fallback = default_or fallback (get i overrides)

-- The result of a handler that did not prune.
abbrev pub unpruned : {Days Date Db : Type 0} → Handler Days Date Db → String → PruningResult
unpruned h reason = record {
  handler_id = h.id;
  display_name = h.display_name;
  rows_pruned = 0;
  error = some reason;
}

abbrev pub sum_rows : List PruningResult → ℕ
sum_rows [] = 0
sum_rows (r ∷ rs) = r.rows_pruned + sum_rows rs

-- `!result.error`
abbrev pub is_clean : PruningResult → Bool
is_clean r = elim (truthy r.error) [ none ↦ true | some e ↦ false ]

-- The results of a loop, whether it broke off, and the database.
pub record Pruned (Db : Type 0) : Type 0 where
  pub results : List PruningResult
  pub broke_off : Bool
  pub db : Db

abbrev pub add_result : {Db : Type 0} → PruningResult → Pruned Db → Pruned Db
add_result r p = record p { results = r ∷ p.results }

abbrev pub as_result :
    {Days Date Db : Type 0} → Handler Days Date Db → Result String PruningResult → PruningResult
as_result h (ok r) = r
as_result h (err e) = unpruned h e

abbrev pub as_failure : Result String PruningResult → Result MaintenanceError PruningResult
as_failure (ok r) = ok r
as_failure (err e) = err (handler_failed e)

abbrev pub is_done : {Db : Type 0} → Option Db → Bool
is_done none = false
is_done (some db) = true

abbrev pub behind : {Db : Type 0} → Option Db → Db → Db
behind none db = db
behind (some db') db = db'

module _ {Days Date Db : Type 0} where
  -- The loop over the plans.
  unfoldable pub prune_plans : Signal → (batch_size : ℤ) → List (Plan Days Date Db) → Db → Pruned Db
  prune_plans sig batch [] db = record { results = []; broke_off = false; db = db }
  prune_plans sig batch (p ∷ ps) db = elim (sig.aborted_before p.handler.id) [
    | true ↦ record {
      results = unpruned p.handler "Pruning aborted by signal" ∷ [];
      broke_off = true;
      db = db;
    }
    | false ↦
        let (r, db') = p.handler.prune p.cutoff_date batch db in
        add_result (as_result p.handler r) (prune_plans sig batch ps db')
  ]

module _ {Db : Type 0} where
  -- The report behind the loop; `vacuum` is the database behind VACUUM, or nothing where it throws.
  unfoldable pub report :
      Signal → (skip_vacuum : Bool) → (vacuum : Db → Option Db) → Pruned Db → MaintenanceReport × Db
  report sig skip vacuum p =
      let aborted = sig.aborted_last || p.broke_off in
      let total = sum_rows p.results in
      let vacuumed = (if not skip && (ltb 0 total || not aborted) then vacuum p.db else none) in
      (
        record {
          total_rows_pruned = total;
          results = p.results;
          vacuum_executed = is_done vacuumed;
          success = not aborted && all is_clean p.results;
          aborted = aborted;
        },
        behind vacuumed p.db,
      )

module _ {Days Date : Type 0} (is_positive : Days → Bool) (date_of : Days → Option Date) where
  -- cutoffForRetention(retentionDays)
  abbrev pub cutoff_for_retention : Days → Result MaintenanceError Date
  cutoff_for_retention d =
      throw_if (not (is_positive d)) retention_invalid >> or_throw (date_of d) retention_invalid

  -- setRetentionOverride(handlerId, retentionDays)
  unfoldable pub set_retention_override :
      String → Days → Dict Days → Result MaintenanceError (Dict Days)
  set_retention_override i d overrides =
      throw_if (not (is_positive d)) retention_invalid >> ok (put i d overrides)

module _ {Days Date Db : Type 0} (is_positive : Days → Bool) (date_of : Days → Option Date) where
  -- The plans of all handlers, or the error of the first whose retention is invalid.
  unfoldable pub plan_all :
      Dict Days → List (Handler Days Date Db) → Result MaintenanceError (List (Plan Days Date Db))
  plan_all overrides [] = ok []
  plan_all overrides (h ∷ hs) = do
    cutoff ←
        cutoff_for_retention is_positive date_of
          (get_retention_days overrides h.id h.default_retention_days)
    plans ← plan_all overrides hs
    ok (record { handler = h; cutoff_date = cutoff } ∷ plans)

  -- pruneAll(options)
  unfoldable pub prune_all :
      Signal
      → (batch_size : ℤ) → (skip_vacuum : Bool) → (vacuum : Db → Option Db) → Dict Days
      → List (Handler Days Date Db)
      → Db
      → Result MaintenanceError MaintenanceReport × Db
  unfolding plan_all prune_plans report
  prune_all sig batch skip vacuum overrides hs db =
      elim (throw_if (not (is_positive_safe batch)) batch_size_invalid >> plan_all overrides hs) [
        | err e ↦ (err e, db)
        | ok plans ↦
            let (r, db') = report sig skip vacuum (prune_plans sig batch plans db) in (ok r, db')
      ]

  abbrev pub find_handler : String → List (Handler Days Date Db) → Option (Handler Days Date Db)
  find_handler i [] = none
  find_handler i (h ∷ hs) = if h.id == i then some h else find_handler i hs

  -- pruneHandler(handlerId, options)
  unfoldable pub prune_handler :
      (id : String)
      → Option Days
      → (batch_size : ℤ) → Dict Days
      → List (Handler Days Date Db)
      → Db
      → Result MaintenanceError PruningResult × Db
  prune_handler i days batch overrides hs db = elim (find_handler i hs) [
    | none ↦ (err handler_not_found, db)
    | some h ↦
        elim (throw_if (not (is_positive_safe batch)) batch_size_invalid
          >> cutoff_for_retention is_positive date_of
              (default_or (get_retention_days overrides h.id h.default_retention_days) days)) [
                | err e ↦ (err e, db)
                | ok cutoff ↦ let (r, db') = h.prune cutoff batch db in (as_failure r, db')
              ]
  ]
