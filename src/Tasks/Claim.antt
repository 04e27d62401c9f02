-- ===== src/Tasks/Claim.antt =====
-- `claimNextBatch` of packages/tasks/src/queue/TaskQueueService.ts.
use tauri_boilerplate.Base.{
  ℕ, ◌+◌, Bool, true, not, ◌&&◌, leb, ◌==◌, nat_eq, string_eq, if◌then◌else◌, String, Option, none,
  some, List, [], ◌∷◌, any, filter, take, map, Result, ok, err, update_where, sort_by,
}
use tauri_boilerplate.Base.Int.{ℤ, pos_part}
use tauri_boilerplate.Tasks.Floats.{Floats}
use tauri_boilerplate.Tasks.Types.{pending, running, failed, task_state_eq, TaskRow, TaskRecord}
use tauri_boilerplate.Tasks.Table.{QueueError, invalid, is_positive_safe, Table, row_to_record}

-- The type filter of the query; an absent or empty list allows every type.
abbrev pub type_allowed : Option (List String) → String → Bool
type_allowed none s = true
type_allowed (some []) s = true
type_allowed (some (k ∷ ks)) s = any (λ j. j == s) (k ∷ ks)

module _ {F : Floats} where
  -- The inner SELECT's WHERE.
  abbrev pub is_due : Option (List String) → ℕ → TaskRow F → Bool
  is_due types now r =
      r.state == pending && leb r.scheduled_at now && type_allowed types r.task_type

  -- The inner SELECT: the ids that are claimed.
  unfoldable pub chosen : ℕ → Option (List String) → ℕ → Table F → List String
  unfolding sort_by
  chosen limit types now t =
      map (λ r. r.id) (take limit (sort_by (λ r. r.scheduled_at) (filter (is_due types now) t)))

  -- The UPDATE's WHERE.
  abbrev pub is_claimed : List String → TaskRow F → Bool
  is_claimed ids r = any (λ i. i == r.id) ids && r.state == pending

  -- The UPDATE's SET.
  abbrev pub claim_row : ℕ → TaskRow F → TaskRow F
  claim_row now r = record r {
    state = running;
    started_at = some now;
    updated_at = now;
    attempt_count = r.attempt_count + 1;
  }

  -- The rows that UPDATE … RETURNING gives back, sorted as the code sorts them.
  unfoldable pub claimed_rows : List String → ℕ → Table F → List (TaskRow F)
  unfolding sort_by
  claimed_rows ids now t =
      sort_by (λ r. r.scheduled_at) (map (claim_row now) (filter (is_claimed ids) t))

  abbrev pub is_corrupt : String → TaskRow F → Bool
  is_corrupt i r = r.id == i && r.state == running

  abbrev pub quarantine_row : ℕ → TaskRow F → TaskRow F
  quarantine_row now r = record r {
    state = failed;
    failed_at = some now;
    last_error = some "Task payload contains malformed JSON";
    updated_at = now;
  }

  -- The UPDATE that takes a row with a malformed payload out of the batch.
  abbrev pub quarantine : ℕ → String → Table F → Table F
  quarantine now i t = update_where (is_corrupt i) (quarantine_row now) t

-- `tasks.push(task)`: the rows after it follow.
abbrev pub push : {A B : Type 0} → A → List A × B → List A × B
push a (rest, b) = (a ∷ rest, b)

module _ {F : Floats} {Payload : Type 0} (parse_json : String → Option Payload) where
  -- The loop over the claimed rows. `later` is the time that is read for a row that is refused.
  unfoldable pub read_rows :
      (later : String → ℕ) → List (TaskRow F) → Table F → List (TaskRecord F Payload) × Table F
  unfolding row_to_record
  read_rows later [] t = ([], t)
  read_rows later (r ∷ rs) t = elim (row_to_record parse_json r) [
    | ok task ↦ push task (read_rows later rs t)
    | err e ↦ read_rows later rs (quarantine (later r.id) r.id t)
  ]

  -- claimNextBatch(limit, taskTypes)
  unfoldable pub claim_next_batch :
      ℤ
      → Option (List String)
      → (now : ℕ) → (later : String → ℕ) → Table F
      → Result QueueError (List (TaskRecord F Payload)) × Table F
  unfolding chosen claimed_rows read_rows
  claim_next_batch limit types now later t =
      if not (is_positive_safe limit)
      then (err (invalid "limit"), t)
      else let ids = chosen (pos_part limit) types now t in
        let (tasks, t') =
          read_rows later (claimed_rows ids now t)
            (update_where (is_claimed ids) (claim_row now) t) in
        (ok tasks, t')
