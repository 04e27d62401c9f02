-- ===== src/Tasks/Table.antt =====
-- The table core_background_tasks (packages/database/src/migrations/tasks-schema.sql) and what the
-- operations of packages/tasks/src/queue/TaskQueueService.ts share.
use tauri_boilerplate.Base.{
  ℕ, Bool, false, not, ◌&&◌, ◌||◌, ◌==◌, string_eq, if◌then◌else◌, String, Option, none, some, List,
  [], ◌∷◌, ◌++◌, any, Result, ok, err,
}
use tauri_boilerplate.Base.Int.{ℤ, pos, leb_ℤ}
use tauri_boilerplate.Clock.Parse.{is_safe}
use tauri_boilerplate.Tasks.Floats.{Floats}
use tauri_boilerplate.Tasks.Types.{
  TaskState, pending, running, task_state_eq, TaskRetryPolicy, TaskRow, TaskRecord,
}

pub data QueueError : Type 0 where
  invalid : (field : String) → QueueError
  malformed_payload : (id : String) → QueueError
  insert_failed : QueueError
  not_stored : (id : String) → QueueError

abbrev pub max_task_list_size : ℕ
max_task_list_size = 100

abbrev pub recovered : String
recovered = "Recovered after process crash or timeout"

-- `state IN ('PENDING', 'RUNNING')`
abbrev pub is_active : TaskState → Bool
is_active s = s == pending || s == running

-- `Number.isSafeInteger(n) && n > 0`
abbrev pub is_positive_safe : ℤ → Bool
is_positive_safe n = is_safe n && not (leb_ℤ n (pos 0))

-- `unique_key = ?`, which no null satisfies
abbrev pub key_is : String → Option String → Bool
key_is k none = false
key_is k (some j) = j == k

module _ (F : Floats) where
  open F use {Num, ratio}

  abbrev pub Table : Type 0
  Table = List (TaskRow F)

  -- DEFAULT_RETRY_POLICY
  abbrev pub default_retry_policy : TaskRetryPolicy F
  default_retry_policy = record {
    max_attempts = pos 3;
    initial_delay_ms = ratio 1000 1;
    backoff_multiplier = ratio 2 1;
    max_delay_ms = ratio 60000 1;
    jitter = ratio 1 4;
  }

  -- Partial<TaskRetryPolicy>
  pub record PartialPolicy : Type 0 where
    pub max_attempts : Option ℤ
    pub initial_delay_ms : Option Num
    pub backoff_multiplier : Option Num
    pub max_delay_ms : Option Num
    pub jitter : Option Num

  -- The rows that the partial unique index covers under the key `k`.
  abbrev pub holds_key : String → TaskRow F → Bool
  holds_key k r = key_is k r.unique_key && is_active r.state

  abbrev pub same_key : Option String → Table → Bool
  same_key none t = false
  same_key (some k) t = any (holds_key k) t

  -- INSERT: refused by the primary key or by the partial unique index on `unique_key`. The row is
  -- PENDING, so the index covers it.
  unfoldable pub insert_row : TaskRow F → Table → Option Table
  insert_row r t =
      if any (λ s. s.id == r.id) t || same_key r.unique_key t then none else some (t ++ r ∷ [])

  -- SELECT * … WHERE id = ?
  unfoldable pub find_row : String → Table → Option (TaskRow F)
  find_row i [] = none
  find_row i (r ∷ t) = if r.id == i then some r else find_row i t

  -- SELECT * … WHERE unique_key = ? AND state IN ('PENDING', 'RUNNING') LIMIT 1
  unfoldable pub find_active : String → Table → Option (TaskRow F)
  find_active k [] = none
  find_active k (r ∷ t) = if holds_key k r then some r else find_active k t

-- rowToRecord; `parse_json` is what JSON.parse returns, or nothing where it throws.
unfoldable pub row_to_record :
    {F : Floats} {Payload : Type 0}
    → (String → Option Payload)
    → TaskRow F
    → Result QueueError (TaskRecord F Payload)
row_to_record parse_json r = elim (parse_json r.payload_json) [
  | none ↦ err (malformed_payload r.id)
  | some p ↦ ok (record { row = r; payload = p })
]
