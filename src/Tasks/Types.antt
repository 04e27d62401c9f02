-- ===== src/Tasks/Types.antt =====
-- packages/tasks/src/types.ts, the row type of packages/tasks/src/queue/TaskQueueService.ts, and
-- the errors of packages/core/src/errors/PlatformError.ts that the queue tells apart. A time is
-- the number of milliseconds of an ISO text; texts of `toISOString` are ordered as their times.
use tauri_boilerplate.Base.{
  ℕ, Bool, true, false, String, Option, StrictEq, ◌≡◌, ◌↔◌, arith, nat_beq,
}
use tauri_boilerplate.Base.Int.{ℤ}
use tauri_boilerplate.Tasks.Floats.{Floats}

pub data TaskState : Type 0 where
  pending running completed failed cancelled : TaskState

abbrev code : TaskState → ℕ
code pending = 0
code running = 1
code completed = 2
code failed = 3
code cancelled = 4

abbrev pub task_state_beq : TaskState → TaskState → Bool
task_state_beq s t = nat_beq (code s) (code t)

pub task_state_beq_iff : (s t : TaskState) → (task_state_beq s t ≡ true) ↔ (s ≡ t)
task_state_beq_iff s t = ground arith

instance abbrev pub task_state_eq : StrictEq TaskState
task_state_eq = record { is_same = task_state_beq; is_same_iff = task_state_beq_iff }

-- The subclasses of PlatformError; `base` is PlatformError itself.
pub data ErrorClass : Type 0 where
  base validation authorization authentication sync conflict database : ErrorClass
  migration file hardware network compatibility : ErrorClass

-- What a `catch` may receive: a PlatformError with its flag `retryable`, another Error, or a value
-- that is no Error, by its text.
pub data Thrown : Type 0 where
  platform : ErrorClass → (retryable : Bool) → (message : String) → Thrown
  plain : (message : String) → Thrown
  value : (text : String) → Thrown

-- `payload.retryable ?? …` in the constructors of PlatformError and NetworkError
abbrev pub default_retryable : ErrorClass → Bool
default_retryable network = true
default_retryable _ = false

-- `error instanceof Error ? error.message : String(error)`
abbrev pub message_of : Thrown → String
message_of (platform c r m) = m
message_of (plain m) = m
message_of (value t) = t

pub record TaskRetryPolicy (F : Floats) : Type 0 where
  pub max_attempts : ℤ
  pub initial_delay_ms : F.Num
  pub backoff_multiplier : F.Num
  pub max_delay_ms : F.Num
  pub jitter : F.Num

-- interface TaskRow
pub record TaskRow (F : Floats) : Type 0 where
  pub id : String
  pub created_at : ℕ
  pub updated_at : ℕ
  pub task_type : String
  pub unique_key : Option String
  pub organisation_id : String
  pub user_id : Option String
  pub payload_json : String
  pub state : TaskState
  pub attempt_count : ℕ
  pub max_attempts : ℤ
  pub retry_delay_ms : F.Num
  pub backoff_multiplier : F.Num
  pub max_retry_delay_ms : F.Num
  pub retry_jitter : F.Num
  pub scheduled_at : ℕ
  pub started_at : Option ℕ
  pub completed_at : Option ℕ
  pub failed_at : Option ℕ
  pub last_error : Option String
  pub timeout_ms : ℤ
  pub correlation_id : String

-- interface TaskRecord: the row with its payload read
pub record TaskRecord (F : Floats) (Payload : Type 0) : Type 0 where
  pub row : TaskRow F
  pub payload : Payload
