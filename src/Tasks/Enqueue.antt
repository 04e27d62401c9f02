-- ===== src/Tasks/Enqueue.antt =====
-- `enqueue` of packages/tasks/src/queue/TaskQueueService.ts.
use tauri_boilerplate.Base.{
  truthy, ℕ, Bool, not, ◌&&◌, string_eq, String, Option, none, some, Result, ok, err, ◌>>◌,
  throw_if, or_throw, is_blank,
}
use tauri_boilerplate.Base.Int.{ℤ, pos}
use tauri_boilerplate.Tasks.Floats.{Floats}
use tauri_boilerplate.Tasks.Types.{pending, TaskRetryPolicy, TaskRow, TaskRecord}
use tauri_boilerplate.Tasks.Table.{
  QueueError, invalid, insert_failed, not_stored, is_positive_safe, Table, default_retry_policy,
  PartialPolicy, insert_row, find_row, find_active, row_to_record,
}

-- interface TaskDefinition
pub record TaskDefinition (F : Floats) (Payload : Type 0) : Type 0 where
  pub task_type : String
  pub unique_key : Option String
  pub payload : Payload
  pub scheduled_at : Option ℕ
  pub retry_policy : PartialPolicy F
  pub timeout_ms : Option ℤ
  pub organisation_id : String
  pub user_id : Option String
  pub correlation_id : String

-- `x ?? d`
abbrev pub or_default {ℓ} : {A : Type ℓ} → Option A → A → A
or_default none d = d
or_default (some x) d = x

-- `{ ...DEFAULT_RETRY_POLICY, ...definition.retryPolicy }`
unfoldable pub merge_policy : (F : Floats) → PartialPolicy F → TaskRetryPolicy F
merge_policy F p =
    let d = default_retry_policy F in
    record {
      max_attempts = or_default p.max_attempts d.max_attempts;
      initial_delay_ms = or_default p.initial_delay_ms d.initial_delay_ms;
      backoff_multiplier = or_default p.backoff_multiplier d.backoff_multiplier;
      max_delay_ms = or_default p.max_delay_ms d.max_delay_ms;
      jitter = or_default p.jitter d.jitter;
    }

-- The negation of the test that makes `retryPolicy` invalid.
unfoldable pub is_valid_policy : (F : Floats) → TaskRetryPolicy F → Bool
is_valid_policy F p =
    is_positive_safe p.max_attempts
    && F.is_finite p.initial_delay_ms
    && not (F.ltb p.initial_delay_ms F.zero)
    && F.is_finite p.backoff_multiplier
    && not (F.leb p.backoff_multiplier F.zero)
    && F.is_finite p.max_delay_ms
    && not (F.ltb p.max_delay_ms F.zero)
    && F.is_finite p.jitter
    && not (F.ltb p.jitter F.zero)
    && not (F.ltb F.one p.jitter)

-- `definition.timeoutMs ?? 30_000`
abbrev pub timeout_of : Option ℤ → ℤ
timeout_of t = or_default t (pos 30_000)

module _ (F : Floats) {Payload : Type 0} (stringify : Payload → Option String)
    (parse_json : String → Option Payload) where
  -- The checks before the table is read: the payload as JSON text, or the first field that is
  -- refused. `stringify` returns nothing where JSON.stringify throws or returns undefined.
  unfoldable pub check_definition : TaskDefinition F Payload → Result QueueError String
  unfolding is_valid_policy merge_policy
  check_definition d = do
    throw_if (is_blank d.task_type) (invalid "taskType")
    throw_if (is_blank d.organisation_id) (invalid "organisationId")
    throw_if (is_blank d.correlation_id) (invalid "correlationId")
    throw_if (not (is_valid_policy F (merge_policy F d.retry_policy))) (invalid "retryPolicy")
    throw_if (not (is_positive_safe (timeout_of d.timeout_ms))) (invalid "timeoutMs")
    or_throw (stringify d.payload) (invalid "payload")

  -- The row of the INSERT.
  unfoldable pub new_row : TaskDefinition F Payload → (id : String) → (now : ℕ) → String → TaskRow F
  unfolding merge_policy
  new_row d i now payload_json =
      let policy = merge_policy F d.retry_policy in
      record {
        id = i;
        created_at = now;
        updated_at = now;
        task_type = d.task_type;
        unique_key = d.unique_key;
        organisation_id = d.organisation_id;
        user_id = d.user_id;
        payload_json = payload_json;
        state = pending;
        attempt_count = 0;
        max_attempts = policy.max_attempts;
        retry_delay_ms = policy.initial_delay_ms;
        backoff_multiplier = policy.backoff_multiplier;
        max_retry_delay_ms = policy.max_delay_ms;
        retry_jitter = policy.jitter;
        scheduled_at = or_default d.scheduled_at now;
        started_at = none;
        completed_at = none;
        failed_at = none;
        last_error = none;
        timeout_ms = timeout_of d.timeout_ms;
        correlation_id = d.correlation_id;
      }

  -- The active task with the key, where the key is truthy.
  abbrev pub find_twin : Option String → Table F → Option (TaskRow F)
  find_twin none t = none
  find_twin (some k) t = find_active F k t

  -- The `catch` of the INSERT: the winner of a competing insert, or the error again.
  pub resolve_conflict : Option (TaskRow F) → Result QueueError (TaskRecord F Payload)
  resolve_conflict none = err insert_failed
  resolve_conflict (some winner) = row_to_record parse_json winner

  -- The read after the INSERT.
  pub read_back : String → Option (TaskRow F) → Result QueueError (TaskRecord F Payload)
  read_back i none = err (not_stored i)
  read_back i (some r) = row_to_record parse_json r

  -- From the INSERT on.
  unfoldable pub store :
      TaskRow F → Table F → Option (Table F) → Result QueueError (TaskRecord F Payload) × Table F
  unfolding resolve_conflict read_back find_row find_active
  store r t none = (resolve_conflict (find_twin (truthy r.unique_key) t), t)
  store r t (some t') = (read_back r.id (find_row F r.id t'), t')

  -- The first lookup by key, made on the table `seen`; another connection may write before the
  -- INSERT, which is made on `t`.
  unfoldable pub dedupe :
      Option (TaskRow F) → TaskRow F → Table F → Result QueueError (TaskRecord F Payload) × Table F
  unfolding store insert_row
  dedupe (some existing) r t = (row_to_record parse_json existing, t)
  dedupe none r t = store r t (insert_row F r t)

  -- enqueue(definition), which reads the time `now` and draws the id `i`
  unfoldable pub enqueue :
      TaskDefinition F Payload
      → (id : String) → (now : ℕ) → (seen : Table F) → Table F
      → Result QueueError (TaskRecord F Payload) × Table F
  unfolding check_definition dedupe new_row
  enqueue d i now seen t = elim (check_definition d) [
    | err e ↦ (err e, t)
    | ok payload_json ↦
        dedupe (find_twin (truthy d.unique_key) seen) (new_row d i now payload_json) t
  ]
