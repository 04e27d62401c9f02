-- ===== src/Tasks/Finish.antt =====
-- The calls of packages/tasks/src/queue/TaskQueueService.ts that end a task's attempt, and the
-- diagnostic reads.
use tauri_boilerplate.Base.{
  ℕ, ◌+◌, ◌-◌, Bool, false, not, ◌&&◌, leb, ◌==◌, nat_eq, string_eq, if◌then◌else◌, String, Option,
  none, some, any, filter, length, update_where,
}
use tauri_boilerplate.Tasks.Floats.{Floats}
use tauri_boilerplate.Tasks.Types.{
  pending, running, completed, failed, cancelled, task_state_eq, Thrown, message_of,
  TaskRetryPolicy, TaskRow,
}
use tauri_boilerplate.Tasks.Retry.{RetryDecision, retry, give_up, decide}
use tauri_boilerplate.Tasks.Table.{recovered, is_active, Table, find_row}

-- `started_at <= ?`, which no null satisfies
abbrev pub started_by : ℕ → Option ℕ → Bool
started_by cutoff none = false
started_by cutoff (some s) = leb s cutoff

module _ {F : Floats} where
  -- `id = ? AND state = 'RUNNING'`
  abbrev pub runs : String → TaskRow F → Bool
  runs i r = r.id == i && r.state == running

  abbrev pub complete_row : ℕ → TaskRow F → TaskRow F
  complete_row now r = record r { state = completed; completed_at = some now; updated_at = now }

  -- markCompleted
  unfoldable pub mark_completed : String → (now : ℕ) → Table F → Table F
  mark_completed i now t = update_where (runs i) (complete_row now) t

  -- The policy that `markFailed` reads from a row.
  abbrev pub row_policy : TaskRow F → TaskRetryPolicy F
  row_policy r = record {
    max_attempts = r.max_attempts;
    initial_delay_ms = r.retry_delay_ms;
    backoff_multiplier = r.backoff_multiplier;
    max_delay_ms = r.max_retry_delay_ms;
    jitter = r.retry_jitter;
  }

  -- The WHERE of both UPDATEs: the attempt that was read is still running.
  abbrev pub same_attempt : TaskRow F → String → TaskRow F → Bool
  same_attempt seen i r = r.id == i && r.state == running && r.attempt_count == seen.attempt_count

  abbrev pub reschedule_row : ℕ → Thrown → (now base : ℕ) → TaskRow F → TaskRow F
  reschedule_row ms error now base r = record r {
    state = pending;
    scheduled_at = base + ms;
    last_error = some (message_of error);
    failed_at = none;
    updated_at = now;
  }

  abbrev pub give_up_row : Thrown → (now : ℕ) → TaskRow F → TaskRow F
  give_up_row error now r = record r {
    state = failed;
    failed_at = some now;
    last_error = some (message_of error);
    updated_at = now;
  }

  -- The UPDATEs of `markFailed` after a decision: willRetry, and the table.
  unfoldable pub settle :
      RetryDecision → TaskRow F → String → Thrown → (now base : ℕ) → Table F → Bool × Table F
  settle (retry ms) seen i error now base t = (
    any (same_attempt seen i) t,
    update_where (same_attempt seen i) (reschedule_row ms error now base) t,
  )
  settle give_up seen i error now base t =
      (false, update_where (same_attempt seen i) (give_up_row error now) t)

  -- The guard and the decision, on the row that was read.
  unfoldable pub fail_row :
      F.Num → Option (TaskRow F) → String → Thrown → (now base : ℕ) → Table F → Bool × Table F
  unfolding settle decide
  fail_row random none i error now base t = (false, t)
  fail_row random (some seen) i error now base t =
      if not (seen.state == running)
      then (false, t)
      else settle (decide F random error seen.attempt_count (row_policy seen)) seen i error now base
          t

  -- markFailed. The row is read from the table `seen`; another connection may write before the
  -- UPDATE, which is made on `t`. The two times are that of the call and that of the new schedule.
  unfoldable pub mark_failed :
      F.Num → String → Thrown → (now base : ℕ) → (seen : Table F) → Table F → Bool × Table F
  unfolding find_row fail_row
  mark_failed random i error now base seen t =
      fail_row random (find_row F i seen) i error now base t

  abbrev pub can_cancel : String → TaskRow F → Bool
  can_cancel i r = r.id == i && is_active r.state

  abbrev pub cancel_row : String → ℕ → TaskRow F → TaskRow F
  cancel_row reason now r = record r {
    state = cancelled;
    last_error = some reason;
    updated_at = now;
  }

  -- cancel
  unfoldable pub cancel : String → (reason : String) → (now : ℕ) → Table F → Table F
  cancel i reason now t = update_where (can_cancel i) (cancel_row reason now) t

  abbrev pub is_hanging : ℕ → TaskRow F → Bool
  is_hanging cutoff r = r.state == running && started_by cutoff r.started_at

  abbrev pub recover_row : ℕ → TaskRow F → TaskRow F
  recover_row now r = record r {
    state = pending;
    started_at = none;
    last_error = some recovered;
    updated_at = now;
    scheduled_at = now;
  }

  -- recoverHangingTasks(timeoutMs): rowsAffected, and the table
  unfoldable pub recover_hanging_tasks : (timeout_ms now : ℕ) → Table F → ℕ × Table F
  recover_hanging_tasks timeout_ms now t =
      let cutoff = now - timeout_ms in
      (length (filter (is_hanging cutoff) t), update_where (is_hanging cutoff) (recover_row now) t)
