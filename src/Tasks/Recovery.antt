-- ===== src/Tasks/Recovery.antt =====
-- recoverHangingTasks of packages/tasks/src/queue/TaskQueueService.ts and the attempt limit.
use tauri_boilerplate.Base.{
  ℕ, ◌-◌, ◌≡◌, ◌≤◌, refl, ap, true, leb, ==_refl, string_eq, String, Option, none, some, [], ◌∷◌,
  arith, ok,
}
use tauri_boilerplate.Base.Int.{pos, ◌≤ℤ◌, ◌<ℤ◌}
use tauri_boilerplate.Tasks.Floats.{Floats}
use tauri_boilerplate.Tasks.Types.{running, task_state_eq, TaskRow}
use tauri_boilerplate.Tasks.Table.{Table, row_to_record}
use tauri_boilerplate.Tasks.Claim.{claim_row, read_rows, claim_next_batch}
use tauri_boilerplate.Tasks.Finish.{started_by, recover_row, recover_hanging_tasks}

leb_of_le : (a b : ℕ) → a ≤ b → leb a b ≡ true
leb_of_le a b h = ground arith

module _ {F : Floats} {Payload : Type 0} (parse_json : String → Option Payload) where
  read_rows-one :
      (later : String → ℕ) (r : TaskRow F) (p : Payload) (t : Table F)
      → parse_json r.payload_json ≡ some p
      → read_rows parse_json later (r ∷ []) t ≡ (record { row = r; payload = p } ∷ [], t)
  unfolding read_rows row_to_record
  read_rows-one later r p t parsed = rw (read_rows, row_to_record, parsed) refl

  -- A task that hangs in its last allowed attempt is recovered and claimed once more: the batch is that
  -- task, in an attempt beyond its maximum. The table holds that task alone, with a readable payload.
  pub recovered_beyond_maximum :
      (r : TaskRow F) (p : Payload) (timeout_ms now now' : ℕ) (later : String → ℕ)
      → r.state ≡ running
      → started_by (now - timeout_ms) r.started_at ≡ true
      → parse_json r.payload_json ≡ some p
      → r.max_attempts ≤ℤ pos r.attempt_count
      → now ≤ now'
      → let row = claim_row now' (recover_row now r) in
        ((claim_next_batch parse_json
            (pos 1)
            none
            now'
            later
            (recover_hanging_tasks timeout_ms now (r ∷ [])).1).0
          ≡ ok (record { row = row; payload = p } ∷ []))
        × (row.max_attempts <ℤ pos row.attempt_count)
  unfolding claim_next_batch recover_hanging_tasks
  recovered_beyond_maximum r p timeout_ms now now' later runs hangs parsed last order = (
    rw (runs, hangs, leb_of_le now now' order, ==_refl r.id)
        (ap (λ z. ok z.0) (read_rows-one later (claim_row now' (recover_row now r)) p _ parsed)),
    ground arith,
  )
