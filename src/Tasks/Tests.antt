-- ===== src/Tasks/Tests.antt =====
-- Runs of the task queue. Here the source's numbers are natural ones, with subtraction stopping at 0;
-- a payload is its own JSON text, and no text but "bad" is malformed.
use tauri_boilerplate.Base.{
  ℕ, ◌≡◌, ◌≢◌, ◌≤◌, ◌+◌, ◌-◌, ◌*◌, ◌^◌, ◌/◌, refl, true, List, [], ◌∷◌, arith, String, Option, none,
  some, Result, ok, err, length, map, is_blank, ltb, leb, min, ◌==◌, string_eq, if◌then◌else◌, All,
  Any,
}
use tauri_boilerplate.Base.Int.{pos, pos_part, ◌<ℤ◌}
use tauri_boilerplate.Tasks.Floats.{Floats}
use tauri_boilerplate.Tasks.Types.{
  pending, running, completed, plain, TaskRetryPolicy, TaskRow, TaskRecord,
}
use tauri_boilerplate.Tasks.Table.{QueueError, Table}
use tauri_boilerplate.Tasks.Enqueue.{TaskDefinition, enqueue}
use tauri_boilerplate.Tasks.Claim.{is_due, claim_row, claim_next_batch}
use tauri_boilerplate.Tasks.Finish.{mark_completed, recover_row, recover_hanging_tasks}
use tauri_boilerplate.Tasks.Retry.{retry, give_up, delay, decide}
use tauri_boilerplate.Tasks.Calls.{Call, enqueue_task, claim, complete, perform, perform_all}
use tauri_boilerplate.Tasks.Unique.{IsUnique, perform_all-IsUnique}
use tauri_boilerplate.Tasks.Claims.{claim-disjoint, claim-is_due}
use tauri_boilerplate.Tasks.Recovery.{recovered_beyond_maximum}

abbrev naturals : Floats
naturals = record {
  Num = ℕ;
  zero = 0;
  one = 1;
  two = 2;
  add = λ a b. a + b;
  sub = λ a b. a - b;
  mul = λ a b. a * b;
  ratio = λ n d. n / d;
  pow = λ a n. a ^ pos_part n;
  min = λ a b. min a b;
  round = λ a. pos a;
  is_finite = λ a. true;
  leb = leb;
  ltb = ltb;
}

abbrev policy : TaskRetryPolicy naturals
policy = record {
  max_attempts = pos 3;
  initial_delay_ms = 1000;
  backoff_multiplier = 2;
  max_delay_ms = 3000;
  jitter = 0;
}

delay_third : delay naturals 1 3 policy ≡ 3000
unfolding delay
delay_third = refl

decide_second : decide naturals 1 (plain "no route") 2 policy ≡ retry 2000
unfolding decide
decide_second = refl

decide_third : decide naturals 1 (plain "no route") 3 policy ≡ give_up
unfolding decide
decide_third = refl

abbrev stringify : String → Option String
stringify s = some s

abbrev parse_json : String → Option String
parse_json s = if s == "bad" then none else some s

abbrev sync_task : TaskDefinition naturals String
sync_task = record {
  task_type = "sync";
  unique_key = some "sync:org";
  payload = "{}";
  scheduled_at = none;
  retry_policy = record {
    max_attempts = none;
    initial_delay_ms = none;
    backoff_multiplier = none;
    max_delay_ms = none;
    jitter = some 0;
  };
  timeout_ms = none;
  organisation_id = "org";
  user_id = none;
  correlation_id = "c";
}

abbrev backup_task : TaskDefinition naturals String
backup_task = record sync_task { task_type = "backup"; unique_key = none }

abbrev later : String → ℕ
later i = 60

-- Two workers enqueue the same key; the second, which saw an empty table, meets the unique index.
abbrev calls : List (Call naturals String)
calls =
    enqueue_task sync_task "a" 10 []
    ∷ enqueue_task sync_task "b" 11 []
    ∷ enqueue_task backup_task "c" 12 []
    ∷ claim (pos 1) none 20 later
    ∷ complete "a" 30
    ∷ enqueue_task sync_task "d" 31 []
    ∷ []

abbrev table : Table naturals
unfolding perform_all
table = perform_all stringify parse_json calls []

table_ids : map (λ r. r.id) table ≡ "a" ∷ "c" ∷ "d" ∷ []
unfolding table perform enqueue is_blank mark_completed claim_next_batch
table_ids = refl

table_states : map (λ r. r.state) table ≡ completed ∷ pending ∷ pending ∷ []
unfolding table perform enqueue is_blank mark_completed claim_next_batch
table_states = refl

empty-IsUnique : IsUnique {F = naturals} []
empty-IsUnique = record { by_id = λ i. omega arith; by_key = λ k. omega arith }

perform_all-IsUnique_example : IsUnique (perform_all stringify parse_json calls [])
perform_all-IsUnique_example = perform_all-IsUnique stringify parse_json calls [] empty-IsUnique

table-IsUnique : IsUnique table
unfolding table perform_all
table-IsUnique = perform_all-IsUnique stringify parse_json calls [] empty-IsUnique

abbrev claim_at :
    ℕ → Table naturals → Result QueueError (List (TaskRecord naturals String)) × Table naturals
unfolding claim_next_batch
claim_at now t = claim_next_batch parse_json (pos 1) none now later t

abbrev tasks_of :
    Result QueueError (List (TaskRecord naturals String)) → List (TaskRecord naturals String)
tasks_of (ok tasks) = tasks
tasks_of (err e) = []

abbrev first_batch : List (TaskRecord naturals String)
first_batch = tasks_of (claim_at 40 table).0

abbrev second_batch : List (TaskRecord naturals String)
second_batch = tasks_of (claim_at 41 (claim_at 40 table).1).0

batch_ids :
    (map (λ u. u.row.id) first_batch ≡ "c" ∷ []) × (map (λ u. u.row.id) second_batch ≡ "d" ∷ [])
unfolding claim_at table perform enqueue is_blank mark_completed
batch_ids = (refl, refl)

claim-disjoint_example : All (λ u. All (λ v. v.row.id ≢ u.row.id) second_batch) first_batch
unfolding claim_next_batch
claim-disjoint_example =
    claim-disjoint parse_json (pos 1) (pos 1) none none 40 41 later later table first_batch
      second_batch refl refl

claim-is_due_example :
    (length first_batch ≤ 1)
    × All (λ u. Any (λ r. (is_due none 40 r ≡ true) × (u.row ≡ claim_row 40 r)) table) first_batch
unfolding claim_next_batch
claim-is_due_example =
    claim-is_due parse_json (pos 1) none 40 later table first_batch table-IsUnique refl

-- The third of three attempts, in progress since 0.
abbrev hanging : TaskRow naturals
hanging = record {
  id = "a";
  created_at = 0;
  updated_at = 0;
  task_type = "sync";
  unique_key = none;
  organisation_id = "org";
  user_id = none;
  payload_json = "{}";
  state = running;
  attempt_count = 3;
  max_attempts = pos 3;
  retry_delay_ms = 1000;
  backoff_multiplier = 2;
  max_retry_delay_ms = 3000;
  retry_jitter = 0;
  scheduled_at = 0;
  started_at = some 0;
  completed_at = none;
  failed_at = none;
  last_error = none;
  timeout_ms = pos 1000;
  correlation_id = "c";
}

recovered_beyond_maximum_example :
    let row = claim_row 101 (recover_row 100 hanging) in
    ((claim_next_batch parse_json
        (pos 1)
        none
        101
        later
        (recover_hanging_tasks 60 100 (hanging ∷ [])).1).0
      ≡ ok (record { row = row; payload = "{}" } ∷ []))
    × (row.max_attempts <ℤ pos row.attempt_count)
recovered_beyond_maximum_example =
    recovered_beyond_maximum parse_json hanging "{}" 60 100 101 later refl refl refl (omega arith)
      (omega arith)
