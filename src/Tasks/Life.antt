-- ===== src/Tasks/Life.antt =====
-- The life of a task of TaskQueueService: what each call may do to its state and its count of attempts.
use tauri_boilerplate.Base.{ℕ, ◌+◌, ◌≡◌, String, List, [], ◌∷◌, ◌++◌}
use tauri_boilerplate.Tasks.Types.{TaskState, pending, running, completed, failed, cancelled}

-- What a call is about to do to the rows: a claim is two of these, its UPDATE and the reading of the
-- claimed rows.
pub data Change : Type 0 where
  enqueues claims reads recovers : Change
  completes fails cancels : (id : String) → Change

-- The state of a task with the attempts counted so far.
abbrev pub Stage : Type 0
Stage = TaskState × ℕ

-- The edges that a change may take the task `i` along. Only a claim starts an attempt, and counts it; only the
-- call that names the task completes, fails or cancels it; only the reading of a malformed payload and a hanging
-- attempt's recovery end an attempt without being told its id.
pub data Takes (i : String) : Change → Stage → Stage → Type 0 where
  starts : {n : ℕ} → Takes i claims (pending, n) (running, n + 1)
  quarantines : {n : ℕ} → Takes i reads (running, n) (failed, n)
  finishes : {j : String} {n : ℕ} → i ≡ j → Takes i (completes j) (running, n) (completed, n)
  retries : {j : String} {n : ℕ} → i ≡ j → Takes i (fails j) (running, n) (pending, n)
  gives_up : {j : String} {n : ℕ} → i ≡ j → Takes i (fails j) (running, n) (failed, n)
  cancels_waiting : {j : String} {n : ℕ} → i ≡ j → Takes i (cancels j) (pending, n) (cancelled, n)
  cancels_running : {j : String} {n : ℕ} → i ≡ j → Takes i (cancels j) (running, n) (cancelled, n)
  requeues : {n : ℕ} → Takes i recovers (running, n) (pending, n)

-- The task's stages under several changes: at each it stays or takes one edge.
pub data Life (i : String) : List Change → Stage → Stage → Type 0 where
  ends : {x : Stage} → Life i [] x x
  stays : {c : Change} {cs : List Change} {x y : Stage} → Life i cs x y → Life i (c ∷ cs) x y
  takes :
      {c : Change} {cs : List Change} {x y z : Stage}
      → Takes i c x y
      → Life i cs y z
      → Life i (c ∷ cs) x z

pub Life-append :
    {i : String} {cs ds : List Change} {x y z : Stage}
    → Life i cs x y
    → Life i ds y z
    → Life i (cs ++ ds) x z
Life-append ends q = q
Life-append (stays p) q = stays (Life-append p q)
Life-append (takes e p) q = takes e (Life-append p q)

pub Life-stay : {i : String} (cs : List Change) {x : Stage} → Life i cs x x
Life-stay [] = ends
Life-stay (c ∷ cs) = stays (Life-stay cs)

-- A task that the reading of one row has failed stays failed when the next row is read.
pub reads-twice :
    {i : String} {x y z : Stage}
    → Life i (reads ∷ []) x y
    → Life i (reads ∷ []) y z
    → Life i (reads ∷ []) x z
reads-twice (stays ends) q = q
reads-twice (takes quarantines ends) (stays ends) = takes quarantines ends
reads-twice (takes quarantines ends) (takes edge rest) = elim edge [ ]
