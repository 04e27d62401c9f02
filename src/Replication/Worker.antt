-- ===== src/Replication/Worker.antt =====
-- `OutboxSyncWorker.handle` of packages/tasks/src/sync/OutboxSyncWorker.ts over OutboxService. The
-- dispatcher is an argument, and so is the abort signal at each of the points where it is looked at.
use tauri_boilerplate.Base.{
  ℕ, ◌+◌, Bool, true, false, not, ltb, ◌&&◌, ◌==◌, nat_eq, string_eq, if◌then◌else◌, String, Option,
  List, [], ◌∷◌, Result, ok, err,
}
use tauri_boilerplate.Base.Int.{ℤ, pos}
use tauri_boilerplate.Envelope.Json.{Value}
use tauri_boilerplate.Envelope.Types.{SyncEnvelope, Literals}
use tauri_boilerplate.Replication.Outbox.{
  OutboxRow, OutboxError, mark_sent, mark_failed, pending_batch,
}

-- `dispatch` and the mark behind it return, or one of them throws.
pub data Dispatch : Type 0 where
  delivered thrown : Dispatch

pub data WorkerError : Type 0 where
  other_organisation aborted all_failed : WorkerError
  outbox : OutboxError → WorkerError

-- What the surroundings of a run do: the dispatcher with each entry, the signal before an entry's turn,
-- behind what it threw and at the ends, and the clock.
pub record Surroundings : Type 0 where
  pub dispatch : OutboxRow × String → Dispatch
  pub aborted_first : Bool
  pub aborted_before : OutboxRow → Bool
  pub aborted_behind : OutboxRow → Bool
  pub aborted_last : Bool
  pub now : OutboxRow → ℕ

-- `dispatched` and `failed`
pub record Progress : Type 0 where
  pub dispatched : ℕ
  pub failed : ℕ

-- What a loop over entries gives.
abbrev pub Loop : Type 0
Loop = Progress → List OutboxRow → Result WorkerError Progress × List OutboxRow

-- An entry behind its `dispatch`, with the loop over the entries behind it.
unfoldable pub settle :
    Surroundings
    → OutboxRow × String
    → Loop
    → Progress
    → List OutboxRow
    → Dispatch
    → Result WorkerError Progress × List OutboxRow
settle w entry later n t delivered =
    later (record n { dispatched = n.dispatched + 1 })
      (mark_sent entry.0.envelope_id (w.now entry.0) t)
settle w entry later n t thrown = elim (w.aborted_behind entry.0) [
  | true ↦ (err aborted, t)
  | false ↦
      later (record n { failed = n.failed + 1 })
        (mark_failed entry.0.envelope_id (pos 5) (w.now entry.0) t).1
]

-- The loop over the batch.
unfoldable pub dispatch_all : Surroundings → List (OutboxRow × String) → Loop
dispatch_all w [] n t = (ok n, t)
dispatch_all w (entry ∷ rest) n t = elim (w.aborted_before entry.0) [
  | true ↦ (err aborted, t)
  | false ↦ settle w entry (dispatch_all w rest) n t (w.dispatch entry)
]

-- The checks behind the loop.
abbrev pub close_run : Surroundings → Result WorkerError Progress → Result WorkerError (Unit {0})
close_run w (err e) = err e
close_run w (ok n) =
    if w.aborted_last
    then err aborted
    else if ltb 0 n.failed && n.dispatched == 0
    then err all_failed
    else ok tt

unfoldable pub run_batch :
    Surroundings
    → Result OutboxError (List (OutboxRow × String))
    → List OutboxRow
    → Result WorkerError (Unit {0}) × List OutboxRow
unfolding dispatch_all
run_batch w (err e) t = (err (outbox e), t)
run_batch w (ok []) t = (if w.aborted_last then err aborted else ok tt, t)
run_batch w (ok (entry ∷ rest)) t =
    let (r, t') = dispatch_all w (entry ∷ rest) (record { dispatched = 0; failed = 0 }) t in
    (close_run w r, t')

module _ {Leaf : Type 0} (L : Literals Leaf) (stringify : Value Leaf → Option String)
    (encode : String → List ℕ) (iso_date : String → Option String)
    (payload_json : Option (Value Leaf) → String)
    (read_envelope : String → Option (SyncEnvelope Leaf)) where
  -- handle(payload, ctx)
  unfoldable pub handle :
      Surroundings
      → (org ctx_org : String) (limit : ℤ) → List OutboxRow
      → Result WorkerError (Unit {0}) × List OutboxRow
  unfolding pending_batch run_batch
  handle w org ctx_org limit t =
      if not (org == ctx_org)
      then (err other_organisation, t)
      else if w.aborted_first
      then (err aborted, t)
      else run_batch w
          (pending_batch L stringify encode iso_date payload_json read_envelope org limit t) t
