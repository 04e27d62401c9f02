-- ===== src/Replication/Sending.antt =====
-- What a run of OutboxSyncWorker does to the outbox.
use tauri_boilerplate.Base.{
  ℕ, ◌≡◌, refl, sym, ap, subst, inl, inr, not, ◌==◌, nat_eq, string_eq, if_ind, String, Option,
  List, [], ◌∷◌, Result, ok, Pointwise, All, Any, All-mono, All-Any, Any-mono, Bool-cases,
}
use tauri_boilerplate.Base.Int.{ℤ, pos}
use tauri_boilerplate.Envelope.Json.{Value}
use tauri_boilerplate.Envelope.Types.{SyncEnvelope, Literals}
use tauri_boilerplate.Replication.Outbox.{OutboxRow, pending_batch}
use tauri_boilerplate.Replication.Worker.{
  Dispatch, delivered, thrown, WorkerError, Surroundings, Progress, Loop, settle, dispatch_all,
  run_batch, handle,
}
use tauri_boilerplate.Replication.Sends.{
  Sends, Sends-all_refl, Sends-all_trans, mark_sent-Sends, mark_failed-Sends,
}

module _ (Took : String → Type 0) (w : Surroundings) where
  -- One entry's turn, and then the rest of the batch.
  settle-Sends :
      (x : OutboxRow × String) (later : Loop) (n : Progress) (t : List OutboxRow) (d : Dispatch)
      → (d ≡ delivered → Took x.0.envelope_id)
      → ((m : Progress) (u : List OutboxRow) → Pointwise (Sends Took) u (later m u).1)
      → Pointwise (Sends Took) t (settle w x later n t d).1
  unfolding settle
  settle-Sends x later n t delivered took keeps =
      Sends-all_trans Took t _ _ (mark_sent-Sends Took x.0.envelope_id (w.now x.0) t (took refl))
        (keeps _ _)
  settle-Sends x later n t thrown took keeps = elim (Bool-cases (w.aborted_behind x.0)) [
    | inl stop ↦ rw (stop, settle) (Sends-all_refl Took t)
    | inr go ↦
        rw (go, settle)
          (Sends-all_trans Took t _ _ (mark_failed-Sends Took x.0.envelope_id (pos 5) (w.now x.0) t)
            (keeps _ _))
  ]

  dispatch_all-Sends :
      (entries : List (OutboxRow × String)) (n : Progress) (t : List OutboxRow)
      → All (λ (x : OutboxRow × String). w.dispatch x ≡ delivered → Took x.0.envelope_id) entries
      → Pointwise (Sends Took) t (dispatch_all w entries n t).1
  unfolding dispatch_all
  dispatch_all-Sends [] n t h = Sends-all_refl Took t
  dispatch_all-Sends (x ∷ rest) n t (took, h) = elim (Bool-cases (w.aborted_before x.0)) [
    | inl stop ↦ rw (stop, dispatch_all) (Sends-all_refl Took t)
    | inr go ↦
        rw (go, dispatch_all)
          (settle-Sends x (dispatch_all w rest) n t (w.dispatch x) took
            (λ m u. dispatch_all-Sends rest m u h))
  ]

-- The dispatcher took an entry of the batch with the envelope's id.
abbrev pub TakenFrom : Surroundings → List (OutboxRow × String) → String → Type 0
TakenFrom w batch e =
    Any (λ (x : OutboxRow × String). (x.0.envelope_id ≡ e) × (w.dispatch x ≡ delivered)) batch

taken_from :
    (w : Surroundings) (batch : List (OutboxRow × String))
    → All
        (λ (x : OutboxRow × String). w.dispatch x ≡ delivered → TakenFrom w batch x.0.envelope_id)
        batch
taken_from w batch =
    All-mono
      (λ x h took.
        Any-mono
          (λ y same. (
            ap (λ (z : OutboxRow × String). z.0.envelope_id) same,
            subst (λ z. w.dispatch z ≡ delivered) (sym same) took,
          ))
          batch h)
      batch (All-Any batch)

module _ {Leaf : Type 0} (L : Literals Leaf) (stringify : Value Leaf → Option String)
    (encode : String → List ℕ) (iso_date : String → Option String)
    (payload_json : Option (Value Leaf) → String)
    (read_envelope : String → Option (SyncEnvelope Leaf)) where
  -- A run of the worker, also one that is aborted or fails halfway, keeps every row of the outbox at its
  -- place with its envelope and no attempt lost, leaves rows that are SENT or FAILED as they are, and marks a row SENT
  -- only if the dispatcher took an entry of the batch with its envelope id.
  pub handle-Sends :
      (w : Surroundings) (org ctx_org : String) (limit : ℤ) (t : List OutboxRow)
      (batch : List (OutboxRow × String))
      → pending_batch L stringify encode iso_date payload_json read_envelope org limit t ≡ ok batch
      → Pointwise
          (Sends (TakenFrom w batch))
          t
          (handle L stringify encode iso_date payload_json read_envelope w org ctx_org limit t).1
  unfolding handle
  handle-Sends w org ctx_org limit t batch e =
      let same = Sends-all_refl (TakenFrom w batch) t in
      let P = λ (p : Result WorkerError (Unit {0}) × List OutboxRow).
        Pointwise (Sends (TakenFrom w batch)) t p.1 in
      if_ind P (not (org == ctx_org)) (λ other. same)
        (λ own. if_ind P w.aborted_first (λ stop. same) (λ go. rw e (run batch)))
    where
      run :
          (rest : List (OutboxRow × String))
          → Pointwise (Sends (TakenFrom w rest)) t (run_batch w (ok rest) t).1
      run [] = Sends-all_refl _ t
      run (x ∷ rest) =
          dispatch_all-Sends (TakenFrom w (x ∷ rest)) w (x ∷ rest) _ t (taken_from w (x ∷ rest))
