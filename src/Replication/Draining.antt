-- ===== src/Replication/Draining.antt =====
-- A run of OutboxSyncWorker that nothing stops.
use tauri_boilerplate.Base.{
  ℕ, ◌+◌, ◌≡◌, refl, sym, ap, ◌∙◌, subst, false, nat_eq, string_eq, if◌then◌else◌, String, Option,
  List, [], ◌∷◌, any, Result, ok, err, arith, All, eq_iff,
}
use tauri_boilerplate.Base.Int.{ℤ}
use tauri_boilerplate.Envelope.Json.{Value}
use tauri_boilerplate.Envelope.Types.{SyncEnvelope, Literals}
use tauri_boilerplate.Replication.Outbox.{OutboxRow, is_open, sent_row, mark_sent, pending_batch}
use tauri_boilerplate.Replication.Worker.{
  Dispatch, delivered, WorkerError, aborted, Surroundings, Progress, Loop, settle, dispatch_all,
  close_run, run_batch, handle,
}

-- No row of the envelope is PENDING.
abbrev pub Closed : String → List OutboxRow → Type 0
Closed e t = any (is_open e) t ≡ false

sent_row-is_open : (e : String) (now : ℕ) (r : OutboxRow) → is_open e (sent_row now r) ≡ false
sent_row-is_open e now r = ground arith

mark_sent-Closed : (e : String) (now : ℕ) (t : List OutboxRow) → Closed e (mark_sent e now t)
unfolding mark_sent
mark_sent-Closed e now [] = refl
mark_sent-Closed e now (r ∷ t) = ground (arith, sent_row-is_open e now r, mark_sent-Closed e now t)

mark_sent-keeps_Closed :
    (e o : String) (now : ℕ) (t : List OutboxRow) → Closed e t → Closed e (mark_sent o now t)
unfolding mark_sent
mark_sent-keeps_Closed e o now [] h = refl
mark_sent-keeps_Closed e o now (r ∷ t) h =
    ground (arith, sent_row-is_open e now r, mark_sent-keeps_Closed e o now t)

-- What a loop over `entries` that nothing stops gives.
record Drains (entries : List (OutboxRow × String)) (n : Progress) (t : List OutboxRow)
    (p : Result WorkerError Progress × List OutboxRow) : Type 0 where
  pub progress : Progress
  pub succeeds : p.0 ≡ ok progress
  pub none_failed : progress.failed ≡ n.failed
  pub closed : All (λ (x : OutboxRow × String). Closed x.0.envelope_id p.1) entries
  pub keeps : (e : String) → Closed e t → Closed e p.1

-- The dispatcher takes the entry, and no abort is seen before its turn.
abbrev pub Runs : Surroundings → OutboxRow × String → Type 0
Runs w x = (w.aborted_before x.0 ≡ false) × (w.dispatch x ≡ delivered)

settle-Drains :
    (w : Surroundings) (x : OutboxRow × String) (rest : List (OutboxRow × String)) (later : Loop)
    (n : Progress) (t : List OutboxRow) (d : Dispatch)
    → d ≡ delivered
    → Drains rest
        (record n { dispatched = n.dispatched + 1 })
        (mark_sent x.0.envelope_id (w.now x.0) t)
        (later
          (record n { dispatched = n.dispatched + 1 })
          (mark_sent x.0.envelope_id (w.now x.0) t))
    → Drains (x ∷ rest) n t (settle w x later n t d)
unfolding settle
settle-Drains w x rest later n t d took p =
    subst (λ k. Drains (x ∷ rest) n t (settle w x later n t k)) (sym took)
      (record {
        progress = p.progress;
        succeeds = p.succeeds;
        none_failed = p.none_failed;
        closed =
            (p.keeps x.0.envelope_id (mark_sent-Closed x.0.envelope_id (w.now x.0) t), p.closed);
        keeps = λ e h. p.keeps e (mark_sent-keeps_Closed e x.0.envelope_id (w.now x.0) t h);
      })

dispatch_all-Drains :
    (w : Surroundings) (entries : List (OutboxRow × String)) (n : Progress) (t : List OutboxRow)
    → All (Runs w) entries
    → Drains entries n t (dispatch_all w entries n t)
unfolding dispatch_all
dispatch_all-Drains w [] n t h = record {
  progress = n;
  succeeds = refl;
  none_failed = refl;
  closed = tt;
  keeps = λ e c. c;
}
dispatch_all-Drains w (x ∷ rest) n t ((go, took), h) =
    rw (go, dispatch_all)
      (settle-Drains w x rest (dispatch_all w rest) n t (w.dispatch x) took
        (dispatch_all-Drains w rest _ _ h))

close_run-succeeds :
    (w : Surroundings) (n : Progress)
    → n.failed ≡ 0
    → w.aborted_last ≡ false
    → close_run w (ok n) ≡ ok tt
close_run-succeeds w n none last = simp (none, last)

Drains-run_batch :
    (w : Surroundings) (batch : List (OutboxRow × String)) (t : List OutboxRow)
    → All (Runs w) batch
    → w.aborted_last ≡ false
    → let p = run_batch w (ok batch) t in
      (p.0 ≡ ok tt) × All (λ (x : OutboxRow × String). Closed x.0.envelope_id p.1) batch
unfolding run_batch
Drains-run_batch w [] t h last =
    (subst (λ b. (if b then err aborted else ok tt) ≡ ok tt) (sym last) refl, tt)
Drains-run_batch w (x ∷ rest) t h last =
    let p = dispatch_all-Drains w (x ∷ rest) (record { dispatched = 0; failed = 0 }) t h in
    (ap (close_run w) p.succeeds ∙ close_run-succeeds w p.progress p.none_failed last, p.closed)

module _ {Leaf : Type 0} (L : Literals Leaf) (stringify : Value Leaf → Option String)
    (encode : String → List ℕ) (iso_date : String → Option String)
    (payload_json : Option (Value Leaf) → String)
    (read_envelope : String → Option (SyncEnvelope Leaf)) where
  -- If the batch is read, no abort is seen, and the dispatcher takes every entry of the batch, a run for its
  -- own organisation succeeds and leaves no row PENDING for an envelope of the batch.
  pub handle-drains :
      (w : Surroundings) (org : String) (limit : ℤ) (t : List OutboxRow)
      (batch : List (OutboxRow × String))
      → pending_batch L stringify encode iso_date payload_json read_envelope org limit t ≡ ok batch
      → w.aborted_first ≡ false
      → All
          (λ (x : OutboxRow × String). (w.aborted_before x.0 ≡ false) × (w.dispatch x ≡ delivered))
          batch
      → w.aborted_last ≡ false
      → let p = handle L stringify encode iso_date payload_json read_envelope w org org limit t in
        (p.0 ≡ ok tt)
        × All (λ (x : OutboxRow × String). any (is_open x.0.envelope_id) p.1 ≡ false) batch
  unfolding handle
  handle-drains w org limit t batch e first runs last =
      simp ((eq_iff org org).1 refl, first, e, handle) (Drains-run_batch w batch t runs last)
