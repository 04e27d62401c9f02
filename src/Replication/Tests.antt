-- ===== src/Replication/Tests.antt =====
-- Deliveries to an inbox and from an outbox.
use tauri_boilerplate.Base.{
  ℕ, ◌≡◌, refl, true, false, any, take, Pointwise, is_blank, String, Option, some, List, [], ◌∷◌,
  map, All, ok, sort_by,
}
use tauri_boilerplate.Base.Int.{pos}
use tauri_boilerplate.Envelope.Types.{SyncEnvelope}
use tauri_boilerplate.Clock.Parse.{parse_canonical, span}
use tauri_boilerplate.Envelope.Json.{Value}
use tauri_boilerplate.Envelope.Builder.{validate_envelope, verify}
use tauri_boilerplate.Envelope.Samples.{literals, stringify, encode, iso_date, verify_fn, envelope}
use tauri_boilerplate.Replication.Inbox.{InboxRow, applies, Attempt, writes, refused}
use tauri_boilerplate.Replication.Outbox.{
  OutboxRow, is_open, new_row, mark_sent, matches_row, check_row, check_rows, pending_batch,
}
use tauri_boilerplate.Replication.Worker.{
  delivered, Surroundings, settle, dispatch_all, run_batch, handle,
}
use tauri_boilerplate.Replication.Sends.{Sends}
use tauri_boilerplate.Replication.Sending.{TakenFrom, handle-Sends}
use tauri_boilerplate.Replication.Draining.{handle-drains}
use tauri_boilerplate.Replication.Delivery.{Call, receive_envelope, apply_all, perform_all}

abbrev payload_json : Option (Value String) → String
payload_json v = "{}"

abbrev rank : String → ℕ
rank t = 0

abbrev done : Attempt
done = record { apply = applies; mark = writes; catch_writes = true }

-- The record is applied, and both UPDATEs fail.
abbrev unmarked : Attempt
unmarked = record { apply = applies; mark = refused false; catch_writes = false }

-- The envelope arrives twice, is handed over and not marked, arrives again and is handed over again.
abbrev calls : List (Call String)
calls =
    receive_envelope envelope verify_fn "i1" 1
    ∷ receive_envelope envelope verify_fn "i2" 2
    ∷ apply_all (λ r. unmarked) (λ i. 3)
    ∷ receive_envelope envelope verify_fn "i3" 4
    ∷ apply_all (λ r. done) (λ i. 5)
    ∷ apply_all (λ r. done) (λ i. 6)
    ∷ []

abbrev progress : List InboxRow × List InboxRow × ℕ
unfolding perform_all
progress = perform_all literals stringify encode iso_date payload_json rank calls ([], [], 0)

handed_twice : (map (λ (r : InboxRow). r.id) progress.1 ≡ "i1" ∷ "i1" ∷ []) × (progress.2 ≡ 1)
unfolding progress parse_canonical span sort_by validate_envelope verify
handed_twice = (refl, refl)

abbrev read_envelope : String → Option (SyncEnvelope String)
read_envelope t = some envelope

-- A row to be sent, and one of another organisation.
abbrev outbox : List OutboxRow
outbox =
    new_row literals stringify encode iso_date payload_json read_envelope envelope "o1" 1
    ∷ record (new_row literals stringify encode iso_date payload_json read_envelope envelope "o2"
        2) { envelope_id = "other"; organisation_id = "elsewhere" }
    ∷ []

abbrev calm : Surroundings
calm = record {
  dispatch = λ x. delivered;
  aborted_first = false;
  aborted_before = λ x. false;
  aborted_behind = λ x. false;
  aborted_last = false;
  now = λ x. 7;
}

abbrev due : List (OutboxRow × String)
due = map (λ (r : OutboxRow). (r, "{}")) (take 1 outbox)

due_batch :
    pending_batch literals stringify encode iso_date payload_json read_envelope "org"
      (pos 20)
      outbox
    ≡ ok due
unfolding pending_batch check_rows check_row matches_row parse_canonical span sort_by
    validate_envelope is_blank
due_batch = refl

due_sent :
    map
      (λ (r : OutboxRow). is_open r.envelope_id r)
      (handle literals stringify encode iso_date payload_json read_envelope calm "org" "org"
        (pos 20)
        outbox).1
    ≡ false ∷ true ∷ []
unfolding handle run_batch dispatch_all settle mark_sent pending_batch check_rows check_row
    matches_row parse_canonical span sort_by validate_envelope is_blank
due_sent = refl

handle-Sends_example :
    Pointwise
      (Sends (TakenFrom calm due))
      outbox
      (handle literals stringify encode iso_date payload_json read_envelope calm "org" "org"
        (pos 20)
        outbox).1
handle-Sends_example =
    handle-Sends literals stringify encode iso_date payload_json read_envelope calm "org" "org"
      (pos 20) outbox due due_batch

handle-drains_example :
    let p =
      handle literals stringify encode iso_date payload_json read_envelope calm "org" "org"
        (pos 20)
        outbox in
    (p.0 ≡ ok tt) × All (λ (x : OutboxRow × String). any (is_open x.0.envelope_id) p.1 ≡ false) due
handle-drains_example =
    handle-drains literals stringify encode iso_date payload_json read_envelope calm "org" (pos 20)
      outbox due due_batch refl ((refl, refl), tt) refl
