-- ===== src/Replication/Outbox.antt =====
-- OutboxService of packages/sync/src/outbox/OutboxService.ts. The table core_sync_outbox is a list of rows
-- with its primary key and its unique envelope ids. An ISO time is a number. `read_envelope` is JSON.parse
-- on a text whose value has the fields of an envelope, and nothing on any other.
use tauri_boilerplate.Base.{
  ℕ, ◌+◌, Bool, true, false, not, ◌&&◌, ◌||◌, ◌==◌, string_eq, if◌then◌else◌, String, Option, none,
  some, List, [], ◌∷◌, ◌++◌, any, filter, take, Result, ok, err, ◌>>=◌, ◌>>◌, throw_if, or_throw,
  update_where, sort_by, is_blank,
}
use tauri_boilerplate.Base.Int.{ℤ, pos, pos_part, leb_ℤ}
use tauri_boilerplate.Tasks.Table.{is_positive_safe}
use tauri_boilerplate.Envelope.Json.{Value}
use tauri_boilerplate.Envelope.Types.{operation_name, SyncEnvelope, Literals, envelope_object}
use tauri_boilerplate.Envelope.Builder.{EnvelopeError, validate_envelope}

pub data OutboxStatus : Type 0 where
  pending sent failed : OutboxStatus

abbrev pub is_pending : OutboxStatus → Bool
is_pending pending = true
is_pending sent = false
is_pending failed = false

-- The row, and OutboxRecord, which has the same fields.
pub record OutboxRow : Type 0 where
  pub id : String
  pub created_at : ℕ
  pub envelope_id : String
  pub envelope_json : Option String
  pub organisation_id : String
  pub sync_group_id : String
  pub feature_id : String
  pub entity_type : String
  pub entity_id : String
  pub operation : String
  pub payload_json : String
  pub author_id : String
  pub device_id : String
  pub logical_timestamp : String
  pub schema_version : ℤ
  pub protocol_version : ℤ
  pub signer_public_key : String
  pub signature : String
  pub status : OutboxStatus
  pub attempt_count : ℕ
  pub last_attempt_at : Option ℕ
  pub sent_at : Option ℕ

pub data OutboxError : Type 0 where
  envelope_invalid : EnvelopeError → OutboxError
  key_taken max_attempts_invalid organisation_invalid limit_invalid envelope_corrupt : OutboxError

-- MAX_OUTBOX_BATCH_SIZE
abbrev pub max_batch : ℤ
max_batch = pos 50

-- `envelope_id = ? AND status = 'PENDING'`
abbrev pub is_open : String → OutboxRow → Bool
is_open e r = r.envelope_id == e && is_pending r.status

abbrev pub sent_row : ℕ → OutboxRow → OutboxRow
sent_row now r = record r { status = sent; sent_at = some now }

-- markSent(envelopeId)
unfoldable pub mark_sent : String → (now : ℕ) → List OutboxRow → List OutboxRow
mark_sent e now t = update_where (is_open e) (sent_row now) t

abbrev pub failed_row : ℤ → ℕ → OutboxRow → OutboxRow
failed_row max now r = record r {
  attempt_count = r.attempt_count + 1;
  last_attempt_at = some now;
  status = if leb_ℤ max (pos (r.attempt_count + 1)) then failed else r.status;
}

-- markFailed(envelopeId, maxAttempts)
unfoldable pub mark_failed :
    String → (max : ℤ) → (now : ℕ) → List OutboxRow → Result OutboxError (Unit {0}) × List OutboxRow
mark_failed e max now t =
    if not (is_positive_safe max)
    then (err max_attempts_invalid, t)
    else (ok tt, update_where (is_open e) (failed_row max now) t)

-- `status = 'PENDING' AND organisation_id = ?`
abbrev pub is_due : String → OutboxRow → Bool
is_due org r = is_pending r.status && r.organisation_id == org

abbrev pub as_outbox {ℓ} : {A : Type ℓ} → Result EnvelopeError A → Result OutboxError A
as_outbox (ok a) = ok a
as_outbox (err e) = err (envelope_invalid e)

module _ {Leaf : Type 0} (L : Literals Leaf) (stringify : Value Leaf → Option String)
    (encode : String → List ℕ) (iso_date : String → Option String)
    (payload_json : Option (Value Leaf) → String)
    (read_envelope : String → Option (SyncEnvelope Leaf)) where
  abbrev pub new_row : SyncEnvelope Leaf → (id : String) (now : ℕ) → OutboxRow
  new_row e id now =
      let op = e.operation in
      record {
        id = id;
        created_at = now;
        envelope_id = e.envelope_id;
        envelope_json = stringify (envelope_object L e);
        organisation_id = op.organisation_id;
        sync_group_id = op.sync_group_id;
        feature_id = op.feature_id;
        entity_type = op.entity_type;
        entity_id = op.entity_id;
        operation = operation_name op.operation;
        payload_json = payload_json op.payload;
        author_id = op.author_id;
        device_id = op.device_id;
        logical_timestamp = op.logical_timestamp;
        schema_version = op.schema_version;
        protocol_version = op.protocol_version;
        signer_public_key = e.signer_public_key;
        signature = e.signature;
        status = pending;
        attempt_count = 0;
        last_attempt_at = none;
        sent_at = none;
      }

  -- enqueue(envelope, tx)
  unfoldable pub enqueue :
      SyncEnvelope Leaf
      → (id : String) (now : ℕ) → List OutboxRow
      → Result OutboxError (OutboxRow × List OutboxRow)
  enqueue e id now t = do
    as_outbox (validate_envelope L stringify encode iso_date e)
    throw_if (any (λ (r : OutboxRow). r.id == id || r.envelope_id == e.envelope_id) t) key_taken
    ok (new_row e id now, t ++ new_row e id now ∷ [])

  -- The envelope that a row keeps against the row's own columns.
  unfoldable pub matches_row : SyncEnvelope Leaf → OutboxRow → Bool
  matches_row e r =
      let op = e.operation in
      e.envelope_id == r.envelope_id
      && e.signer_public_key == r.signer_public_key
      && e.signature == r.signature
      && op.organisation_id == r.organisation_id
      && op.sync_group_id == r.sync_group_id
      && op.feature_id == r.feature_id
      && op.entity_type == r.entity_type
      && op.entity_id == r.entity_id
      && operation_name op.operation == r.operation
      && payload_json op.payload == r.payload_json
      && op.author_id == r.author_id
      && op.device_id == r.device_id
      && op.logical_timestamp == r.logical_timestamp
      && (leb_ℤ op.schema_version r.schema_version && leb_ℤ r.schema_version op.schema_version)
      && (leb_ℤ op.protocol_version r.protocol_version
          && leb_ℤ r.protocol_version op.protocol_version)

  -- The text of the envelope, if it may be sent.
  unfoldable pub check_row : OutboxRow → Result OutboxError String
  unfolding matches_row
  check_row r = do
    json ← or_throw r.envelope_json envelope_corrupt
    e ← or_throw (read_envelope json) envelope_corrupt
    as_outbox (validate_envelope L stringify encode iso_date e)
    throw_if (not (matches_row e r)) envelope_corrupt
    ok json

  -- The rows with their texts, if every row may be sent.
  unfoldable pub check_rows : List OutboxRow → Result OutboxError (List (OutboxRow × String))
  unfolding check_row
  check_rows [] = ok []
  check_rows (r ∷ rs) = do json ← check_row r; rest ← check_rows rs; ok ((r, json) ∷ rest)

  -- pendingBatch(organisationId, limit)
  unfoldable pub pending_batch :
      String → (limit : ℤ) → List OutboxRow → Result OutboxError (List (OutboxRow × String))
  unfolding is_blank check_rows
  pending_batch org limit t = do
    throw_if (is_blank org) organisation_invalid
    throw_if (not (is_positive_safe limit) || not (leb_ℤ limit max_batch)) limit_invalid
    check_rows
        (take (pos_part limit) (sort_by (λ (r : OutboxRow). r.created_at) (filter (is_due org) t)))
