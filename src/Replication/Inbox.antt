-- ===== src/Replication/Inbox.antt =====
-- InboxService of packages/sync/src/inbox/InboxService.ts. The table core_sync_inbox is a list of rows
-- with its primary key and its unique envelope ids. An ISO time is a number, and `rank` is the place of a
-- logical timestamp in the order of texts.
use tauri_boilerplate.Base.{
  ℕ, ◌+◌, Bool, true, false, not, ◌&&◌, ◌||◌, ◌==◌, string_eq, if◌then◌else◌, String, Option, none,
  some, List, [], ◌∷◌, ◌++◌, any, filter, Result, ok, err, update_where, sort_by,
}
use tauri_boilerplate.Base.Int.{ℤ}
use tauri_boilerplate.Envelope.Json.{Value}
use tauri_boilerplate.Envelope.Types.{OperationType, SyncEnvelope, Literals}
use tauri_boilerplate.Envelope.Builder.{EnvelopeError, validate_envelope, verify}

pub data VerificationStatus : Type 0 where
  unverified verified rejected : VerificationStatus

pub data ApplyStatus : Type 0 where
  pending applied conflict failed : ApplyStatus

-- InboxRow, which `mapRow` turns into an InboxRecord field by field
pub record InboxRow : Type 0 where
  pub id : String
  pub created_at : ℕ
  pub envelope_id : String
  pub organisation_id : String
  pub from_device_id : String
  pub sync_group_id : String
  pub feature_id : String
  pub entity_type : String
  pub entity_id : String
  pub operation : OperationType
  pub payload_json : String
  pub logical_timestamp : String
  pub schema_version : ℤ
  pub protocol_version : ℤ
  pub signer_public_key : String
  pub signature : String
  pub verification_status : VerificationStatus
  pub apply_status : ApplyStatus
  pub applied_at : Option ℕ

pub data InboxError : Type 0 where
  invalid : EnvelopeError → InboxError
  -- The primary key, the missing row behind an insert, and an id that another signed operation has.
  key_taken not_stored collision : InboxError

abbrev pub is_pending : ApplyStatus → Bool
is_pending pending = true
is_pending applied = false
is_pending conflict = false
is_pending failed = false

abbrev pub is_verified : VerificationStatus → Bool
is_verified unverified = false
is_verified verified = true
is_verified rejected = false

-- The status that the outcome of the verification gives: what throws is rejected.
abbrev pub verdict : Result EnvelopeError Bool → VerificationStatus
verdict (ok true) = verified
verdict (ok false) = rejected
verdict (err e) = rejected

-- `apply_status = 'PENDING' AND verification_status = 'VERIFIED'`
abbrev pub is_ready : InboxRow → Bool
is_ready r = is_pending r.apply_status && is_verified r.verification_status

abbrev pub has_envelope : String → InboxRow → Bool
has_envelope e r = r.envelope_id == e

-- SELECT … LIMIT 1
unfoldable pub find_envelope : String → List InboxRow → Option InboxRow
find_envelope e [] = none
find_envelope e (r ∷ t) = if r.envelope_id == e then some r else find_envelope e t

-- INSERT … ON CONFLICT(envelope_id) DO NOTHING
unfoldable pub insert_row : InboxRow → List InboxRow → Result InboxError (List InboxRow)
insert_row r t =
    if any (has_envelope r.envelope_id) t
    then ok t
    else if any (λ (s : InboxRow). s.id == r.id) t
    then err key_taken
    else ok (t ++ r ∷ [])

module _ {Leaf : Type 0} (L : Literals Leaf) (stringify : Value Leaf → Option String)
    (encode : String → List ℕ) (iso_date : String → Option String)
    (payload_json : Option (Value Leaf) → String) where
  abbrev pub new_row : SyncEnvelope Leaf → VerificationStatus → (id : String) (now : ℕ) → InboxRow
  new_row e status id now =
      let op = e.operation in
      record {
        id = id;
        created_at = now;
        envelope_id = e.envelope_id;
        organisation_id = op.organisation_id;
        from_device_id = op.device_id;
        sync_group_id = op.sync_group_id;
        feature_id = op.feature_id;
        entity_type = op.entity_type;
        entity_id = op.entity_id;
        operation = op.operation;
        payload_json = payload_json op.payload;
        logical_timestamp = op.logical_timestamp;
        schema_version = op.schema_version;
        protocol_version = op.protocol_version;
        signer_public_key = e.signer_public_key;
        signature = e.signature;
        verification_status = status;
        apply_status = pending;
        applied_at = none;
      }

  -- The stored row against what was received.
  abbrev pub is_collision : SyncEnvelope Leaf → VerificationStatus → String → InboxRow → Bool
  is_collision e status id stored =
      not (stored.signer_public_key == e.signer_public_key)
      || not (stored.signature == e.signature)
      || (not (stored.id == id) && not (is_verified status))

  abbrev pub check_stored :
      SyncEnvelope Leaf → VerificationStatus → String → Option InboxRow → Result InboxError InboxRow
  check_stored e status id none = err not_stored
  check_stored e status id (some r) = if is_collision e status id r then err collision else ok r

  -- What `receive` does behind the verification.
  unfoldable pub store :
      SyncEnvelope Leaf
      → VerificationStatus
      → (id : String) (now : ℕ) → List InboxRow
      → Result InboxError InboxRow × List InboxRow
  unfolding insert_row find_envelope
  store e status id now t = elim (insert_row (new_row e status id now) t) [
    | err x ↦ (err x, t)
    | ok t' ↦ (check_stored e status id (find_envelope e.envelope_id t'), t')
  ]

  -- receive(envelope, verifyFn)
  unfoldable pub receive :
      SyncEnvelope Leaf
      → (verify_fn : String → List ℕ → String → Result EnvelopeError Bool) → (id : String) (now : ℕ)
      → List InboxRow
      → Result InboxError InboxRow × List InboxRow
  unfolding store
  receive e verify_fn id now t = elim (validate_envelope L stringify encode iso_date e) [
    | err x ↦ (err (invalid x), t)
    | ok valid ↦ store e (verdict (verify L stringify encode iso_date e verify_fn)) id now t
  ]

-- What `applyFn` does with a record: it returns, or throws with or without "conflict" in its message. And what
-- becomes of the record: it is marked as one of the three.
pub data Outcome : Type 0 where
  applies conflicts fails : Outcome

-- An UPDATE is done, or throws with or without "conflict" in its message.
pub data Write : Type 0 where
  writes : Write
  refused : (names_conflict : Bool) → Write

-- What happens to one record: `applyFn`, the UPDATE behind it, and the UPDATE of the catch.
pub record Attempt : Type 0 where
  pub apply : Outcome
  pub mark : Write
  pub catch_writes : Bool

-- The catch, which throws out of `applyPending` where its UPDATE throws.
abbrev pub caught : Bool → Attempt → Option Outcome
caught is_conflict a =
    if not a.catch_writes then none else if is_conflict then some conflicts else some fails

abbrev pub after_apply : Write → Attempt → Option Outcome
after_apply writes a = some applies
after_apply (refused names_conflict) a = caught names_conflict a

-- As what the record is marked, unless its UPDATE in the catch throws.
abbrev pub result_of : Attempt → Option Outcome
result_of a = elim a.apply [
  | applies ↦ after_apply a.mark a
  | conflicts ↦ caught true a
  | fails ↦ caught false a
]

abbrev pub finish_row : Outcome → ℕ → InboxRow → InboxRow
finish_row applies now r = record r { apply_status = applied; applied_at = some now }
finish_row conflicts now r = record r { apply_status = conflict }
finish_row fails now r = record r { apply_status = failed }

-- What `applyPending` leaves: the records that `applyFn` was handed, the table, and whether it threw.
pub record Applied : Type 0 where
  pub handed : List InboxRow
  pub table : List InboxRow
  pub throws : Bool

abbrev pub hand_over : InboxRow → Applied → Applied
hand_over r rest = record rest { handed = r ∷ rest.handed }

-- The loop of `applyPending`.
unfoldable pub apply_rows :
    (InboxRow → Attempt) → (String → ℕ) → List InboxRow → List InboxRow → Applied
apply_rows attempt now [] t = record { handed = []; table = t; throws = false }
apply_rows attempt now (r ∷ rs) t = elim (result_of (attempt r)) [
  | none ↦ record { handed = r ∷ []; table = t; throws = true }
  | some o ↦ hand_over r (
      apply_rows attempt now rs
        (update_where (λ (s : InboxRow). s.id == r.id) (finish_row o (now r.id)) t))
]

-- applyPending(applyFn), which runs to its end before the table changes in another way
unfoldable pub apply_pending :
    (rank : String → ℕ) → (InboxRow → Attempt) → (String → ℕ) → List InboxRow → Applied
unfolding apply_rows
apply_pending rank attempt now t =
    apply_rows attempt now
      (sort_by (λ (r : InboxRow). rank r.logical_timestamp) (filter is_ready t)) t

-- `{ applied, failed, conflicts }` of the records handed over.
pub record Tally : Type 0 where
  pub applied : ℕ
  pub failed : ℕ
  pub conflicts : ℕ

abbrev add_outcome : Outcome → Tally → Tally
add_outcome applies n = record n { applied = n.applied + 1 }
add_outcome conflicts n = record n { conflicts = n.conflicts + 1 }
add_outcome fails n = record n { failed = n.failed + 1 }

-- The sums over the records, where `applyPending` does not throw.
unfoldable pub tally : (InboxRow → Attempt) → List InboxRow → Tally
tally attempt [] = record { applied = 0; failed = 0; conflicts = 0 }
tally attempt (r ∷ rs) = elim (result_of (attempt r)) [
  | none ↦ tally attempt rs
  | some o ↦ add_outcome o (tally attempt rs)
]
