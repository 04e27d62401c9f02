-- ===== src/Envelope/Builder.antt =====
-- SyncEnvelopeBuilder of packages/sync-protocol/src/envelope/SyncEnvelopeBuilder.ts, on envelopes whose
-- fields have the types that SyncEnvelope declares. JSON.stringify, the UTF-8 encoder and the date that
-- `new Date(Date.parse(t)).toISOString()` gives are arguments.
use tauri_boilerplate.Base.{
  ℕ, ◌*◌, Bool, true, false, not, ◌&&◌, leb, ◌==◌, nat_eq, string_eq, String, Option, none, some,
  List, [], ◌∷◌, all, length, Result, ok, err, ◌>>=◌, ◌>>◌, throw_if, or_throw, is_blank,
}
use tauri_boilerplate.Base.Int.{ℤ, pos, leb_ℤ}
use tauri_boilerplate.Clock.Format.{Text}
use tauri_boilerplate.Clock.Parse.{is_safe, parse}
use tauri_boilerplate.Handshake.Validator.{units, is_hex_of_length, starts_with}
use tauri_boilerplate.Envelope.Json.{Value, sorted_keys}
use tauri_boilerplate.Envelope.Types.{
  SyncOperation, SyncEnvelope, Literals, operation_object, envelope_object,
}

pub data EnvelopeError : Type 0 where
  field_invalid version_invalid payload_required timestamp_invalid not_serializable : EnvelopeError
  id_mismatch signed_at_invalid public_key_invalid signature_invalid too_large : EnvelopeError
  signing_failed : EnvelopeError

-- MAX_SYNC_ENVELOPE_SIZE_BYTES
abbrev pub max_size : ℕ
max_size = 10 * 1024 * 1024

-- A required field: no blank text, and 1,024 code units at most.
abbrev pub is_field : String → Bool
is_field t = not (is_blank t) && leb (length (units t)) 1_024

abbrev pub is_version : ℤ → Bool
is_version v = is_safe v && leb_ℤ (pos 1) v

-- The text behind the first n code units.
abbrev pub drop : ℕ → Text → Text
drop ℕ.zero t = t
drop (ℕ.suc n) [] = []
drop (ℕ.suc n) (c ∷ t) = drop n t

-- /^ed25519_pk_[0-9a-f]{64}$/
unfoldable pub is_signer_key : Text → Bool
unfolding starts_with units
is_signer_key t = starts_with t (units "ed25519_pk_") && is_hex_of_length 64 (drop 11 t)

abbrev pub is_parsed {ℓ} : {E : Type 0} {A : Type ℓ} → Result E A → Bool
is_parsed (ok a) = true
is_parsed (err e) = false

abbrev pub is_some {ℓ} : {A : Type ℓ} → Option A → Bool
is_some none = false
is_some (some a) = true

abbrev pub is_text : String → Option String → Bool
is_text t none = false
is_text t (some u) = u == t

abbrev pub required_fields : {Leaf : Type 0} → SyncOperation Leaf → List String
required_fields op =
    op.operation_id ∷ op.application_id ∷ op.organisation_id ∷ op.sync_group_id ∷ op.feature_id
    ∷ op.entity_type ∷ op.entity_id ∷ op.author_id ∷ op.device_id ∷ op.logical_timestamp ∷ []

-- The envelope around a signed operation.
abbrev pub seal :
    {Leaf : Type 0} → SyncOperation Leaf → (key signature now : String) → SyncEnvelope Leaf
seal op key signature now = record {
  envelope_id = op.operation_id;
  signed_at = now;
  signer_public_key = key;
  signature = signature;
  operation = op;
}

module _ {Leaf : Type 0} (L : Literals Leaf) (stringify : Value Leaf → Option String)
    (encode : String → List ℕ) (iso_date : String → Option String) where
  -- validateOperation
  unfoldable pub validate_operation : SyncOperation Leaf → Result EnvelopeError (Unit {0})
  unfolding is_blank units parse sorted_keys operation_object
  validate_operation op = do
    throw_if (not (all is_field (required_fields op))) field_invalid
    throw_if (not (is_version op.schema_version && is_version op.protocol_version)) version_invalid
    throw_if (not (is_some op.payload)) payload_required
    throw_if (not (is_parsed (parse (units op.logical_timestamp)))) timestamp_invalid
    throw_if (not (is_some (stringify (sorted_keys (operation_object L op))))) not_serializable

  -- canonicalize
  unfoldable pub canonicalize : SyncOperation Leaf → Result EnvelopeError (List ℕ)
  unfolding validate_operation
  canonicalize op = do
    validate_operation op
    json ← or_throw (stringify (sorted_keys (operation_object L op))) not_serializable
    ok (encode json)

  -- validateEnvelope
  unfoldable pub validate_envelope : SyncEnvelope Leaf → Result EnvelopeError (Unit {0})
  unfolding validate_operation is_signer_key envelope_object
  validate_envelope e = do
    validate_operation e.operation
    throw_if (not (e.envelope_id == e.operation.operation_id)) id_mismatch
    throw_if (not (is_text e.signed_at (iso_date e.signed_at))) signed_at_invalid
    throw_if (not (is_signer_key (units e.signer_public_key))) public_key_invalid
    throw_if (not (is_hex_of_length 128 (units e.signature))) signature_invalid
    json ← or_throw (stringify (envelope_object L e)) not_serializable
    throw_if (not (leb (length (encode json)) max_size)) too_large

  -- build(operation, signerPublicKey, signFn); `now` is the time at which the signature has come.
  unfoldable pub build :
      SyncOperation Leaf
      → (key : String) → (sign : List ℕ → Result EnvelopeError String) → (now : String)
      → Result EnvelopeError (SyncEnvelope Leaf)
  unfolding canonicalize validate_envelope
  build op key sign now = do
    validate_operation op
    throw_if (not (is_signer_key (units key))) public_key_invalid
    bytes ← canonicalize op
    throw_if (not (leb (length bytes) max_size)) too_large
    signature ← sign bytes
    throw_if (not (is_hex_of_length 128 (units signature))) signature_invalid
    validate_envelope (seal op key signature now)
    ok (seal op key signature now)

  -- verify(envelope, verifyFn)
  unfoldable pub verify :
      SyncEnvelope Leaf
      → (verify_fn : String → List ℕ → String → Result EnvelopeError Bool)
      → Result EnvelopeError Bool
  unfolding validate_envelope canonicalize
  verify e verify_fn = elim (validate_envelope e) [
    | err reason ↦ ok false
    | ok valid ↦
        canonicalize e.operation >>= λ bytes. verify_fn e.signer_public_key bytes e.signature
  ]
