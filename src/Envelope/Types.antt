-- ===== src/Envelope/Types.antt =====
-- SyncOperation and SyncEnvelope of packages/sync-protocol/src/types.ts.
use tauri_boilerplate.Base.{String, Option, none, some}
use tauri_boilerplate.Base.Int.{ℤ}
use tauri_boilerplate.Handshake.Validator.{units}
use tauri_boilerplate.Envelope.Json.{Value, leaf, object, Fields, close, field}

pub data OperationType : Type 0 where
  create update delete : OperationType

abbrev pub operation_name : OperationType → String
operation_name create = "create"
operation_name update = "update"
operation_name delete = "delete"

module _ (Leaf : Type 0) where
  -- A payload that is not there is `undefined`.
  pub record SyncOperation : Type 0 where
    pub operation_id : String
    pub application_id : String
    pub organisation_id : String
    pub sync_group_id : String
    pub feature_id : String
    pub entity_type : String
    pub entity_id : String
    pub operation : OperationType
    pub payload : Option (Value Leaf)
    pub author_id : String
    pub device_id : String
    pub logical_timestamp : String
    pub schema_version : ℤ
    pub protocol_version : ℤ

  pub record SyncEnvelope : Type 0 where
    pub envelope_id : String
    pub signed_at : String
    pub signer_public_key : String
    pub signature : String
    pub operation : SyncOperation

  -- Texts, integers, `undefined` and `null` as values.
  pub record Literals : Type 0 where
    pub text : String → Leaf
    pub integer : ℤ → Leaf
    pub undefined : Leaf
    pub null : Leaf

module _ {Leaf : Type 0} (L : Literals Leaf) where
  abbrev pub text_field : String → String → Fields Leaf → Fields Leaf
  text_field k v rest = field (units k) (leaf (L.text v)) rest

  abbrev integer_field : String → ℤ → Fields Leaf → Fields Leaf
  integer_field k v rest = field (units k) (leaf (L.integer v)) rest

  abbrev pub optional_field : String → Option String → Fields Leaf → Fields Leaf
  optional_field k none rest = field (units k) (leaf L.null) rest
  optional_field k (some v) rest = text_field k v rest

  abbrev payload_value : Option (Value Leaf) → Value Leaf
  payload_value none = leaf L.undefined
  payload_value (some v) = v

  -- An operation and an envelope as objects.
  unfoldable pub operation_object : SyncOperation Leaf → Value Leaf
  unfolding units
  operation_object op = object (
      text_field "operationId" op.operation_id (
        text_field "applicationId" op.application_id (
          text_field "organisationId" op.organisation_id (
            text_field "syncGroupId" op.sync_group_id (
              text_field "featureId" op.feature_id (
                text_field "entityType" op.entity_type (
                  text_field "entityId" op.entity_id (
                    text_field "operation" (operation_name op.operation) (
                      field (units "payload") (payload_value op.payload) (
                        text_field "authorId" op.author_id (
                          text_field "deviceId" op.device_id (
                            text_field "logicalTimestamp" op.logical_timestamp (
                              integer_field "schemaVersion" op.schema_version (
                                integer_field "protocolVersion" op.protocol_version
                                  close))))))))))))))

  unfoldable pub envelope_object : SyncEnvelope Leaf → Value Leaf
  unfolding operation_object
  envelope_object e = object (
      text_field "envelopeId" e.envelope_id (
        text_field "signedAt" e.signed_at (
          text_field "signerPublicKey" e.signer_public_key (
            text_field "signature" e.signature
              (field (units "operation") (operation_object e.operation) close)))))
