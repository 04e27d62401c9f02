-- ===== src/Conflicts/Types.antt =====
-- The types of packages/sync-protocol/src/types.ts that conflict resolution reads.
use tauri_boilerplate.Base.{ℕ, ◌≡◌, ◌↔◌, Bool, true, String, Option, StrictEq, nat_beq, arith, Dict}
use tauri_boilerplate.Clock.Format.{Text}

pub data ConflictStrategy : Type 0 where
  lww append_only additive manual immutable crdt : ConflictStrategy

abbrev code : ConflictStrategy → ℕ
code lww = 0
code append_only = 1
code additive = 2
code manual = 3
code immutable = 4
code crdt = 5

abbrev pub strategy_beq : ConflictStrategy → ConflictStrategy → Bool
strategy_beq s t = nat_beq (code s) (code t)

pub strategy_beq_iff : (s t : ConflictStrategy) → (strategy_beq s t ≡ true) ↔ (s ≡ t)
strategy_beq_iff s t = ground arith

instance abbrev pub strategy_eq : StrictEq ConflictStrategy
strategy_eq = record { is_same = strategy_beq; is_same_iff = strategy_beq_iff }

pub record ConflictPolicy : Type 0 where
  pub strategy : ConflictStrategy
  pub custom_resolver_fn : Option String

-- The language's numbers, as the sums of deltas use them.
pub record Numbers : Type 1 where
  pub Num : Type 0
  pub zero : Num
  pub add : Num → Num → Num

module _ (N : Numbers) (Other : Type 0) where
  open N use {Num, zero}

  -- A value inside an object: a number, or a value of any other kind.
  pub data Value : Type 0 where
    number : Num → Value
    other : Other → Value

  -- `unknown`: a number, an object by its own entries, or a value of any other kind.
  pub data Payload : Type 0 where
    number : Num → Payload
    object : Dict Value → Payload
    other : Other → Payload

  pub record SyncOperation : Type 0 where
    pub operation_id : String
    pub application_id : String
    pub organisation_id : String
    pub sync_group_id : String
    pub feature_id : String
    pub entity_type : String
    pub entity_id : String
    pub operation : String
    pub payload : Payload
    pub author_id : String
    pub device_id : String
    pub logical_timestamp : Text
    pub schema_version : ℕ
    pub protocol_version : ℕ

  pub record SyncEnvelope : Type 0 where
    pub envelope_id : String
    pub signed_at : String
    pub signer_public_key : String
    pub signature : String
    pub operation : SyncOperation
