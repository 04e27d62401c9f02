-- ===== src/Conflicts/Engine.antt =====
-- ConflictEngine of packages/sync/src/conflict/ConflictEngine.ts.
use Prim.Native.Nat.{Ordering}
use tauri_boilerplate.Base.{
  if◌then◌else◌, String, ◌==◌, string_eq, truthy, Option, none, some, [], ◌∷◌, Dict, get, put,
  Result, ok, err, ◌>>=◌, ◌>>◌, throw_if,
}
use tauri_boilerplate.Clock.Format.{Text}
use tauri_boilerplate.Clock.Parse.{RangeError}
use tauri_boilerplate.Clock.{compare}
use tauri_boilerplate.Conflicts.Types.{
  ConflictStrategy, lww, append_only, additive, manual, immutable, crdt, strategy_eq,
  ConflictPolicy, Numbers, Value, Payload, SyncEnvelope,
}
use tauri_boilerplate.Conflicts.Registry.{
  ConflictRegistry, RegistryError, is_not_older, is_absolute_lww_field, validate,
}

pub data ResolutionWinner : Type 0 where
  local remote merge manual_required : ResolutionWinner

pub data EngineError : Type 0 where
  absolute_field : (field : String) → EngineError
  forbidden : RegistryError → EngineError
  bad_timestamp : RangeError → EngineError

abbrev or_rethrow {ℓ} : {A : Type ℓ} → Result RangeError A → Result EngineError A
or_rethrow (ok a) = ok a
or_rethrow (err e) = err (bad_timestamp e)

-- The `catch` around `validate`.
abbrev or_forbid {ℓ} : {A : Type ℓ} → Result RegistryError A → Result EngineError A
or_forbid (ok a) = ok a
or_forbid (err e) = err (forbidden e)

module _ (N : Numbers) (Other : Type 0) where
  -- ConflictResolutionResult, without the text of the reason
  pub record ConflictResolutionResult : Type 0 where
    pub winner : ResolutionWinner
    pub resolved_envelope : Option (SyncEnvelope N Other)

module _ {N : Numbers} {Other : Type 0} where
  open N use {Num, zero, add}

  -- `typeof o[field] === "number" ? o[field] : 0`
  abbrev pub number_at : Option (Value N Other) → Num
  number_at (some (Value.number n)) = n
  number_at _ = zero

  -- `{ ...a, ...b }`
  unfoldable pub spread : Dict (Value N Other) → Dict (Value N Other) → Dict (Value N Other)
  spread a [] = a
  spread a ((k, v) ∷ b) = spread (put k v a) b

  abbrev pub merge_objects :
      Option String → Dict (Value N Other) → Dict (Value N Other) → Payload N Other
  merge_objects none a b = Payload.object b
  merge_objects (some field) a b = Payload.object (
      put field (Value.number (add (number_at (get field a)) (number_at (get field b))))
        (spread a b))

  -- The merged payload of the additive strategy; `field` is present where it is truthy.
  abbrev pub merge_payload : Option String → Payload N Other → Payload N Other → Payload N Other
  merge_payload field (Payload.number a) (Payload.number b) = Payload.number (add a b)
  merge_payload field (Payload.object a) (Payload.object b) = merge_objects field a b
  merge_payload field a b = b

  -- `{ ...remoteEnvelope, operation: { ...remoteEnvelope.operation, payload } }`
  abbrev pub with_payload : SyncEnvelope N Other → Payload N Other → SyncEnvelope N Other
  with_payload e p = record e { operation = record e.operation { payload = p } }

  abbrev pub newer_envelope :
      Ordering → SyncEnvelope N Other → SyncEnvelope N Other → ConflictResolutionResult N Other
  newer_envelope cmp mine theirs =
      if is_not_older cmp
      then record { winner = local; resolved_envelope = some mine }
      else record { winner = remote; resolved_envelope = some theirs }

  abbrev declared_absolute :
      Option String → String → ConflictRegistry N Other → Result EngineError (Unit {0})
  declared_absolute none entity_type r = ok tt
  declared_absolute (some field) entity_type r =
      throw_if (is_absolute_lww_field entity_type field r) (absolute_field field)

  -- The guard in front of the `switch`.
  unfoldable pub guard_additive :
      Option (ConflictRegistry N Other)
      → ConflictStrategy
      → String
      → Option String
      → Result EngineError (Unit {0})
  unfolding is_absolute_lww_field validate
  guard_additive none strategy entity_type field = ok tt
  guard_additive (some r) strategy entity_type field =
      if strategy == additive
      then (do
        declared_absolute (truthy field) entity_type r
        or_forbid (validate entity_type field r))
      else ok tt

  module _ (locale_compare : Text → Text → Ordering) where
    -- The branch for `lww` and `crdt`.
    unfoldable pub by_timestamp :
        SyncEnvelope N Other
        → SyncEnvelope N Other
        → Result EngineError (ConflictResolutionResult N Other)
    by_timestamp mine theirs = do
      cmp ← or_rethrow (
          compare locale_compare mine.operation.logical_timestamp
            theirs.operation.logical_timestamp)
      ok (newer_envelope cmp mine theirs)

    -- The `switch` of `resolve`.
    unfoldable pub resolve_by :
        ConflictStrategy
        → Option String
        → SyncEnvelope N Other
        → SyncEnvelope N Other
        → Result EngineError (ConflictResolutionResult N Other)
    unfolding by_timestamp
    resolve_by lww field mine theirs = by_timestamp mine theirs
    resolve_by append_only field mine theirs =
        ok (record { winner = remote; resolved_envelope = some theirs })
    resolve_by immutable field mine theirs =
        ok (record { winner = local; resolved_envelope = some mine })
    resolve_by manual field mine theirs =
        ok (record { winner = manual_required; resolved_envelope = none })
    resolve_by additive field mine theirs = ok (record {
      winner = merge;
      resolved_envelope = some (
          with_payload theirs
            (merge_payload (truthy field) mine.operation.payload theirs.operation.payload));
    })
    resolve_by crdt field mine theirs = by_timestamp mine theirs

    -- resolve(policy, localEnvelope, remoteEnvelope, field) of an engine with the registry `r`
    unfoldable pub resolve :
        Option (ConflictRegistry N Other)
        → ConflictPolicy
        → (mine theirs : SyncEnvelope N Other) → Option String
        → Result EngineError (ConflictResolutionResult N Other)
    unfolding guard_additive resolve_by
    resolve r policy mine theirs field = do
      guard_additive r policy.strategy mine.operation.entity_type field
      resolve_by policy.strategy field mine theirs
