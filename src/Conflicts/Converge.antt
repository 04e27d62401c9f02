-- ===== src/Conflicts/Converge.antt =====
-- What two replicas that meet each other's operation make of a conflict.
use Prim.Native.Nat.{Ordering}
use tauri_boilerplate.Base.{
  ◌≡◌, ◌≢◌, ◌⊎◌, inl, inr, refl, sym, Bool, true, false, String, string_eq, if_ind, Option, none,
  some, ok,
}
use tauri_boilerplate.Clock.Format.{Text}
use tauri_boilerplate.Clock.{compare}
use tauri_boilerplate.Clock.Order.{flip, IsCollation, compare-flip}
use tauri_boilerplate.Conflicts.Types.{
  ConflictStrategy, lww, append_only, additive, manual, immutable, crdt, strategy_eq,
  ConflictPolicy, Numbers, SyncEnvelope,
}
use tauri_boilerplate.Conflicts.Registry.{ConflictRegistry, is_not_older}
use tauri_boilerplate.Conflicts.Engine.{
  ConflictResolutionResult, newer_envelope, guard_additive, by_timestamp, resolve_by, resolve,
}

-- The strategies that compare timestamps.
abbrev pub is_timed : ConflictStrategy → Bool
is_timed lww = true
is_timed crdt = true
is_timed _ = false

module _ {N : Numbers} {Other : Type 0} where
  timed-guard :
      (r : Option (ConflictRegistry N Other)) (strategy : ConflictStrategy) (entity_type : String)
      (field : Option String)
      → is_timed strategy ≡ true
      → guard_additive r strategy entity_type field ≡ ok tt
  unfolding guard_additive
  timed-guard none s entity_type field timed = refl
  timed-guard (some r) lww entity_type field timed = refl
  timed-guard (some r) crdt entity_type field timed = refl
  timed-guard (some r) append_only entity_type field timed = cc
  timed-guard (some r) additive entity_type field timed = cc
  timed-guard (some r) manual entity_type field timed = cc
  timed-guard (some r) immutable entity_type field timed = cc

  newer-flip :
      (o : Ordering) (x y : SyncEnvelope N Other)
      → o ≢ Ordering.eq
      → (newer_envelope (flip o) y x).resolved_envelope ≡ (newer_envelope o x y).resolved_envelope
  newer-flip Ordering.lt x y apart = refl
  newer-flip Ordering.eq x y apart = absurd (apart refl)
  newer-flip Ordering.gt x y apart = refl

  module _ (locale_compare : Text → Text → Ordering) where
    -- Under a strategy that compares, `resolve` gives the newer envelope.
    resolve-timed :
        (r : Option (ConflictRegistry N Other)) (policy : ConflictPolicy)
        (x y : SyncEnvelope N Other) (field : Option String) {o : Ordering}
        → is_timed policy.strategy ≡ true
        → compare locale_compare x.operation.logical_timestamp y.operation.logical_timestamp ≡ ok o
        → resolve locale_compare r policy x y field ≡ ok (newer_envelope o x y)
    unfolding resolve by_timestamp
    resolve-timed r policy x y field {o} timed e =
        rw (timed-guard r policy.strategy x.operation.entity_type field timed, resolve)
          (go policy.strategy timed)
      where
        go :
            (s : ConflictStrategy)
            → is_timed s ≡ true
            → resolve_by locale_compare s field x y ≡ ok (newer_envelope o x y)
        go lww timed = rw e refl
        go crdt timed = rw e refl
        go append_only timed = cc
        go additive timed = cc
        go manual timed = cc
        go immutable timed = cc

    -- Two replicas, each with an operation that the other receives, keep the same one of the two under a
    -- strategy that compares timestamps, whatever their registries, where the timestamps are well formed
    -- and differ and `localeCompare` is a consistent comparator. Both resolutions return.
    pub resolve_converges :
        IsCollation locale_compare
        → (r s : Option (ConflictRegistry N Other)) (policy : ConflictPolicy)
          (x y : SyncEnvelope N Other) (field : Option String) (o : Ordering)
        → is_timed policy.strategy ≡ true
        → compare locale_compare x.operation.logical_timestamp y.operation.logical_timestamp ≡ ok o
        → o ≢ Ordering.eq
        → (a : ConflictResolutionResult N Other) × (b : ConflictResolutionResult N Other) × (resolve
              locale_compare r policy x y field
            ≡ ok a)
          × (resolve locale_compare s policy y x field ≡ ok b)
          × (a.resolved_envelope ≡ b.resolved_envelope)
          × ((a.resolved_envelope ≡ some x) ⊎ (a.resolved_envelope ≡ some y))
    resolve_converges laws r s policy x y field o timed e apart =
        let e' =
          compare-flip locale_compare laws x.operation.logical_timestamp
            y.operation.logical_timestamp e in
        (
          newer_envelope o x y,
          newer_envelope (flip o) y x,
          resolve-timed r policy x y field timed e,
          resolve-timed s policy y x field timed e',
          sym (newer-flip o x y apart),
          if_ind
              (λ (a : ConflictResolutionResult N Other).
                (a.resolved_envelope ≡ some x) ⊎ (a.resolved_envelope ≡ some y))
              (is_not_older o) (λ _. inl refl) (λ _. inr refl),
        )
