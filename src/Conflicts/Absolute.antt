-- ===== src/Conflicts/Absolute.antt =====
-- The rule CS-010 and the additive and append-only strategies of ConflictRegistry and ConflictEngine.
use Prim.Native.Nat.{Ordering}
use tauri_boilerplate.Base.{
  eq_iff, ◌≡◌, ◌≢◌, refl, ap, ◌∙◌, true, String, string_eq, truthy, some, arith, Result, ok, err,
  ok_injective, ◌>>=◌, >>=-eq-ok,
}
use tauri_boilerplate.Clock.Format.{Text}
use tauri_boilerplate.Clock.{compare}
use tauri_boilerplate.Conflicts.Types.{
  additive, strategy_eq, ConflictPolicy, Numbers, Payload, SyncEnvelope,
}
use tauri_boilerplate.Conflicts.Registry
use tauri_boilerplate.Conflicts.Registry.{
  ConflictRegistry, ResolveConflictInput, Resolution, is_absolute_lww_field, get_policy,
  is_absolute, field_key, check_absolute, RegistryError, additive_on_absolute,
}
use tauri_boilerplate.Conflicts.Engine
use tauri_boilerplate.Conflicts.Engine.{
  EngineError, absolute_field, ConflictResolutionResult, guard_additive, number_at, spread,
  merge_payload,
}

truthy-some : (field : String) → field ≢ "" → truthy (some field) ≡ some field
truthy-some field named = ground (arith, eq_iff field "")

module _ {N : Numbers} {Other : Type 0} where
  -- The additive branch throws on an absolute field.
  resolve_by-absolute :
      (policy : ConflictPolicy) (cmp : Ordering) (i : ResolveConflictInput N Other)
      (r : ConflictRegistry N Other) (field : String)
      → i.field ≡ some field
      → field ≢ ""
      → is_absolute_lww_field i.entity_type field r ≡ true
      → policy.strategy ≡ additive
      → Registry.resolve_by policy cmp i r
        ≡ err (additive_on_absolute (field_key i.entity_type field))
  unfolding Registry.resolve_by is_absolute_lww_field
  resolve_by-absolute policy cmp i r field f named absolute s =
      rw (s, f, truthy-some field named, absolute) refl

module _ {N : Numbers} {Other : Type 0} (locale_compare : Text → Text → Ordering) where
  open N use {Num, add}

  -- An engine with a registry never applies the additive strategy to a field that was declared absolute:
  -- it throws before it looks at the operations.
  pub engine-refuses_absolute :
      (r : ConflictRegistry N Other) (policy : ConflictPolicy) (x y : SyncEnvelope N Other)
      (field : String)
      → policy.strategy ≡ additive
      → field ≢ ""
      → is_absolute_lww_field x.operation.entity_type field r ≡ true
      → Engine.resolve locale_compare (some r) policy x y (some field) ≡ err (absolute_field field)
  unfolding Engine.resolve guard_additive
  engine-refuses_absolute r policy x y field s named absolute =
      rw (s, truthy-some field named, absolute) refl

  -- What `resolve` did where it returned.
  resolve_steps :
      (now : String) (i : ResolveConflictInput N Other) (r : ConflictRegistry N Other)
      (out : Resolution N Other)
      → Registry.resolve locale_compare now i r ≡ ok out
      → let policy = get_policy i.entity_type i.field r in
        (cmp : Ordering) × (picked : Registry.Winner × Payload N Other) × (Registry.resolve_by
            policy cmp i r
          ≡ ok picked)
        × (Registry.record_of now policy picked ≡ out)
  unfolding Registry.resolve
  resolve_steps now i r out e =
      let policy = get_policy i.entity_type i.field r in
      let pick = λ (cmp : Ordering). Registry.resolve_by policy cmp i r in
      let finish : Registry.Winner × Payload N Other → Result RegistryError (Resolution N Other) =
        λ p. ok (Registry.record_of now policy p) in
      let (cmp, compared, rest) =
        >>=-eq-ok
          (Registry.or_rethrow (compare locale_compare i.local_timestamp i.remote_timestamp))
          (λ cmp. pick cmp >>= finish) e in
      let (picked, by_policy, stored) = >>=-eq-ok (pick cmp) finish rest in
      (cmp, picked, by_policy, ok_injective stored)

  -- A registry never sums the values of a field that was declared absolute, whatever policies were
  -- registered and in whatever order: what it resolves was resolved by another strategy.
  pub registry-never_sums_absolute :
      (now : String) (i : ResolveConflictInput N Other) (r : ConflictRegistry N Other)
      (out : Resolution N Other) (field : String)
      → i.field ≡ some field
      → field ≢ ""
      → is_absolute_lww_field i.entity_type field r ≡ true
      → Registry.resolve locale_compare now i r ≡ ok out
      → out.strategy ≢ additive
  registry-never_sums_absolute now i r out field f named absolute e s =
      let policy = get_policy i.entity_type i.field r in
      let (cmp, picked, by_policy, same) = resolve_steps now i r out e in
      let same_strategy = ap (λ (o : Resolution N Other). o.strategy) same in
      let thrown = resolve_by-absolute policy cmp i r field f named absolute (same_strategy ∙ s) in
      cc
