-- ===== src/Conflicts/Registry.antt =====
-- ConflictRegistry of packages/sync-protocol/src/conflicts/ConflictRegistry.ts.
use Prim.Native.Nat.{Ordering}
use Prim.Native.String.{◌++◌}
use tauri_boilerplate.Base.{
  Bool, true, false, ◌&&◌, if◌then◌else◌, String, ◌==◌, string_eq, truthy, Option, none, some, List,
  [], ◌∷◌, any, Dict, get, has, put, Result, ok, err, ◌>>=◌, ◌>>◌, throw_if,
}
use tauri_boilerplate.Clock.Format.{Text}
use tauri_boilerplate.Clock.Parse.{RangeError}
use tauri_boilerplate.Clock.{compare}
use tauri_boilerplate.Conflicts.Types.{
  ConflictStrategy, lww, append_only, additive, manual, immutable, crdt, strategy_eq,
  ConflictPolicy, Numbers, Payload,
}

pub data RegistryError : Type 0 where
  entity_policy_exists : (entity_type : String) → RegistryError
  additive_on_absolute : (key : String) → RegistryError
  bad_timestamp : RangeError → RegistryError
  resolver_failed : (message : String) → RegistryError

pub data Winner : Type 0 where
  local remote custom manual_required : Winner

-- `${entityType}.${field}`
abbrev pub field_key : String → String → String
field_key entity_type field = entity_type ++ "." ++ field

-- `cmp >= 0`
abbrev pub is_not_older : Ordering → Bool
is_not_older Ordering.lt = false
is_not_older _ = true

abbrev pub or_rethrow {ℓ} : {A : Type ℓ} → Result RangeError A → Result RegistryError A
or_rethrow (ok a) = ok a
or_rethrow (err e) = err (bad_timestamp e)

abbrev or_else {ℓ} : {A : Type ℓ} → Option A → A → A
or_else none a = a
or_else (some b) a = b

module _ (N : Numbers) (Other : Type 0) where
  pub record ResolveConflictInput : Type 0 where
    pub entity_id : String
    pub entity_type : String
    pub field : Option String
    pub local_value : Payload N Other
    pub remote_value : Payload N Other
    pub local_timestamp : Text
    pub remote_timestamp : Text

  -- A registered function, which may throw.
  abbrev pub ConflictResolverFn : Type 0
  ConflictResolverFn = ResolveConflictInput → Result RegistryError (Payload N Other)

  pub record ConflictRegistry : Type 0 where
    pub entity_policies : Dict ConflictPolicy
    pub field_policies : Dict ConflictPolicy
    pub custom_resolvers : Dict ConflictResolverFn
    pub absolute_lww_fields : List String

  -- What `resolve` returns, with what the record adds to the input.
  pub record Resolution : Type 0 where
    pub winner : Winner
    pub resolved_value : Payload N Other
    pub strategy : ConflictStrategy
    pub resolved_at : String

module _ {N : Numbers} {Other : Type 0} where
  open N use {Num, zero, add}

  pub new_registry : ConflictRegistry N Other
  new_registry = record {
    entity_policies = [];
    field_policies = [];
    custom_resolvers = [];
    absolute_lww_fields = [];
  }

  -- `this.absoluteLwwFields.has(key)`
  abbrev pub is_absolute : String → ConflictRegistry N Other → Bool
  is_absolute key r = any (λ k. k == key) r.absolute_lww_fields

  -- registerAbsoluteLwwField: a Set takes a member once.
  unfoldable pub register_absolute_lww_field :
      String → String → ConflictRegistry N Other → ConflictRegistry N Other
  register_absolute_lww_field entity_type field r =
      if is_absolute (field_key entity_type field) r
      then r
      else record r { absolute_lww_fields = field_key entity_type field ∷ r.absolute_lww_fields }

  -- isAbsoluteLwwField
  unfoldable pub is_absolute_lww_field : String → String → ConflictRegistry N Other → Bool
  is_absolute_lww_field entity_type field r = is_absolute (field_key entity_type field) r

  -- registerEntityPolicy
  unfoldable pub register_entity_policy :
      String
      → ConflictPolicy
      → ConflictRegistry N Other
      → Result RegistryError (ConflictRegistry N Other)
  register_entity_policy entity_type policy r = do
    throw_if (has entity_type r.entity_policies) (entity_policy_exists entity_type)
    ok (record r { entity_policies = put entity_type policy r.entity_policies })

  -- registerFieldPolicy
  unfoldable pub register_field_policy :
      String
      → String
      → ConflictPolicy
      → ConflictRegistry N Other
      → Result RegistryError (ConflictRegistry N Other)
  register_field_policy entity_type field policy r =
      let key = field_key entity_type field in
      do
        throw_if (policy.strategy == additive && is_absolute key r) (additive_on_absolute key)
        ok (record r { field_policies = put key policy r.field_policies })

  -- registerCustomResolver
  unfoldable pub register_custom_resolver :
      String → ConflictResolverFn N Other → ConflictRegistry N Other → ConflictRegistry N Other
  register_custom_resolver name fn r = record r {
    custom_resolvers = put name fn r.custom_resolvers;
  }

  abbrev entity_policy : String → ConflictRegistry N Other → ConflictPolicy
  entity_policy entity_type r =
      or_else (get entity_type r.entity_policies)
        (record { strategy = lww; custom_resolver_fn = none })

  abbrev policy_of : String → Option String → ConflictRegistry N Other → ConflictPolicy
  policy_of entity_type none r = entity_policy entity_type r
  policy_of entity_type (some field) r =
      or_else (get (field_key entity_type field) r.field_policies) (entity_policy entity_type r)

  -- getPolicy
  unfoldable pub get_policy : String → Option String → ConflictRegistry N Other → ConflictPolicy
  get_policy entity_type field r = policy_of entity_type (truthy field) r

  -- The check that `validate` and `resolve` share: an additive policy on an absolute field throws.
  abbrev pub check_absolute :
      String → Option String → ConflictRegistry N Other → Result RegistryError (Unit {0})
  check_absolute entity_type none r = ok tt
  check_absolute entity_type (some field) r =
      throw_if (is_absolute (field_key entity_type field) r)
        (additive_on_absolute (field_key entity_type field))

  -- validate
  unfoldable pub validate :
      String → Option String → ConflictRegistry N Other → Result RegistryError (Unit {0})
  unfolding get_policy
  validate entity_type field r =
      if (get_policy entity_type field r).strategy == additive
      then check_absolute entity_type (truthy field) r
      else ok tt

  -- `typeof v === "number" ? v : 0`
  abbrev pub number_or_zero : Payload N Other → Num
  number_or_zero (Payload.number n) = n
  number_or_zero _ = zero

  -- The later value, the local one of two equal stamps.
  abbrev pub newer : Ordering → ResolveConflictInput N Other → Winner × Payload N Other
  newer cmp i = if is_not_older cmp then (local, i.local_value) else (remote, i.remote_value)

  abbrev run_resolver :
      Option (ConflictResolverFn N Other)
      → Ordering
      → ResolveConflictInput N Other
      → Result RegistryError (Winner × Payload N Other)
  run_resolver none cmp i = ok (newer cmp i)
  run_resolver (some fn) cmp i = do v ← fn i; ok (custom, v)

  abbrev find_resolver :
      Option String → ConflictRegistry N Other → Option (ConflictResolverFn N Other)
  find_resolver none r = none
  find_resolver (some name) r = get name r.custom_resolvers

  -- The `switch` of `resolve`.
  unfoldable pub resolve_by :
      ConflictPolicy
      → Ordering
      → ResolveConflictInput N Other
      → ConflictRegistry N Other
      → Result RegistryError (Winner × Payload N Other)
  resolve_by policy cmp i r = elim policy.strategy [
    | lww ↦ ok (newer cmp i)
    | append_only ↦ ok (local, i.local_value)
    | immutable ↦ ok (local, i.local_value)
    | additive ↦ do
      check_absolute i.entity_type (truthy i.field) r
      ok (
        custom,
        Payload.number (add (number_or_zero i.local_value) (number_or_zero i.remote_value)),
      )
    | manual ↦ ok (manual_required, i.local_value)
    | crdt ↦ run_resolver (find_resolver (truthy policy.custom_resolver_fn) r) cmp i
  ]

  abbrev pub record_of :
      (now : String) → ConflictPolicy → Winner × Payload N Other → Resolution N Other
  record_of now policy picked = record {
    winner = picked.0;
    resolved_value = picked.1;
    strategy = policy.strategy;
    resolved_at = now;
  }

  module _ (locale_compare : Text → Text → Ordering) where
    -- resolve(input), where the time of the record is `now`
    unfoldable pub resolve :
        (now : String)
        → ResolveConflictInput N Other
        → ConflictRegistry N Other
        → Result RegistryError (Resolution N Other)
    unfolding get_policy resolve_by
    resolve now i r =
        let policy = get_policy i.entity_type i.field r in
        do
          cmp ← or_rethrow (compare locale_compare i.local_timestamp i.remote_timestamp)
          picked ← resolve_by policy cmp i r
          ok (record_of now policy picked)
