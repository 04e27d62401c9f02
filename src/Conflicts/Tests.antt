-- ===== src/Conflicts/Tests.antt =====
-- Runs of conflict resolution: numbers are natural ones, and values of other kinds are texts.
use Prim.Native.Nat
use Prim.Native.Nat.{Ordering}
use tauri_boilerplate.Base.{
  ℕ, ◌+◌, ◌≡◌, ◌≢◌, ◌⊎◌, refl, arith, String, none, some, [], ◌∷◌, length, Dict, get, ok,
}
use tauri_boilerplate.Clock.Format.{Text}
use tauri_boilerplate.Clock.Parse.{parse, parse_canonical, parse_legacy, span}
use tauri_boilerplate.Clock.{compare}
use tauri_boilerplate.Clock.Order.{IsCollation}
use tauri_boilerplate.Conflicts.Types.{
  ConflictStrategy, lww, append_only, additive, ConflictPolicy, Numbers, Value, Payload,
  SyncEnvelope,
}
use tauri_boilerplate.Conflicts.Registry
use tauri_boilerplate.Conflicts.Registry.{
  ConflictRegistry, ResolveConflictInput, Resolution, is_absolute_lww_field, get_policy,
}
use tauri_boilerplate.Conflicts.Engine
use tauri_boilerplate.Conflicts.Engine.{
  ConflictResolutionResult, guard_additive, number_at, with_payload,
}
use tauri_boilerplate.Conflicts.Converge.{resolve_converges}
use tauri_boilerplate.Conflicts.Additive.{additive_converges}
use tauri_boilerplate.Conflicts.Absolute.{registry-never_sums_absolute}

abbrev naturals : Numbers
naturals = record { Num = ℕ; zero = 0; add = λ m n. m + n }

abbrev by_length : Text → Text → Ordering
by_length a b = Nat.compare (length a) (length b)

by_length-IsCollation : IsCollation by_length
by_length-IsCollation = record { flips = λ a b. ground arith; lt_trans = λ a b c h k. ground arith }

-- "18f_0_a" and "190_0_b"
abbrev older : Text
older = b'1' ∷ b'8' ∷ b'f' ∷ b'_' ∷ b'0' ∷ b'_' ∷ b'a' ∷ []

abbrev newer : Text
newer = b'1' ∷ b'9' ∷ b'0' ∷ b'_' ∷ b'0' ∷ b'_' ∷ b'b' ∷ []

abbrev envelope : String → Text → Payload naturals String → SyncEnvelope naturals String
envelope id stamp p = record {
  envelope_id = id;
  signed_at = "";
  signer_public_key = "";
  signature = "";
  operation = record {
    operation_id = id;
    application_id = "app";
    organisation_id = "org";
    sync_group_id = "g";
    feature_id = "stock";
    entity_type = "item";
    entity_id = "1";
    operation = "update";
    payload = p;
    author_id = "u";
    device_id = "d";
    logical_timestamp = stamp;
    schema_version = 1;
    protocol_version = 1;
  };
}

abbrev delta : ℕ → Dict (Value naturals String)
delta n = ("stock", Value.number n) ∷ ("note", Value.other "n") ∷ []

abbrev mine : SyncEnvelope naturals String
mine = envelope "a" older (Payload.object (delta 3))

abbrev theirs : SyncEnvelope naturals String
theirs = envelope "b" newer (Payload.object (delta 4))

abbrev by : ConflictStrategy → ConflictPolicy
by s = record { strategy = s; custom_resolver_fn = none }

older-lt-newer : compare by_length older newer ≡ ok Ordering.lt
unfolding compare parse parse_canonical parse_legacy span
older-lt-newer = refl

resolve_converges_example :
    (a : ConflictResolutionResult naturals String) × (b : ConflictResolutionResult naturals String)
    × (Engine.resolve by_length none (by lww) mine theirs none ≡ ok a)
    × (Engine.resolve by_length none (by lww) theirs mine none ≡ ok b)
    × (a.resolved_envelope ≡ b.resolved_envelope)
    × ((a.resolved_envelope ≡ some mine) ⊎ (a.resolved_envelope ≡ some theirs))
resolve_converges_example =
    resolve_converges by_length by_length-IsCollation none none (by lww) mine theirs none
      Ordering.lt refl older-lt-newer lt-eq
  where
    lt-eq : Ordering.lt ≢ Ordering.eq
    lt-eq e = cc

additive_converges_example :
    (m : Dict (Value naturals String)) × (n : Dict (Value naturals String)) × (Engine.resolve
        by_length none
        (by additive)
        mine
        theirs
        (some "stock")
      ≡ ok (record {
        winner = Engine.merge;
        resolved_envelope = some (with_payload theirs (Payload.object m));
      }))
    × (Engine.resolve by_length none (by additive) theirs mine (some "stock")
        ≡ ok (record {
          winner = Engine.merge;
          resolved_envelope = some (with_payload mine (Payload.object n));
        }))
    × (get "stock" m ≡ some (Value.number 7))
    × (get "stock" n ≡ get "stock" m)
unfolding guard_additive
additive_converges_example =
    additive_converges by_length (λ m n. omega arith) none none (by additive) mine theirs "stock"
      (delta 3) (delta 4) refl (λ e. cc) refl refl refl refl

-- Stock is declared absolute after an additive policy was registered for it.
abbrev registry : ConflictRegistry naturals String
registry = record {
  entity_policies = ("log", by append_only) ∷ [];
  field_policies = ("item.stock", by additive) ∷ [];
  custom_resolvers = [];
  absolute_lww_fields = "item.stock" ∷ [];
}

abbrev input : String → String → ResolveConflictInput naturals String
input entity_type field = record {
  entity_id = "1";
  entity_type = entity_type;
  field = some field;
  local_value = Payload.number 3;
  remote_value = Payload.number 4;
  local_timestamp = older;
  remote_timestamp = newer;
}

-- The price has no policy of its own, so the later value is taken.
abbrev price_registry : ConflictRegistry naturals String
price_registry = record registry { absolute_lww_fields = "item.price" ∷ [] }

abbrev price : Resolution naturals String
price = record {
  winner = Registry.remote;
  resolved_value = Payload.number 4;
  strategy = lww;
  resolved_at = "now";
}

registry-never_sums_absolute_example : lww ≢ additive
unfolding is_absolute_lww_field Registry.resolve get_policy Registry.resolve_by compare parse
    parse_canonical parse_legacy span
registry-never_sums_absolute_example =
    registry-never_sums_absolute by_length "now" (input "item" "price") price_registry price "price"
      refl (λ e. cc) refl refl
