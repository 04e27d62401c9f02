-- ===== src/Conflicts/Additive.antt =====
-- The additive strategy of ConflictEngine on objects.
use Prim.Native.Nat.{Ordering}
use tauri_boilerplate.Base.{
  ◌≡◌, ◌≢◌, refl, ap, ◌∙◌, String, string_eq, ==_refl, truthy, Option, some, arith, eq_iff, Dict,
  get, put, get-put, ok,
}
use tauri_boilerplate.Clock.Format.{Text}
use tauri_boilerplate.Conflicts.Types.{
  additive, ConflictPolicy, Numbers, Value, Payload, SyncEnvelope,
}
use tauri_boilerplate.Conflicts.Registry.{ConflictRegistry}
use tauri_boilerplate.Conflicts.Engine
use tauri_boilerplate.Conflicts.Engine.{
  EngineError, guard_additive, number_at, spread, with_payload, merge_payload, resolve,
}

truthy-some : (field : String) → field ≢ "" → truthy (some field) ≡ some field
truthy-some field named = ground (arith, eq_iff field "")

module _ {N : Numbers} {Other : Type 0} where
  open N use {Num, add}

  merge-sum :
      (field : String) (a b : Dict (Value N Other))
      → field ≢ ""
      → (m : Dict (Value N Other)) × (merge_payload
            (some field)
            (Payload.object a)
            (Payload.object b)
          ≡ Payload.object m)
        × (get field m
            ≡ some (Value.number (add (number_at (get field a)) (number_at (get field b)))))
  merge-sum field a b named =
      let sum = Value.number (add (number_at (get field a)) (number_at (get field b))) in
      (
        put field sum (spread a b),
        refl,
        get-put field field sum (spread a b) ∙ rw (==_refl field) refl,
      )

  module _ (locale_compare : Text → Text → Ordering) where
    resolve-sum :
        (r : Option (ConflictRegistry N Other)) (policy : ConflictPolicy)
        (x y : SyncEnvelope N Other) (field : String) (a b : Dict (Value N Other))
        → policy.strategy ≡ additive
        → field ≢ ""
        → guard_additive r additive x.operation.entity_type (some field) ≡ ok tt
        → x.operation.payload ≡ Payload.object a
        → y.operation.payload ≡ Payload.object b
        → (m : Dict (Value N Other)) × (resolve locale_compare r policy x y (some field)
            ≡ ok (record {
              winner = Engine.merge;
              resolved_envelope = some (with_payload y (Payload.object m));
            }))
          × (get field m
              ≡ some (Value.number (add (number_at (get field a)) (number_at (get field b)))))
    unfolding resolve Engine.resolve_by
    resolve-sum r policy x y field a b s named allowed pa pb =
        let (m, merged, got) = merge-sum field a b named in
        (
          m,
          rw (s, allowed, resolve, Engine.resolve_by, pa, pb, truthy-some field named)
              (ap
                (λ (p : Payload N Other).
                  ok
                    (record { winner = Engine.merge; resolved_envelope = some (with_payload y p) }))
                merged),
          got,
        )

    -- Two replicas that merge two objects under the additive strategy hold the same sum in the field,
    -- where addition commutes and neither engine's registry refuses the field.
    pub additive_converges :
        ((m n : Num) → add m n ≡ add n m)
        → (r s : Option (ConflictRegistry N Other)) (policy : ConflictPolicy)
          (x y : SyncEnvelope N Other) (field : String) (a b : Dict (Value N Other))
        → policy.strategy ≡ additive
        → field ≢ ""
        → guard_additive r additive x.operation.entity_type (some field) ≡ ok tt
        → guard_additive s additive y.operation.entity_type (some field) ≡ ok tt
        → x.operation.payload ≡ Payload.object a
        → y.operation.payload ≡ Payload.object b
        → (m : Dict (Value N Other)) × (n : Dict (Value N Other)) × (resolve locale_compare r policy
              x y
              (some field)
            ≡ ok (record {
              winner = Engine.merge;
              resolved_envelope = some (with_payload y (Payload.object m));
            }))
          × (resolve locale_compare s policy y x (some field)
              ≡ ok (record {
                winner = Engine.merge;
                resolved_envelope = some (with_payload x (Payload.object n));
              }))
          × (get field m
              ≡ some (Value.number (add (number_at (get field a)) (number_at (get field b)))))
          × (get field n ≡ get field m)
    additive_converges comm r s policy x y field a b st named here there pa pb =
        let (m, mine, sum) = resolve-sum r policy x y field a b st named here pa pb in
        let (n, theirs, sum') = resolve-sum s policy y x field b a st named there pb pa in
        let swap = comm (number_at (get field b)) (number_at (get field a)) in
        (m, n, mine, theirs, sum, cc)
