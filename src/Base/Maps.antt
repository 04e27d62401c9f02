-- ===== src/Base/Maps.antt =====
-- JavaScript's `Map` and `Set` with text keys, in insertion order.
use Prim.Native.String.{String}
use mathlib.Core.Path.{◌≡◌, refl}
use mathlib.Core.Logic.{inl, inr}
use mathlib.Core.Bool.{Bool, true, false}
use mathlib.Core.List.{List, [], ◌∷◌}
use mathlib.Core.Option.{Option, none, some}
use native.Mathlib.Omega.{arith}
use text.Mathlib.TextEquality.{eq_iff}
use tauri_boilerplate.Base.Tests.{◌==◌, string_eq, Bool-cases, if◌then◌else◌}

abbrev pub Dict {ℓ} : Type ℓ → Type ℓ
Dict V = List (String × V)

module _ {ℓ} {V : Type ℓ} where
  -- `m.get(k)`
  abbrev pub get : String → Dict V → Option V
  get k [] = none
  get k ((j, v) ∷ m) = if j == k then some v else get k m

  -- `m.has(k)`
  abbrev pub has : String → Dict V → Bool
  has k [] = false
  has k ((j, v) ∷ m) = if j == k then true else has k m

  -- `m.set(k, v)`: an entry that is there keeps its place.
  abbrev pub put : String → V → Dict V → Dict V
  put k v [] = (k, v) ∷ []
  put k v ((j, w) ∷ m) = if j == k then (k, v) ∷ m else (j, w) ∷ put k v m

  pub get-put :
      (k j : String) (v : V) (m : Dict V) → get j (put k v m) ≡ (if k == j then some v else get j m)
  get-put k j v [] = refl
  get-put k j v ((i, w) ∷ m) = ground (arith, eq_iff k j, eq_iff i k, eq_iff i j, get-put k j v m)

  pub has-put :
      (k j : String) (v : V) (m : Dict V) → has j (put k v m) ≡ (if k == j then true else has j m)
  has-put k j v [] = refl
  has-put k j v ((i, w) ∷ m) = ground (arith, eq_iff k j, eq_iff i k, eq_iff i j, has-put k j v m)

  pub get-none_of_has : (k : String) (m : Dict V) → has k m ≡ false → get k m ≡ none
  get-none_of_has k [] h = refl
  get-none_of_has k ((j, v) ∷ m) h = ground (arith, get-none_of_has k m)

  pub get-some_of_has : (k : String) (m : Dict V) → has k m ≡ true → (v : V) × (get k m ≡ some v)
  get-some_of_has k [] h = cc
  get-some_of_has k ((j, v) ∷ m) h = elim (Bool-cases (j == k)) [
    | inl e ↦ (v, rw e)
    | inr e ↦ rw e (get-some_of_has k m (rw e at h))
  ]
