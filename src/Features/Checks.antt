-- ===== src/Features/Checks.antt =====
-- The checks that `resolve` of DependencyResolver makes before it orders the features.
use tauri_boilerplate.Base.{
  ◌≡◌, refl, Bool, true, false, not, String, List, [], ◌∷◌, Dict, get, has, put, Result, ok, err,
  ◌>>=◌, ◌>>◌, throw_if,
}
use tauri_boilerplate.Features.Resolver.{
  FeatureManifest, ResolveError, duplicate_feature, permission_collision, missing_dependency,
  circular_dependency, no_manifest, out_of_fuel, Manifests, is_owned, index, own_permissions,
  check_permissions, check_present, check_missing,
}

-- The errors that only the traversal gives.
abbrev pub is_late : ResolveError → Bool
is_late (circular_dependency d) = true
is_late (no_manifest d) = true
is_late out_of_fuel = true
is_late _ = false

-- A result that is no such error.
abbrev pub Early {ℓ} : {A : Type ℓ} → Result ResolveError A → Type ℓ
Early r = (e : ResolveError) → r ≡ err e → is_late e ≡ false

Early->>= {ℓ κ} :
    {A : Type ℓ} {B : Type κ} (r : Result ResolveError A) (f : A → Result ResolveError B)
    → Early r
    → ((a : A) → Early (f a))
    → Early (r >>= f)
Early->>= (ok a) f h k = k a
Early->>= (err e) f h k = λ e' q. h e' cc

throw_if-Early :
    {A : Type 0} (b : Bool) (e : ResolveError) (k : Result ResolveError A)
    → is_late e ≡ false
    → Early k
    → Early (throw_if b e >> k)
throw_if-Early true e k h j = λ e' q. cc
throw_if-Early false e k h j = j

pub index-Early : (ms : List FeatureManifest) (known : Manifests) → Early (index ms known)
unfolding index
index-Early [] known = λ e q. cc
index-Early (m ∷ ms) known =
    throw_if-Early (has m.id known) (duplicate_feature m.id) (index ms (put m.id m known)) refl
      (index-Early ms (put m.id m known))

own_permissions-Early :
    (id : String) (ps : List String) (owners : Dict String) → Early (own_permissions id ps owners)
unfolding own_permissions
own_permissions-Early id [] owners = λ e q. cc
own_permissions-Early id (p ∷ ps) owners =
    throw_if-Early (is_owned (get p owners)) (permission_collision p)
      (own_permissions id ps (put p id owners)) refl (own_permissions-Early id ps (put p id owners))

pub check_permissions-Early :
    (ms : List FeatureManifest) (owners : Dict String) → Early (check_permissions ms owners)
unfolding check_permissions
check_permissions-Early [] owners = λ e q. cc
check_permissions-Early (m ∷ ms) owners =
    Early->>= (own_permissions m.id m.permissions owners) (check_permissions ms)
      (own_permissions-Early m.id m.permissions owners) (λ o. check_permissions-Early ms o)

check_present-Early :
    (id : String) (ds : List String) (known : Manifests) → Early (check_present id ds known)
unfolding check_present
check_present-Early id [] known = λ e q. cc
check_present-Early id (d ∷ ds) known =
    throw_if-Early (not (has d known)) (missing_dependency id d) (check_present id ds known) refl
      (check_present-Early id ds known)

pub check_missing-Early :
    (ms : List FeatureManifest) (known : Manifests) → Early (check_missing ms known)
unfolding check_missing
check_missing-Early [] known = λ e q. cc
check_missing-Early (m ∷ ms) known =
    Early->>= (check_present m.id m.dependencies known) (λ u. check_missing ms known)
      (check_present-Early m.id m.dependencies known) (λ u. check_missing-Early ms known)
