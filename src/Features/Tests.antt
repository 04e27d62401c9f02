-- ===== src/Features/Tests.antt =====
-- Runs of the dependency resolver.
use tauri_boilerplate.Base.{◌≡◌, ◌≢◌, refl, true, String, List, [], ◌∷◌, All, ok, err}
use tauri_boilerplate.Features.Resolver.{
  FeatureManifest, ResolvedFeatureGraph, Manifests, index, missing_dependency, circular_dependency,
  duplicate_feature, permission_collision, out_of_fuel, order_migrations, resolve,
}
use tauri_boilerplate.Features.Order.{DependenciesFirst, is_among}
use tauri_boilerplate.Features.Visit.{resolve-DependenciesFirst}
use tauri_boilerplate.Features.Once.{Once, IsKnown}
use tauri_boilerplate.Features.Exactly.{resolve-Once}
use tauri_boilerplate.Features.Cycle.{Reaches, resolve-cycle}
use tauri_boilerplate.Features.Total.{resolve-ends}

abbrev feature : String → List String → List String → FeatureManifest
feature id dependencies optional = record {
  id = id;
  dependencies = dependencies;
  optional_dependencies = optional;
  permissions = id ∷ [];
  migrations = record { version = 2; name = "b" } ∷ record { version = 1; name = "a" } ∷ [];
}

-- "shop" needs "stock", which needs "base"; "base" would use "audit" and "absent".
abbrev features : List FeatureManifest
features =
    feature "shop" ("stock" ∷ []) []
    ∷ feature "stock" ("base" ∷ []) []
    ∷ feature "base" [] ("audit" ∷ "absent" ∷ [])
    ∷ feature "audit" [] []
    ∷ []

abbrev ordered : List FeatureManifest
ordered =
    feature "audit" [] []
    ∷ feature "base" [] ("audit" ∷ "absent" ∷ [])
    ∷ feature "stock" ("base" ∷ []) []
    ∷ feature "shop" ("stock" ∷ []) []
    ∷ []

abbrev graph : ResolvedFeatureGraph
unfolding order_migrations
graph = record { ordered_manifests = ordered; ordered_migrations = order_migrations ordered }

resolves : resolve features ≡ ok graph
unfolding resolve graph
resolves = refl

refusals :
    (resolve (feature "a" ("b" ∷ []) [] ∷ feature "b" ("a" ∷ []) [] ∷ [])
      ≡ err (circular_dependency "a"))
    × (resolve (feature "a" ("b" ∷ []) [] ∷ []) ≡ err (missing_dependency "a" "b"))
    × (resolve (feature "a" [] [] ∷ feature "a" [] [] ∷ []) ≡ err (duplicate_feature "a"))
    × (resolve (feature "a" [] [] ∷ record (feature "b" [] []) { permissions = "a" ∷ [] } ∷ [])
        ≡ err (permission_collision "a"))
unfolding resolve
refusals = (refl, refl, refl, refl)

resolve-DependenciesFirst_example :
    (known : Manifests) × (index features [] ≡ ok known)
    × DependenciesFirst known [] ordered
    × All (λ m. is_among m.id ordered ≡ true) features
unfolding graph
resolve-DependenciesFirst_example = resolve-DependenciesFirst features graph resolves

resolve-ends_example : resolve features ≢ err out_of_fuel
resolve-ends_example = resolve-ends features

resolve-Once_example :
    (known : Manifests) × (index features [] ≡ ok known)
    × Once [] ordered
    × All (IsKnown known) ordered
unfolding graph
resolve-Once_example = resolve-Once features graph resolves

abbrev circle : List FeatureManifest
circle = feature "a" ("b" ∷ []) [] ∷ feature "b" [] ("a" ∷ []) ∷ []

circle_found : resolve circle ≡ err (circular_dependency "a")
unfolding resolve
circle_found = refl

resolve-cycle_example : (known : Manifests) × (index circle [] ≡ ok known) × Reaches known "a" "a"
resolve-cycle_example = resolve-cycle circle "a" circle_found
