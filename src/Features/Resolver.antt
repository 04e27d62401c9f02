-- ===== src/Features/Resolver.antt =====
-- DependencyResolver of packages/feature-system/src/registry/DependencyResolver.ts.
use tauri_boilerplate.Base.{
  ℕ, zero, suc, ◌+◌, Bool, false, not, ◌==◌, string_eq, if◌then◌else◌, String, Option, none, some,
  List, [], ◌∷◌, ◌++◌, filter, map, length, Dict, get, has, put, Result, ok, err, ◌>>=◌, ◌>>◌,
  throw_if, sort_by,
}

pub record MigrationDefinition : Type 0 where
  pub version : ℕ
  pub name : String

-- FeatureManifest, as far as the resolver reads it; absent optional dependencies are none.
pub record FeatureManifest : Type 0 where
  pub id : String
  pub dependencies : List String
  pub optional_dependencies : List String
  -- The names of the permissions that the feature declares.
  pub permissions : List String
  pub migrations : List MigrationDefinition

pub data ResolveError : Type 0 where
  duplicate_feature : (id : String) → ResolveError
  permission_collision : (permission : String) → ResolveError
  missing_dependency : (feature dependency : String) → ResolveError
  circular_dependency : (id : String) → ResolveError
  -- The TypeError of a look-up that finds nothing.
  no_manifest : (id : String) → ResolveError
  out_of_fuel : ResolveError

pub data Mark : Type 0 where
  visiting visited : Mark

abbrev pub Manifests : Type 0
Manifests = Dict FeatureManifest

-- The first loop: the map of all manifests by id.
unfoldable pub index : List FeatureManifest → Manifests → Result ResolveError Manifests
index [] known = ok known
index (m ∷ ms) known = do
  throw_if (has m.id known) (duplicate_feature m.id)
  index ms (put m.id m known)

-- `if (owner)`: an owner whose id is the empty text does not count.
abbrev pub is_owned : Option String → Bool
is_owned none = false
is_owned (some owner) = not (owner == "")

-- The second loop: no permission has two owners.
unfoldable pub own_permissions :
    String → List String → Dict String → Result ResolveError (Dict String)
own_permissions id [] owners = ok owners
own_permissions id (p ∷ ps) owners = do
  throw_if (is_owned (get p owners)) (permission_collision p)
  own_permissions id ps (put p id owners)

unfoldable pub check_permissions :
    List FeatureManifest → Dict String → Result ResolveError (Unit {0})
unfolding own_permissions
check_permissions [] owners = ok tt
check_permissions (m ∷ ms) owners = do
  owners' ← own_permissions m.id m.permissions owners
  check_permissions ms owners'

-- The third loop: every hard dependency is a manifest.
unfoldable pub check_present : String → List String → Manifests → Result ResolveError (Unit {0})
check_present id [] known = ok tt
check_present id (d ∷ ds) known = do
  throw_if (not (has d known)) (missing_dependency id d)
  check_present id ds known

unfoldable pub check_missing : List FeatureManifest → Manifests → Result ResolveError (Unit {0})
unfolding check_present
check_missing [] known = ok tt
check_missing (m ∷ ms) known = do check_present m.id m.dependencies known; check_missing ms known

-- `dependencies(featureId)` on the manifest that it finds
abbrev pub dependencies_of : Manifests → FeatureManifest → List String
dependencies_of known m = m.dependencies ++ filter (λ d. has d known) m.optional_dependencies

-- A frame of the stack: the manifest under its id, and the dependencies from `nextDependency` on.
pub record Frame : Type 0 where
  pub manifest : FeatureManifest
  pub rest : List String

-- The variables of the traversal; the top of the stack comes first.
pub record Traversal : Type 0 where
  pub marks : Dict Mark
  pub order : List FeatureManifest
  pub stack : List Frame

module _ (known : Manifests) where
  -- A manifest that was not seen before is marked and put on the stack.
  abbrev pub enter : FeatureManifest → Dict Mark → List FeatureManifest → List Frame → Traversal
  enter m marks order stack = record {
    marks = put m.id visiting marks;
    order = order;
    stack = record { manifest = m; rest = dependencies_of known m } ∷ stack;
  }

  abbrev pub enter_found :
      String
      → Option FeatureManifest
      → Dict Mark
      → List FeatureManifest
      → List Frame
      → Result ResolveError Traversal
  enter_found d none marks order stack = err (no_manifest d)
  enter_found d (some m) marks order stack = ok (enter m marks order stack)

  -- One dependency of the top frame, by its mark; the stack has the frame moved past it.
  abbrev pub follow :
      String
      → Option Mark
      → Dict Mark
      → List FeatureManifest
      → List Frame
      → Result ResolveError Traversal
  follow d (some visiting) marks order stack = err (circular_dependency d)
  follow d (some visited) marks order stack =
      ok (record { marks = marks; order = order; stack = stack })
  follow d none marks order stack = enter_found d (get d known) marks order stack

  -- The body of the `while`, on the top frame.
  unfoldable pub step :
      FeatureManifest
      → List String
      → Dict Mark
      → List FeatureManifest
      → List Frame
      → Result ResolveError Traversal
  step m [] marks order frames =
      ok (record { marks = put m.id visited marks; order = order ++ m ∷ []; stack = frames })
  step m (d ∷ ds) marks order frames =
      follow d (get d marks) marks order (record { manifest = m; rest = ds } ∷ frames)

  -- The `while` loop, on fuel.
  unfoldable pub run :
      ℕ → Dict Mark → List FeatureManifest → List Frame → Result ResolveError Traversal
  unfolding step
  run n marks order [] = ok (record { marks = marks; order = order; stack = [] })
  run zero marks order (f ∷ frames) = err out_of_fuel
  run (suc n) marks order (f ∷ frames) = do
    t ← step f.manifest f.rest marks order frames
    run n t.marks t.order t.stack

  -- More steps than the loop takes: each dependency is passed once, and each manifest left once.
  unfoldable pub fuel : Manifests → ℕ
  fuel [] = 0
  fuel ((k, m) ∷ ms) = length (dependencies_of known m) + 2 + fuel ms

  -- The loop over the manifests.
  unfoldable pub visit_all :
      List FeatureManifest
      → Dict Mark
      → List FeatureManifest
      → Result ResolveError (List FeatureManifest)
  unfolding run fuel
  visit_all [] marks order = ok order
  visit_all (m ∷ ms) marks order =
      let skip = visit_all ms marks order in
      let start = enter m marks order [] in
      if has m.id marks then skip else (do
        t ← run (fuel known) start.marks start.order start.stack
        visit_all ms t.marks t.order)

pub record ResolvedFeatureGraph : Type 0 where
  pub ordered_manifests : List FeatureManifest
  pub ordered_migrations : List (String × MigrationDefinition)

-- The migrations in the order of their features, and of their versions in each.
unfoldable pub order_migrations : List FeatureManifest → List (String × MigrationDefinition)
unfolding sort_by
order_migrations [] = []
order_migrations (m ∷ ms) =
    map (λ g. (m.id, g)) (sort_by (λ g. g.version) m.migrations) ++ order_migrations ms

-- static resolve
unfoldable pub resolve : List FeatureManifest → Result ResolveError ResolvedFeatureGraph
unfolding index check_permissions check_missing visit_all order_migrations
resolve ms = do
  known ← index ms []
  check_permissions ms []
  check_missing ms known
  order ← visit_all known ms [] []
  ok (record { ordered_manifests = order; ordered_migrations = order_migrations order })
