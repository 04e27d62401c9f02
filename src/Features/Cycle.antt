-- ===== src/Features/Cycle.antt =====
-- The circular dependency that DependencyResolver reports is one.
use tauri_boilerplate.Base.{
  ℕ, zero, suc, ◌≡◌, ◌⊎◌, inl, inr, refl, sym, subst, true, ◌==◌, string_eq, ==_iff, ==_refl,
  String, Option, none, some, List, [], ◌∷◌, any, Dict, get, has, put, Result, ok, err, ◌>>=◌, ◌>>◌,
  >>=-eq-err, arith, All, Bool-cases,
}
use tauri_boilerplate.Features.Resolver.{
  FeatureManifest, ResolveError, circular_dependency, Mark, visiting, visited, Manifests,
  dependencies_of, Frame, Traversal, enter_found, follow, step, run, fuel, visit_all, index,
  check_permissions, check_missing, order_migrations, resolve, ResolvedFeatureGraph,
}
use tauri_boilerplate.Features.Order.{Keyed, needs, IsSound}
use tauri_boilerplate.Features.Once.{IsKnown, is_stacked}
use tauri_boilerplate.Features.Visit.{index-Keyed, step-Follows, start-IsSound, run-Follows}
use tauri_boilerplate.Features.Total.{index-get}
use tauri_boilerplate.Features.Checks.{index-Early, check_permissions-Early, check_missing-Early}

module _ (known : Manifests) where
  -- From one feature to another along dependencies, in at least one step.
  pub data Reaches : String → String → Type 0 where
    direct :
        {a b : String} {m : FeatureManifest}
        → get a known ≡ some m
        → needs known m b ≡ true
        → Reaches a b
    onward :
        {a b c : String} {m : FeatureManifest}
        → Reaches a b
        → get b known ≡ some m
        → needs known m c ≡ true
        → Reaches a c

  -- Each open frame depends on the one above it, and on what is left of its own list.
  abbrev NeedsAbove : Option String → Frame → Type 0
  NeedsAbove none f = Unit
  NeedsAbove (some k) f = needs known f.manifest k ≡ true

  abbrev Linked : Option String → List Frame → Type 0
  Linked above [] = Unit
  Linked above (f ∷ fs) =
      (NeedsAbove above f
        × ((d : String) → any (λ e. e == d) f.rest ≡ true → needs known f.manifest d ≡ true)
        × IsKnown known f.manifest)
      × Linked (some f.manifest.id) fs

  -- An open feature reaches those that are open above it.
  Linked-Reaches :
      (d : String) (above : Option String) (f : Frame) (fs : List Frame)
      → Linked above (f ∷ fs)
      → is_stacked known d (f ∷ fs) ≡ true
      → (f.manifest.id ≡ d) ⊎ Reaches d f.manifest.id
  Linked-Reaches d above f [] l h = inl ((==_iff f.manifest.id d).0 (ground arith))
  Linked-Reaches d above f (g ∷ gs) l h = elim (Bool-cases (f.manifest.id == d)) [
    | inl same ↦ inl ((==_iff f.manifest.id d).0 same)
    | inr apart ↦
        let ((needs_f, fits, own), rest) = l.1 in
        elim (Linked-Reaches d (some f.manifest.id) g gs l.1 (ground arith)) [
          | inl here ↦ inr (subst (λ k. Reaches k f.manifest.id) here (direct own needs_f))
          | inr far ↦ inr (onward far own needs_f)
        ]
  ]

  Linked-none : (above : Option String) (fs : List Frame) → Linked above fs → Linked none fs
  Linked-none above [] l = tt
  Linked-none above (f ∷ fs) ((n, fits, own), l) = ((tt, fits, own), l)

  -- What is found on the way: the next traversal is linked, or the reported feature is on a cycle.
  abbrev Outcome : Result ResolveError Traversal → Type 0
  Outcome (ok t) = Linked none t.stack
  Outcome (err (circular_dependency d)) = Reaches d d
  Outcome (err _) = Unit

  enter_found-Outcome :
      (m : FeatureManifest) (d : String) (ds : List String) (o : Option FeatureManifest)
      (marks : Dict Mark) (order : List FeatureManifest) (frames : List Frame)
      → get d known ≡ o
      → Keyed known
      → Linked none (record { manifest = m; rest = d ∷ ds } ∷ frames)
      → Outcome (enter_found known d o marks order (record { manifest = m; rest = ds } ∷ frames))
  enter_found-Outcome m d ds none marks order frames found keyed l = tt
  enter_found-Outcome m d ds (some n) marks order frames found keyed ((above, fits, own), l) =
      let key = sym (keyed d n found) in
      (
        (tt, (λ e h. h), subst (λ k. get k known ≡ some n) key found),
        (
          (
            subst (λ k. needs known m k ≡ true) key (fits d (ground (arith, ==_refl d))),
            (λ e h. fits e (ground arith)),
            own,
          ),
          l,
        ),
      )

  follow-Outcome :
      (m : FeatureManifest) (d : String) (ds : List String) (o : Option Mark) (marks : Dict Mark)
      (order : List FeatureManifest) (frames : List Frame)
      → get d marks ≡ o
      → Keyed known
      → IsSound known marks order (record { manifest = m; rest = d ∷ ds } ∷ frames)
      → Linked none (record { manifest = m; rest = d ∷ ds } ∷ frames)
      → Outcome (follow known d o marks order (record { manifest = m; rest = ds } ∷ frames))
  follow-Outcome m d ds (some visiting) marks order frames g keyed s l =
      let ((above, fits, own), below) = l in
      let needs_d = fits d (ground (arith, ==_refl d)) in
      elim (Linked-Reaches d none (record { manifest = m; rest = d ∷ ds }) frames l
        (s.opened d g)) [
          | inl here ↦ subst (λ k. Reaches k d) here (direct own needs_d)
          | inr far ↦ onward far own needs_d
        ]
  follow-Outcome m d ds (some visited) marks order frames g keyed s ((above, fits, own), l) =
      ((tt, (λ e h. fits e (ground arith)), own), l)
  follow-Outcome m d ds none marks order frames g keyed s l =
      enter_found-Outcome m d ds (get d known) marks order frames refl keyed l

  step-Outcome :
      (m : FeatureManifest) (rest : List String) (marks : Dict Mark) (order : List FeatureManifest)
      (frames : List Frame)
      → Keyed known
      → IsSound known marks order (record { manifest = m; rest = rest } ∷ frames)
      → Linked none (record { manifest = m; rest = rest } ∷ frames)
      → Outcome (step known m rest marks order frames)
  unfolding step
  step-Outcome m [] marks order frames keyed s (top, l) = Linked-none (some m.id) frames l
  step-Outcome m (d ∷ ds) marks order frames keyed s l =
      follow-Outcome m d ds (get d marks) marks order frames refl keyed s l

  run-cycle :
      (n : ℕ) (marks : Dict Mark) (order : List FeatureManifest) (frames : List Frame) (d : String)
      → Keyed known
      → run known n marks order frames ≡ err (circular_dependency d)
      → IsSound known marks order frames
      → Linked none frames
      → Reaches d d
  unfolding run
  run-cycle n marks order [] d keyed e s l = cc
  run-cycle zero marks order (f ∷ frames) d keyed e s l = cc
  run-cycle (suc n) marks order (f ∷ frames) d keyed e s l =
      let outcome = step-Outcome f.manifest f.rest marks order frames keyed s l in
      elim (>>=-eq-err (step known f.manifest f.rest marks order frames)
        (λ t. run known n t.marks t.order t.stack) e) [
          | inl thrown ↦ subst Outcome thrown outcome
          | inr (t, stepped, later) ↦
              run-cycle n t.marks t.order t.stack d keyed later
                (step-Follows known keyed f.manifest f.rest marks order frames t stepped s).0
                (subst Outcome stepped outcome)
        ]

  visit_all-cycle :
      (ms : List FeatureManifest) (marks : Dict Mark) (order : List FeatureManifest) (d : String)
      → Keyed known
      → All (IsKnown known) ms
      → visit_all known ms marks order ≡ err (circular_dependency d)
      → IsSound known marks order []
      → Reaches d d
  unfolding visit_all
  visit_all-cycle [] marks order d keyed own e s = cc
  visit_all-cycle (m ∷ ms) marks order d keyed (here, own) e s =
      elim (Bool-cases (has m.id marks)) [
        | inl seen ↦ visit_all-cycle ms marks order d keyed own (rw seen at e) s
        | inr fresh ↦
            let start = start-IsSound known keyed m marks order fresh s in
            let frames : List Frame =
              record { manifest = m; rest = dependencies_of known m } ∷ [] in
            elim (>>=-eq-err (run known (fuel known known) (put m.id visiting marks) order frames)
              (λ t. visit_all known ms t.marks t.order) (rw fresh at e)) [
                | inl thrown ↦
                    run-cycle (fuel known known) (put m.id visiting marks) order frames d keyed
                      thrown start ((tt, (λ k h. h), here), tt)
                | inr (t, ran, later) ↦
                    let ((sound, kept), empty) =
                      run-Follows known keyed (fuel known known) (put m.id visiting marks) order
                        frames t ran start in
                    visit_all-cycle ms t.marks t.order d keyed own later
                      (subst (IsSound known t.marks t.order) empty sound)
              ]
      ]

-- Where `resolve` reports a circular dependency on a feature, that feature does depend on itself, through
-- hard dependencies and optional ones that are there.
pub resolve-cycle :
    (ms : List FeatureManifest) (d : String)
    → resolve ms ≡ err (circular_dependency d)
    → (known : Manifests) × (index ms [] ≡ ok known) × Reaches known d d
unfolding resolve
resolve-cycle ms d e =
    let graph : List FeatureManifest → Result ResolveError ResolvedFeatureGraph = λ order.
      ok (record { ordered_manifests = order; ordered_migrations = order_migrations order }) in
    elim (>>=-eq-err (index ms [])
      (λ k. check_permissions ms [] >> (check_missing ms k >> (visit_all k ms [] [] >>= graph)))
      e) [
        | inl thrown ↦ (let early = index-Early ms [] (circular_dependency d) thrown in cc)
        | inr (known, indexed, h1) ↦
            elim (>>=-eq-err (check_permissions ms [])
              (λ w. check_missing ms known >> (visit_all known ms [] [] >>= graph)) h1) [
                | inl thrown ↦
                    (let early = check_permissions-Early ms [] (circular_dependency d) thrown in cc)
                | inr (u, owned, h2) ↦
                    elim (>>=-eq-err (check_missing ms known)
                      (λ w. visit_all known ms [] [] >>= graph) h2) [
                        | inl thrown ↦
                            (let early =
                                check_missing-Early ms known (circular_dependency d) thrown in
                              cc)
                        | inr (v, present, h3) ↦
                            elim (>>=-eq-err (visit_all known ms [] []) graph h3) [
                              | inl thrown ↦ (
                                known,
                                indexed,
                                visit_all-cycle known ms [] [] d
                                    (index-Keyed ms [] known indexed (λ k m found. cc))
                                    (index-get ms [] known indexed).1 thrown
                                    (record {
                                      first = tt;
                                      left = λ k h. cc;
                                      opened = λ k h. cc;
                                      fit = tt;
                                    }),
                              )
                              | inr (order, visits, built) ↦ cc
                            ]
                      ]
              ]
      ]
