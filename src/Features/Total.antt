-- ===== src/Features/Total.antt =====
-- `resolve` of DependencyResolver always ends, with an order or with one of the source's errors.
use tauri_boilerplate.Base.{
  ℕ, zero, suc, ◌≤◌, ◌≡◌, ◌≢◌, inl, inr, refl, sym, ◌∙◌, subst, false, ◌==◌, string_eq, ==_iff,
  ==_refl, String, Option, none, some, List, [], ◌∷◌, Dict, get, has, put, get-put, get-none_of_has,
  Result, ok, err, ok_injective, ◌>>=◌, ◌>>◌, throw_if-ok, arith, All, Bool-cases,
}
use tauri_boilerplate.Features.Resolver.{
  FeatureManifest, ResolveError, duplicate_feature, out_of_fuel, Mark, visiting, visited, Manifests,
  dependencies_of, Frame, enter_found, follow, step, run, fuel, visit_all, index, check_permissions,
  check_missing, order_migrations, resolve, ResolvedFeatureGraph,
}
use tauri_boilerplate.Features.Order.{Keyed}
use tauri_boilerplate.Features.Visit.{index-Keyed}
use tauri_boilerplate.Features.Termination.{work, unseen-enter, unseen-fuel, step-work}
use tauri_boilerplate.Features.Checks.{
  Early, index-Early, check_permissions-Early, check_missing-Early,
}

-- A result that is no lack of fuel.
abbrev Ends {ℓ} : {A : Type ℓ} → Result ResolveError A → Type ℓ
Ends r = r ≢ err out_of_fuel

Ends->>= {ℓ κ} :
    {A : Type ℓ} {B : Type κ} (r : Result ResolveError A) (f : A → Result ResolveError B)
    → Ends r
    → ((a : A) → r ≡ ok a → Ends (f a))
    → Ends (r >>= f)
Ends->>= (ok a) f h k = k a refl
Ends->>= (err e) f h k = λ q. h cc

Early-Ends {ℓ} : {A : Type ℓ} (r : Result ResolveError A) → Early r → Ends r
Early-Ends r h = λ q. let late = h out_of_fuel q in cc

module _ (known : Manifests) where
  follow-Ends :
      (d : String) (o : Option Mark) (marks : Dict Mark) (order : List FeatureManifest)
      (frames : List Frame)
      → Ends (follow known d o marks order frames)
  follow-Ends d (some visiting) marks order frames = λ q. cc
  follow-Ends d (some visited) marks order frames = λ q. cc
  follow-Ends d none marks order frames = found (get d known)
    where
      found : (o : Option FeatureManifest) → Ends (enter_found known d o marks order frames)
      found none = λ q. cc
      found (some m) = λ q. cc

  step-Ends :
      (m : FeatureManifest) (rest : List String) (marks : Dict Mark) (order : List FeatureManifest)
      (frames : List Frame)
      → Ends (step known m rest marks order frames)
  unfolding step
  step-Ends m [] marks order frames = λ q. cc
  step-Ends m (d ∷ ds) marks order frames =
      follow-Ends d (get d marks) marks order (record { manifest = m; rest = ds } ∷ frames)

  -- Fuel for the work that is left is enough.
  run-Ends :
      (n : ℕ) (marks : Dict Mark) (order : List FeatureManifest) (frames : List Frame)
      → Keyed known
      → work known marks frames ≤ n
      → Ends (run known n marks order frames)
  unfolding run work
  run-Ends n marks order [] keyed le = λ q. cc
  run-Ends zero marks order (f ∷ frames) keyed le = absurd (no_work le)
    where
      no_work : work known marks (f ∷ frames) ≤ 0 → ⊥
      no_work h = omega (arith, h)
  run-Ends (suc n) marks order (f ∷ frames) keyed le =
      Ends->>= (step known f.manifest f.rest marks order frames)
        (λ t. run known n t.marks t.order t.stack) (step-Ends f.manifest f.rest marks order frames)
        λ t e.
          run-Ends n t.marks t.order t.stack keyed
            (let cost = step-work known f marks order frames t keyed e in omega (arith, cost, le))

  visit_all-Ends :
      (ms : List FeatureManifest) (marks : Dict Mark) (order : List FeatureManifest)
      → Keyed known
      → All (λ m. get m.id known ≡ some m) ms
      → Ends (visit_all known ms marks order)
  unfolding visit_all work
  visit_all-Ends [] marks order keyed h = λ q. cc
  visit_all-Ends (m ∷ ms) marks order keyed (own, h) = elim (Bool-cases (has m.id marks)) [
    | inl seen ↦ rw seen (visit_all-Ends ms marks order keyed h)
    | inr fresh ↦ rw fresh (
        Ends->>=
          (run known (fuel known known) (put m.id visiting marks) order
            (record { manifest = m; rest = dependencies_of known m } ∷ []))
          (λ t. visit_all known ms t.marks t.order)
          (run-Ends (fuel known known) (put m.id visiting marks) order
            (record { manifest = m; rest = dependencies_of known m } ∷ []) keyed (start_work fresh))
          (λ t e. visit_all-Ends ms t.marks t.order keyed h))
  ]
    where
      start_work :
          has m.id marks ≡ false
          → work known
              (put m.id visiting marks)
              (record { manifest = m; rest = dependencies_of known m } ∷ [])
            ≤ fuel known known
      start_work fresh =
          let share = unseen-enter known known m.id m visiting marks own fresh in
          omega (arith, share, unseen-fuel known known marks)

-- The map has every manifest under its id, and keeps what it had.
pub index-get :
    (ms : List FeatureManifest) (known known' : Manifests)
    → index ms known ≡ ok known'
    → ((k : String) (n : FeatureManifest) → get k known ≡ some n → get k known' ≡ some n)
      × All (λ m. get m.id known' ≡ some m) ms
unfolding index
index-get [] known known' e = ((λ k n h. subst (λ x. get k x ≡ some n) (ok_injective e) h), tt)
index-get (m ∷ ms) known known' e =
    let (apart, e') =
      throw_if-ok (has m.id known) (duplicate_feature m.id) (index ms (put m.id m known)) e in
    let (kept, all_kept) = index-get ms (put m.id m known) known' e' in
    (
      (λ k n h. kept k n (unchanged apart k n h)),
      (kept m.id m (get-put m.id m.id m known ∙ rw (==_refl m.id) refl), all_kept),
    )
  where
    unchanged :
        has m.id known ≡ false
        → (k : String) (n : FeatureManifest) → get k known ≡ some n
        → get k (put m.id m known) ≡ some n
    unchanged apart k n h = elim (Bool-cases (m.id == k)) [
      | inl same ↦
          let none_there = get-none_of_has m.id known apart in
          let there = subst (λ j. get j known ≡ some n) (sym ((==_iff m.id k).0 same)) h in cc
      | inr other ↦ get-put m.id k m known ∙ rw other h
    ]

-- `resolve` ends: the model's fuel is never used up, so every result is an order or an error of the
-- source.
pub resolve-ends : (ms : List FeatureManifest) → resolve ms ≢ err out_of_fuel
unfolding resolve
resolve-ends ms =
    let graph : List FeatureManifest → Result ResolveError ResolvedFeatureGraph = λ order.
      ok (record { ordered_manifests = order; ordered_migrations = order_migrations order }) in
    Ends->>= (index ms [])
      (λ k. check_permissions ms [] >> (check_missing ms k >> (visit_all k ms [] [] >>= graph)))
      (Early-Ends (index ms []) (index-Early ms []))
      λ known indexed.
        let keyed = index-Keyed ms [] known indexed (λ k m found. cc) in
        let all_known = (index-get ms [] known indexed).1 in
        Ends->>= (check_permissions ms [])
          (λ u. check_missing ms known >> (visit_all known ms [] [] >>= graph))
          (Early-Ends (check_permissions ms []) (check_permissions-Early ms []))
          λ u e.
            Ends->>= (check_missing ms known) (λ v. visit_all known ms [] [] >>= graph)
              (Early-Ends (check_missing ms known) (check_missing-Early ms known))
              λ v e'.
                Ends->>= (visit_all known ms [] []) graph
                  (visit_all-Ends known ms [] [] keyed all_known) (λ order e'' q. cc)
