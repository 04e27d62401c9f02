-- ===== src/Features/Visit.antt =====
-- The loops of DependencyResolver keep the traversal sound and leave no manifest out.
use tauri_boilerplate.Base.{
  ℕ, zero, suc, ◌≡◌, inl, inr, refl, sym, ap, ◌∙◌, subst, true, false, ◌==◌, string_eq, ==_iff,
  ==_refl, String, Option, none, some, List, [], ◌∷◌, Dict, get, has, put, get-put, has-put,
  get-some_of_has, Result, ok, ok_injective, ◌>>=◌, >>=-eq-ok, ◌>>◌, throw_if-ok, arith, All,
  All-mono, Bool-cases,
}
use tauri_boilerplate.Features.Resolver.{
  ResolvedFeatureGraph, index, check_permissions, check_missing, order_migrations, resolve,
  duplicate_feature, FeatureManifest, ResolveError, Mark, visiting, visited, Manifests,
  dependencies_of, Frame, Traversal, enter_found, follow, step, run, fuel, visit_all,
}
use tauri_boilerplate.Features.Order.{
  get-put_same, get-put_apart, DependenciesFirst, Keyed, is_among, IsSound, leave-IsSound,
  pass-IsSound, enter-IsSound,
}

module _ (known : Manifests) (keyed : Keyed known) where
  -- A traversal that is sound and has lost no mark.
  abbrev Follows : Dict Mark → Traversal → Type 0
  Follows marks t =
      IsSound known t.marks t.order t.stack
      × ((k : String) → has k marks ≡ true → has k t.marks ≡ true)

  has-put_stays :
      (k j : String) (v : Mark) (marks : Dict Mark)
      → has j marks ≡ true
      → has j (put k v marks) ≡ true
  has-put_stays k j v marks h = ground (arith, has-put k j v marks)

  enter_found-Follows :
      (m : FeatureManifest) (d : String) (ds : List String) (o : Option FeatureManifest)
      (marks : Dict Mark) (order : List FeatureManifest) (frames : List Frame) (t : Traversal)
      → get d known ≡ o
      → get d marks ≡ none
      → enter_found known d o marks order (record { manifest = m; rest = ds } ∷ frames) ≡ ok t
      → IsSound known marks order (record { manifest = m; rest = d ∷ ds } ∷ frames)
      → Follows marks t
  enter_found-Follows m d ds none marks order frames t found fresh e s = cc
  enter_found-Follows m d ds (some m') marks order frames t found fresh e s =
      let key = keyed d m' found in
      subst (Follows marks) (ok_injective e) (
        enter-IsSound known m m' ds marks order frames
            (subst (λ k. get k marks ≡ none) (sym key) fresh)
            (subst
              (λ k. IsSound known marks order (record { manifest = m; rest = k ∷ ds } ∷ frames))
              (sym key) s),
        λ k h. has-put_stays m'.id k visiting marks h,
      )

  follow-Follows :
      (m : FeatureManifest) (d : String) (ds : List String) (o : Option Mark) (marks : Dict Mark)
      (order : List FeatureManifest) (frames : List Frame) (t : Traversal)
      → get d marks ≡ o
      → follow known d o marks order (record { manifest = m; rest = ds } ∷ frames) ≡ ok t
      → IsSound known marks order (record { manifest = m; rest = d ∷ ds } ∷ frames)
      → Follows marks t
  follow-Follows m d ds (some visiting) marks order frames t g e s = cc
  follow-Follows m d ds (some visited) marks order frames t g e s =
      subst (Follows marks) (ok_injective e)
        (pass-IsSound known m d ds marks order frames g s, λ k h. h)
  follow-Follows m d ds none marks order frames t g e s =
      enter_found-Follows m d ds (get d known) marks order frames t refl g e s

  pub step-Follows :
      (m : FeatureManifest) (rest : List String) (marks : Dict Mark) (order : List FeatureManifest)
      (frames : List Frame) (t : Traversal)
      → step known m rest marks order frames ≡ ok t
      → IsSound known marks order (record { manifest = m; rest = rest } ∷ frames)
      → Follows marks t
  unfolding step
  step-Follows m [] marks order frames t e s =
      subst (Follows marks) (ok_injective e)
        (leave-IsSound known m marks order frames s, λ k h. has-put_stays m.id k visited marks h)
  step-Follows m (d ∷ ds) marks order frames t e s =
      follow-Follows m d ds (get d marks) marks order frames t refl e s

  pub run-Follows :
      (n : ℕ) (marks : Dict Mark) (order : List FeatureManifest) (frames : List Frame)
      (t : Traversal)
      → run known n marks order frames ≡ ok t
      → IsSound known marks order frames
      → Follows marks t × (t.stack ≡ [])
  unfolding run
  run-Follows n marks order [] t e s =
      subst (λ (u : Traversal). Follows marks u × (u.stack ≡ [])) (ok_injective e)
        ((s, λ k h. h), refl)
  run-Follows zero marks order (f ∷ frames) t e s = cc
  run-Follows (suc n) marks order (f ∷ frames) t e s =
      let (u, stepped, ran) =
        >>=-eq-ok (step known f.manifest f.rest marks order frames)
          (λ v. run known n v.marks v.order v.stack) e in
      let (sound, kept) = step-Follows f.manifest f.rest marks order frames u stepped s in
      let ((sound', kept'), empty) = run-Follows n u.marks u.order u.stack t ran sound in
      ((sound', λ k h. kept' k (kept k h)), empty)

  pub start-IsSound :
      (m : FeatureManifest) (marks : Dict Mark) (order : List FeatureManifest)
      → has m.id marks ≡ false
      → IsSound known marks order []
      → IsSound known
          (put m.id visiting marks)
          order
          (record { manifest = m; rest = dependencies_of known m } ∷ [])
  start-IsSound m marks order fresh s = record {
    first = s.first;
    left = λ k e. elim (Bool-cases (m.id == k)) [
      | inl same ↦ (let both = sym (get-put_same m.id k visiting marks same) ∙ e in cc)
      | inr apart ↦ s.left k (sym (get-put_apart m.id k visiting marks apart) ∙ e)
    ];
    opened = λ k e. elim (Bool-cases (m.id == k)) [
      | inl same ↦ ground (arith, same)
      | inr apart ↦
          (let none_open = s.opened k (sym (get-put_apart m.id k visiting marks apart) ∙ e) in cc)
    ];
    fit = ((λ d n. inl n), tt);
  }

  -- What the loop over the manifests ends with.
  visit_all-order :
      (ms : List FeatureManifest) (marks : Dict Mark) (order order' : List FeatureManifest)
      → visit_all known ms marks order ≡ ok order'
      → IsSound known marks order []
      → (marks' : Dict Mark) × IsSound known marks' order' []
        × ((k : String) → has k marks ≡ true → has k marks' ≡ true)
        × All (λ m. has m.id marks' ≡ true) ms
  unfolding visit_all
  visit_all-order [] marks order order' e s =
      (marks, subst (λ o. IsSound known marks o []) (ok_injective e) s, (λ k h. h), tt)
  visit_all-order (m ∷ ms) marks order order' e s = elim (Bool-cases (has m.id marks)) [
    | inl seen ↦
        let (marks', sound, kept, all_kept) =
          visit_all-order ms marks order order' (rw seen at e) s in
        (marks', sound, kept, (kept m.id seen, all_kept))
    | inr fresh ↦
        let (t, ran, rest) =
          >>=-eq-ok
            (run known (fuel known known) (put m.id visiting marks) order
              (record { manifest = m; rest = dependencies_of known m } ∷ []))
            (λ u. visit_all known ms u.marks u.order) (rw fresh at e) in
        let ((sound, kept), empty) =
          run-Follows (fuel known known) (put m.id visiting marks) order
            (record { manifest = m; rest = dependencies_of known m } ∷ []) t ran
            (start-IsSound m marks order fresh s) in
        let (marks', sound', kept', all_kept) =
          visit_all-order ms t.marks t.order order' rest
            (subst (IsSound known t.marks t.order) empty sound) in
        (
          marks',
          sound',
          (λ k h. kept' k (kept k (has-put_stays m.id k visiting marks h))),
          (
            kept' m.id (kept m.id (has-put m.id m.id visiting marks ∙ rw (==_refl m.id) refl)),
            all_kept,
          ),
        )
  ]

  -- A mark that is left when no frame is open is of a manifest in the order.
  has-among :
      (k : String) (marks : Dict Mark) (order : List FeatureManifest)
      → IsSound known marks order []
      → has k marks ≡ true
      → is_among k order ≡ true
  has-among k marks order s h = let (mark, e) = get-some_of_has k marks h in by_mark mark e
    where
      by_mark : (mark : Mark) → get k marks ≡ some mark → is_among k order ≡ true
      by_mark visiting e = let none_open = s.opened k e in cc
      by_mark visited e = s.left k e

pub manifest_injective :
    {a b : FeatureManifest} → Path (Option FeatureManifest) (some a) (some b) → a ≡ b
manifest_injective h = cc

pub index-Keyed :
    (ms : List FeatureManifest) (known known' : Manifests)
    → index ms known ≡ ok known'
    → Keyed known
    → Keyed known'
unfolding index
index-Keyed [] known known' e h = subst Keyed (ok_injective e) h
index-Keyed (m ∷ ms) known known' e h =
    let (apart, e') =
      throw_if-ok (has m.id known) (duplicate_feature m.id) (index ms (put m.id m known)) e in
    index-Keyed ms (put m.id m known) known' e' λ k n found. elim (Bool-cases (m.id == k)) [
      | inl same ↦
          (let hit : get k (put m.id m known) ≡ some m = get-put m.id k m known ∙ rw same refl in
            subst (λ (x : FeatureManifest). x.id ≡ k) (manifest_injective (sym hit ∙ found))
              ((==_iff m.id k).0 same))
      | inr other ↦ h k n (sym (get-put m.id k m known ∙ rw other refl) ∙ found)
    ]

-- What `resolve` did where it returned.
pub resolve_steps :
    (ms : List FeatureManifest) (g : ResolvedFeatureGraph)
    → resolve ms ≡ ok g
    → (known : Manifests) × (index ms [] ≡ ok known)
      × (visit_all known ms [] [] ≡ ok g.ordered_manifests)
unfolding resolve
resolve_steps ms g e =
    let graph : List FeatureManifest → Result ResolveError ResolvedFeatureGraph = λ order.
      ok (record { ordered_manifests = order; ordered_migrations = order_migrations order }) in
    let (known, indexed, h1) =
      >>=-eq-ok (index ms [])
        (λ k. check_permissions ms [] >> (check_missing ms k >> (visit_all k ms [] [] >>= graph)))
        e in
    let (u, owned, h2) =
      >>=-eq-ok (check_permissions ms [])
        (λ w. check_missing ms known >> (visit_all known ms [] [] >>= graph)) h1 in
    let (v, present, h3) =
      >>=-eq-ok (check_missing ms known) (λ w. visit_all known ms [] [] >>= graph) h2 in
    let (order, visits, built) = >>=-eq-ok (visit_all known ms [] []) graph h3 in
    (
      known,
      indexed,
      visits ∙ ap (λ (x : ResolvedFeatureGraph). ok x.ordered_manifests) (ok_injective built),
    )

-- Where `resolve` returns an order: each manifest comes after all of its hard dependencies and after
-- those of its optional ones that are there, and every manifest that was given is in the order.
pub resolve-DependenciesFirst :
    (ms : List FeatureManifest) (g : ResolvedFeatureGraph)
    → resolve ms ≡ ok g
    → (known : Manifests) × (index ms [] ≡ ok known)
      × DependenciesFirst known [] g.ordered_manifests
      × All (λ m. is_among m.id g.ordered_manifests ≡ true) ms
resolve-DependenciesFirst ms g e =
    let (known, indexed, visits) = resolve_steps ms g e in
    let keyed = index-Keyed ms [] known indexed (λ k m found. cc) in
    let (marks, sound, kept, marked) =
      visit_all-order known keyed ms [] [] g.ordered_manifests visits
        (record { first = tt; left = λ k h. cc; opened = λ k h. cc; fit = tt }) in
    (
      known,
      indexed,
      sound.first,
      All-mono {Q = λ (m : FeatureManifest). is_among m.id g.ordered_manifests ≡ true}
          (λ (m : FeatureManifest) (h : has m.id marks ≡ true).
            has-among known keyed m.id marks g.ordered_manifests sound h)
          ms marked,
    )
