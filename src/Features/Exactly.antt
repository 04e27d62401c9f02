-- ===== src/Features/Exactly.antt =====
-- The loops of DependencyResolver take each manifest once.
use tauri_boilerplate.Base.{
  ℕ, zero, suc, ◌≡◌, refl, sym, subst, string_eq, String, Option, none, some, List, [], ◌∷◌, Dict,
  get, has, put, get-none_of_has, ok, ok_injective, >>=-eq-ok, All, Bool-cases, inl, inr,
}
use tauri_boilerplate.Features.Resolver.{
  FeatureManifest, Mark, visiting, visited, Manifests, dependencies_of, Frame, Traversal,
  enter_found, follow, step, run, fuel, visit_all, index, resolve, ResolvedFeatureGraph,
}
use tauri_boilerplate.Features.Order.{Keyed}
use tauri_boilerplate.Features.Once.{Once, IsKnown, IsOnce, leave-IsOnce, pass-IsOnce, enter-IsOnce}
use tauri_boilerplate.Features.Visit.{index-Keyed, resolve_steps}
use tauri_boilerplate.Features.Total.{index-get}

module _ (known : Manifests) (keyed : Keyed known) where
  abbrev Sound : Traversal → Type 0
  Sound t = IsOnce known t.marks t.order t.stack

  enter_found-IsOnce :
      (m : FeatureManifest) (d : String) (ds : List String) (o : Option FeatureManifest)
      (marks : Dict Mark) (order : List FeatureManifest) (frames : List Frame) (t : Traversal)
      → get d known ≡ o
      → get d marks ≡ none
      → enter_found known d o marks order (record { manifest = m; rest = ds } ∷ frames) ≡ ok t
      → IsOnce known marks order (record { manifest = m; rest = d ∷ ds } ∷ frames)
      → Sound t
  enter_found-IsOnce m d ds none marks order frames t found fresh e s = cc
  enter_found-IsOnce m d ds (some n) marks order frames t found fresh e s =
      let key = sym (keyed d n found) in
      subst Sound (ok_injective e) (
        enter-IsOnce known n (dependencies_of known n) marks order
          (record { manifest = m; rest = ds } ∷ frames) (subst (λ k. get k marks ≡ none) key fresh)
          (subst (λ k. get k known ≡ some n) key found)
          (pass-IsOnce known m (d ∷ ds) ds marks order frames s))

  follow-IsOnce :
      (m : FeatureManifest) (d : String) (ds : List String) (o : Option Mark) (marks : Dict Mark)
      (order : List FeatureManifest) (frames : List Frame) (t : Traversal)
      → get d marks ≡ o
      → follow known d o marks order (record { manifest = m; rest = ds } ∷ frames) ≡ ok t
      → IsOnce known marks order (record { manifest = m; rest = d ∷ ds } ∷ frames)
      → Sound t
  follow-IsOnce m d ds (some visiting) marks order frames t g e s = cc
  follow-IsOnce m d ds (some visited) marks order frames t g e s =
      subst Sound (ok_injective e) (pass-IsOnce known m (d ∷ ds) ds marks order frames s)
  follow-IsOnce m d ds none marks order frames t g e s =
      enter_found-IsOnce m d ds (get d known) marks order frames t refl g e s

  step-IsOnce :
      (m : FeatureManifest) (rest : List String) (marks : Dict Mark) (order : List FeatureManifest)
      (frames : List Frame) (t : Traversal)
      → step known m rest marks order frames ≡ ok t
      → IsOnce known marks order (record { manifest = m; rest = rest } ∷ frames)
      → Sound t
  unfolding step
  step-IsOnce m [] marks order frames t e s =
      subst Sound (ok_injective e) (leave-IsOnce known m marks order frames s)
  step-IsOnce m (d ∷ ds) marks order frames t e s =
      follow-IsOnce m d ds (get d marks) marks order frames t refl e s

  run-IsOnce :
      (n : ℕ) (marks : Dict Mark) (order : List FeatureManifest) (frames : List Frame)
      (t : Traversal)
      → run known n marks order frames ≡ ok t
      → IsOnce known marks order frames
      → IsOnce known t.marks t.order []
  unfolding run
  run-IsOnce n marks order [] t e s =
      subst (λ (u : Traversal). IsOnce known u.marks u.order []) (ok_injective e) s
  run-IsOnce zero marks order (f ∷ frames) t e s = cc
  run-IsOnce (suc n) marks order (f ∷ frames) t e s =
      let (u, stepped, ran) =
        >>=-eq-ok (step known f.manifest f.rest marks order frames)
          (λ v. run known n v.marks v.order v.stack) e in
      run-IsOnce n u.marks u.order u.stack t ran
        (step-IsOnce f.manifest f.rest marks order frames u stepped s)

  visit_all-Once :
      (ms : List FeatureManifest) (marks : Dict Mark) (order order' : List FeatureManifest)
      → visit_all known ms marks order ≡ ok order'
      → All (IsKnown known) ms
      → IsOnce known marks order []
      → Once [] order' × All (IsKnown known) order'
  unfolding visit_all
  visit_all-Once [] marks order order' e own s =
      subst (λ o. Once [] o × All (IsKnown known) o) (ok_injective e) (s.once, s.known_order)
  visit_all-Once (m ∷ ms) marks order order' e (here, own) s = elim (Bool-cases (has m.id marks)) [
    | inl seen ↦ visit_all-Once ms marks order order' (rw seen at e) own s
    | inr fresh ↦
        let start =
          enter-IsOnce known m (dependencies_of known m) marks order []
            (get-none_of_has m.id marks fresh) here s in
        let (t, ran, rest) =
          >>=-eq-ok
            (run known (fuel known known) (put m.id visiting marks) order
              (record { manifest = m; rest = dependencies_of known m } ∷ []))
            (λ u. visit_all known ms u.marks u.order) (rw fresh at e) in
        visit_all-Once ms t.marks t.order order' rest own (
          run-IsOnce (fuel known known) (put m.id visiting marks) order
            (record { manifest = m; rest = dependencies_of known m } ∷ []) t ran start)
  ]

-- Where `resolve` returns an order, no id occurs twice in it, and each manifest in it is the one that was
-- given under its id.
pub resolve-Once :
    (ms : List FeatureManifest) (g : ResolvedFeatureGraph)
    → resolve ms ≡ ok g
    → (known : Manifests) × (index ms [] ≡ ok known)
      × Once [] g.ordered_manifests
      × All (IsKnown known) g.ordered_manifests
resolve-Once ms g e =
    let (known, indexed, visits) = resolve_steps ms g e in
    let keyed = index-Keyed ms [] known indexed (λ k m found. cc) in
    let (once, own) =
      visit_all-Once known keyed ms [] [] g.ordered_manifests visits
        (index-get ms [] known indexed).1
        (record { once = tt; known_order = tt; came = λ k h. cc; opened = tt }) in
    (known, indexed, once, own)
