-- ===== src/Features/Termination.antt =====
-- The `while` loop of DependencyResolver ends: the fuel of the model is never used up.
use tauri_boilerplate.Base.{
  ℕ, ◌+◌, ◌≤◌, ◌≡◌, inl, inr, refl, sym, ap, ◌∙◌, subst, Bool, true, false, ◌==◌, string_eq, ==_iff,
  ==_refl, if◌then◌else◌, String, Option, none, some, List, [], ◌∷◌, length, Dict, get, has, put,
  has-put, get-some_of_has, ok, ok_injective, arith, Bool-cases,
}
use tauri_boilerplate.Features.Resolver.{
  FeatureManifest, Mark, visiting, visited, Manifests, dependencies_of, Frame, Traversal,
  enter_found, follow, step, fuel,
}
use tauri_boilerplate.Features.Order.{Keyed}
use tauri_boilerplate.Features.Visit.{manifest_injective}

module _ (known : Manifests) where
  -- The steps that the manifests without a mark may still cost.
  unfoldable pub unseen : Manifests → Dict Mark → ℕ
  unseen [] marks = 0
  unseen ((k, m) ∷ ms) marks =
      (if has k marks then 0 else length (dependencies_of known m) + 2) + unseen ms marks

  -- The steps that the open frames may still cost.
  unfoldable pub open_work : List Frame → ℕ
  open_work [] = 0
  open_work (f ∷ fs) = length f.rest + 1 + open_work fs

  pub unseen-put :
      (ms : Manifests) (d : String) (v : Mark) (marks : Dict Mark)
      → unseen ms (put d v marks) ≤ unseen ms marks
  unfolding unseen
  unseen-put [] d v marks = omega arith
  unseen-put ((k, m) ∷ ms) d v marks = ground (arith, unseen-put ms d v marks, has-put d k v marks)

  -- The first mark of a manifest takes its share.
  pub unseen-enter :
      (ms : Manifests) (d : String) (m : FeatureManifest) (v : Mark) (marks : Dict Mark)
      → get d ms ≡ some m
      → has d marks ≡ false
      → unseen ms (put d v marks) + (length (dependencies_of known m) + 2) ≤ unseen ms marks
  unfolding unseen
  unseen-enter [] d m v marks found fresh = cc
  unseen-enter ((k, x) ∷ ms) d m v marks found fresh = elim (Bool-cases (k == d)) [
    | inl same ↦
        let key = (==_iff k d).0 same in
        let marked : has d (put d v marks) ≡ true = has-put d d v marks ∙ rw (==_refl d) refl in
        let gone : has k (put d v marks) ≡ true =
          subst (λ j. has j (put d v marks) ≡ true) (sym key) marked in
        let still : has k marks ≡ false = subst (λ j. has j marks ≡ false) (sym key) fresh in
        let share =
          ap (λ (y : FeatureManifest). length (dependencies_of known y))
            (manifest_injective (rw same at found)) in
        rw (gone, still) (omega (arith, unseen-put ms d v marks, share))
    | inr apart ↦
        let rest = unseen-enter ms d m v marks (rw apart at found) fresh in
        ground (arith, rest, unseen-put ms d v marks, has-put d k v marks)
  ]

  pub unseen-fuel : (ms : Manifests) (marks : Dict Mark) → unseen ms marks ≤ fuel known ms
  unfolding unseen fuel
  unseen-fuel [] marks = omega arith
  unseen-fuel ((k, m) ∷ ms) marks = ground (arith, unseen-fuel ms marks)

  -- What the loop may still cost.
  unfoldable pub work : Dict Mark → List Frame → ℕ
  unfolding unseen open_work
  work marks frames = unseen known marks + open_work frames

  enter_found-work :
      (m : FeatureManifest) (d : String) (ds : List String) (o : Option FeatureManifest)
      (marks : Dict Mark) (order : List FeatureManifest) (frames : List Frame) (t : Traversal)
      → get d known ≡ o
      → has d marks ≡ false
      → Keyed known
      → enter_found known d o marks order (record { manifest = m; rest = ds } ∷ frames) ≡ ok t
      → work t.marks t.stack + 1 ≤ work marks (record { manifest = m; rest = d ∷ ds } ∷ frames)
  unfolding work open_work
  enter_found-work m d ds none marks order frames t found fresh keyed e = cc
  enter_found-work m d ds (some m') marks order frames t found fresh keyed e =
      subst
        (λ (u : Traversal).
          work u.marks u.stack + 1 ≤ work marks (record { manifest = m; rest = d ∷ ds } ∷ frames))
        (ok_injective e)
        (let share =
            unseen-enter known m'.id m' visiting marks
              (subst (λ k. get k known ≡ some m') (sym (keyed d m' found)) found)
              (subst (λ k. has k marks ≡ false) (sym (keyed d m' found)) fresh) in
          omega (arith, share))

  follow-work :
      (m : FeatureManifest) (d : String) (ds : List String) (o : Option Mark) (marks : Dict Mark)
      (order : List FeatureManifest) (frames : List Frame) (t : Traversal)
      → get d marks ≡ o
      → Keyed known
      → follow known d o marks order (record { manifest = m; rest = ds } ∷ frames) ≡ ok t
      → work t.marks t.stack + 1 ≤ work marks (record { manifest = m; rest = d ∷ ds } ∷ frames)
  unfolding work open_work
  follow-work m d ds (some visiting) marks order frames t g keyed e = cc
  follow-work m d ds (some visited) marks order frames t g keyed e =
      subst
        (λ (u : Traversal).
          work u.marks u.stack + 1 ≤ work marks (record { manifest = m; rest = d ∷ ds } ∷ frames))
        (ok_injective e) (omega arith)
  follow-work m d ds none marks order frames t g keyed e =
      enter_found-work m d ds (get d known) marks order frames t refl (unmarked (has d marks) refl)
        keyed e
    where
      unmarked : (b : Bool) → has d marks ≡ b → has d marks ≡ false
      unmarked false h = h
      unmarked true h = let (mark, found) = get-some_of_has d marks h in cc

  -- Each step of the loop costs one.
  pub step-work :
      (f : Frame) (marks : Dict Mark) (order : List FeatureManifest) (frames : List Frame)
      (t : Traversal)
      → Keyed known
      → step known f.manifest f.rest marks order frames ≡ ok t
      → work t.marks t.stack + 1 ≤ work marks (f ∷ frames)
  unfolding step work open_work
  step-work f marks order frames t keyed = by_rest f.rest refl
    where
      by_rest :
          (rest : List String)
          → f.rest ≡ rest
          → step known f.manifest rest marks order frames ≡ ok t
          → work t.marks t.stack + 1 ≤ work marks (f ∷ frames)
      by_rest [] r e =
          subst (λ (u : Traversal). work u.marks u.stack + 1 ≤ work marks (f ∷ frames))
            (ok_injective e) (omega (arith, unseen-put known f.manifest.id visited marks))
      by_rest (d ∷ ds) r e =
          subst
            (λ ds'.
              work t.marks t.stack + 1 ≤ unseen known marks + (length ds' + 1 + open_work frames))
            (sym r) (follow-work f.manifest d ds (get d marks) marks order frames t refl keyed e)
