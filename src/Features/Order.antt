-- ===== src/Features/Order.antt =====
-- The order that DependencyResolver finds: dependencies come first, and nothing is left out.
use tauri_boilerplate.Base.{
  ◌≡◌, ◌⊎◌, inl, inr, refl, sym, ap, ◌∙◌, subst, Bool, true, false, ◌||◌, ◌==◌, string_eq, ==_iff,
  ==_refl, String, Option, none, some, List, [], ◌∷◌, ◌++◌, any, Dict, get, put, get-put, arith,
  Bool-cases,
}
use tauri_boilerplate.Features.Resolver.{
  FeatureManifest, Mark, visiting, visited, Manifests, dependencies_of, Frame,
}

key_injective : {j k : String} → Path (Option String) (some j) (some k) → j ≡ k
key_injective h = cc

get-put_self : (k : String) (v : Mark) (marks : Dict Mark) → get k (put k v marks) ≡ some v
get-put_self k v marks = get-put k k v marks ∙ rw (==_refl k) refl

-- An entry under another key stands.
pub get-put_apart :
    (k j : String) (v : Mark) (marks : Dict Mark)
    → (k == j) ≡ false
    → get j (put k v marks) ≡ get j marks
get-put_apart k j v marks h = get-put k j v marks ∙ rw h refl

-- An entry under the same key is the new one.
pub get-put_same :
    (k j : String) (v : Mark) (marks : Dict Mark) → (k == j) ≡ true → get j (put k v marks) ≡ some v
get-put_same k j v marks h = get-put k j v marks ∙ rw h refl

abbrev pub is_among : String → List FeatureManifest → Bool
is_among k ms = any (λ (m : FeatureManifest). m.id == k) ms

module _ (known : Manifests) where
  abbrev pub needs : FeatureManifest → String → Bool
  needs m d = any (λ e. e == d) (dependencies_of known m)

  -- Every dependency of a manifest is among `seen` and the manifests before it.
  abbrev pub DependenciesFirst : List String → List FeatureManifest → Type 0
  DependenciesFirst seen [] = Unit
  DependenciesFirst seen (m ∷ ms) =
      ((d : String) → needs m d ≡ true → any (λ k. k == d) seen ≡ true)
      × DependenciesFirst (m.id ∷ seen) ms

  -- The map holds each manifest under its own id.
  abbrev pub Keyed : Type 0
  Keyed = (k : String) (m : FeatureManifest) → get k known ≡ some m → m.id ≡ k

  pub among-snoc :
      (k : String) (m : FeatureManifest) (ms : List FeatureManifest)
      → is_among k (ms ++ m ∷ []) ≡ (is_among k ms || m.id == k)
  among-snoc k m [] = ground arith
  among-snoc k m (x ∷ ms) = ground (arith, among-snoc k m ms)

  first-snoc :
      (m : FeatureManifest) (seen : List String) (ms : List FeatureManifest)
      → DependenciesFirst seen ms
      → ((d : String) → needs m d ≡ true → (any (λ k. k == d) seen || is_among d ms) ≡ true)
      → DependenciesFirst seen (ms ++ m ∷ [])
  first-snoc m seen [] h new = (λ d n. let h' = new d n in ground arith, tt)
  first-snoc m seen (x ∷ ms) (own, h) new =
      (own, first-snoc m (x.id ∷ seen) ms h (λ d n. let h' = new d n in ground arith))

  -- A dependency of an open frame is still to come, or done, or is the frame above.
  abbrev pub Passed : Dict Mark → Option String → Frame → Type 0
  Passed marks above f =
      (d : String)
      → needs f.manifest d ≡ true
      → (any (λ e. e == d) f.rest ≡ true) ⊎ (get d marks ≡ some visited) ⊎ (above ≡ some d)

  abbrev pub FramesFit : Dict Mark → Option String → List Frame → Type 0
  FramesFit marks above [] = Unit
  FramesFit marks above (f ∷ fs) = Passed marks above f × FramesFit marks (some f.manifest.id) fs

  pub record IsSound (marks : Dict Mark) (order : List FeatureManifest) (frames : List Frame)
      : Type 0 where
    pub first : DependenciesFirst [] order
    pub left : (k : String) → get k marks ≡ some visited → is_among k order ≡ true
    pub opened :
        (k : String)
        → get k marks ≡ some visiting
        → any (λ (f : Frame). f.manifest.id == k) frames ≡ true
    pub fit : FramesFit marks none frames

  fit_kept :
      (marks marks' : Dict Mark) (above : Option String) (fs : List Frame)
      → ((d : String) → get d marks ≡ some visited → get d marks' ≡ some visited)
      → FramesFit marks above fs
      → FramesFit marks' above fs
  fit_kept marks marks' above [] keeps h = tt
  fit_kept marks marks' above (f ∷ fs) keeps (p, h) = (
    λ d n. elim (p d n) [
      | inl e ↦ inl e
      | inr (inl e) ↦ inr (inl (keeps d e))
      | inr (inr e) ↦ inr (inr e)
    ],
    fit_kept marks marks' (some f.manifest.id) fs keeps h,
  )

  -- When a frame is left, the one below it finds its dependency done.
  fit-leave :
      (id : String) (marks : Dict Mark) (fs : List Frame)
      → FramesFit marks (some id) fs
      → FramesFit (put id visited marks) none fs
  fit-leave id marks [] h = tt
  fit-leave id marks (f ∷ fs) (p, h) = (
    λ d n. elim (p d n) [
      | inl e ↦ inl e
      | inr (inl e) ↦ inr (inl (stays d e))
      | inr (inr e) ↦ inr (inl (now_left d e))
    ],
    fit_kept marks (put id visited marks) (some f.manifest.id) fs stays h,
  )
    where
      stays :
          (d : String) → get d marks ≡ some visited → get d (put id visited marks) ≡ some visited
      stays d e = ground (arith, get-put id d visited marks)

      now_left :
          (d : String)
          → Path (Option String) (some id) (some d)
          → get d (put id visited marks) ≡ some visited
      now_left d e =
          subst (λ k. get k (put id visited marks) ≡ some visited) (key_injective e)
            (get-put_self id visited marks)

  pub leave-IsSound :
      (m : FeatureManifest) (marks : Dict Mark) (order : List FeatureManifest) (frames : List Frame)
      → IsSound marks order (record { manifest = m; rest = [] } ∷ frames)
      → IsSound (put m.id visited marks) (order ++ m ∷ []) frames
  leave-IsSound m marks order frames s = record {
    first =
        first-snoc m [] order s.first
          (λ d n. elim (s.fit.0 d n) [ inl e ↦ cc | inr (inl e) ↦ s.left d e | inr (inr e) ↦ cc ]);
    left = λ k e. among-snoc k m order ∙ elim (Bool-cases (m.id == k)) [
      | inl same ↦ ground (arith, same)
      | inr apart ↦
          let old = s.left k (sym (get-put_apart m.id k visited marks apart) ∙ e) in ground arith
    ];
    opened = λ k e. elim (Bool-cases (m.id == k)) [
      | inl same ↦ (let both = sym (get-put_same m.id k visited marks same) ∙ e in cc)
      | inr apart ↦
          let old = s.opened k (sym (get-put_apart m.id k visited marks apart) ∙ e) in ground arith
    ];
    fit = fit-leave m.id marks frames s.fit.1;
  }

  -- The frame moves past a dependency that is done.
  pub pass-IsSound :
      (m : FeatureManifest) (d : String) (ds : List String) (marks : Dict Mark)
      (order : List FeatureManifest) (frames : List Frame)
      → get d marks ≡ some visited
      → IsSound marks order (record { manifest = m; rest = d ∷ ds } ∷ frames)
      → IsSound marks order (record { manifest = m; rest = ds } ∷ frames)
  pass-IsSound m d ds marks order frames done s = record {
    first = s.first;
    left = s.left;
    opened = s.opened;
    fit = (
      λ e n. elim (s.fit.0 e n) [
        | inl here ↦ elim (Bool-cases (d == e)) [
          | inl same ↦
              inr (inl (subst (λ k. get k marks ≡ some visited) ((==_iff d e).0 same) done))
          | inr apart ↦ inl (ground arith)
        ]
        | inr other ↦ inr other
      ],
      s.fit.1,
    );
  }

  -- A dependency that was not seen before comes on top of the stack.
  pub enter-IsSound :
      (m m' : FeatureManifest) (ds : List String) (marks : Dict Mark) (order : List FeatureManifest)
      (frames : List Frame)
      → get m'.id marks ≡ none
      → IsSound marks order (record { manifest = m; rest = m'.id ∷ ds } ∷ frames)
      → IsSound (put m'.id visiting marks) order (
          record { manifest = m'; rest = dependencies_of known m' }
          ∷ record { manifest = m; rest = ds }
          ∷ frames)
  enter-IsSound m m' ds marks order frames fresh s = record {
    first = s.first;
    left = λ k e. elim (Bool-cases (m'.id == k)) [
      | inl same ↦ (let both = sym (get-put_same m'.id k visiting marks same) ∙ e in cc)
      | inr apart ↦ s.left k (sym (get-put_apart m'.id k visiting marks apart) ∙ e)
    ];
    opened = λ k e. elim (Bool-cases (m'.id == k)) [
      | inl same ↦ ground arith
      | inr apart ↦
          let old = s.opened k (sym (get-put_apart m'.id k visiting marks apart) ∙ e) in
          ground arith
    ];
    fit = (
      λ d n. inl n,
      (
        λ d n. elim (s.fit.0 d n) [
          | inl here ↦ elim (Bool-cases (m'.id == d)) [
            | inl same ↦ inr (inr (ap some ((==_iff m'.id d).0 same)))
            | inr apart ↦ inl (ground arith)
          ]
          | inr (inl done) ↦ inr (inl (stays d done))
          | inr (inr above) ↦ cc
        ],
        fit_kept marks (put m'.id visiting marks) (some m.id) frames stays s.fit.1,
      ),
    );
  }
    where
      stays :
          (d : String)
          → get d marks ≡ some visited
          → get d (put m'.id visiting marks) ≡ some visited
      stays d e = elim (Bool-cases (m'.id == d)) [
        | inl same ↦
            (let e' = subst (λ k. get k marks ≡ some visited) (sym ((==_iff m'.id d).0 same)) e in
              cc)
        | inr apart ↦ get-put_apart m'.id d visiting marks apart ∙ e
      ]
