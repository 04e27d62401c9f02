-- ===== src/Features/Once.antt =====
-- The order that DependencyResolver finds has each manifest once, and only manifests that were given.
use tauri_boilerplate.Base.{
  ◌≡◌, refl, sym, ◌∙◌, subst, Bool, true, false, ◌||◌, ◌==◌, string_eq, ==_iff, ==_refl, eq_iff,
  String, none, some, List, [], ◌∷◌, ◌++◌, any, Dict, get, put, arith, All, Bool-cases, inl, inr,
}
use tauri_boilerplate.Features.Resolver.{FeatureManifest, Mark, visiting, visited, Manifests, Frame}
use tauri_boilerplate.Features.Order.{get-put_same, get-put_apart, is_among, among-snoc}

-- No two manifests have one id, and none has an id of `seen`.
abbrev pub Once : List String → List FeatureManifest → Type 0
Once seen [] = Unit
Once seen (m ∷ ms) = (any (λ k. k == m.id) seen ≡ false) × Once (m.id ∷ seen) ms

Once-snoc :
    (m : FeatureManifest) (seen : List String) (ms : List FeatureManifest)
    → Once seen ms
    → (any (λ k. k == m.id) seen || is_among m.id ms) ≡ false
    → Once seen (ms ++ m ∷ [])
Once-snoc m seen [] h new = (ground arith, tt)
Once-snoc m seen (x ∷ ms) (own, h) new = (own, Once-snoc m (x.id ∷ seen) ms h (ground arith))

module _ {ℓ} {A : Type ℓ} (P : A → Type 0) where
  All-snoc : (xs : List A) (x : A) → All P xs → P x → All P (xs ++ x ∷ [])
  All-snoc [] x h p = (p, tt)
  All-snoc (y ∷ xs) x (q, h) p = (q, All-snoc xs x h p)

apart_flip : (j k : String) → (k == j) ≡ false → (j == k) ≡ false
apart_flip j k h = ground (arith, eq_iff j k, eq_iff k j)

module _ (known : Manifests) where
  abbrev pub IsKnown : FeatureManifest → Type 0
  IsKnown m = get m.id known ≡ some m

  abbrev pub is_stacked : String → List Frame → Bool
  is_stacked k fs = any (λ (f : Frame). f.manifest.id == k) fs

  -- Every open frame is of a known manifest under the mark `visiting`, and of another than those below.
  abbrev pub OpenOnce : Dict Mark → List Frame → Type 0
  OpenOnce marks [] = Unit
  OpenOnce marks (f ∷ fs) =
      ((get f.manifest.id marks ≡ some visiting)
        × (is_stacked f.manifest.id fs ≡ false)
        × IsKnown f.manifest)
      × OpenOnce marks fs

  pub record IsOnce (marks : Dict Mark) (order : List FeatureManifest) (frames : List Frame)
      : Type 0 where
    pub once : Once [] order
    pub known_order : All IsKnown order
    pub came : (k : String) → is_among k order ≡ true → get k marks ≡ some visited
    pub opened : OpenOnce marks frames

  -- A new mark of a manifest that is not open leaves the open frames as they are.
  open-put :
      (k : String) (v : Mark) (marks : Dict Mark) (fs : List Frame)
      → is_stacked k fs ≡ false
      → OpenOnce marks fs
      → OpenOnce (put k v marks) fs
  open-put k v marks [] apart h = tt
  open-put k v marks (f ∷ fs) apart ((mark, alone, own), h) = (
    (
      get-put_apart k f.manifest.id v marks (apart_flip k f.manifest.id (ground arith)) ∙ mark,
      alone,
      own,
    ),
    open-put k v marks fs (ground arith) h,
  )

  -- A manifest without a mark is not open.
  unmarked-closed :
      (k : String) (marks : Dict Mark) (fs : List Frame)
      → get k marks ≡ none
      → OpenOnce marks fs
      → is_stacked k fs ≡ false
  unmarked-closed k marks [] fresh h = refl
  unmarked-closed k marks (f ∷ fs) fresh ((mark, alone, own), h) =
      elim (Bool-cases (f.manifest.id == k)) [
        | inl same ↦
            (let mark' =
                subst (λ j. get j marks ≡ some visiting) ((==_iff f.manifest.id k).0 same) mark in
              cc)
        | inr apart ↦ (let rest = unmarked-closed k marks fs fresh h in ground arith)
      ]

  pub leave-IsOnce :
      (m : FeatureManifest) (marks : Dict Mark) (order : List FeatureManifest) (frames : List Frame)
      → IsOnce marks order (record { manifest = m; rest = [] } ∷ frames)
      → IsOnce (put m.id visited marks) (order ++ m ∷ []) frames
  leave-IsOnce m marks order frames s =
      let ((mark, alone, own), below) = s.opened in
      record {
        once = Once-snoc m [] order s.once (not_yet mark (is_among m.id order) refl);
        known_order = All-snoc IsKnown order m s.known_order own;
        came = λ k e. elim (Bool-cases (m.id == k)) [
          | inl same ↦ get-put_same m.id k visited marks same
          | inr apart ↦ get-put_apart m.id k visited marks apart ∙ s.came k (before k apart e)
        ];
        opened = open-put m.id visited marks frames alone below;
      }
    where
      not_yet :
          get m.id marks ≡ some visiting
          → (b : Bool) → is_among m.id order ≡ b
          → is_among m.id order ≡ false
      not_yet mark false h = h
      not_yet mark true h = let came = s.came m.id h in cc

      before :
          (k : String)
          → (m.id == k) ≡ false
          → is_among k (order ++ m ∷ []) ≡ true
          → is_among k order ≡ true
      before k apart e = let split = sym (among-snoc known k m order) ∙ e in ground arith

  pub pass-IsOnce :
      (m : FeatureManifest) (rest rest' : List String) (marks : Dict Mark)
      (order : List FeatureManifest) (frames : List Frame)
      → IsOnce marks order (record { manifest = m; rest = rest } ∷ frames)
      → IsOnce marks order (record { manifest = m; rest = rest' } ∷ frames)
  pass-IsOnce m rest rest' marks order frames s = record {
    once = s.once;
    known_order = s.known_order;
    came = s.came;
    opened = s.opened;
  }

  -- A known manifest without a mark is put on the stack.
  pub enter-IsOnce :
      (m : FeatureManifest) (rest : List String) (marks : Dict Mark) (order : List FeatureManifest)
      (frames : List Frame)
      → get m.id marks ≡ none
      → IsKnown m
      → IsOnce marks order frames
      → IsOnce (put m.id visiting marks) order (record { manifest = m; rest = rest } ∷ frames)
  enter-IsOnce m rest marks order frames fresh own s =
      let closed = unmarked-closed m.id marks frames fresh s.opened in
      record {
        once = s.once;
        known_order = s.known_order;
        came = λ k e. elim (Bool-cases (m.id == k)) [
          | inl same ↦
              (let mark =
                  subst (λ j. get j marks ≡ some visited) (sym ((==_iff m.id k).0 same))
                    (s.came k e) in
                cc)
          | inr apart ↦ get-put_apart m.id k visiting marks apart ∙ s.came k e
        ];
        opened = (
          (get-put_same m.id m.id visiting marks (==_refl m.id), closed, own),
          open-put m.id visiting marks frames closed s.opened,
        );
      }
