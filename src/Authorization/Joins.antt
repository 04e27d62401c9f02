-- ===== src/Authorization/Joins.antt =====
-- SQL joins as nested lists of rows: when a join finds a row that passes a test.
use tauri_boilerplate.Base.{
  ◌≡◌, ◌↔◌, ◌⊎◌, inl, inr, refl, sym, ap, ◌∙◌, Bool, true, false, ◌&&◌, ◌||◌, string_eq, List, [],
  ◌∷◌, any, any-append, arith, Any, here, there, Any-mono, Bool-cases,
}
use tauri_boilerplate.Authorization.Engine.{concat_map, only}

module _ {ℓ} {A : Type ℓ} where
  any-only : (p : A → Bool) (b : Bool) (xs : List A) → any p (only b xs) ≡ (b && any p xs)
  any-only p true xs = refl
  any-only p false xs = refl

  any-Any : (p : A → Bool) (xs : List A) → any p xs ≡ true → Any (λ x. p x ≡ true) xs
  any-Any p [] h = cc
  any-Any p (x ∷ xs) h = elim (Bool-cases (p x)) [
    | inl e ↦ here e
    | inr e ↦ there (any-Any p xs (ground arith))
  ]

  Any-any : (p : A → Bool) (xs : List A) → Any (λ x. p x ≡ true) xs → any p xs ≡ true
  Any-any p [] h = elim h [ ]
  Any-any p (x ∷ xs) (here e) = ground arith
  Any-any p (x ∷ xs) (there h) = let rest = Any-any p xs h in ground arith

  any-cong : (p q : A → Bool) → ((x : A) → p x ≡ q x) → (xs : List A) → any p xs ≡ any q xs
  any-cong p q e [] = refl
  any-cong p q e (x ∷ xs) = rw (e x, any-cong p q e xs) refl

module _ {ℓ κ} {A : Type ℓ} {B : Type κ} where
  any-concat_map :
      (p : B → Bool) (f : A → List B) (xs : List A)
      → any p (concat_map f xs) ≡ any (λ x. any p (f x)) xs
  unfolding concat_map
  any-concat_map p f [] = refl
  any-concat_map p f (x ∷ xs) =
      any-append p (f x) (concat_map f xs) ∙ ap (λ b. any p (f x) || b) (any-concat_map p f xs)

-- A join that finds a row, in words.
module _ {ℓ} {A : Type ℓ} {P : A → Type 0} where
  pub any_iff :
      (p : A → Bool) → ((x : A) → (p x ≡ true) ↔ P x) → (xs : List A) → (any p xs ≡ true) ↔ Any P xs
  any_iff p f xs = (
    λ h. Any-mono (λ x. (f x).0) xs (any-Any p xs h),
    λ h. Any-any p xs (Any-mono (λ x. (f x).1) xs h),
  )

module _ {ℓ} {A : Type ℓ} {P : Type 0} where
  pub one_iff : (p : A → Bool) (x : A) → (p x ≡ true) ↔ P → (any p (x ∷ []) ≡ true) ↔ P
  one_iff p x (f, f') = (λ h. f (ground arith), λ q. let h = f' q in ground arith)

pub and_iff :
    {P Q : Type 0} (a b : Bool) → (a ≡ true) ↔ P → (b ≡ true) ↔ Q → ((a && b) ≡ true) ↔ (P × Q)
and_iff true b (f, f') (g, g') = (λ h. (f refl, g h), λ (p, q). g' q)
and_iff false b (f, f') (g, g') = (λ h. cc, λ (p, q). f' p)

pub or_iff :
    {P Q : Type 0} (a b : Bool) → (a ≡ true) ↔ P → (b ≡ true) ↔ Q → ((a || b) ≡ true) ↔ (P ⊎ Q)
or_iff true b (f, f') (g, g') = (λ h. inl (f refl), λ h. refl)
or_iff false b (f, f') (g, g') =
    (λ h. inr (g h), λ h. elim h [ inl p ↦ (let h' = f' p in cc) | inr q ↦ g' q ])

module _ {ℓ κ} {A : Type ℓ} {B : Type κ} {P Q : A → Type 0} where
  -- One join: the rows under a condition, of which one must lead to a row that passes.
  pub join_iff :
      (p : B → Bool) (on : A → Bool) (f : A → List B)
      → ((x : A) → (on x ≡ true) ↔ P x)
      → ((x : A) → (any p (f x) ≡ true) ↔ Q x)
      → (xs : List A)
      → (any p (concat_map (λ x. only (on x) (f x)) xs) ≡ true) ↔ Any (λ x. P x × Q x) xs
  join_iff p on f sel rest xs =
      let each = λ (x : A). and_iff (on x) (any p (f x)) (sel x) (rest x) in
      let found = any_iff (λ x. on x && any p (f x)) each xs in
      let flat =
        any-concat_map p (λ x. only (on x) (f x)) xs
        ∙ any-cong (λ x. any p (only (on x) (f x))) (λ x. on x && any p (f x))
            (λ x. any-only p (on x) (f x)) xs in
      (λ h. found.0 (sym flat ∙ h), λ h. flat ∙ found.1 h)
