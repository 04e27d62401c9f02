-- ===== src/Base/Sorted.antt =====
-- Predicates on all and on some elements of a list, through filter, map, take and sort_by.
use Prim.Native.Nat.{ℕ, zero, suc}
use mathlib.Core.Path.{◌≡◌, refl, ◌∙◌, ap}
use mathlib.Core.Bool.{Bool, true, false, ◌||◌}
use mathlib.Core.List.{List, [], ◌∷◌, ◌++◌, map}
use native.Mathlib.Omega.{arith}
use tauri_boilerplate.Base.Tests.{if_ind, leb}
use tauri_boilerplate.Base.Lists.{length, take, filter, any, All, Any, here, there}
use tauri_boilerplate.Base.Tables.{update_where, insert_by, sort_by}

module _ {ℓ} {A : Type ℓ} where
  pub any-insert_by :
      (p : A → Bool) (key : A → ℕ) (x : A) (xs : List A)
      → any p (insert_by key x xs) ≡ (p x || any p xs)
  any-insert_by p key x [] = refl
  any-insert_by p key x (y ∷ ys) =
      if_ind (λ (zs : List A). any p zs ≡ (p x || (p y || any p ys))) (leb (key x) (key y))
        (λ _. refl) λ _. ground (arith, any-insert_by p key x ys)

  pub any-sort_by : (p : A → Bool) (key : A → ℕ) (xs : List A) → any p (sort_by key xs) ≡ any p xs
  unfolding sort_by
  any-sort_by p key [] = refl
  any-sort_by p key (x ∷ xs) =
      any-insert_by p key x (sort_by key xs) ∙ ap (λ b. p x || b) (any-sort_by p key xs)

  pub length-insert_by :
      (key : A → ℕ) (x : A) (xs : List A) → length (insert_by key x xs) ≡ suc (length xs)
  length-insert_by key x [] = refl
  length-insert_by key x (y ∷ ys) =
      if_ind (λ (zs : List A). length zs ≡ suc (suc (length ys))) (leb (key x) (key y)) (λ _. refl)
        λ _. ap suc (length-insert_by key x ys)

  pub length-sort_by : (key : A → ℕ) (xs : List A) → length (sort_by key xs) ≡ length xs
  unfolding sort_by
  length-sort_by key [] = refl
  length-sort_by key (x ∷ xs) =
      length-insert_by key x (sort_by key xs) ∙ ap suc (length-sort_by key xs)

  pub any-take : (p : A → Bool) (n : ℕ) (xs : List A) → any p (take n xs) ≡ true → any p xs ≡ true
  any-take p zero xs h = ground arith
  any-take p (suc n) [] h = h
  any-take p (suc n) (x ∷ xs) h = ground (arith, any-take p n xs)

module _ {ℓ κ} {A : Type ℓ} (P : A → Type κ) where
  pub All-insert_by :
      (key : A → ℕ) (x : A) (xs : List A) → P x → All P xs → All P (insert_by key x xs)
  All-insert_by key x [] px h = (px, tt)
  All-insert_by key x (y ∷ ys) px (py, h) =
      if_ind (All P) (leb (key x) (key y)) (λ _. (px, (py, h)))
        λ _. (py, All-insert_by key x ys px h)

  pub All-sort_by : (key : A → ℕ) (xs : List A) → All P xs → All P (sort_by key xs)
  unfolding sort_by
  All-sort_by key [] h = tt
  All-sort_by key (x ∷ xs) (px, h) = All-insert_by key x (sort_by key xs) px (All-sort_by key xs h)

  -- Every element that passes the test has the property.
  pub All-filter :
      (p : A → Bool) (xs : List A) → All (λ x. p x ≡ true → P x) xs → All P (filter p xs)
  All-filter p [] h = tt
  All-filter p (x ∷ xs) (px, h) =
      if_ind (All P) (p x) (λ e. (px e, All-filter p xs h)) (λ _. All-filter p xs h)

  pub All-append : (xs ys : List A) → All P xs → All P ys → All P (xs ++ ys)
  All-append [] ys h k = k
  All-append (x ∷ xs) ys (px, h) k = (px, All-append xs ys h k)

  pub All-prefix : (xs ys : List A) → All P (xs ++ ys) → All P xs
  All-prefix [] ys h = tt
  All-prefix (x ∷ xs) ys (px, h) = (px, All-prefix xs ys h)

  pub All-of : ((x : A) → P x) → (xs : List A) → All P xs
  All-of f [] = tt
  All-of f (x ∷ xs) = (f x, All-of f xs)

  pub All-update_keep :
      (p : A → Bool) (f : A → A)
      → ((x : A) → P x → P (f x))
      → (xs : List A) → All P xs
      → All P (update_where p f xs)
  All-update_keep p f keep [] h = tt
  All-update_keep p f keep (x ∷ xs) (px, h) =
      (if_ind P (p x) (λ _. keep x px) (λ _. px), All-update_keep p f keep xs h)

  pub All-update_where :
      (p : A → Bool) (f : A → A)
      → ((x : A) → p x ≡ true → P (f x))
      → ((x : A) → p x ≡ false → P x)
      → (xs : List A) → All P (update_where p f xs)
  All-update_where p f hit miss [] = tt
  All-update_where p f hit miss (x ∷ xs) =
      (if_ind P (p x) (hit x) (miss x), All-update_where p f hit miss xs)

module _ {ℓ κ κ'} {A : Type ℓ} {P : A → Type κ} {Q : A → Type κ'} where
  pub All-update :
      (p : A → Bool) (f : A → A)
      → ((x : A) → p x ≡ true → P x → Q (f x))
      → ((x : A) → p x ≡ false → P x → Q x)
      → (xs : List A) → All P xs
      → All Q (update_where p f xs)
  All-update p f hit miss [] h = tt
  All-update p f hit miss (x ∷ xs) (px, h) =
      (if_ind Q (p x) (λ e. hit x e px) (λ e. miss x e px), All-update p f hit miss xs h)

  pub All-mono : ((x : A) → P x → Q x) → (xs : List A) → All P xs → All Q xs
  All-mono f [] h = tt
  All-mono f (x ∷ xs) (px, h) = (f x px, All-mono f xs h)

module _ {ℓ ℓ' κ} {A : Type ℓ} {B : Type ℓ'} (P : B → Type κ) where
  pub All-map : (f : A → B) (xs : List A) → All (λ x. P (f x)) xs → All P (map f xs)
  All-map f [] h = tt
  All-map f (x ∷ xs) (px, h) = (px, All-map f xs h)

module _ {ℓ κ κ'} {A : Type ℓ} {P : A → Type κ} {Q : A → Type κ'} where
  pub Any-mono : ((x : A) → P x → Q x) → (xs : List A) → Any P xs → Any Q xs
  Any-mono f [] h = elim h [ ]
  Any-mono f (x ∷ xs) (here p) = here (f x p)
  Any-mono f (x ∷ xs) (there h) = there (Any-mono f xs h)

module _ {ℓ κ} {A : Type ℓ} (P : A → Type κ) where
  pub Any-append : (xs ys : List A) → Any P xs → Any P (xs ++ ys)
  Any-append [] ys h = elim h [ ]
  Any-append (x ∷ xs) ys (here p) = here p
  Any-append (x ∷ xs) ys (there h) = there (Any-append xs ys h)

  pub Any-update_where :
      (p : A → Bool) (f : A → A)
      → ((x : A) → P x → P (f x))
      → (xs : List A) → Any P xs
      → Any P (update_where p f xs)
  Any-update_where p f keep [] h = elim h [ ]
  Any-update_where p f keep (x ∷ xs) (here px) = here (if_ind P (p x) (λ e. keep x px) (λ e. px))
  Any-update_where p f keep (x ∷ xs) (there h) = there (Any-update_where p f keep xs h)

  pub Any-last : (xs : List A) (x : A) → P x → Any P (xs ++ x ∷ [])
  Any-last [] x p = here p
  Any-last (y ∷ xs) x p = there (Any-last xs x p)

module _ {ℓ} {A : Type ℓ} where
  -- Each element stands in its own list.
  pub All-Any : (xs : List A) → All (λ x. Any (λ y. y ≡ x) xs) xs
  All-Any [] = tt
  All-Any (x ∷ xs) = (here refl, All-mono (λ y h. there h) xs (All-Any xs))
