-- ===== src/Base/Counts.antt =====
-- How many elements of a list pass a test, through the operations on tables.
use Prim.Native.Nat.{ℕ, suc, ◌+◌}
use mathlib.Core.Path.{◌≡◌, refl, ◌∙◌, ap}
use mathlib.Core.Bool.{Bool, false, ◌||◌}
use mathlib.Core.List.{List, [], ◌∷◌, ◌++◌}
use native.Mathlib.Omega.{arith}
use tauri_boilerplate.Base.Tests.{if◌then◌else◌, if_ind, leb}
use tauri_boilerplate.Base.Lists.{any}
use tauri_boilerplate.Base.Tables.{update_where, insert_by, sort_by}

module _ {ℓ} {A : Type ℓ} where
  abbrev pub count : (A → Bool) → List A → ℕ
  count p [] = 0
  count p (x ∷ xs) = if p x then suc (count p xs) else count p xs

  pub count-append : (p : A → Bool) (xs ys : List A) → count p (xs ++ ys) ≡ count p xs + count p ys
  count-append p [] ys = omega arith
  count-append p (x ∷ xs) ys = ground (arith, count-append p xs ys)

  pub count-eq-zero : (p : A → Bool) (xs : List A) → any p xs ≡ false → count p xs ≡ 0
  count-eq-zero p [] h = refl
  count-eq-zero p (x ∷ xs) h = ground (arith, count-eq-zero p xs)

  -- An update that no test can tell leaves the count alone.
  pub count-update_where :
      (p q : A → Bool) (f : A → A)
      → ((x : A) → p (f x) ≡ p x)
      → (xs : List A) → count p (update_where q f xs) ≡ count p xs
  count-update_where p q f same [] = refl
  count-update_where p q f same (x ∷ xs) = ground (arith, same x, count-update_where p q f same xs)

  count-insert_by :
      (p : A → Bool) (key : A → ℕ) (x : A) (xs : List A)
      → count p (insert_by key x xs) ≡ count p (x ∷ xs)
  count-insert_by p key x [] = refl
  count-insert_by p key x (y ∷ ys) =
      if_ind (λ (zs : List A). count p zs ≡ count p (x ∷ y ∷ ys)) (leb (key x) (key y)) (λ _. refl)
        λ _. ground (arith, count-insert_by p key x ys)

  pub count-sort_by :
      (p : A → Bool) (key : A → ℕ) (xs : List A) → count p (sort_by key xs) ≡ count p xs
  unfolding sort_by
  count-sort_by p key [] = refl
  count-sort_by p key (x ∷ xs) =
      count-insert_by p key x (sort_by key xs)
      ∙ ap (λ n. if p x then suc n else n) (count-sort_by p key xs)

  pub any-append : (p : A → Bool) (xs ys : List A) → any p (xs ++ ys) ≡ (any p xs || any p ys)
  any-append p [] ys = refl
  any-append p (x ∷ xs) ys = ground (arith, any-append p xs ys)
