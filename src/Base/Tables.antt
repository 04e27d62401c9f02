-- ===== src/Base/Tables.antt =====
-- SQL tables as lists of rows: UPDATE and SELECT, and relations between a table and its update.
use Prim.Native.Nat.{ℕ}
use mathlib.Core.Path.{◌≡◌}
use mathlib.Core.Bool.{Bool, true}
use mathlib.Core.List.{List, [], ◌∷◌}
use tauri_boilerplate.Base.Tests.{if◌then◌else◌, if_ind, leb}

module _ {ℓ} {Row : Type ℓ} where
  -- UPDATE … SET f WHERE p
  abbrev pub update_where : (Row → Bool) → (Row → Row) → List Row → List Row
  update_where p f [] = []
  update_where p f (r ∷ t) = (if p r then f r else r) ∷ update_where p f t

  -- ORDER BY key ASC: a stable insertion sort. The order of equal keys is the table's.
  abbrev pub insert_by : (Row → ℕ) → Row → List Row → List Row
  insert_by key r [] = r ∷ []
  insert_by key r (s ∷ t) = if leb (key r) (key s) then r ∷ s ∷ t else s ∷ insert_by key r t

  unfoldable pub sort_by : (Row → ℕ) → List Row → List Row
  sort_by key [] = []
  sort_by key (r ∷ t) = insert_by key r (sort_by key t)

-- The rows of two tables, related one by one.
module _ {ℓ} {Row : Type ℓ} (R : Row → Row → Type 0) where
  abbrev pub Pointwise : List Row → List Row → Type 0
  Pointwise [] [] = Unit
  Pointwise [] (s ∷ u) = ⊥
  Pointwise (r ∷ t) [] = ⊥
  Pointwise (r ∷ t) (s ∷ u) = R r s × Pointwise t u

  pub update_where-Pointwise :
      (p : Row → Bool) (f : Row → Row)
      → ((r : Row) → p r ≡ true → R r (f r))
      → ((r : Row) → R r r)
      → (t : List Row) → Pointwise t (update_where p f t)
  update_where-Pointwise p f hit miss [] = tt
  update_where-Pointwise p f hit miss (r ∷ t) =
      (if_ind (R r) (p r) (hit r) (λ _. miss r), update_where-Pointwise p f hit miss t)
