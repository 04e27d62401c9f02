-- ===== src/Tasks/Floats.antt =====
-- The floating point numbers of the source, as the operations that the retry rule uses. They are a
-- parameter, of which nothing is assumed: NaN and the infinities may be among them, and `round` is then some
-- integer, with which the source would build no date.
use tauri_boilerplate.Base.{ℕ, Bool}
use tauri_boilerplate.Base.Int.{ℤ}

pub record Floats : Type 1 where
  pub Num : Type 0
  pub zero : Num
  pub one : Num
  pub two : Num
  pub add : Num → Num → Num
  pub sub : Num → Num → Num
  pub mul : Num → Num → Num
  -- The number nearest to n / d, for the literals of the source.
  pub ratio : (n d : ℕ) → Num
  -- Math.pow, Math.min, Math.round
  pub pow : Num → ℤ → Num
  pub min : Num → Num → Num
  pub round : Num → ℤ
  pub is_finite : Num → Bool
  -- a <= b and a < b
  pub leb : Num → Num → Bool
  pub ltb : Num → Num → Bool
