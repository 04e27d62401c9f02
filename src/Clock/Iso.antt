-- ===== src/Clock/Iso.antt =====
-- The timestamps that `HybridLogicalClock.parse` still accepts in ISO form: what `Date.parse` and
-- `toISOString` of the language do with a text of the form YYYY-MM-DDTHH:mm:ss.sssZ.
use tauri_boilerplate.Base.{
  ℕ, zero, suc, ◌+◌, ◌-◌, ◌*◌, ◌/◌, ◌%◌, List, [], ◌∷◌, Option, none, some, Bool, true, false, ◌&&◌,
  ◌||◌, not, ltb, leb, ◌==◌, nat_eq, if◌then◌else◌,
}
use tauri_boilerplate.Base.Int.{ℤ, sub_ℕ}
use tauri_boilerplate.Clock.Format.{Text}

infixl 5 ◌>>=◌ ◌>>◌
abbrev ◌>>=◌ : {A B : Type 0} → Option A → (A → Option B) → Option B
none >>= f = none
some a >>= f = f a

abbrev ◌>>◌ : {B : Type 0} → Option (Unit {0}) → Option B → Option B
m >> k = m >>= λ _. k

abbrev guard : Bool → Option (Unit {0})
guard true = some tt
guard false = none

abbrev pub is_digit : ℕ → Bool
is_digit c = leb b'0' c && leb c b'9'

-- `\d{n}`, with the number that the digits spell behind `acc`
pub read_digits : ℕ → ℕ → Text → Option (ℕ × Text)
read_digits zero acc t = some (acc, t)
read_digits (suc n) acc [] = none
read_digits (suc n) acc (c ∷ t) =
    if is_digit c then read_digits n (acc * 10 + (c - b'0')) t else none

pub read_char : ℕ → Text → Option Text
read_char c [] = none
read_char c (d ∷ t) = if c == d then some t else none

pub record IsoFields : Type 0 where
  pub year : ℕ
  pub month : ℕ
  pub day : ℕ
  pub hour : ℕ
  pub minute : ℕ
  pub second : ℕ
  pub millis : ℕ

-- `\d{4}-\d{2}-\d{2}T\d{2}:\d{2}:\d{2}\.\d{3}Z`
unfoldable pub read_iso : Text → Option (IsoFields × Text)
unfolding read_digits read_char
read_iso t₀ = do
  (y, t₁) ← read_digits 4 0 t₀
  (mo, t₂) ← read_digits 2 0 (← read_char b'-' t₁)
  (d, t₃) ← read_digits 2 0 (← read_char b'-' t₂)
  (h, t₄) ← read_digits 2 0 (← read_char b'T' t₃)
  (mi, t₅) ← read_digits 2 0 (← read_char b':' t₄)
  (s, t₆) ← read_digits 2 0 (← read_char b':' t₅)
  (ms, t₇) ← read_digits 3 0 (← read_char b'.' t₆)
  rest ← read_char b'Z' t₇
  some (
    record { year = y; month = mo; day = d; hour = h; minute = mi; second = s; millis = ms },
    rest,
  )

abbrev pub is_leap : ℕ → Bool
is_leap y = y % 4 == 0 && (not (y % 100 == 0) || y % 400 == 0)

abbrev pub month_lengths : ℕ → List ℕ
month_lengths y =
    31 ∷ (if is_leap y then 29 else 28) ∷ 31 ∷ 30 ∷ 31 ∷ 30 ∷ 31 ∷ 31 ∷ 30 ∷ 31 ∷ 30 ∷ 31 ∷ []

-- The days before a month counted from 0, and the length of that month.
pub month_start : ℕ → ℕ → List ℕ → Option (ℕ × ℕ)
month_start before m [] = none
month_start before zero (n ∷ ns) = some (before, n)
month_start before (suc m) (n ∷ ns) = month_start (before + n) m ns

-- The days before the first of January of a year, counted from year 0.
abbrev pub year_start : ℕ → ℕ
year_start y = 365 * y + (y + 3) / 4 - (y + 99) / 100 + (y + 399) / 400

-- `Date.parse`, where `toISOString` gives the same text back: the fields are a date and a time.
unfoldable pub epoch_millis : IsoFields → Option ℤ
unfolding month_start
epoch_millis f = do
  (before, len) ← if f.month == 0 then none else month_start 0 (f.month - 1) (month_lengths f.year)
  guard (leb 1 f.day && leb f.day len && ltb f.hour 24 && ltb f.minute 60 && ltb f.second 60)
  some (
      sub_ℕ
        ((year_start f.year + before + (f.day - 1)) * 86_400_000
          + f.hour * 3_600_000
          + f.minute * 60_000
          + f.second * 1000
          + f.millis)
        (719_528 * 86_400_000))
