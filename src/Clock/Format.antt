-- ===== src/Clock/Format.antt =====
-- `format` of packages/sync-protocol/src/hlc/HybridLogicalClock.ts, over UTF-16 code units.
use mathlib.Core.Logic.{dite}
use mathlib.Core.WellFounded.{Acc}
use tauri_boilerplate.Base.{
  ℕ, zero, suc, ◌+◌, ◌-◌, ◌/◌, ◌%◌, ◌<◌, List, [], ◌∷◌, ◌++◌, ltb, ◌==◌, nat_eq, if◌then◌else◌,
  length, dec_lt, arith,
}
use tauri_boilerplate.Base.Int.{ℤ, pos, negsuc}
use tauri_boilerplate.Base.Order.{lt_wf}

abbrev pub Text : Type 0
Text = List ℕ

abbrev pub hex_digit : ℕ → ℕ
hex_digit d = if ltb d 10 then b'0' + d else (b'a' - 10) + d

-- The digits of `n`, put before `out`.
unfoldable pub emit_hex : (n : ℕ) → Acc ◌<◌ n → Text → Text
emit_hex n (Acc.intro _ smaller) out =
    dite (dec_lt 0 n)
      (λ h. emit_hex (n / 16) (smaller (n / 16) (omega arith)) (hex_digit (n % 16) ∷ out))
      (λ _. out)

unfoldable pub hex_digits : ℕ → Text → Text
unfolding emit_hex lt_wf dec_lt
hex_digits n = emit_hex n (lt_wf.apply n)

-- `n.toString(16)` for n ≥ 0
unfoldable pub to_hex : ℕ → Text
to_hex n = if n == 0 then b'0' ∷ [] else hex_digits n []

abbrev pub zeros : ℕ → Text → Text
zeros zero s = s
zeros (suc n) s = b'0' ∷ zeros n s

-- `s.padStart(width, "0")`
abbrev pub pad_start : ℕ → Text → Text
pad_start width s = zeros (width - length s) s

-- `x.toString(16)` for an integer
abbrev pub int_to_hex : ℤ → Text
int_to_hex (pos n) = to_hex n
int_to_hex (negsuc n) = b'-' ∷ to_hex (suc n)

unfoldable pub format : ℤ → ℕ → Text → Text
format physical counter node_id =
    pad_start 12 (int_to_hex physical)
    ++ (b'_' ∷ (pad_start 4 (to_hex counter) ++ (b'_' ∷ node_id)))
