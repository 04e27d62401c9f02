-- ===== src/Clock/RoundTrip.antt =====
-- `parse` reads back what `format` writes.
use mathlib.Core.Logic.{ite, dite}
use mathlib.Core.WellFounded
use mathlib.Core.WellFounded.{Acc, Acc-prop}
use tauri_boilerplate.Base.{
  ℕ, zero, suc, ◌/◌, ◌%◌, ◌≤◌, ◌<◌, ◌≡◌, ◌≢◌, refl, [], ◌∷◌, ◌++◌, true, some, arith, All, ap, ◌∙◌,
  dec_lt, ok,
}
use tauri_boilerplate.Base.Int.{pos}
use tauri_boilerplate.Base.Order.{lt_wf}
use tauri_boilerplate.Clock.Format.{
  Text, hex_digit, emit_hex, hex_digits, to_hex, zeros, pad_start, format,
}
use tauri_boilerplate.Clock.Parse.{
  max_safe, span, is_hex, hex_value, parse_int, is_node, split_field, hex_field, canonical_stamp,
  canonical_head, canonical_tail, parse_canonical, parse,
}

abbrev IsHex : ℕ → Type 0
IsHex c = is_hex c ≡ true

emit_hex_step :
    (n : ℕ) (w : Acc ◌<◌ n) (w' : Acc ◌<◌ (n / 16)) (out : Text)
    → emit_hex n w out ≡ ite (dec_lt 0 n) (emit_hex (n / 16) w' (hex_digit (n % 16) ∷ out)) out
unfolding emit_hex
emit_hex_step n (Acc.intro _ smaller) w' out = λ i.
    dite (dec_lt 0 n)
      (λ h.
        emit_hex (n / 16) (Acc-prop (smaller (n / 16) (omega arith)) w' i)
          (hex_digit (n % 16) ∷ out))
      (λ _. out)

hex_digits_step :
    (n : ℕ) (out : Text)
    → hex_digits n out ≡ ite (dec_lt 0 n) (hex_digits (n / 16) (hex_digit (n % 16) ∷ out)) out
unfolding hex_digits
hex_digits_step n = emit_hex_step n (lt_wf.apply n) (lt_wf.apply (n / 16))

hex_value-hex_digit : (d : ℕ) → d < 16 → (hex_value (hex_digit d) ≡ d) × IsHex (hex_digit d)
hex_value-hex_digit d h = ground arith

abbrev value : ℕ → Text → ℕ
value = parse_int 16 hex_value

value-hex_digits : (n : ℕ) (out : Text) → value 0 (hex_digits n out) ≡ value n out
unfolding parse_int
value-hex_digits n =
    WellFounded.induction lt_wf {C = λ m. (out : Text) → value 0 (hex_digits m out) ≡ value m out} n
      λ m ih out. grind (arith, hex_digits_step m out, hex_value-hex_digit (m % 16), ih (m / 16))

All-hex_digits : (n : ℕ) (out : Text) → All IsHex out → All IsHex (hex_digits n out)
All-hex_digits n =
    WellFounded.induction lt_wf
      {C = λ m. (out : Text) → All IsHex out → All IsHex (hex_digits m out)} n
      λ m ih out h. grind (arith, hex_digits_step m out, hex_value-hex_digit (m % 16), ih (m / 16))

value-to_hex : (n : ℕ) → value 0 (to_hex n) ≡ n
unfolding to_hex parse_int
value-to_hex n = ground (arith, value-hex_digits n [])

All-to_hex : (n : ℕ) → All IsHex (to_hex n)
unfolding to_hex
All-to_hex n = ground (arith, All-hex_digits n [])

value-zeros : (k : ℕ) (s : Text) → value 0 (zeros k s) ≡ value 0 s
unfolding parse_int
value-zeros zero s = refl
value-zeros (suc k) s = value-zeros k s

All-zeros : (k : ℕ) (s : Text) → All IsHex s → All IsHex (zeros k s)
All-zeros zero s h = h
All-zeros (suc k) s h = (refl, All-zeros k s h)

span_stop :
    (run : Text) (rest : Text)
    → All IsHex run
    → span is_hex (run ++ (b'_' ∷ rest)) ≡ (run, b'_' ∷ rest)
unfolding span
span_stop [] rest h = refl
span_stop (c ∷ run) rest (hc, hs) = rw (span_stop run rest hs, hc)

hex_field_lem :
    (run : Text) (rest : Text)
    → run ≢ []
    → All IsHex run
    → hex_field (run ++ (b'_' ∷ rest)) ≡ some (run, rest)
unfolding hex_field
hex_field_lem [] rest ne h = absurd (ne refl)
hex_field_lem (c ∷ run) rest ne h = ap split_field (span_stop (c ∷ run) rest h)

hex_digits-ne-nil : (n : ℕ) (out : Text) → out ≢ [] → hex_digits n out ≢ []
hex_digits-ne-nil n =
    WellFounded.induction lt_wf {C = λ m. (out : Text) → out ≢ [] → hex_digits m out ≢ []} n
      λ m ih out h. grind (arith, hex_digits_step m out, ih (m / 16))

to_hex-ne-nil : (n : ℕ) → to_hex n ≢ []
unfolding to_hex
to_hex-ne-nil n =
    ground (arith, hex_digits_step n [], hex_digits-ne-nil (n / 16) (hex_digit (n % 16) ∷ []))

zeros-ne-nil : (k : ℕ) (s : Text) → s ≢ [] → zeros k s ≢ []
zeros-ne-nil zero s h = h
zeros-ne-nil (suc k) s h = cc

-- A number as `format` writes it, between the start and an underscore.
padded_field :
    (w n : ℕ) (rest : Text)
    → hex_field (pad_start w (to_hex n) ++ (b'_' ∷ rest)) ≡ some (pad_start w (to_hex n), rest)
padded_field w n rest =
    hex_field_lem _ rest (zeros-ne-nil _ _ (to_hex-ne-nil n)) (All-zeros _ _ (All-to_hex n))

value-padded : (w n : ℕ) → value 0 (pad_start w (to_hex n)) ≡ n
value-padded w n = value-zeros _ (to_hex n) ∙ value-to_hex n

canonical_stamp_lem :
    (w v p k : ℕ) (node : Text)
    → p ≤ max_safe
    → k ≤ max_safe
    → is_node node ≡ true
    → canonical_stamp (pad_start w (to_hex p)) (pad_start v (to_hex k)) node
      ≡ some (record { physical_time = pos p; counter = k; node_id = node })
unfolding canonical_stamp
canonical_stamp_lem w v p k node hp hk hn =
    rw (value-padded w p, value-padded v k, hn) (ground arith)

parse_canonical-format :
    (p k : ℕ) (node : Text)
    → p ≤ max_safe
    → k ≤ max_safe
    → is_node node ≡ true
    → parse_canonical (format (pos p) k node)
      ≡ some (record { physical_time = pos p; counter = k; node_id = node })
unfolding parse_canonical format
parse_canonical-format p k node hp hk hn =
    ap canonical_head (padded_field 12 p _)
    ∙ ap (canonical_tail (pad_start 12 (to_hex p))) (padded_field 4 k node)
    ∙ canonical_stamp_lem 12 4 p k node hp hk hn

-- Every text that `format` builds from a nonnegative safe time, a safe counter and a node name of
-- one line parses back to that time, counter and node name.
pub parse-format :
    (p k : ℕ) (node : Text)
    → p ≤ max_safe
    → k ≤ max_safe
    → is_node node ≡ true
    → parse (format (pos p) k node)
      ≡ ok (record { physical_time = pos p; counter = k; node_id = node })
unfolding parse
parse-format p k node hp hk hn = rw (parse_canonical-format p k node hp hk hn, parse)
