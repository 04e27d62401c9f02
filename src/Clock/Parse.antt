-- ===== src/Clock/Parse.antt =====
-- `HybridLogicalClock.parse` of packages/sync-protocol/src/hlc/HybridLogicalClock.ts.
use tauri_boilerplate.Base.{
  ℕ, ◌+◌, ◌-◌, ◌*◌, [], ◌∷◌, Option, none, some, Bool, true, false, ◌&&◌, ◌||◌, not, leb, ◌==◌,
  nat_eq, if◌then◌else◌, all, Result, ok, err,
}
use tauri_boilerplate.Base.Int.{ℤ, pos, negsuc, leb_ℤ}
use tauri_boilerplate.Clock.Format.{Text}
use tauri_boilerplate.Clock.Iso.{is_digit, IsoFields, read_iso, epoch_millis}

-- Number.MAX_SAFE_INTEGER
abbrev pub max_safe : ℕ
max_safe = 9_007_199_254_740_991

-- Number.isSafeInteger
abbrev pub is_safe : ℤ → Bool
is_safe n = leb_ℤ n (pos max_safe) && leb_ℤ (negsuc (max_safe - 1)) n

-- interface HlcTimestamp
pub record HlcTimestamp : Type 0 where
  pub physical_time : ℤ
  pub counter : ℕ
  pub node_id : Text

-- The RangeErrors of this class.
pub data RangeError : Type 0 where
  invalid_timestamp space_exhausted : RangeError

-- The longest run of characters at the front that satisfy `p`, and what follows it.
unfoldable pub span : (ℕ → Bool) → Text → Text × Text
span p [] = ([], [])
span p (c ∷ t) = let (run, rest) = span p t in if p c then (c ∷ run, rest) else ([], c ∷ t)

-- `[0-9a-f]`
abbrev pub is_hex : ℕ → Bool
is_hex c = is_digit c || (leb b'a' c && leb c b'f')

abbrev pub hex_value : ℕ → ℕ
hex_value c = if leb b'a' c then c - (b'a' - 10) else c - b'0'

-- `Number.parseInt(t, base)` on a run of digits, behind `acc`. Past MAX_SAFE_INTEGER a Number
-- is rounded, and stays past it.
unfoldable pub parse_int : ℕ → (ℕ → ℕ) → ℕ → Text → ℕ
parse_int base value acc [] = acc
parse_int base value acc (c ∷ t) = parse_int base value (acc * base + value c) t

-- What `.` does not match: LF, CR and the separators U+2028 and U+2029.
abbrev pub is_line_end : ℕ → Bool
is_line_end c = c == 10 || c == 13 || c == 0x2028 || c == 0x2029

-- `(.+)$`
abbrev pub is_node : Text → Bool
is_node [] = false
is_node (c ∷ t) = not (is_line_end c) && all (λ d. not (is_line_end d)) t

abbrev pub is_nonempty : Text → Bool
is_nonempty [] = false
is_nonempty (c ∷ t) = true

-- The text behind the separator `sep`, or nothing.
abbrev pub after : ℕ → Text → Option Text
after sep [] = none
after sep (c ∷ t) = if c == sep then some t else none

unfoldable pub split_field : Text × Text → Option (Text × Text)
split_field (run, rest) =
    if is_nonempty run
    then elim (after b'_' rest) [ none ↦ none | some u ↦ some (run, u) ]
    else none

-- `([0-9a-f]+)_`: the run of digits and what follows the underscore.
unfoldable pub hex_field : Text → Option (Text × Text)
unfolding split_field
hex_field t = split_field (span is_hex t)

-- The values of the two runs, where they are safe integers.
unfoldable pub canonical_stamp : Text → Text → Text → Option HlcTimestamp
unfolding parse_int
canonical_stamp p c node =
    let physical = parse_int 16 hex_value 0 p in
    let counter = parse_int 16 hex_value 0 c in
    if is_node node && leb physical max_safe && leb counter max_safe
    then some (record { physical_time = pos physical; counter = counter; node_id = node })
    else none

unfoldable pub canonical_tail : Text → Option (Text × Text) → Option HlcTimestamp
canonical_tail p none = none
canonical_tail p (some (c, node)) = canonical_stamp p c node

unfoldable pub canonical_head : Option (Text × Text) → Option HlcTimestamp
canonical_head none = none
canonical_head (some (p, rest)) = canonical_tail p (hex_field rest)

-- `/^([0-9a-f]+)_([0-9a-f]+)_(.+)$/`, then the test for safe integers.
unfoldable pub parse_canonical : Text → Option HlcTimestamp
unfolding canonical_head canonical_tail hex_field canonical_stamp
parse_canonical t = canonical_head (hex_field t)

-- The counter and the node behind the date, between two separators that are the same.
unfoldable pub legacy_tail : ℤ → Text → Option HlcTimestamp
unfolding span parse_int
legacy_tail physical [] = none
legacy_tail physical (sep ∷ t) =
    let (run, rest) = span is_digit t in
    let counter = parse_int 10 (λ c. c - b'0') 0 run in
    if (sep == b':' || sep == b'|') && is_nonempty run && is_safe physical && leb counter max_safe
    then elim (after sep rest) [
      | none ↦ none
      | some node ↦
          if is_node node
          then some (record { physical_time = physical; counter = counter; node_id = node })
          else none
    ]
    else none

unfoldable pub legacy_time : Option ℤ → Text → Option HlcTimestamp
legacy_time none rest = none
legacy_time (some physical) rest = legacy_tail physical rest

unfoldable pub legacy_head : Option (IsoFields × Text) → Option HlcTimestamp
legacy_head none = none
legacy_head (some (fields, rest)) = legacy_time (epoch_millis fields) rest

-- The legacy form, with an ISO date in place of the hexadecimal time.
unfoldable pub parse_legacy : Text → Option HlcTimestamp
unfolding legacy_head legacy_time legacy_tail
parse_legacy t = legacy_head (read_iso t)

-- static parse
unfoldable pub parse : Text → Result RangeError HlcTimestamp
parse t = elim (parse_canonical t) [
  | some stamp ↦ ok stamp
  | none ↦ elim (parse_legacy t) [ some stamp ↦ ok stamp | none ↦ err RangeError.invalid_timestamp ]
]
