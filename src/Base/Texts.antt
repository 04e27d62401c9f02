-- ===== src/Base/Texts.antt =====
-- What the source does with whole texts: `trim`, and the test for a blank text.
use Prim.Native.Nat.{ℕ}
use Prim.Native.Char.{code}
use Prim.Native.String.{String}
use mathlib.Core.Bool.{Bool, true, ◌&&◌, ◌||◌}
use mathlib.Core.Option.{Option, none, some}
use tauri_boilerplate.Base.Tests.{leb, ◌==◌, nat_eq, string_eq, if◌then◌else◌}

-- The white space and line ends that `trim` strips.
abbrev pub is_space : ℕ → Bool
is_space c =
    (leb 9 c && leb c 13)
    || c == 32
    || c == 160
    || c == 0x1680
    || (leb 0x2000 c && leb c 0x200a)
    || c == 0x2028
    || c == 0x2029
    || c == 0x202f
    || c == 0x205f
    || c == 0x3000
    || c == 0xfeff

-- `!text.trim()`
unfoldable pub is_blank : String → Bool
is_blank String.[] = true
is_blank (String.◌∷◌ c s) = is_space (code c) && is_blank s

-- A text that may be absent, as an `if` takes it: the empty text counts as absent.
abbrev pub truthy : Option String → Option String
truthy none = none
truthy (some k) = if k == "" then none else some k
