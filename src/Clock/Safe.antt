-- ===== src/Clock/Safe.antt =====
-- The numbers in what `HybridLogicalClock.parse` returns are safe integers.
use tauri_boilerplate.Base.{◌≤◌, ◌≡◌, arith, ok, [], ◌∷◌, Option, none, some}
use tauri_boilerplate.Base.Int.{ℤ, pos, ◌≤ℤ◌}
use tauri_boilerplate.Clock.Format.{Text}
use tauri_boilerplate.Clock.Iso.{IsoFields, read_iso, epoch_millis}
use tauri_boilerplate.Clock.Parse.{
  max_safe, HlcTimestamp, canonical_stamp, canonical_tail, canonical_head, parse_canonical,
  legacy_tail, legacy_time, legacy_head, parse_legacy, hex_field, parse,
}

abbrev pub SafeStamp : HlcTimestamp → Type 0
SafeStamp s = (s.physical_time ≤ℤ pos max_safe) × (s.counter ≤ max_safe)

abbrev SafeIfAny : Option HlcTimestamp → Type 0
SafeIfAny none = Unit
SafeIfAny (some s) = SafeStamp s

canonical_stamp-SafeIfAny : (p c node : Text) → SafeIfAny (canonical_stamp p c node)
unfolding canonical_stamp
canonical_stamp-SafeIfAny p c node = ground arith

canonical_tail-SafeIfAny : (p : Text) (o : Option (Text × Text)) → SafeIfAny (canonical_tail p o)
unfolding canonical_tail
canonical_tail-SafeIfAny p none = tt
canonical_tail-SafeIfAny p (some (c, node)) = canonical_stamp-SafeIfAny p c node

canonical_head-SafeIfAny : (o : Option (Text × Text)) → SafeIfAny (canonical_head o)
unfolding canonical_head
canonical_head-SafeIfAny none = tt
canonical_head-SafeIfAny (some (p, rest)) = canonical_tail-SafeIfAny p (hex_field rest)

legacy_tail-SafeIfAny : (physical : ℤ) (t : Text) → SafeIfAny (legacy_tail physical t)
unfolding legacy_tail
legacy_tail-SafeIfAny physical [] = tt
legacy_tail-SafeIfAny physical (sep ∷ t) = ground arith

legacy_time-SafeIfAny : (o : Option ℤ) (rest : Text) → SafeIfAny (legacy_time o rest)
unfolding legacy_time
legacy_time-SafeIfAny none rest = tt
legacy_time-SafeIfAny (some physical) rest = legacy_tail-SafeIfAny physical rest

legacy_head-SafeIfAny : (o : Option (IsoFields × Text)) → SafeIfAny (legacy_head o)
unfolding legacy_head
legacy_head-SafeIfAny none = tt
legacy_head-SafeIfAny (some (fields, rest)) = legacy_time-SafeIfAny (epoch_millis fields) rest

-- `parse` returns safe integers.
pub parse-SafeStamp : (t : Text) {s : HlcTimestamp} → parse t ≡ ok s → SafeStamp s
unfolding parse parse_canonical parse_legacy
parse-SafeStamp t {s} h =
    ground (arith, canonical_head-SafeIfAny (hex_field t), legacy_head-SafeIfAny (read_iso t))
