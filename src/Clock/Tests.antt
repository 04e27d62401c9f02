-- ===== src/Clock/Tests.antt =====
-- Runs of the hybrid logical clock, and the theorems about it at concrete inputs.
use Prim.Native.Char.{code}
use Prim.Native.Nat
use Prim.Native.Nat.{Ordering}
use tauri_boilerplate.Base.{◌≡◌, refl, arith, ok, err, String, List, [], ◌∷◌, length}
use tauri_boilerplate.Base.Int.{pos, negsuc}
use tauri_boilerplate.Clock.Format.{Text, to_hex, hex_digits, format}
use tauri_boilerplate.Clock.Hlc.{HybridLogicalClock, now, update, compare}
use tauri_boilerplate.Clock.Parse.{
  max_safe, RangeError, invalid_timestamp, span, parse_canonical, parse_legacy, parse,
}
use tauri_boilerplate.Clock.Iso.{read_iso, epoch_millis}
use tauri_boilerplate.Clock.RoundTrip.{parse-format}
use tauri_boilerplate.Clock.Calls.{IsReady}
use tauri_boilerplate.Clock.Trace.{
  Event, local, receive, run, IsIncreasing, run-IsIncreasing, update-above_remote,
}
use tauri_boilerplate.Clock.Exhausted.{update_stops_clock}
use tauri_boilerplate.Clock.Order.{IsCollation}

abbrev codes : String → Text
codes String.[] = []
codes (String.◌∷◌ c s) = code c ∷ codes s

abbrev node_a : Text
node_a = codes "node-a"

format_padded : format (pos 0x18f) 2 node_a ≡ codes "00000000018f_0002_node-a"
unfolding format to_hex hex_digits
format_padded = refl

parse_tests :
    (parse (codes "00000000018f_0002_node-a")
      ≡ ok (record { physical_time = pos 0x18f; counter = 2; node_id = node_a }))
    × (parse (codes "1970-01-02T00:00:00.005Z|7|n_1")
        ≡ ok (record { physical_time = pos 86_400_005; counter = 7; node_id = codes "n_1" }))
    × (parse (codes "2024-02-29T23:59:59.999Z:0:x")
        ≡ ok (record { physical_time = pos 1_709_251_199_999; counter = 0; node_id = codes "x" }))
    × (parse (codes "1969-12-31T23:59:59.999Z:0:x")
        ≡ ok (record { physical_time = negsuc 0; counter = 0; node_id = codes "x" }))
    × (parse (codes "2023-02-29T00:00:00.000Z:0:x") ≡ err invalid_timestamp)
    × (parse (codes "18f_2_") ≡ err invalid_timestamp)
    × (parse (codes "18F_2_x") ≡ err invalid_timestamp)
    × (parse (codes "20000000000000_0_x") ≡ err invalid_timestamp)
unfolding parse parse_canonical parse_legacy read_iso span epoch_millis
parse_tests = (refl, refl, refl, refl, refl, refl, refl, refl)

-- A collation by length, for the instances.
abbrev by_length : Text → Text → Ordering
by_length a b = Nat.compare (length a) (length b)

by_length-IsCollation : IsCollation by_length
by_length-IsCollation = record { flips = λ a b. ground arith; lt_trans = λ a b c h k. ground arith }

parse-format_example :
    parse (format (pos 0x18f) 2 node_a)
    ≡ ok (record { physical_time = pos 0x18f; counter = 2; node_id = node_a })
parse-format_example = parse-format 0x18f 2 node_a (omega arith) (omega arith) refl

abbrev clock : HybridLogicalClock
clock = record { latest_time = pos 1000; counter = 4; node_id = node_a }

clock-IsReady : IsReady clock
clock-IsReady = record { safe = ground arith; one_line = refl }

-- A reading that jumps back, a remote timestamp ahead of the clock, and a malformed text.
abbrev calls : List Event
calls =
    local (pos 900)
    ∷ receive (pos 901) (codes "0000000007d0_0003_b")
    ∷ receive (pos 902) (codes "junk")
    ∷ local (pos 2001)
    ∷ []

calls-run :
    (run calls clock).0
    ≡ codes "0000000003e8_0005_node-a"
      ∷ codes "0000000007d0_0004_node-a"
      ∷ codes "0000000007d1_0000_node-a"
      ∷ []
unfolding run now update format to_hex hex_digits parse parse_canonical parse_legacy span read_iso
calls-run = refl

run-IsIncreasing_example : IsIncreasing by_length (run calls clock).0
run-IsIncreasing_example = run-IsIncreasing by_length calls clock (ground arith) clock-IsReady

abbrev remote : Text
remote = codes "0000000007d0_0003_b"

update_runs : (update (pos 901) remote clock).0 ≡ ok (codes "0000000007d0_0004_node-a")
unfolding update format to_hex hex_digits parse parse_canonical span
update_runs = refl

update-above_remote_example :
    compare by_length remote (codes "0000000007d0_0004_node-a") ≡ ok Ordering.lt
update-above_remote_example =
    update-above_remote by_length (pos 901) remote _ clock (omega arith) clock-IsReady update_runs

update_stops_clock_example :
    let s = update (pos 901) (format (pos max_safe) max_safe (codes "b")) clock in
    ((e : RangeError) × (s.0 ≡ err e)) × ((run (local (pos 950) ∷ []) s.1).0 ≡ [])
update_stops_clock_example =
    update_stops_clock (pos 901) (codes "b") clock (local (pos 950) ∷ []) (omega arith)
      clock-IsReady.safe refl (ground arith)

compare_runs : compare by_length (codes "5_1_b") (codes "5_1_ab") ≡ ok Ordering.lt
unfolding compare parse parse_canonical span
compare_runs = refl
