-- ===== src/Envelope/Tests.antt =====
-- A payload and an envelope. Leaves are texts, every value has the JSON text "{}", and a byte is not kept.
use tauri_boilerplate.Base.{◌≡◌, ◌↔◌, refl, true, String, [], ◌∷◌, ok}
use tauri_boilerplate.Clock.Parse.{parse_canonical, span}
use tauri_boilerplate.Envelope.Json.{
  Value, leaf, array, object, end, item, close, field, sorted_keys,
}
use tauri_boilerplate.Envelope.Canonical.{Same, sorted_keys-eq_iff}
use tauri_boilerplate.Envelope.Builder.{validate_envelope, build, verify}
use tauri_boilerplate.Envelope.Samples.{
  literals, stringify, encode, iso_date, operation, key, sign, verify_fn, envelope,
}
use tauri_boilerplate.Envelope.Signing.{build-verify}

-- { b: [{ d, c }], a } and { a, b: [{ c, d }] }
abbrev first : Value String
first = object (
    field (b'b' ∷ [])
      (array
        (item (object (field (b'd' ∷ []) (leaf "1") (field (b'c' ∷ []) (leaf "2") close))) end))
      (field (b'a' ∷ []) (leaf "3") close))

abbrev second : Value String
second = object (
    field (b'a' ∷ []) (leaf "3") (
      field (b'b' ∷ [])
        (array
          (item (object (field (b'c' ∷ []) (leaf "2") (field (b'd' ∷ []) (leaf "1") close))) end))
        close))

first-sorted_keys : sorted_keys first ≡ second
unfolding sorted_keys
first-sorted_keys = refl

sorted_keys-eq_iff_example : (sorted_keys first ≡ sorted_keys second) ↔ Same first second
sorted_keys-eq_iff_example = sorted_keys-eq_iff first second

build-verify_example :
    (envelope.operation ≡ operation)
    × (envelope.envelope_id ≡ "op")
    × (validate_envelope literals stringify encode iso_date envelope ≡ ok tt)
    × (verify literals stringify encode iso_date envelope verify_fn ≡ ok true)
unfolding build parse_canonical span
build-verify_example =
    build-verify literals stringify encode iso_date operation key "2026-01-01T00:00:00.000Z" sign
      verify_fn envelope refl (λ bytes s canonical signed. refl)
