-- ===== src/Handshake/Tests.antt =====
-- Runs of the handshake validation. A time is one of two texts.
use tauri_boilerplate.Base.{
  ◌≡◌, ◌↔◌, refl, ◌==◌, string_eq, if◌then◌else◌, String, Option, none, some, List, [], ◌∷◌, ok,
  err,
}
use tauri_boilerplate.Base.Int.{ℤ, pos}
use tauri_boilerplate.Handshake.Validator.{
  HandshakeMessage, HandshakeValidationOptions, timestamp_skew, nonce_replayed, org_id_mismatch,
  cryptographic_signature_invalid, starts_with, remember, require_valid,
}
use tauri_boilerplate.Handshake.Replay.{IsAdmissible, require_valid-ok_iff}
use tauri_boilerplate.Handshake.Overlap.{
  Event, begins, settles, step, admitted_nonces, Distinct, AreApart, admitted_nonces-Distinct,
}

abbrev parse_date : String → Option ℤ
parse_date s =
    if s == "t0" then some (pos 100_000) else if s == "t1" then some (pos 900_000) else none

abbrev nonce : String
nonce = "0123456789abcdef0123456789abcdef"

abbrev message : HandshakeMessage
message = record {
  application_id = "app";
  application_version = "1.0.0";
  protocol_version = pos 2;
  device_id = "d";
  organisation_id = "org";
  platform = "windows";
  supported_features = [];
  supported_entity_versions = [];
  timestamp = "t0";
  nonce = nonce;
  signer_public_key = "ed25519_pk_0123456789abcdef0123456789abcdef0123456789abcdef0123456789abcdef";
  signature =
      "0123456789abcdef0123456789abcdef0123456789abcdef0123456789abcdef0123456789abcdef0123456789abcdef0123456789abcdef0123456789abcdef";
}

abbrev options : HandshakeValidationOptions
options = record {
  expected_application_id = "app";
  expected_organisation_id = "org";
  minimum_protocol_version = pos 1;
  current_protocol_version = pos 1;
  max_timestamp_skew_ms = none;
  seen_nonces = some [];
  verify = some (λ m. m.device_id == "d");
}

abbrev seen : HandshakeValidationOptions
seen = record options { seen_nonces = some (nonce ∷ []) }

-- The message is of a later protocol version than the current one, and is admitted.
validations :
    (require_valid parse_date (pos 120_000) message options ≡ ok seen)
    × (require_valid parse_date (pos 120_000) message seen ≡ err nonce_replayed)
    × (require_valid parse_date (pos 130_001) message options ≡ err timestamp_skew)
    × (require_valid parse_date (pos 120_000) (record message { organisation_id = "x" }) options
        ≡ err org_id_mismatch)
    × (require_valid parse_date (pos 120_000) (record message { device_id = "e" }) options
        ≡ err cryptographic_signature_invalid)
unfolding require_valid starts_with
validations = (refl, refl, refl, refl, refl)

require_valid-ok_iff_example :
    (require_valid parse_date (pos 120_000) message options ≡ ok seen) ↔ (
      IsAdmissible parse_date (pos 120_000) message options
      × (seen ≡ record options { seen_nonces = remember parse_date nonce (some []) }))
require_valid-ok_iff_example = require_valid-ok_iff parse_date (pos 120_000) message options seen

-- The message comes once, and again when its verification has ended.
abbrev events : List Event
events = begins (pos 120_000) message ∷ settles 0 ∷ begins (pos 121_000) message ∷ settles 0 ∷ []

events_admit : admitted_nonces parse_date events (options, []) ≡ nonce ∷ []
unfolding admitted_nonces starts_with
events_admit = refl

-- It comes again while the first is being verified: both calls admit its nonce.
overlap_admits :
    admitted_nonces parse_date
      (begins (pos 120_000) message ∷ begins (pos 121_000) message ∷ settles 0 ∷ settles 0 ∷ [])
      (options, [])
    ≡ nonce ∷ nonce ∷ []
unfolding admitted_nonces starts_with
overlap_admits = refl

events-AreApart : AreApart parse_date events (options, [])
unfolding step starts_with
events-AreApart = (refl, (tt, (refl, (tt, tt))))

admitted_nonces-Distinct_example : Distinct (admitted_nonces parse_date events (options, [])) []
admitted_nonces-Distinct_example =
    admitted_nonces-Distinct parse_date events options [] refl events-AreApart
