-- ===== src/Handshake/Validator.antt =====
-- HandshakeValidator of packages/sync-protocol/src/handshake/HandshakeProtocol.ts. `parse_date` is what
-- Date.parse returns, or nothing where that is NaN; `verify` is `verifyFn` on the canonical bytes of a
-- message.
use Prim.Native.Char.{code}
use tauri_boilerplate.Base.{
  ℕ, ◌+◌, ◌-◌, ◌/◌, ◌%◌, Bool, true, false, not, ◌&&◌, ltb, ◌==◌, nat_eq, string_eq, if◌then◌else◌,
  String, Option, none, some, List, [], ◌∷◌, any, all, length, Result, ok, err, ◌>>◌, throw_if,
}
use tauri_boilerplate.Base.Int.{ℤ, pos, pos_part, neg_part, ltb_ℤ}
use tauri_boilerplate.Clock.Format.{Text}
use tauri_boilerplate.Clock.Parse.{is_hex}

pub record HandshakeMessage : Type 0 where
  pub application_id : String
  pub application_version : String
  pub protocol_version : ℤ
  pub device_id : String
  pub organisation_id : String
  pub platform : String
  pub supported_features : List String
  pub supported_entity_versions : List (String × ℤ)
  pub timestamp : String
  pub nonce : String
  pub signer_public_key : String
  pub signature : String

pub record HandshakeValidationOptions : Type 0 where
  pub expected_application_id : String
  pub expected_organisation_id : String
  pub minimum_protocol_version : ℤ
  pub current_protocol_version : ℤ
  pub max_timestamp_skew_ms : Option ℤ
  -- The set of nonces, which `requireValid` updates.
  pub seen_nonces : Option (List String)
  pub verify : Option (HandshakeMessage → Bool)

pub data HandshakeCode : Type 0 where
  app_id_mismatch org_id_mismatch protocol_incompatible timestamp_skew : HandshakeCode
  nonce_replayed nonce_invalid signature_invalid public_key_invalid : HandshakeCode
  -- The refusal by `verifyFn`, which has no code of its own.
  cryptographic_signature_invalid : HandshakeCode

-- The UTF-16 code units of a text.
unfoldable pub units : String → Text
units String.[] = []
units (String.◌∷◌ c s) =
    let n = code c in
    let rest = units s in
    if ltb n 0x10000
    then n ∷ rest
    else (0xd800 + (n - 0x10000) / 0x400) ∷ (0xdc00 + (n - 0x10000) % 0x400) ∷ rest

-- /^[0-9a-f]{n}$/
abbrev pub is_hex_of_length : ℕ → Text → Bool
is_hex_of_length n t = all is_hex t && length t == n

-- t.startsWith(p)
unfoldable pub starts_with : Text → Text → Bool
starts_with t [] = true
starts_with [] (d ∷ p) = false
starts_with (c ∷ t) (d ∷ p) = c == d && starts_with t p

-- Math.abs(a - b)
abbrev pub distance : ℤ → ℤ → ℕ
distance a b =
    let m = pos_part a + neg_part b in let n = pos_part b + neg_part a in (m - n) + (n - m)

abbrev pub max_skew : Option ℤ → ℤ
max_skew none = pos 30_000
max_skew (some s) = s

abbrev pub is_replayed : String → Option (List String) → Bool
is_replayed nonce none = false
is_replayed nonce (some seen) = any (λ n. n == nonce) seen

abbrev pub is_public_key : Text → Bool
unfolding starts_with
is_public_key t = starts_with t (units "ed25519_pk_") && length t == 75

module _ (parse_date : String → Option ℤ) where
  -- Steps 1 to 3 of `validate`: the application, the organisation and the protocol version.
  unfoldable pub check_peer :
      HandshakeMessage → HandshakeValidationOptions → Result HandshakeCode (Unit {0})
  check_peer m o = do
    throw_if (not (m.application_id == o.expected_application_id)) app_id_mismatch
    throw_if (not (m.organisation_id == o.expected_organisation_id)) org_id_mismatch
    throw_if (ltb_ℤ m.protocol_version o.minimum_protocol_version) protocol_incompatible

  -- Step 4, on the time that the message names: it must be near `now`, which is Date.now().
  unfoldable pub check_time :
      (now : ℤ) → Option ℤ → HandshakeValidationOptions → Result HandshakeCode (Unit {0})
  check_time now none o = err timestamp_skew
  check_time now (some sent) o =
      throw_if (ltb_ℤ (max_skew o.max_timestamp_skew_ms) (pos (distance now sent))) timestamp_skew

  -- Steps 5 to 8: the nonce, the public key and the form of the signature.
  unfoldable pub check_forms :
      HandshakeMessage → HandshakeValidationOptions → Result HandshakeCode (Unit {0})
  unfolding units is_public_key
  check_forms m o = do
    throw_if (not (is_hex_of_length 32 (units m.nonce))) nonce_invalid
    throw_if (is_replayed m.nonce o.seen_nonces) nonce_replayed
    throw_if (not (is_public_key (units m.signer_public_key))) public_key_invalid
    throw_if (not (is_hex_of_length 128 (units m.signature))) signature_invalid

  -- validate, for a message that is an object
  unfoldable pub validate :
      (now : ℤ) → HandshakeMessage → HandshakeValidationOptions → Result HandshakeCode (Unit {0})
  unfolding check_peer check_time check_forms
  validate now m o = do check_peer m o; check_time now (parse_date m.timestamp) o; check_forms m o

  abbrev pub is_verified : Option (HandshakeMessage → Bool) → HandshakeMessage → Bool
  is_verified none m = true
  is_verified (some verify) m = verify m

  -- `seenNonces.add(nonce)`; a message whose nonce is there did not get so far.
  abbrev pub remember : String → Option (List String) → Option (List String)
  remember nonce none = none
  remember nonce (some seen) = some (nonce ∷ seen)

  -- requireValid: the options with the set as it is afterwards, or the reason of the refusal
  unfoldable pub require_valid :
      (now : ℤ)
      → HandshakeMessage
      → HandshakeValidationOptions
      → Result HandshakeCode HandshakeValidationOptions
  unfolding validate
  require_valid now m o = do
    validate now m o
    throw_if (not (is_verified o.verify m)) cryptographic_signature_invalid
    ok (record o { seen_nonces = remember m.nonce o.seen_nonces })
