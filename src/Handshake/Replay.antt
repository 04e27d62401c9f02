-- ===== src/Handshake/Replay.antt =====
-- What a session of HandshakeValidator.requireValid calls admits.
use tauri_boilerplate.Base.{
  ◌≡◌, ◌↔◌, refl, sym, subst, Bool, true, false, not, eq_iff, string_eq, String, Option, none, some,
  Result, ok, ◌>>◌, throw_if, >>=-eq-ok, ok_injective, arith,
}
use tauri_boilerplate.Base.Int.{ℤ, pos, ◌≤ℤ◌, ltb_ℤ}
use tauri_boilerplate.Handshake.Validator.{
  HandshakeMessage, HandshakeValidationOptions, HandshakeCode, units, is_hex_of_length, distance,
  max_skew, is_replayed, is_public_key, timestamp_skew, nonce_invalid, nonce_replayed,
  public_key_invalid, signature_invalid, cryptographic_signature_invalid, check_peer, check_time,
  check_forms, validate, is_verified, remember, require_valid,
}

module _ (parse_date : String → Option ℤ) where
  -- What a message must be to be admitted at a time.
  pub record IsAdmissible (now : ℤ) (m : HandshakeMessage) (o : HandshakeValidationOptions)
      : Type 0 where
    pub application : m.application_id ≡ o.expected_application_id
    pub organisation : m.organisation_id ≡ o.expected_organisation_id
    pub version : o.minimum_protocol_version ≤ℤ m.protocol_version
    pub recent :
        (sent : ℤ) × (parse_date m.timestamp ≡ some sent)
        × (pos (distance now sent) ≤ℤ max_skew o.max_timestamp_skew_ms)
    pub nonce_form : is_hex_of_length 32 (units m.nonce) ≡ true
    pub unseen : is_replayed m.nonce o.seen_nonces ≡ false
    pub key_form : is_public_key (units m.signer_public_key) ≡ true
    pub signature_form : is_hex_of_length 128 (units m.signature) ≡ true
    pub verified : is_verified parse_date o.verify m ≡ true

  some_injective : {a b : ℤ} → Path (Option ℤ) (some a) (some b) → a ≡ b
  some_injective h = cc

  guard_passes : (b : Bool) (e : HandshakeCode) → throw_if b e ≡ ok tt → b ≡ false
  guard_passes b e h = ground arith

  guard_holds : (b : Bool) (e : HandshakeCode) {u : Unit {0}} → throw_if (not b) e ≡ ok u → b ≡ true
  guard_holds b e h = ground arith

  true_of_not : (b : Bool) → not b ≡ false → b ≡ true
  true_of_not true h = refl
  true_of_not false h = cc

  not_below : (a b : ℤ) → ltb_ℤ a b ≡ false → b ≤ℤ a
  not_below a b h = ground arith

  below_not : (a b : ℤ) → b ≤ℤ a → ltb_ℤ a b ≡ false
  below_not a b h = ground arith

  peer_iff :
      (m : HandshakeMessage) (o : HandshakeValidationOptions)
      → (check_peer parse_date m o ≡ ok tt) ↔ (
          (m.application_id ≡ o.expected_application_id)
          × (m.organisation_id ≡ o.expected_organisation_id)
          × (o.minimum_protocol_version ≤ℤ m.protocol_version))
  unfolding check_peer
  peer_iff m o = ground (
    arith,
    eq_iff m.application_id o.expected_application_id,
    eq_iff m.organisation_id o.expected_organisation_id,
    not_below m.protocol_version o.minimum_protocol_version,
    below_not m.protocol_version o.minimum_protocol_version,
  )

  time_iff :
      (now : ℤ) (t : Option ℤ) (o : HandshakeValidationOptions)
      → (check_time parse_date now t o ≡ ok tt) ↔ (
          (sent : ℤ) × (t ≡ some sent)
          × (pos (distance now sent) ≤ℤ max_skew o.max_timestamp_skew_ms))
  unfolding check_time
  time_iff now none o = (λ h. cc, λ (sent, e, h). cc)
  time_iff now (some sent) o = (
    λ h. (
      sent,
      refl,
      not_below (max_skew o.max_timestamp_skew_ms) (pos (distance now sent)) (
          guard_passes (ltb_ℤ (max_skew o.max_timestamp_skew_ms) (pos (distance now sent)))
            timestamp_skew h),
    ),
    λ (sent', e, h).
        subst
          (λ s.
            (throw_if (ltb_ℤ (max_skew o.max_timestamp_skew_ms) (pos (distance now s)))
              timestamp_skew)
            ≡ ok tt)
          (some_injective (sym e))
          (rw (below_not (max_skew o.max_timestamp_skew_ms) (pos (distance now sent')) h) refl),
  )

  forms_iff :
      (m : HandshakeMessage) (o : HandshakeValidationOptions)
      → (check_forms parse_date m o ≡ ok tt) ↔ (
          (is_hex_of_length 32 (units m.nonce) ≡ true)
          × (is_replayed m.nonce o.seen_nonces ≡ false)
          × (is_public_key (units m.signer_public_key) ≡ true)
          × (is_hex_of_length 128 (units m.signature) ≡ true))
  unfolding check_forms
  forms_iff m o =
      chain_iff (is_hex_of_length 32 (units m.nonce)) (is_replayed m.nonce o.seen_nonces)
        (is_public_key (units m.signer_public_key)) (is_hex_of_length 128 (units m.signature))
    where
      chain_iff :
          (a b c d : Bool)
          → ((throw_if (not a) nonce_invalid
                >> (throw_if b nonce_replayed
                    >> (throw_if (not c) public_key_invalid >> throw_if (not d) signature_invalid)))
              ≡ ok tt)
            ↔ ((a ≡ true) × (b ≡ false) × (c ≡ true) × (d ≡ true))
      chain_iff a b c d = ground arith

  -- `requireValid` returns exactly for the admissible messages, and then it has added the nonce to the
  -- session's set and changed nothing else.
  pub require_valid-ok_iff :
      (now : ℤ) (m : HandshakeMessage) (o o' : HandshakeValidationOptions)
      → (require_valid parse_date now m o ≡ ok o') ↔ (
          IsAdmissible now m o
          × (o' ≡ record o { seen_nonces = remember parse_date m.nonce o.seen_nonces }))
  unfolding require_valid validate
  require_valid-ok_iff now m o o' = (
    λ h.
        let (u, checked, h') = >>=-eq-ok (validate parse_date now m o) verify_and_store h in
        let (v, is_verified', stored) =
          >>=-eq-ok
            (throw_if (not (is_verified parse_date o.verify m)) cryptographic_signature_invalid)
            (λ w. ok admitted) h' in
        let (v1, peer, h1) =
          >>=-eq-ok (check_peer parse_date m o)
            (λ w.
              check_time parse_date now (parse_date m.timestamp) o >> check_forms parse_date m o)
            checked in
        let (v2, time, forms) =
          >>=-eq-ok (check_time parse_date now (parse_date m.timestamp) o)
            (λ w. check_forms parse_date m o) h1 in
        let (app, org, version) = (peer_iff m o).0 peer in
        let (nonce, unseen, key, signature) = (forms_iff m o).0 forms in
        (
          record {
            application = app;
            organisation = org;
            version = version;
            recent = (time_iff now (parse_date m.timestamp) o).0 time;
            nonce_form = nonce;
            unseen = unseen;
            key_form = key;
            signature_form = signature;
            verified =
                guard_holds (is_verified parse_date o.verify m) cryptographic_signature_invalid
                  is_verified';
          },
          sym (ok_injective stored),
        ),
    λ (a, e).
        let peer = (peer_iff m o).1 (a.application, a.organisation, a.version) in
        let time = (time_iff now (parse_date m.timestamp) o).1 a.recent in
        let forms = (forms_iff m o).1 (a.nonce_form, a.unseen, a.key_form, a.signature_form) in
        rw (peer, time, forms, a.verified, e) refl,
  )
    where
      admitted : HandshakeValidationOptions
      admitted = record o { seen_nonces = remember parse_date m.nonce o.seen_nonces }

      verify_and_store : Unit {0} → Result HandshakeCode HandshakeValidationOptions
      verify_and_store w =
          throw_if (not (is_verified parse_date o.verify m)) cryptographic_signature_invalid
          >> ok admitted

  -- A message that passes the checks has a nonce that is not in the set.
  pub validate-unseen :
      (now : ℤ) (m : HandshakeMessage) (o : HandshakeValidationOptions) {u : Unit {0}}
      → validate parse_date now m o ≡ ok u
      → is_replayed m.nonce o.seen_nonces ≡ false
  unfolding validate
  validate-unseen now m o checked =
      let (v1, peer, h1) =
        >>=-eq-ok (check_peer parse_date m o)
          (λ w. check_time parse_date now (parse_date m.timestamp) o >> check_forms parse_date m o)
          checked in
      let (v2, time, forms) =
        >>=-eq-ok (check_time parse_date now (parse_date m.timestamp) o)
          (λ w. check_forms parse_date m o) h1 in
      ((forms_iff m o).0 forms).1
