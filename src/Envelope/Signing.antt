-- ===== src/Envelope/Signing.antt =====
-- An envelope that SyncEnvelopeBuilder built is one that it verifies.
use tauri_boilerplate.Base.{
  ℕ, ◌≡◌, refl, Bool, true, String, Option, List, Result, ok, err, ok_injective, subst, >>=-eq-ok,
  throw_if-ok, throw_if, ◌>>=◌, ◌>>◌, not, leb, length, false,
}
use tauri_boilerplate.Envelope.Json.{Value}
use tauri_boilerplate.Envelope.Types.{SyncOperation, SyncEnvelope, Literals}
use tauri_boilerplate.Envelope.Builder.{
  EnvelopeError, validate_operation, canonicalize, validate_envelope, seal, build, verify,
  is_signer_key, public_key_invalid, too_large, signature_invalid, max_size,
}
use tauri_boilerplate.Handshake.Validator.{units, is_hex_of_length}

-- A chain of checks around a signature that returns has computed the bytes and signed them.
signed_chain :
    {E A B S : Type 0} {e : A} (checked : Result E (Unit {0})) (bad : Bool) (e₁ e₂ : E)
    (bytes : Result E B) (big : B → Bool) (sign : B → Result E S) (finish : S → Result E A)
    → (checked >> (throw_if bad e₁ >> (bytes >>= λ b. throw_if (big b) e₂ >> (sign b >>= finish))))
      ≡ ok e
    → (b : B) × (s : S) × (bytes ≡ ok b) × (sign b ≡ ok s) × (finish s ≡ ok e)
signed_chain (err x) bad e₁ e₂ bytes big sign finish h = cc
signed_chain (ok u) true e₁ e₂ bytes big sign finish h = cc
signed_chain (ok u) false e₁ e₂ (err x) big sign finish h = cc
signed_chain (ok u) false e₁ e₂ (ok b) big sign finish h =
    let (small, k) = throw_if-ok (big b) e₂ (sign b >>= finish) h in
    let (s, signed, done) = >>=-eq-ok (sign b) finish k in (b, s, refl, signed, done)

module _ {Leaf : Type 0} (L : Literals Leaf) (stringify : Value Leaf → Option String)
    (encode : String → List ℕ) (iso_date : String → Option String) where
  valid-verify :
      (x : SyncEnvelope Leaf) (verify_fn : String → List ℕ → String → Result EnvelopeError Bool)
      (bytes : List ℕ)
      → validate_envelope L stringify encode iso_date x ≡ ok tt
      → canonicalize L stringify encode iso_date x.operation ≡ ok bytes
      → verify_fn x.signer_public_key bytes x.signature ≡ ok true
      → verify L stringify encode iso_date x verify_fn ≡ ok true
  unfolding verify
  valid-verify x verify_fn bytes valid canonical accepted = rw (valid, verify, canonical) accepted

  -- An envelope that `build` returns holds the operation, under its id, and is valid and verified wherever
  -- the verifier accepts what the signer made of the canonical bytes of the operation.
  pub build-verify :
      (op : SyncOperation Leaf) (key now : String) (sign : List ℕ → Result EnvelopeError String)
      (verify_fn : String → List ℕ → String → Result EnvelopeError Bool) (e : SyncEnvelope Leaf)
      → build L stringify encode iso_date op key sign now ≡ ok e
      → ((bytes : List ℕ) (signature : String)
          → canonicalize L stringify encode iso_date op ≡ ok bytes
          → sign bytes ≡ ok signature
          → verify_fn key bytes signature ≡ ok true)
      → (e.operation ≡ op)
        × (e.envelope_id ≡ op.operation_id)
        × (validate_envelope L stringify encode iso_date e ≡ ok tt)
        × (verify L stringify encode iso_date e verify_fn ≡ ok true)
  unfolding build
  build-verify op key now sign verify_fn e h accepts =
      let finish = λ (signature : String).
        throw_if (not (is_hex_of_length 128 (units signature))) signature_invalid
        >> (validate_envelope L stringify encode iso_date (seal op key signature now)
            >> ok (seal op key signature now)) in
      let (bytes, signature, canonical, signed, finished) =
        signed_chain (validate_operation L stringify encode iso_date op)
          (not (is_signer_key (units key))) public_key_invalid too_large
          (canonicalize L stringify encode iso_date op) (λ b. not (leb (length b) max_size)) sign
          finish h in
      let sealed = seal op key signature now in
      let (form, rest) =
        throw_if-ok (not (is_hex_of_length 128 (units signature))) signature_invalid
          (validate_envelope L stringify encode iso_date sealed >> ok sealed) finished in
      let (u, valid, last) =
        >>=-eq-ok (validate_envelope L stringify encode iso_date sealed) (λ w. ok sealed) rest in
      subst
        (λ x.
          (x.operation ≡ op)
          × (x.envelope_id ≡ op.operation_id)
          × (validate_envelope L stringify encode iso_date x ≡ ok tt)
          × (verify L stringify encode iso_date x verify_fn ≡ ok true))
        (ok_injective last)
        (
          refl,
          refl,
          valid,
          valid-verify sealed verify_fn bytes valid canonical
              (accepts bytes signature canonical signed),
        )
