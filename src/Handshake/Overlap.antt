-- ===== src/Handshake/Overlap.antt =====
-- Calls of HandshakeValidator.requireValid on one set of nonces whose signature checks may overlap: the nonce is
-- tested when a call begins, and added when its verification ends.
use tauri_boilerplate.Base.{
  ℕ, zero, suc, ◌≡◌, refl, ap, subst, false, ◌==◌, string_eq, eq_iff, String, Option, none, some,
  List, [], ◌∷◌, ◌++◌, map, any, ok, err, Result-cases, inl, inr, if◌then◌else◌, arith, none-some,
  some_injective, Option-cases, Bool-cases,
}
use tauri_boilerplate.Base.Int.{ℤ}
use tauri_boilerplate.Handshake.Validator.{
  HandshakeMessage, HandshakeValidationOptions, is_replayed, validate, is_verified, remember,
  require_valid,
}
use tauri_boilerplate.Handshake.Replay.{validate-unseen}

-- A call begins, or the verification of one of the waiting messages ends.
pub data Event : Type 0 where
  begins : (now : ℤ) → HandshakeMessage → Event
  settles : ℕ → Event

-- The options with their set, and the messages whose verification has not ended, the latest first.
abbrev pub Exchange : Type 0
Exchange = HandshakeValidationOptions × List HandshakeMessage

abbrev pub push_back :
    HandshakeMessage
    → Option (HandshakeMessage × List HandshakeMessage)
    → Option (HandshakeMessage × List HandshakeMessage)
push_back w none = none
push_back w (some (m, ws)) = some (m, w ∷ ws)

-- One of the waiting messages, and the others.
unfoldable pub pick : ℕ → List HandshakeMessage → Option (HandshakeMessage × List HandshakeMessage)
pick n [] = none
pick zero (w ∷ ws) = some (w, ws)
pick (suc n) (w ∷ ws) = push_back w (pick n ws)

-- No text of the list occurs twice, and none of them is in `seen`.
abbrev pub Distinct : List String → List String → Type 0
Distinct [] seen = Unit
Distinct (n ∷ ns) seen = (any (λ k. k == n) seen ≡ false) × Distinct ns (n ∷ seen)

Distinct-fewer :
    (ns xs ys : List String)
    → ((n : String) → any (λ k. k == n) xs ≡ false → any (λ k. k == n) ys ≡ false)
    → Distinct ns xs
    → Distinct ns ys
Distinct-fewer [] xs ys f d = tt
Distinct-fewer (n ∷ ns) xs ys f (out, d) =
    (f n out, Distinct-fewer ns (n ∷ xs) (n ∷ ys) (λ k h. ground (arith, f k)) d)

Distinct-more :
    (ns seen : List String) (n : String)
    → Distinct ns seen
    → any (λ k. k == n) ns ≡ false
    → Distinct ns (n ∷ seen)
Distinct-more [] seen n d h = tt
Distinct-more (m ∷ ns) seen n (out, d) h = (
  ground (arith, eq_iff n m, eq_iff m n),
  Distinct-fewer ns (n ∷ m ∷ seen) (m ∷ n ∷ seen) (λ k g. ground arith)
      (Distinct-more ns (m ∷ seen) n d (ground arith)),
)

abbrev nonces : List HandshakeMessage → List String
nonces ws = map (λ (w : HandshakeMessage). w.nonce) ws

any-nonces :
    (n : String) (ws : List HandshakeMessage)
    → any (λ (w : HandshakeMessage). w.nonce == n) ws ≡ false
    → any (λ k. k == n) (nonces ws) ≡ false
any-nonces n [] h = refl
any-nonces n (w ∷ ws) h = ground (arith, any-nonces n ws)

-- The one that is picked out is as far from the others as before.
pick-Distinct :
    (n : ℕ) (ws rest : List HandshakeMessage) (m : HandshakeMessage) (seen : List String)
    → pick n ws ≡ some (m, rest)
    → Distinct (nonces ws) seen
    → Distinct (m.nonce ∷ nonces rest) seen
unfolding pick
pick-Distinct n [] rest m seen e d = absurd (none-some e)
pick-Distinct zero (w ∷ ws) rest m seen e d =
    let same = some_injective e in
    subst (λ (p : HandshakeMessage × List HandshakeMessage). Distinct (p.0.nonce ∷ nonces p.1) seen)
      same d
pick-Distinct (suc n) (w ∷ ws) rest m seen e (out, d) = elim (Option-cases (pick n ws)) [
  | inl nothing ↦ absurd (none-some (rw (nothing, pick) at e))
  | inr ((m', rest'), found) ↦
      let same = some_injective (rw (found, pick) at e) in
      let (apart, d') = pick-Distinct n ws rest' m' (w.nonce ∷ seen) found d in
      subst
        (λ (p : HandshakeMessage × List HandshakeMessage). Distinct (p.0.nonce ∷ nonces p.1) seen)
        same
        (
          ground arith,
          (
            ground (arith, eq_iff w.nonce m'.nonce, eq_iff m'.nonce w.nonce),
            Distinct-fewer (nonces rest') (m'.nonce ∷ w.nonce ∷ seen) (w.nonce ∷ m'.nonce ∷ seen)
                (λ k g. ground arith) d',
          ),
        )
]

module _ (parse_date : String → Option ℤ) where
  -- The part of `requireValid` in front of the await.
  unfoldable pub begin_call : ℤ → HandshakeMessage → Exchange → Exchange
  unfolding validate
  begin_call now m (o, ws) = elim (validate parse_date now m o) [
    | ok u ↦ (o, m ∷ ws)
    | err e ↦ (o, ws)
  ]

  -- The part behind it: the nonce of the message, where it is admitted, and the session.
  unfoldable pub end_call :
      HandshakeValidationOptions
      → Option (HandshakeMessage × List HandshakeMessage)
      → List HandshakeMessage
      → List String × Exchange
  end_call o none ws = ([], (o, ws))
  end_call o (some (m, rest)) ws =
      if is_verified parse_date o.verify m
      then (
        m.nonce ∷ [],
        (record o { seen_nonces = remember parse_date m.nonce o.seen_nonces }, rest),
      )
      else ([], (o, rest))

  unfoldable pub step : Event → Exchange → List String × Exchange
  unfolding begin_call end_call pick
  step (begins now m) s = ([], begin_call now m s)
  step (settles n) (o, ws) = end_call o (pick n ws) ws

  -- The nonces that a session admits, first to last.
  unfoldable pub admitted_nonces : List Event → Exchange → List String
  unfolding step
  admitted_nonces [] s = []
  admitted_nonces (e ∷ es) s = let (ns, s') = step e s in ns ++ admitted_nonces es s'

  -- No call begins with the nonce of a message whose verification has not ended.
  abbrev pub IsApart : Event → Exchange → Type 0
  IsApart (begins now m) s = any (λ (w : HandshakeMessage). w.nonce == m.nonce) s.1 ≡ false
  IsApart (settles n) s = Unit

  abbrev pub AreApart : List Event → Exchange → Type 0
  AreApart [] s = Unit
  AreApart (e ∷ es) s = IsApart e s × AreApart es (step e s).1

  -- What holds between the events.
  record IsKept (s : Exchange) (seen : List String) : Type 0 where
    set : s.0.seen_nonces ≡ some seen
    waiting : Distinct (nonces s.1) seen

  begin_call-IsKept :
      (now : ℤ) (m : HandshakeMessage) (s : Exchange) (seen : List String)
      → IsApart (begins now m) s
      → IsKept s seen
      → IsKept (begin_call now m s) seen
  unfolding begin_call
  begin_call-IsKept now m (o, ws) seen apart k = elim (Result-cases (validate parse_date now m o)) [
    | inr (e, refused) ↦ rw (refused, begin_call) k
    | inl (u, checked) ↦
        let out : any (λ x. x == m.nonce) seen ≡ false =
          subst (λ x. is_replayed m.nonce x ≡ false) k.set
            (validate-unseen parse_date now m o checked) in
        rw (checked, begin_call)
          (record {
            set = k.set;
            waiting = (
              out,
              Distinct-more (nonces ws) seen m.nonce k.waiting (any-nonces m.nonce ws apart),
            );
          })
  ]

  -- The end of a call leaves a set in which its nonce is, if it was admitted.
  end_call-IsKept :
      (n : ℕ) (o : HandshakeValidationOptions) (ws : List HandshakeMessage) (seen : List String)
      → IsKept (o, ws) seen
      → let r = end_call o (pick n ws) ws in
        (seen' : List String) × IsKept r.1 seen'
        × ((ns : List String) → Distinct ns seen' → Distinct (r.0 ++ ns) seen)
  unfolding end_call
  end_call-IsKept n o ws seen k = elim (Option-cases (pick n ws)) [
    | inl nothing ↦ rw (nothing, end_call) (seen, k, λ ns d. d)
    | inr ((m, rest), found) ↦
        let (out, d) = pick-Distinct n ws rest m seen found k.waiting in
        elim (Bool-cases (is_verified parse_date o.verify m)) [
          | inl good ↦
              rw (found, end_call, good)
                (
                  m.nonce ∷ seen,
                  record { set = ap (remember parse_date m.nonce) k.set; waiting = d },
                  λ ns d'. (out, d'),
                )
          | inr bad ↦
              rw (found, end_call, bad)
                (
                  seen,
                  record {
                    set = k.set;
                    waiting =
                        Distinct-fewer (nonces rest) (m.nonce ∷ seen) seen (λ x g. ground arith) d;
                  },
                  λ ns d'. d',
                )
        ]
  ]

  events-Distinct :
      (es : List Event) (s : Exchange) (seen : List String)
      → IsKept s seen
      → AreApart es s
      → Distinct (admitted_nonces es s) seen
  unfolding admitted_nonces step
  events-Distinct [] s seen k a = tt
  events-Distinct (begins now m ∷ es) s seen k (apart, a) =
      events-Distinct es (begin_call now m s) seen (begin_call-IsKept now m s seen apart k) a
  events-Distinct (settles n ∷ es) (o, ws) seen k (apart, a) =
      let (seen', k', extend) = end_call-IsKept n o ws seen k in
      extend _ (events-Distinct es (end_call o (pick n ws) ws).1 seen' k' a)

  -- In a session that keeps a set of nonces and begins with no call under way, whatever messages arrive, and in
  -- whatever order the verifications of their signatures end: if no call begins with the nonce of a message whose
  -- verification has not ended, `requireValid` admits no nonce twice, and none that was in the set before.
  pub admitted_nonces-Distinct :
      (es : List Event) (o : HandshakeValidationOptions) (seen : List String)
      → o.seen_nonces ≡ some seen
      → AreApart es (o, [])
      → Distinct (admitted_nonces es (o, [])) seen
  admitted_nonces-Distinct es o seen s a =
      events-Distinct es (o, []) seen (record { set = s; waiting = tt }) a

  -- A call that no other overlaps is `requireValid`.
  end_call-require_valid :
      (now : ℤ) (m : HandshakeMessage) (o : HandshakeValidationOptions)
      → (step (settles 0) (step (begins now m) (o, [])).1)
        ≡ elim (require_valid parse_date now m o) [
          | ok o' ↦ (m.nonce ∷ [], (o', []))
          | err e ↦ ([], (o, []))
        ]
  unfolding step begin_call end_call pick require_valid
  end_call-require_valid now m o = elim (Result-cases (validate parse_date now m o)) [
    | inr (e, refused) ↦ rw (step, begin_call, refused) refl
    | inl (u, checked) ↦ elim (Bool-cases (is_verified parse_date o.verify m)) [
      | inl good ↦ rw (step, begin_call, checked, good) refl
      | inr bad ↦ rw (step, begin_call, checked, bad) refl
    ]
  ]
