-- ===== src/Sync/Authenticated.antt =====
-- What SyncStateMachine lets a peer reach, and after which states.
use mathlib.Core.List.{append-nil, append_assoc}
use tauri_boilerplate.Base.{
  subst, ◌≡◌, ◌≢◌, refl, ◌⊎◌, inl, inr, true, false, List, [], ◌∷◌, ◌++◌, arith, ok, err, String,
  ◌==◌, Bool-cases,
}
use tauri_boilerplate.Sync.State.{
  SyncState, discovered, identified, connecting, connected, authenticating, authorised, syncing,
  idle, disconnected, revoked, expired, incompatible, error, state_eq, state_beq_iff,
  is_legal_transition, SyncStateMachine, new_machine, notices, transition,
}

-- The moves of a peer's connection, one constructor for an edge.
infix 40 ◌⟶◌
pub data ◌⟶◌ : SyncState → SyncState → Type 0 where
  discover : disconnected ⟶ discovered
  dial : disconnected ⟶ connecting
  identify : discovered ⟶ identified
  dial_found : discovered ⟶ connecting
  dial_known : identified ⟶ connecting
  connect : connecting ⟶ connected
  challenge : connected ⟶ authenticating
  admit : authenticating ⟶ authorised
  start : authorised ⟶ syncing
  rest : authorised ⟶ idle
  finish : syncing ⟶ idle
  resume : idle ⟶ syncing
  drop : {s : SyncState} → s ⟶ disconnected
  revoke : {s : SyncState} → s ⟶ revoked
  expire : {s : SyncState} → s ⟶ expired
  reject : {s : SyncState} → s ⟶ incompatible
  fail : {s : SyncState} → s ⟶ error

ruleset edges = (
  discover, dial, identify, dial_found, dial_known, connect, challenge, admit, start, rest, finish,
  resume, drop, revoke, expire, reject, fail,
)

legal_sound : (s t : SyncState) → is_legal_transition s t ≡ true → s ⟶ t
unfolding is_legal_transition
legal_sound s t h = grind (arith, edges)

legal_complete : {s t : SyncState} → s ⟶ t → is_legal_transition s t ≡ true
unfolding is_legal_transition
legal_complete discover = refl
legal_complete dial = refl
legal_complete identify = refl
legal_complete dial_found = refl
legal_complete dial_known = refl
legal_complete connect = refl
legal_complete challenge = refl
legal_complete admit = refl
legal_complete start = refl
legal_complete rest = refl
legal_complete finish = refl
legal_complete resume = refl
legal_complete drop = refl
legal_complete revoke = refl
legal_complete expire = refl
legal_complete reject = refl
legal_complete fail = refl

differs : (s t : SyncState) → (s == t) ≡ false → s ≢ t
differs s t e p = cc (e, (state_beq_iff s t).1 p)

illegal : (s t : SyncState) → is_legal_transition s t ≡ false → ¬ (s ⟶ t)
illegal s t l edge = cc (l, legal_complete edge)

-- `transition` does one of three things: from the state that it is asked for it changes nothing
-- and calls nobody; along an edge of the diagram it enters the new state and calls every listener
-- once, in order, with the new and the old state; anywhere else it throws and changes nothing.
pub transition_lem :
    (t : SyncState) (reason : String) (m : SyncStateMachine)
    → let s = m.current_state in
      ((s ≡ t) × (transition t reason m ≡ (ok [], m)))
      ⊎ ((s ≢ t)
          × (s ⟶ t)
          × (transition t reason m
              ≡ (ok (notices t s m.listeners), record m { current_state = t })))
      ⊎ ((s ≢ t)
          × (¬ (s ⟶ t))
          × (transition t reason m ≡ (err (record { from = s; to = t; reason = reason }), m)))
unfolding transition
transition_lem t reason m = elim (Bool-cases (m.current_state == t)) [
  | inl e ↦ inl ((state_beq_iff _ _).0 e, rw e)
  | inr e ↦ elim (Bool-cases (is_legal_transition m.current_state t)) [
    | inl l ↦ inr (inl (differs m.current_state t e, legal_sound _ _ l, rw (e, l)))
    | inr l ↦ inr (inr (differs m.current_state t e, illegal _ _ l, rw (e, l)))
  ]
]

-- The states that a peer must have passed through to be where it is, since it last dialled.
abbrev pub passed : SyncState → List SyncState
passed connecting = connecting ∷ []
passed connected = connecting ∷ connected ∷ []
passed authenticating = connecting ∷ connected ∷ authenticating ∷ []
passed authorised = connecting ∷ connected ∷ authenticating ∷ authorised ∷ []
passed syncing = connecting ∷ connected ∷ authenticating ∷ authorised ∷ []
passed idle = connecting ∷ connected ∷ authenticating ∷ authorised ∷ []
passed _ = []

-- `xs` is left of `ys` when some of its elements are dropped.
pub data IsSubsequence : List SyncState → List SyncState → Type 0 where
  done : IsSubsequence [] []
  skip : {y : SyncState} {xs ys : List SyncState} → IsSubsequence xs ys → IsSubsequence xs (y ∷ ys)
  keep :
      {x : SyncState} {xs ys : List SyncState}
      → IsSubsequence xs ys
      → IsSubsequence (x ∷ xs) (x ∷ ys)

IsSubsequence-nil : (ys : List SyncState) → IsSubsequence [] ys
IsSubsequence-nil [] = done
IsSubsequence-nil (y ∷ ys) = skip (IsSubsequence-nil ys)

skip_last :
    {xs ys : List SyncState} (z : SyncState) → IsSubsequence xs ys → IsSubsequence xs (ys ++ z ∷ [])
skip_last z done = skip done
skip_last z (skip h) = skip (skip_last z h)
skip_last z (keep h) = keep (skip_last z h)

keep_last :
    {xs ys : List SyncState} (z : SyncState)
    → IsSubsequence xs ys
    → IsSubsequence (xs ++ z ∷ []) (ys ++ z ∷ [])
keep_last z done = keep done
keep_last z (skip h) = skip (keep_last z h)
keep_last z (keep h) = keep (keep_last z h)

-- Along an edge what must have been passed grows by the new state at most.
passed_edge :
    {s t : SyncState} (asked : List SyncState)
    → s ⟶ t
    → IsSubsequence (passed s) asked
    → IsSubsequence (passed t) (asked ++ t ∷ [])
passed_edge asked discover h = skip_last _ h
passed_edge asked dial h = keep_last _ h
passed_edge asked identify h = skip_last _ h
passed_edge asked dial_found h = keep_last _ h
passed_edge asked dial_known h = keep_last _ h
passed_edge asked connect h = keep_last _ h
passed_edge asked challenge h = keep_last _ h
passed_edge asked admit h = keep_last _ h
passed_edge asked start h = skip_last _ h
passed_edge asked rest h = skip_last _ h
passed_edge asked finish h = skip_last _ h
passed_edge asked resume h = skip_last _ h
passed_edge asked drop h = IsSubsequence-nil _
passed_edge asked revoke h = IsSubsequence-nil _
passed_edge asked expire h = IsSubsequence-nil _
passed_edge asked reject h = IsSubsequence-nil _
passed_edge asked fail h = IsSubsequence-nil _

transition-passed :
    (t : SyncState) (asked : List SyncState) (m : SyncStateMachine)
    → IsSubsequence (passed m.current_state) asked
    → IsSubsequence (passed (transition t "" m).1.current_state) (asked ++ t ∷ [])
transition-passed t asked m h = elim (transition_lem t "" m) [
  | inl (e, r) ↦ rw r (skip_last t h)
  | inr (inl (ne, edge, r)) ↦ rw r (passed_edge asked edge h)
  | inr (inr (ne, no_edge, r)) ↦ rw r (skip_last t h)
]

passed_trusted :
    (s : SyncState)
    → (s ≡ authorised) ⊎ (s ≡ syncing) ⊎ (s ≡ idle)
    → passed s ≡ connecting ∷ connected ∷ authenticating ∷ authorised ∷ []
passed_trusted s h = ground arith

-- Calls of `transition` one after the other; a caller catches what one throws.
unfoldable pub drive : List SyncState → SyncStateMachine → SyncStateMachine
drive [] m = m
drive (t ∷ ts) m = drive ts (transition t "" m).1

drive-passed :
    (ts asked : List SyncState) (m : SyncStateMachine)
    → IsSubsequence (passed m.current_state) asked
    → IsSubsequence (passed (drive ts m).current_state) (asked ++ ts)
unfolding drive
drive-passed [] asked m h = rw append-nil h
drive-passed (t ∷ ts) asked m h =
    rw (← append_assoc asked (t ∷ []) ts)
      (drive-passed ts (asked ++ t ∷ []) (transition t "" m).1 (transition-passed t asked m h))

-- A peer that has become AUTHORISED, SYNCING or IDLE, by whatever transitions were asked for of a
-- new machine and whichever of them were refused, was asked to be CONNECTING, then CONNECTED, then
-- AUTHENTICATING, then AUTHORISED, in this order.
pub trusted_after_authentication :
    (ts : List SyncState)
    → let s = (drive ts new_machine).current_state in
      (s ≡ authorised) ⊎ (s ≡ syncing) ⊎ (s ≡ idle)
      → IsSubsequence (connecting ∷ connected ∷ authenticating ∷ authorised ∷ []) ts
unfolding new_machine
trusted_after_authentication ts h =
    subst (λ xs. IsSubsequence xs ts) (passed_trusted _ h)
      (drive-passed ts [] new_machine (IsSubsequence-nil []))
