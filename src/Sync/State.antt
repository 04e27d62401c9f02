-- ===== src/Sync/State.antt =====
-- SyncStateMachine of packages/sync/src/manager/SyncStateMachine.ts and `SyncState` of
-- packages/sync/src/types.ts. A listener is named by a number; the calls that a transition makes
-- are its result.
use tauri_boilerplate.Base.{
  ℕ, Bool, true, false, ◌||◌, List, [], ◌∷◌, map, if◌then◌else◌, Result, ok, err, StrictEq, ◌==◌,
  ◌≡◌, ◌↔◌, arith, String, any, ◌++◌, nat_eq,
}
use tauri_boilerplate.Base

pub data SyncState : Type 0 where
  discovered identified connecting connected authenticating authorised syncing idle disconnected :
      SyncState
  revoked expired incompatible error : SyncState

-- The place of a state in the union, by which states are compared.
abbrev code : SyncState → ℕ
code discovered = 0
code identified = 1
code connecting = 2
code connected = 3
code authenticating = 4
code authorised = 5
code syncing = 6
code idle = 7
code disconnected = 8
code revoked = 9
code expired = 10
code incompatible = 11
code error = 12

abbrev pub state_beq : SyncState → SyncState → Bool
state_beq s t = Base.nat_beq (code s) (code t)

pub state_beq_iff : (s t : SyncState) → (state_beq s t ≡ true) ↔ (s ≡ t)
state_beq_iff s t = ground arith

instance abbrev pub state_eq : StrictEq SyncState
state_eq = record { is_same = state_beq; is_same_iff = state_beq_iff }

-- The states that every state may move to.
abbrev pub is_terminal : SyncState → Bool
is_terminal to =
    to == disconnected || to == revoked || to == expired || to == incompatible || to == error

-- The `switch` of `isLegalTransition`; the last clause is its `default`.
abbrev pub may_move : SyncState → SyncState → Bool
may_move disconnected to = to == discovered || to == connecting
may_move discovered to = to == identified || to == connecting
may_move identified to = to == connecting
may_move connecting to = to == connected
may_move connected to = to == authenticating
may_move authenticating to = to == authorised
may_move authorised to = to == syncing || to == idle
may_move syncing to = to == idle
may_move idle to = to == syncing
may_move _ to = false

-- isLegalTransition
unfoldable pub is_legal_transition : SyncState → SyncState → Bool
is_legal_transition from to = if is_terminal to then true else may_move from to

-- class SyncStateMachine
pub record SyncStateMachine : Type 0 where
  pub current_state : SyncState
  pub listeners : List ℕ

unfoldable pub new_machine : SyncStateMachine
new_machine = record { current_state = disconnected; listeners = [] }

-- The SyncError of an illegal transition.
pub record IllegalTransition : Type 0 where
  pub from : SyncState
  pub to : SyncState
  pub reason : String

-- One call of a listener, with the new state and the old one.
pub record Notice : Type 0 where
  pub listener : ℕ
  pub new_state : SyncState
  pub old_state : SyncState

abbrev pub notices : SyncState → SyncState → List ℕ → List Notice
notices new old = map (λ l. record { listener = l; new_state = new; old_state = old })

-- transition: the calls that it makes, and the machine after it
unfoldable pub transition :
    SyncState
    → String
    → SyncStateMachine
    → Result IllegalTransition (List Notice) × SyncStateMachine
unfolding is_legal_transition
transition new_state reason m =
    if m.current_state == new_state
    then (ok [], m)
    else if is_legal_transition m.current_state new_state
    then (
      ok (notices new_state m.current_state m.listeners),
      record m { current_state = new_state },
    )
    else (err (record { from = m.current_state; to = new_state; reason = reason }), m)

abbrev without : ℕ → List ℕ → List ℕ
without l [] = []
without l (k ∷ ks) = if k == l then without l ks else k ∷ without l ks

-- onStateChange: a listener is in the set once.
unfoldable pub on_state_change : ℕ → SyncStateMachine → SyncStateMachine
on_state_change l m = record m {
  listeners = if any (λ k. k == l) m.listeners then m.listeners else m.listeners ++ l ∷ [];
}

-- the function that onStateChange returns
unfoldable pub remove_listener : ℕ → SyncStateMachine → SyncStateMachine
remove_listener l m = record m { listeners = without l m.listeners }
