-- ===== src/Sync/FailClosed.antt =====
-- SyncManager never reports a peer as connected: it has no verifier of admissions, and says so.
use tauri_boilerplate.Base.{
  ℕ, ◌≡◌, refl, ◌⊎◌, inl, inr, Bool, true, false, not, List, [], ◌∷◌, arith, ◌==◌, string_eq,
  String, Dict, get, put, Option, none, some, any, All, if_ind, if◌then◌else◌,
}
use tauri_boilerplate.Sync.State.{
  SyncState, disconnected, error, state_eq, state_beq_iff, SyncStateMachine, transition,
}
use tauri_boilerplate.Sync.Manager.{
  PeerInfo, SyncManager, resting, new_manager, set_state, get_peer_state, state_of, machine_of,
  connect, is_open, hang_up, disconnect, fail_peer,
}

abbrev pub IsDown : SyncState → Type 0
IsDown s = (s ≡ disconnected) ⊎ (s ≡ error)

abbrev PeersDown : Dict SyncStateMachine → Type 0
PeersDown = All (λ p. IsDown p.1.current_state)

-- Every peer is DISCONNECTED or in ERROR, and the manager is in ERROR exactly while some peer is.
pub record IsClosed (m : SyncManager) : Type 0 where
  pub peers_down : PeersDown m.peer_states
  pub own :
      ((any is_open m.peer_states ≡ true) × (m.current_state ≡ error))
      ⊎ ((any is_open m.peer_states ≡ false) × (m.current_state ≡ resting m.has_transport))

transition_to_error :
    (reason : String) (sm : SyncStateMachine) → (transition error reason sm).1.current_state ≡ error
unfolding transition
transition_to_error reason sm = ground arith

transition_to_disconnected :
    (reason : String) (sm : SyncStateMachine)
    → (transition disconnected reason sm).1.current_state ≡ disconnected
unfolding transition
transition_to_disconnected reason sm = ground arith

PeersDown-put :
    (k : String) (sm : SyncStateMachine) (ps : Dict SyncStateMachine)
    → IsDown sm.current_state
    → PeersDown ps
    → PeersDown (put k sm ps)
PeersDown-put k sm [] d h = (d, tt)
PeersDown-put k sm ((j, x) ∷ ps) d (dx, h) =
    if_ind PeersDown (j == k) (λ e. (d, h)) (λ e. (dx, PeersDown-put k sm ps d h))

any-put_open :
    (k : String) (sm : SyncStateMachine) (ps : Dict SyncStateMachine)
    → sm.current_state ≡ error
    → any is_open (put k sm ps) ≡ true
any-put_open k sm [] d = ground arith
any-put_open k sm ((j, x) ∷ ps) d =
    if_ind (λ l. any is_open l ≡ true) (j == k) (λ e. ground arith)
      (λ e. ground (arith, any-put_open k sm ps d))

any-put_closed :
    (k : String) (sm : SyncStateMachine) (ps : Dict SyncStateMachine)
    → sm.current_state ≡ disconnected
    → any is_open ps ≡ false
    → any is_open (put k sm ps) ≡ false
any-put_closed k sm [] d h = ground arith
any-put_closed k sm ((j, x) ∷ ps) d h =
    if_ind (λ l. any is_open l ≡ false) (j == k) (λ e. ground arith)
      (λ e. ground (arith, any-put_closed k sm ps d))

set_state-peers :
    (s : SyncState) (m : SyncManager)
    → ((set_state s m).1.peer_states ≡ m.peer_states)
      × ((set_state s m).1.has_transport ≡ m.has_transport)
      × ((set_state s m).1.current_state ≡ s)
unfolding set_state
set_state-peers s m = ground (arith, state_beq_iff m.current_state s)

-- `set_state` with an invariant: the own state that it sets must fit the peers.
set_state-IsClosed :
    (s : SyncState) (m : SyncManager)
    → PeersDown m.peer_states
    → ((any is_open m.peer_states ≡ true) × (s ≡ error))
      ⊎ ((any is_open m.peer_states ≡ false) × (s ≡ resting m.has_transport))
    → IsClosed (set_state s m).1
set_state-IsClosed s m down own =
    let (p, t, c) = set_state-peers s m in record { peers_down = rw p down; own = rw (p, t, c) own }

fail_peer-IsClosed :
    (peer : PeerInfo) (reason : String) (m : SyncManager)
    → IsClosed m
    → IsClosed (fail_peer peer reason m).1
unfolding fail_peer
fail_peer-IsClosed peer reason m h =
    let sm = (transition error reason (machine_of (get peer.peer_id m.peer_states))).1 in
    let e = transition_to_error reason (machine_of (get peer.peer_id m.peer_states)) in
    set_state-IsClosed error (record m { peer_states = put peer.peer_id sm m.peer_states })
      (PeersDown-put peer.peer_id sm m.peer_states (inr e) h.peers_down)
      (inl (any-put_open peer.peer_id sm m.peer_states e, refl))

connect-IsClosed : (peer : PeerInfo) (m : SyncManager) → IsClosed m → IsClosed (connect peer m).1
unfolding connect
connect-IsClosed peer m h =
    if_ind (λ (r : List ℕ × SyncManager). IsClosed r.1)
      (not (peer.organisation_id == m.organisation_id))
      (λ e. fail_peer-IsClosed peer "Organisation mismatch" m h)
      (λ e. fail_peer-IsClosed peer "Peer admission verifier is not configured" m h)

hang_up-PeersDown :
    (k : String) (o : Option SyncStateMachine) (ps : Dict SyncStateMachine)
    → PeersDown ps
    → PeersDown (hang_up k o ps)
hang_up-PeersDown k none ps h = h
hang_up-PeersDown k (some sm) ps h = PeersDown-put k _ ps (inl (transition_to_disconnected "" sm)) h

hang_up-closed :
    (k : String) (o : Option SyncStateMachine) (ps : Dict SyncStateMachine)
    → any is_open ps ≡ false
    → any is_open (hang_up k o ps) ≡ false
hang_up-closed k none ps h = h
hang_up-closed k (some sm) ps h = any-put_closed k _ ps (transition_to_disconnected "" sm) h

-- The state that `disconnect` sets fits the peers that are left.
own_after :
    (before after : Bool) (s rest : SyncState)
    → (before ≡ false → after ≡ false)
    → ((before ≡ true) × (s ≡ error)) ⊎ ((before ≡ false) × (s ≡ rest))
    → ((after ≡ true) × ((if after then s else rest) ≡ error))
      ⊎ ((after ≡ false) × ((if after then s else rest) ≡ rest))
own_after before true s rest keeps (inl (b, e)) = inl (refl, e)
own_after before true s rest keeps (inr (b, e)) = cc (keeps b)
own_after before false s rest keeps h = inr (refl, refl)

disconnect-IsClosed : (k : String) (m : SyncManager) → IsClosed m → IsClosed (disconnect k m).1
unfolding disconnect
disconnect-IsClosed k m h =
    let o = get k m.peer_states in
    set_state-IsClosed _ (record m { peer_states = hang_up k o m.peer_states })
      (hang_up-PeersDown k o m.peer_states h.peers_down)
      (own_after _ _ m.current_state (resting m.has_transport) (hang_up-closed k o m.peer_states)
        h.own)

-- The calls that change peers.
pub data Call : Type 0 where
  connect_to : PeerInfo → Call
  disconnect_from : String → Call

abbrev pub perform : Call → SyncManager → SyncManager
perform (connect_to peer) m = (connect peer m).1
perform (disconnect_from k) m = (disconnect k m).1

abbrev pub perform_all : List Call → SyncManager → SyncManager
perform_all [] m = m
perform_all (c ∷ cs) m = perform_all cs (perform c m)

perform-IsClosed : (c : Call) (m : SyncManager) → IsClosed m → IsClosed (perform c m)
perform-IsClosed (connect_to peer) m h = connect-IsClosed peer m h
perform-IsClosed (disconnect_from k) m h = disconnect-IsClosed k m h

perform_all-IsClosed : (cs : List Call) (m : SyncManager) → IsClosed m → IsClosed (perform_all cs m)
perform_all-IsClosed [] m h = h
perform_all-IsClosed (c ∷ cs) m h = perform_all-IsClosed cs (perform c m) (perform-IsClosed c m h)

get-IsDown : (k : String) (ps : Dict SyncStateMachine) → PeersDown ps → IsDown (state_of (get k ps))
get-IsDown k [] h = inl refl
get-IsDown k ((j, x) ∷ ps) (d, h) =
    if_ind (λ (o : Option SyncStateMachine). IsDown (state_of o)) (j == k) (λ _. d)
      (λ _. get-IsDown k ps h)

new_manager-IsClosed :
    (organisation_id : String) (has_transport : Bool)
    → IsClosed (new_manager organisation_id has_transport)
unfolding new_manager
new_manager-IsClosed organisation_id has_transport = record {
  peers_down = tt;
  own = inr (refl, refl);
}

-- Whatever peers a new manager is told to connect to and to disconnect from, in any order: every
-- peer reads as DISCONNECTED or ERROR, the manager is in ERROR exactly while some peer is not
-- DISCONNECTED, and otherwise rests in IDLE with a transport and in DISCONNECTED without one.
pub manager_fails-IsClosed :
    (organisation_id : String) (has_transport : Bool) (cs : List Call) (k : String)
    → let m = perform_all cs (new_manager organisation_id has_transport) in
      IsDown (get_peer_state k m) × IsClosed m
unfolding get_peer_state
manager_fails-IsClosed organisation_id has_transport cs k =
    let m = perform_all cs (new_manager organisation_id has_transport) in
    let h : IsClosed m =
      perform_all-IsClosed cs _ (new_manager-IsClosed organisation_id has_transport) in
    (get-IsDown k m.peer_states h.peers_down, h)
