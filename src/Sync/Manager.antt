-- ===== src/Sync/Manager.antt =====
-- SyncManager of packages/sync/src/manager/SyncManager.ts: the peers that it tracks and its own
-- state. `enqueueOperation` hands an envelope to the outbox and touches none of these fields.
use tauri_boilerplate.Base.{
  ℕ, Bool, not, List, [], any, if◌then◌else◌, ◌==◌, string_eq, nat_eq, String, Dict, get, put,
  Option, none, some,
}
use tauri_boilerplate.Sync.State.{
  SyncState, idle, disconnected, error, state_eq, SyncStateMachine, new_machine, transition,
}

pub record PeerInfo : Type 0 where
  pub peer_id : String
  pub device_id : String
  pub organisation_id : String
  pub supported_sync_groups : List String

-- `has_transport` says whether the manager was given a transport.
pub record SyncManager : Type 0 where
  pub organisation_id : String
  pub has_transport : Bool
  pub peer_states : Dict SyncStateMachine
  pub current_state : SyncState
  pub state_listeners : List ℕ

-- The state of a manager that has no connected peer.
abbrev pub resting : Bool → SyncState
resting has_transport = if has_transport then idle else disconnected

unfoldable pub new_manager : String → Bool → SyncManager
new_manager organisation_id has_transport = record {
  organisation_id = organisation_id;
  has_transport = has_transport;
  peer_states = [];
  current_state = resting has_transport;
  state_listeners = [];
}

-- setState: the listeners that it calls, and the manager after it. What a listener throws is
-- dropped.
unfoldable pub set_state : SyncState → SyncManager → List ℕ × SyncManager
set_state s m =
    if m.current_state == s then ([], m) else (m.state_listeners, record m { current_state = s })

-- `sm ? sm.getState() : "DISCONNECTED"`
abbrev pub state_of : Option SyncStateMachine → SyncState
state_of none = disconnected
state_of (some sm) = sm.current_state

-- getPeerState
unfoldable pub get_peer_state : String → SyncManager → SyncState
get_peer_state peer_id m = state_of (get peer_id m.peer_states)

-- The machine of a peer, a new one for a peer that is not known yet.
abbrev pub machine_of : Option SyncStateMachine → SyncStateMachine
machine_of none = new_machine
machine_of (some sm) = sm

-- connect, after the machine is found: the transition to ERROR that ends both of its branches
unfoldable pub fail_peer : PeerInfo → String → SyncManager → List ℕ × SyncManager
fail_peer peer reason m =
    let sm = (transition error reason (machine_of (get peer.peer_id m.peer_states))).1 in
    set_state error (record m { peer_states = put peer.peer_id sm m.peer_states })

-- connect
unfoldable pub connect : PeerInfo → SyncManager → List ℕ × SyncManager
unfolding fail_peer new_machine transition set_state
connect peer m =
    if not (peer.organisation_id == m.organisation_id)
    then fail_peer peer "Organisation mismatch" m
    else fail_peer peer "Peer admission verifier is not configured" m

abbrev pub is_open : String × SyncStateMachine → Bool
is_open (k, sm) = not (sm.current_state == disconnected)

-- The machines after the transition of one peer to DISCONNECTED; an unknown peer is left alone.
abbrev pub hang_up :
    String → Option SyncStateMachine → Dict SyncStateMachine → Dict SyncStateMachine
hang_up peer_id none peers = peers
hang_up peer_id (some sm) peers = put peer_id (transition disconnected "" sm).1 peers

-- disconnect
unfoldable pub disconnect : String → SyncManager → List ℕ × SyncManager
unfolding transition set_state
disconnect peer_id m =
    let peers = hang_up peer_id (get peer_id m.peer_states) m.peer_states in
    set_state (if any is_open peers then m.current_state else resting m.has_transport)
      (record m { peer_states = peers })
