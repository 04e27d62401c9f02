-- ===== src/Sync/Tests.antt =====
-- Runs of the peer state machine and the manager, and the theorems about them at concrete inputs.
use tauri_boilerplate.Base.{◌≡◌, refl, inr, true, List, [], ◌∷◌, ok, err}
use tauri_boilerplate.Sync.State.{
  SyncState, connecting, connected, authenticating, authorised, syncing, idle, error,
  SyncStateMachine, new_machine, notices, transition,
}
use tauri_boilerplate.Sync.Authenticated.{IsSubsequence, drive, trusted_after_authentication}
use tauri_boilerplate.Sync.Manager.{PeerInfo, new_manager, connect, disconnect, get_peer_state}
use tauri_boilerplate.Sync.FailClosed.{
  IsDown, IsClosed, Call, connect_to, disconnect_from, perform_all, manager_fails-IsClosed,
}

abbrev watched : SyncStateMachine
watched = record { current_state = idle; listeners = 1 ∷ 2 ∷ [] }

transition_tests :
    (transition syncing "" watched
      ≡ (ok (notices syncing idle (1 ∷ 2 ∷ [])), record watched { current_state = syncing }))
    × (transition connected "x" watched
        ≡ (err (record { from = idle; to = connected; reason = "x" }), watched))
unfolding transition
transition_tests = (refl, refl)

abbrev asked : List SyncState
asked = connecting ∷ syncing ∷ connected ∷ authenticating ∷ idle ∷ authorised ∷ syncing ∷ idle ∷ []

asked_idle : (drive asked new_machine).current_state ≡ idle
unfolding drive new_machine transition
asked_idle = refl

trusted_after_authentication_example :
    IsSubsequence (connecting ∷ connected ∷ authenticating ∷ authorised ∷ []) asked
trusted_after_authentication_example = trusted_after_authentication asked (inr (inr asked_idle))

abbrev peer : PeerInfo
peer = record {
  peer_id = "p";
  device_id = "d";
  organisation_id = "org";
  supported_sync_groups = [];
}

abbrev calls : List Call
calls = connect_to peer ∷ disconnect_from "p" ∷ connect_to peer ∷ disconnect_from "q" ∷ []

manager_runs :
    ((perform_all calls (new_manager "org" true)).current_state ≡ error)
    × ((perform_all
          (connect_to peer ∷ disconnect_from "p" ∷ [])
          (new_manager "org" true)).current_state
        ≡ idle)
unfolding new_manager connect disconnect
manager_runs = (refl, refl)

manager_fails-IsClosed_example :
    let m = perform_all calls (new_manager "org" true) in IsDown (get_peer_state "p" m) × IsClosed m
manager_fails-IsClosed_example = manager_fails-IsClosed "org" true calls "p"
