-- ===== src/Replication/Delivery.antt =====
-- Any calls of InboxService on one table, and what the domain is handed.
use tauri_boilerplate.Base.{
  ℕ, ◌+◌, ◌≡◌, Bool, true, string_eq, String, Option, List, [], ◌∷◌, ◌++◌, Result, All,
}
use tauri_boilerplate.Envelope.Json.{Value}
use tauri_boilerplate.Envelope.Types.{SyncEnvelope, Literals}
use tauri_boilerplate.Envelope.Builder.{EnvelopeError}
use tauri_boilerplate.Replication.Inbox.{InboxRow, is_ready, receive, Attempt, apply_pending}
use tauri_boilerplate.Replication.Once.{IsOnce, one_if}

module _ (Leaf : Type 0) where
  -- A call of InboxService with what it draws and what its callbacks do.
  pub data Call : Type 0 where
    receive_envelope :
        SyncEnvelope Leaf
        → (verify_fn : String → List ℕ → String → Result EnvelopeError Bool)
        → (id : String) (now : ℕ) → Call
    apply_all : (InboxRow → Attempt) → (now : String → ℕ) → Call

module _ {Leaf : Type 0} (L : Literals Leaf) (stringify : Value Leaf → Option String)
    (encode : String → List ℕ) (iso_date : String → Option String)
    (payload_json : Option (Value Leaf) → String) where
  -- The table, the records handed over so far and the number of `applyPending` calls that threw.
  abbrev pub History : Type 0
  History = List InboxRow × List InboxRow × ℕ

  unfoldable pub perform : (rank : String → ℕ) → Call Leaf → History → History
  unfolding receive apply_pending
  perform rank (receive_envelope e verify_fn id now) (t, handed, thrown) =
      ((receive L stringify encode iso_date payload_json e verify_fn id now t).1, handed, thrown)
  perform rank (apply_all attempt now) (t, handed, thrown) =
      let a = apply_pending rank attempt now t in
      (a.table, handed ++ a.handed, thrown + one_if a.throws)

  unfoldable pub perform_all : (rank : String → ℕ) → List (Call Leaf) → History → History
  unfolding perform
  perform_all rank [] s = s
  perform_all rank (c ∷ cs) s = perform_all rank cs (perform rank c s)

  -- What holds of an envelope between the calls.
  record IsKept (e : String) (s : History) : Type 0 where
    once : IsOnce e s.0 s.1 s.2
    ready : All (λ (r : InboxRow). is_ready r ≡ true) s.1
