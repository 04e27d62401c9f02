-- ===== src/Notes/Calls.antt =====
-- Any calls of NotesService on one database, with what the outbox worker and the transport do in between.
use tauri_boilerplate.Base.{
  ℕ, Bool, ◌≡◌, refl, String, Option, List, [], ◌∷◌, Result, ok, err, >>=-eq-ok, string_eq,
}
use tauri_boilerplate.Groups.Tables.{Store}
use tauri_boilerplate.Groups.Context.{Context}
use tauri_boilerplate.Replication.Outbox.{OutboxRow, mark_sent}
use tauri_boilerplate.Replication.Tombstones.{TombstoneRow, mark_replicated}
use tauri_boilerplate.Notes.Tables.{NotesStore}
use tauri_boilerplate.Notes.Service.{
  NotesError, Platform, Fresh, require_permission, create_note, update_note, delete_note,
}
use tauri_boilerplate.Notes.Published.{
  Removed, IsPublished, create_note-IsPublished, update_note-IsPublished, delete_found-IsPublished,
}
use tauri_boilerplate.Notes.Pruning.{
  prune_outbox, prune_tombstones, WereSent, mark_sent-IsPublished, mark_replicated-IsPublished,
  prune_outbox-IsPublished, prune_tombstones-IsPublished, prune_outbox-WereSent,
  prune_tombstones-WereSent,
}

-- A call of the service, what changes the tables of users, groups and devices, the marks on what was sent, and the
-- statements of the two pruners.
pub data Call : Type 0 where
  create : Context → (title content group : String) → Fresh → Call
  update : Context → (id : String) → (title content : Option String) → Fresh → Call
  delete : Context → (id : String) → Fresh → Call
  administer : (Store → Store) → Call
  sent : (envelope_id : String) → (now : ℕ) → Call
  replicated : (operation_id now : String) → Call
  prunes_outbox : (OutboxRow → Bool) → Call
  prunes_tombstones : (TombstoneRow → Bool) → Call

-- What a transaction leaves: all writes, or none where it threw.
abbrev pub after : Result NotesError NotesStore → NotesStore → NotesStore
after (ok s') s = s'
after (err e) s = s

-- The tables, and what was pruned from them so far.
abbrev pub State : Type 0
State = NotesStore × Removed

-- No note is lost: each is published, if what was pruned is counted, and only what was sent was pruned.
pub record IsSafe (s : State) : Type 0 where
  pub published : IsPublished s.1 s.0
  pub were_sent : WereSent s.1

module _ {Scope Leaf : Type 0} (P : Platform Scope Leaf) where
  unfoldable pub perform : Call → State → State
  unfolding create_note update_note delete_note mark_sent mark_replicated prune_outbox
      prune_tombstones
  perform (create ctx title content group f) (s, g) =
      (after (create_note P ctx title content group f s) s, g)
  perform (update ctx i title content f) (s, g) =
      (after (update_note P ctx i title content f s) s, g)
  perform (delete ctx i f) (s, g) = (after (delete_note P ctx i f s) s, g)
  perform (administer change) (s, g) = (record s { platform = change s.platform }, g)
  perform (sent e now) (s, g) = (record s { outbox = mark_sent e now s.outbox }, g)
  perform (replicated op now) (s, g) =
      (record s { tombstones = mark_replicated op now s.tombstones }, g)
  perform (prunes_outbox chosen) s = prune_outbox chosen s
  perform (prunes_tombstones chosen) s = prune_tombstones chosen s

  unfoldable pub perform_all : List Call → State → State
  unfolding perform
  perform_all [] s = s
  perform_all (c ∷ cs) s = perform_all cs (perform c s)

  after-IsPublished :
      (g : Removed) (r : Result NotesError NotesStore) (s : NotesStore)
      → ((s' : NotesStore) → r ≡ ok s' → IsPublished g s')
      → IsPublished g s
      → IsPublished g (after r s)
  after-IsPublished g (ok s') s keep k = keep s' refl
  after-IsPublished g (err e) s keep k = k

  delete_note-IsPublished :
      (ctx : Context) (i : String) (f : Fresh) (g : Removed) (s s' : NotesStore)
      → delete_note P ctx i f s ≡ ok s'
      → IsPublished g s
      → IsPublished g s'
  unfolding delete_note
  delete_note-IsPublished ctx i f g s s' h k =
      let (u, permitted, h₁) = >>=-eq-ok (require_permission P ctx "notes.delete" s.platform) _ h in
      delete_found-IsPublished P ctx i f g s s' _ h₁ k

  perform-IsPublished :
      (c : Call) (s : NotesStore) (g : Removed)
      → IsPublished g s
      → let r = perform c (s, g) in IsPublished r.1 r.0
  unfolding perform
  perform-IsPublished (create ctx title content group f) s g k =
      after-IsPublished g _ s
        (λ s' h. create_note-IsPublished P ctx title content group f g s s' h k) k
  perform-IsPublished (update ctx i title content f) s g k =
      after-IsPublished g _ s (λ s' h. update_note-IsPublished P ctx i title content f g s s' h k) k
  perform-IsPublished (delete ctx i f) s g k =
      after-IsPublished g _ s (λ s' h. delete_note-IsPublished ctx i f g s s' h k) k
  perform-IsPublished (administer change) s g k = k
  perform-IsPublished (sent e now) s g k = mark_sent-IsPublished e now s g k
  perform-IsPublished (replicated op now) s g k = mark_replicated-IsPublished op now s g k
  perform-IsPublished (prunes_outbox chosen) s g k = prune_outbox-IsPublished chosen s g k
  perform-IsPublished (prunes_tombstones chosen) s g k = prune_tombstones-IsPublished chosen s g k

  perform-WereSent :
      (c : Call) (s : NotesStore) (g : Removed) → WereSent g → WereSent (perform c (s, g)).1
  unfolding perform
  perform-WereSent (create ctx title content group f) s g w = w
  perform-WereSent (update ctx i title content f) s g w = w
  perform-WereSent (delete ctx i f) s g w = w
  perform-WereSent (administer change) s g w = w
  perform-WereSent (sent e now) s g w = w
  perform-WereSent (replicated op now) s g w = w
  perform-WereSent (prunes_outbox chosen) s g w = prune_outbox-WereSent chosen s g w
  perform-WereSent (prunes_tombstones chosen) s g w = prune_tombstones-WereSent chosen s g w

  -- Over any calls by any callers, whatever changes the tables of users, roles, groups, members and devices in
  -- between, whatever is marked as sent or replicated, and whatever the pruners of the outbox and of the
  -- tombstones delete: every note has the row of its creation in the outbox, for its group and organisation, or
  -- that row was SENT and was pruned; and the note is live without a delete operation, or its delete operation
  -- has a tombstone of the time at which the note was deleted and a row of its deletion in the outbox, where the
  -- tombstone may have been pruned once it was replicated and the row once it was SENT; if that was so before.
  pub perform_all-IsSafe : (calls : List Call) (s : State) → IsSafe s → IsSafe (perform_all calls s)
  unfolding perform_all
  perform_all-IsSafe [] s k = k
  perform_all-IsSafe (c ∷ cs) (s, g) k = perform_all-IsSafe cs (perform c (s, g)) (record {
    published = perform-IsPublished c s g k.published;
    were_sent = perform-WereSent c s g k.were_sent;
  })
