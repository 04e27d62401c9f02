-- ===== src/Notes/Reading.antt =====
-- Which notes NotesService hands to a caller.
use tauri_boilerplate.Base.{
  ℕ, ◌≡◌, refl, sym, subst, ◌∙◌, inl, inr, Bool, true, ◌&&◌, ◌==◌, string_eq, eq_iff, String,
  Option, none, some, List, [], ◌∷◌, any, Result, ok, err, arith, >>=-eq-ok, ok_injective, All,
  All-of, All-filter, All-sort_by, truthy, Bool-cases,
}
use tauri_boilerplate.Groups.Tables.{
  Store, GroupRow, MemberRow, DeviceRow, find, find_device_status, is_eligible,
  find_membership_eligibility,
}
use tauri_boilerplate.Groups.Context.{Context, extract_context_subject, GroupError}
use tauri_boilerplate.Groups.Access.{is_approved_device, require_active_membership}
use tauri_boilerplate.Notes.Tables.{
  NoteRecord, NotesStore, is_live, has_active_group, has_membership, find_by_sync_group,
  find_all_within_organisation,
}
use tauri_boilerplate.Notes.Service.{Platform, or_group, require_permission, list_of, list_notes}

or_group-ok : (r : Result GroupError (Unit {0})) {u : Unit {0}} → or_group r ≡ ok u → r ≡ ok tt
or_group-ok (ok u) h = refl
or_group-ok (err e) h = cc

-- Each row is the one that its key finds: the keys are unique.
abbrev pub IsKeyed : {Row : Type 0} → (Row → String) → List Row → Type 0
IsKeyed key rows = All (λ r. find (λ s. key s == key r) rows ≡ some r) rows

-- A row that a search over all rows finds, under its key.
any-keyed :
    {Row : Type 0} (Q : Row → Type 0) (p : Row → Bool) (rows : List Row)
    → All Q rows
    → any p rows ≡ true
    → (r : Row) × Q r × (p r ≡ true)
any-keyed Q p [] q h = cc
any-keyed Q p (r ∷ rows) (q, qs) h = elim (Bool-cases (p r)) [
  | inl hit ↦ (r, q, hit)
  | inr miss ↦ any-keyed Q p rows qs (ground arith)
]

-- What is there is found.
find-of_any :
    {Row : Type 0} (p : Row → Bool) (rows : List Row) (r : Row)
    → any p rows ≡ true
    → (x : Row) × (find p rows ≡ some x)
unfolding find
find-of_any p [] r h = cc
find-of_any p (x ∷ rows) r h = elim (Bool-cases (p x)) [
  | inl hit ↦ (x, rw hit refl)
  | inr miss ↦ rw miss (find-of_any p rows r (ground arith))
]

-- The caller may read the note.
abbrev pub IsReadable : Context → NotesStore → NoteRecord → Type 0
IsReadable ctx s n =
    (n.organisation_id ≡ (extract_context_subject ctx).organisation_id)
    × (is_live n ≡ true)
    × (require_active_membership ctx n.sync_group_id s.platform ≡ ok tt)

any_mono :
    {Row : Type 0} (p q : Row → Bool) (rows : List Row)
    → ((r : Row) → p r ≡ true → q r ≡ true)
    → any p rows ≡ true
    → any q rows ≡ true
any_mono p q [] f h = h
any_mono p q (r ∷ rows) f h = elim (Bool-cases (p r)) [
  | inl hit ↦ ground (arith, f r hit)
  | inr miss ↦ ground (arith, any_mono p q rows f (ground arith))
]

membership-passes :
    (ctx : Context) (group : String) (s : Store) (g : GroupRow) (d : DeviceRow) (m : MemberRow)
    → let subject = extract_context_subject ctx in
      find (λ (r : GroupRow). r.id == group) s.groups ≡ some g
      → (g.organisation_id == subject.organisation_id) ≡ true
      → (g.status == "ACTIVE") ≡ true
      → find (λ (r : DeviceRow). r.device_id == subject.device_id) s.devices ≡ some d
      → is_approved_device (some d.status) ≡ true
      → find (is_eligible subject.device_id group subject.user_id) s.members ≡ some m
      → require_active_membership ctx group s ≡ ok tt
unfolding require_active_membership find_membership_eligibility find_device_status
membership-passes ctx group s g d m found org active known approved member = simp (
  found, org, active, known, approved, member, require_active_membership,
  find_membership_eligibility, find_device_status,
)

-- The rows that the EXISTS of the query find are those that requireActiveMembership looks up.
rows-pass :
    (ctx : Context) (s : Store) (n : NoteRecord) (g : GroupRow) (m k : MemberRow) (d : DeviceRow)
    → let subject = extract_context_subject ctx in
      n.organisation_id ≡ subject.organisation_id
      → find (λ (y : GroupRow). y.id == g.id) s.groups ≡ some g
      → (g.id == n.sync_group_id && g.organisation_id == n.organisation_id && g.status == "ACTIVE")
        ≡ true
      → (m.device_id == subject.device_id) ≡ true
      → find (λ (y : DeviceRow). y.device_id == d.device_id) s.devices ≡ some d
      → (d.device_id == m.device_id && is_approved_device (some d.status)) ≡ true
      → find (is_eligible subject.device_id n.sync_group_id subject.user_id) s.members ≡ some k
      → require_active_membership ctx n.sync_group_id s ≡ ok tt
rows-pass ctx s n g m k d org found fits own known approved first =
    let subject = extract_context_subject ctx in
    let in_group : g.id ≡ n.sync_group_id = (eq_iff g.id n.sync_group_id).0 (ground arith) in
    let mine : m.device_id ≡ subject.device_id = (eq_iff m.device_id subject.device_id).0 own in
    let same : d.device_id ≡ m.device_id = (eq_iff d.device_id m.device_id).0 (ground arith) in
    let owner : g.organisation_id ≡ n.organisation_id =
      (eq_iff g.organisation_id n.organisation_id).0 (ground arith) in
    membership-passes ctx n.sync_group_id s g d k
      (subst (λ i. find (λ (y : GroupRow). y.id == i) s.groups ≡ some g) in_group found)
      ((eq_iff g.organisation_id subject.organisation_id).1 (owner ∙ org)) (ground arith)
      (subst (λ i. find (λ (y : DeviceRow). y.device_id == i) s.devices ≡ some d) (same ∙ mine)
        known)
      (ground arith) first

exists-membership :
    (ctx : Context) (s : Store) (n : NoteRecord)
    → IsKeyed (λ (g : GroupRow). g.id) s.groups
    → IsKeyed (λ (d : DeviceRow). d.device_id) s.devices
    → n.organisation_id ≡ (extract_context_subject ctx).organisation_id
    → has_active_group n s ≡ true
    → has_membership n
        (extract_context_subject ctx).device_id
        (extract_context_subject ctx).user_id
        s
      ≡ true
    → require_active_membership ctx n.sync_group_id s ≡ ok tt
exists-membership ctx s n groups devices org grouped member =
    let subject = extract_context_subject ctx in
    let (g, found, fits) =
      any-keyed (λ (x : GroupRow). find (λ (y : GroupRow). y.id == x.id) s.groups ≡ some x) _
        s.groups groups grouped in
    let (m, u, eligible) =
      any-keyed (λ (x : MemberRow). Unit {0}) _ s.members (All-of _ (λ x. tt) s.members) member in
    let (d, known, approved) =
      any-keyed
        (λ (x : DeviceRow). find (λ (y : DeviceRow). y.device_id == x.device_id) s.devices ≡ some x)
        (λ (x : DeviceRow). x.device_id == m.device_id && is_approved_device (some x.status))
        s.devices devices (ground arith) in
    let (k, first) =
      find-of_any (is_eligible subject.device_id n.sync_group_id subject.user_id) s.members m
        (any_mono _ _ s.members (λ r h. ground arith) member) in
    rows-pass ctx s n g m k d org found fits (ground arith) known approved first

module _ {Scope Leaf : Type 0} (P : Platform Scope Leaf) (newest : String → ℕ) where
  list_of-IsReadable :
      (ctx : Context) (s : NotesStore) (group : Option String) (ns : List NoteRecord)
      → IsKeyed (λ (g : GroupRow). g.id) s.platform.groups
      → IsKeyed (λ (d : DeviceRow). d.device_id) s.platform.devices
      → list_of P newest ctx s group ≡ ok ns
      → All (IsReadable ctx s) ns
  unfolding list_of find_by_sync_group find_all_within_organisation
  list_of-IsReadable ctx s (some g) ns groups devices h =
      let subject = extract_context_subject ctx in
      let (u, member, last) =
        >>=-eq-ok (or_group (require_active_membership ctx g s.platform)) _ h in
      let admitted = or_group-ok (require_active_membership ctx g s.platform) member in
      subst (All (IsReadable ctx s)) (ok_injective last) (
        All-sort_by (IsReadable ctx s) _ _ (
          All-filter (IsReadable ctx s) _ s.notes (
            All-of _
              (λ n kept. (
                (eq_iff n.organisation_id subject.organisation_id).0 (ground arith),
                ground arith,
                subst (λ i. require_active_membership ctx i s.platform ≡ ok tt)
                    (sym ((eq_iff n.sync_group_id g).0 (ground arith))) admitted,
              ))
              s.notes)))
  list_of-IsReadable ctx s none ns groups devices h =
      let subject = extract_context_subject ctx in
      subst (All (IsReadable ctx s)) (ok_injective h) (
        All-sort_by (IsReadable ctx s) _ _ (
          All-filter (IsReadable ctx s) _ s.notes (
            All-of _
              (λ n kept.
                let own = (eq_iff n.organisation_id subject.organisation_id).0 (ground arith) in
                (
                  own,
                  ground arith,
                  exists-membership ctx s.platform n groups devices own (ground arith)
                      (ground arith),
                ))
              s.notes)))

  -- Group ids and device ids are unique. Whatever `listNotes` returns, for one group or for all, are live notes
  -- of the caller's organisation in groups in which `requireActiveMembership` admits the caller.
  pub list_notes-IsReadable :
      (ctx : Context) (s : NotesStore) (group : Option String) (ns : List NoteRecord)
      → IsKeyed (λ (g : GroupRow). g.id) s.platform.groups
      → IsKeyed (λ (d : DeviceRow). d.device_id) s.platform.devices
      → list_notes P newest ctx group s ≡ ok ns
      → All (IsReadable ctx s) ns
  unfolding list_notes
  list_notes-IsReadable ctx s group ns groups devices h =
      let (u, permitted, k) = >>=-eq-ok (require_permission P ctx "notes.read" s.platform) _ h in
      list_of-IsReadable ctx s (truthy group) ns groups devices k
