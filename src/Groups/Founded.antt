-- ===== src/Groups/Founded.antt =====
-- Members and decisions of a sync group follow its membership requests.
use tauri_boilerplate.Base.{
  ◌≡◌, refl, true, false, ◌==◌, string_eq, eq_iff, String, Option, none, some, List, [], ◌∷◌, ◌++◌,
  update_where, arith, if◌then◌else◌, any, All,
}
use tauri_boilerplate.Groups.Tables.{
  RequestStatus, pending, accepted, refused, RequestRow, DecisionRow, MemberRow, Store,
  find_request, is_pending,
}

-- The decisions recorded for a request, oldest first.
abbrev pub verdicts : String → List DecisionRow → List RequestStatus
verdicts i [] = []
verdicts i (d ∷ ds) = if d.request_id == i then d.decision ∷ verdicts i ds else verdicts i ds

-- What a request's status says of them.
abbrev pub verdicts_of : RequestStatus → List RequestStatus
verdicts_of pending = []
verdicts_of accepted = accepted ∷ []
verdicts_of refused = refused ∷ []

abbrev pub expected : Option RequestRow → List RequestStatus
expected none = []
expected (some r) = verdicts_of r.status

-- The accepted request that a member was admitted for.
abbrev pub HasRequest : List RequestRow → MemberRow → Type 0
HasRequest rs m =
    (i : String) × (r : RequestRow) × (find_request i rs ≡ some r)
    × (r.status ≡ accepted)
    × (m.group_id ≡ r.group_id)
    × (m.device_id ≡ r.device_id)
    × (m.user_id ≡ r.user_id)

pub record IsFounded (s : Store) : Type 0 where
  pub decided : (i : String) → verdicts i s.decisions ≡ expected (find_request i s.requests)
  pub admitted : All (HasRequest s.requests) s.members

pub verdicts-append :
    (i : String) (ds : List DecisionRow) (d : DecisionRow)
    → verdicts i (ds ++ d ∷ [])
      ≡ (if d.request_id == i then verdicts i ds ++ d.decision ∷ [] else verdicts i ds)
verdicts-append i [] d = ground arith
verdicts-append i (e ∷ ds) d = ground (arith, verdicts-append i ds d)

pub find_request-append :
    (i : String) (rs : List RequestRow) (r : RequestRow)
    → any (λ (q : RequestRow). q.id == r.id) rs ≡ false
    → find_request i (rs ++ r ∷ []) ≡ (if r.id == i then some r else find_request i rs)
unfolding find_request
find_request-append i [] r h = refl
find_request-append i (q ∷ rs) r h =
    ground (arith, eq_iff q.id i, eq_iff r.id i, eq_iff q.id r.id, find_request-append i rs r)

pub find_request-new :
    (rs : List RequestRow) (i : String)
    → any (λ (q : RequestRow). q.id == i) rs ≡ false
    → find_request i rs ≡ none
unfolding find_request
find_request-new [] i h = refl
find_request-new (q ∷ rs) i h = ground (arith, find_request-new rs i)

abbrev pub set_status : RequestStatus → Option RequestRow → Option RequestRow
set_status status none = none
set_status status (some r) = some (record r { status = status })

pub find_request-decide :
    (i j : String) (status : RequestStatus) (rs : List RequestRow)
    → find_request i
        (update_where (λ (r : RequestRow). r.id == j) (λ r. record r { status = status }) rs)
      ≡ (if i == j then set_status status (find_request i rs) else find_request i rs)
unfolding find_request
find_request-decide i j status [] = ground arith
find_request-decide i j status (r ∷ rs) =
    ground (arith, eq_iff i j, eq_iff r.id i, eq_iff r.id j, find_request-decide i j status rs)

-- Accepted requests are found again with nothing changed.
abbrev pub Keeps : List RequestRow → List RequestRow → Type 0
Keeps rs rs' =
    (i : String) (q : RequestRow)
    → find_request i rs ≡ some q
    → q.status ≡ accepted
    → find_request i rs' ≡ some q

pub HasRequest-mono :
    (rs rs' : List RequestRow) → Keeps rs rs' → (m : MemberRow) → HasRequest rs m → HasRequest rs' m
HasRequest-mono rs rs' keep m (i, r, found, status, g, d, u) =
    (i, r, keep i r found status, status, g, d, u)

pub Keeps-append :
    (rs : List RequestRow) (r : RequestRow)
    → any (λ (q : RequestRow). q.id == r.id) rs ≡ false
    → Keeps rs (rs ++ r ∷ [])
Keeps-append rs r unused i q found status =
    ground
      (arith, find_request-append i rs r unused, find_request-new rs r.id unused, eq_iff r.id i)

pub Keeps-decide :
    (j : String) (verdict : RequestStatus) (rs : List RequestRow) (req : RequestRow)
    → find_request j rs ≡ some req
    → is_pending req.status ≡ true
    → Keeps rs
        (update_where (λ (r : RequestRow). r.id == j) (λ r. record r { status = verdict }) rs)
Keeps-decide j verdict rs req at_j waiting i q found status =
    ground (arith, find_request-decide i j verdict rs, eq_iff i j)

-- A decided request: the decision is recorded once, and the status says so.
pub decide-decided :
    (j : String) (verdict : RequestStatus) (d : DecisionRow) (s : Store) (req : RequestRow)
    → d.request_id ≡ j
    → d.decision ≡ verdict
    → is_pending verdict ≡ false
    → find_request j s.requests ≡ some req
    → is_pending req.status ≡ true
    → ((i : String) → verdicts i s.decisions ≡ expected (find_request i s.requests))
    → (i : String)
    → verdicts i (s.decisions ++ d ∷ [])
      ≡ expected (
          find_request i (
            update_where
              (λ (r : RequestRow). r.id == j)
              (λ r. record r { status = verdict })
              s.requests))
decide-decided j verdict d s req to_j says final at_j waiting before i = ground (
  arith,
  find_request-decide i j verdict s.requests,
  verdicts-append i s.decisions d,
  eq_iff i j,
  eq_iff d.request_id i,
  before i,
)
