-- ===== src/Groups/Calls.antt =====
-- Any calls of SyncGroupService on one database, in any order, by any callers.
use tauri_boilerplate.Base.{
  ℕ, ◌≡◌, sym, subst, inl, inr, Bool, String, Option, List, [], ◌∷◌, Result, ok, err, Result-cases,
}
use tauri_boilerplate.Authorization.Engine.{Json}
use tauri_boilerplate.Groups.Tables.{Store}
use tauri_boilerplate.Groups.Context.{Context, Statement, GroupError}
use tauri_boilerplate.Groups.Service.{
  create_group, request_membership, approve_membership, revoke_membership, reject_membership,
}

-- A call, with the ids and the time that it draws.
pub data Call : Type 0 where
  create :
      (name : String) (description : Option String) (organisation : String)
      → Context
      → (id : String) (now : ℕ) → Call
  request : (group device : String) → Option String → (id : String) (now : ℕ) → Call
  approve :
      (request : String)
      → Context
      → (signature expected_device : Option String) → (decision_id member_id : String) (now : ℕ)
      → Call
  revoke :
      (device group : String)
      → Context
      → (reason : String) → (revocation_id : String) (now : ℕ) → Call
  reject : (request : String) → Context → (decision_id : String) (now : ℕ) → Call

-- What a transaction leaves: all writes, or none where it threw.
abbrev pub after_transaction : {E : Type 0} → Result E Store → Store → Store
after_transaction (ok s') s = s'
after_transaction (err e) s = s

module _ {Value : Type 0} (same : Value → Value → Bool) (parse_json : String → Option (Json Value))
    (trim : String → String) (refuses : Statement → Store → Bool) where
  unfoldable pub run : Call → Store → Result GroupError Store
  run (create name description organisation ctx id now) s =
      create_group same parse_json trim refuses name description organisation ctx id now s
  run (request group device user id now) s =
      request_membership same parse_json trim refuses group device user id now s
  run (approve r ctx signature expected decision member now) s =
      approve_membership same parse_json trim refuses r ctx signature expected decision member now s
  run (revoke device group ctx reason revocation now) s =
      revoke_membership same parse_json trim refuses device group ctx reason revocation now s
  run (reject r ctx decision now) s =
      reject_membership same parse_json trim refuses r ctx decision now s

  unfoldable pub perform : Call → Store → Store
  unfolding run
  perform c s = after_transaction (run c s) s

  unfoldable pub perform_all : List Call → Store → Store
  unfolding perform
  perform_all [] s = s
  perform_all (c ∷ cs) s = perform_all cs (perform c s)

  -- A property that each successful call keeps holds behind every call.
  pub perform-keep :
      (P : Store → Type 0) (c : Call) (s : Store)
      → ((s' : Store) → run c s ≡ ok s' → P s')
      → P s
      → P (perform c s)
  unfolding perform
  perform-keep P c s keep h = elim (Result-cases (run c s)) [
    | inl (s', e) ↦ subst (λ r. P (after_transaction r s)) (sym e) (keep s' e)
    | inr (e, p) ↦ subst (λ r. P (after_transaction r s)) (sym p) h
  ]
