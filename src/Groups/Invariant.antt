-- ===== src/Groups/Invariant.antt =====
-- Over any calls of SyncGroupService, members and decisions follow the membership requests.
use tauri_boilerplate.Base.{
  ◌≡◌, refl, sym, subst, Bool, string_eq, eq_iff, String, Option, none, List, [], ◌∷◌, ok, arith,
  All-mono, All-update_keep, All-append,
}
use tauri_boilerplate.Authorization.Engine.{Json}
use tauri_boilerplate.Groups.Tables.{accepted, refused, Store, is_member_of}
use tauri_boilerplate.Groups.Context.{Statement, revoke_row, acting_user}
use tauri_boilerplate.Groups.Calls.{
  Call, create, request, approve, revoke, reject, run, perform, perform_all, perform-keep,
}
use tauri_boilerplate.Groups.Effects.{
  request_row, decision_row, check_request-ok, approve-effect, reject-effect, request-effect,
  create-effect, revoke-effect,
}
use tauri_boilerplate.Groups.Founded.{
  expected, HasRequest, HasRequest-mono, IsFounded, Keeps-append, Keeps-decide, decide-decided,
  find_request-append, find_request-new, find_request-decide,
}

-- A store with the same requests, decisions and members.
same-IsFounded :
    (s s' : Store)
    → s'.requests ≡ s.requests
    → s'.decisions ≡ s.decisions
    → s'.members ≡ s.members
    → IsFounded s
    → IsFounded s'
same-IsFounded s s' r d m h = record {
  decided = λ i. rw (r, d) (h.decided i);
  admitted = rw (r, m) h.admitted;
}

module _ {Value : Type 0} (same : Value → Value → Bool) (parse_json : String → Option (Json Value))
    (trim : String → String) (refuses : Statement → Store → Bool) where
  run-IsFounded :
      (c : Call) (s s' : Store)
      → run same parse_json trim refuses c s ≡ ok s'
      → IsFounded s
      → IsFounded s'
  unfolding run
  run-IsFounded (create name description organisation ctx id now) s s' e h =
      let (r, d, m) =
        create-effect same parse_json trim refuses name description organisation ctx id now s s'
          e in
      same-IsFounded s s' r d m h
  run-IsFounded (request group device user id now) s s' e h =
      let (unused, after) =
        request-effect same parse_json trim refuses group device user id now s s' e in
      let r = request_row group device user id now in
      subst IsFounded (sym after) (record {
        decided = λ i. ground (
          arith,
          find_request-append i s.requests r unused,
          find_request-new s.requests id unused,
          h.decided i,
          eq_iff id i,
        );
        admitted =
            All-mono (HasRequest-mono s.requests _ (Keeps-append s.requests r unused)) s.members
              h.admitted;
      })
  run-IsFounded (approve r ctx signature expected decision member now) s s' e h =
      let (req, checked, device, after) =
        approve-effect same parse_json trim refuses r ctx signature expected decision member now s
          s' e in
      let (permitted, found, inside, waiting) =
        check_request-ok same parse_json trim refuses r ctx s req checked in
      subst IsFounded (sym after) (record {
        decided =
            decide-decided r accepted (decision_row decision r ctx accepted now signature) s req
              refl refl refl found waiting h.decided;
        admitted =
            All-append (HasRequest _) s.members _
              (All-mono
                (HasRequest-mono s.requests _
                  (Keeps-decide r accepted s.requests req found waiting))
                s.members h.admitted)
              (
                (
                  r,
                  record req { status = accepted },
                  ground (arith, find_request-decide r r accepted s.requests, eq_iff r r),
                  refl,
                  refl,
                  refl,
                  refl,
                ),
                tt,
              );
      })
  run-IsFounded (revoke device group ctx reason revocation now) s s' e h =
      let (permitted, inside, r, d, m) =
        revoke-effect same parse_json trim refuses device group ctx reason revocation now s s' e in
      record {
        decided = λ i. rw (r, d) (h.decided i);
        admitted =
            rw (r, m)
              (All-update_keep (HasRequest s.requests) (is_member_of device group)
                (revoke_row now (acting_user ctx) reason) (λ x k. k) s.members h.admitted);
      }
  run-IsFounded (reject r ctx decision now) s s' e h =
      let (req, checked, after) =
        reject-effect same parse_json trim refuses r ctx decision now s s' e in
      let (permitted, found, inside, waiting) =
        check_request-ok same parse_json trim refuses r ctx s req checked in
      subst IsFounded (sym after) (record {
        decided =
            decide-decided r refused (decision_row decision r ctx refused now none) s req refl refl
              refl found waiting h.decided;
        admitted =
            All-mono
              (HasRequest-mono s.requests _ (Keeps-decide r refused s.requests req found waiting))
              s.members h.admitted;
      })

  -- Over any calls, successful or not, of tables that were founded before: each member row was inserted for
  -- a request that is approved and names its group, device and user, and a request has no decision while
  -- it is pending, and one that agrees with its status from then on.
  pub perform_all-IsFounded :
      (calls : List Call) (s : Store)
      → IsFounded s
      → IsFounded (perform_all same parse_json trim refuses calls s)
  unfolding perform_all
  perform_all-IsFounded [] s h = h
  perform_all-IsFounded (c ∷ cs) s h =
      perform_all-IsFounded cs (perform same parse_json trim refuses c s) (
        perform-keep same parse_json trim refuses IsFounded c s (λ s' e. run-IsFounded c s s' e h)
          h)
