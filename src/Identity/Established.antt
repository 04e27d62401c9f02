-- ===== src/Identity/Established.antt =====
-- Where the session that UserSessionService keeps and validates comes from.
use tauri_boilerplate.Base.{
  ℕ, ◌≡◌, refl, sym, ap, subst, ◌∙◌, ◌⊎◌, inl, inr, Bool, true, false, ◌||◌, ◌==◌, nat_eq,
  string_eq, if◌then◌else◌, String, Option, none, some, List, [], ◌∷◌, Result, ok, err, err_ok,
  none-some, ok_injective, Any, here, there, Result-cases, some_injective, arith, ==_iff,
  Bool-cases, not, throw_if, throw_if-ok, or_throw-ok,
}
use tauri_boilerplate.Groups.Tables.{find}
use tauri_boilerplate.Identity.Devices.{
  DeviceIdentity, find_by_device_id, DeviceStatus, unregistered, pending_approval, approved, active,
  suspended, revoked,
}
use tauri_boilerplate.Identity.Sessions.{
  NativeView, NativeSession, unsupported, absent, present, Session, SessionError, session_changed,
  device_status_changed, session_expired, Reads, Drawn, check_view, session_of, establish,
  as_optional, authenticate, restore_native_session, is_barred, is_expired, is_replaced,
  finish_validation, validate_current_session, logout, UserRow, find_user, is_usable,
  is_bound_elsewhere,
}

-- What happens to the service. A validation started with some session, which need not be the current one any more.
pub data Event : Type 0 where
  signs_in : (user password : String) → Option NativeView → Reads → Drawn → Event
  restores : NativeSession → Reads → Drawn → Event
  validates : (started : Option Session) → List DeviceIdentity → (now : ℕ) → Event
  logs_out : (thrown : Bool) → Event

-- Three tests that throw before a result.
passed :
    {E A C : Type 0} (p q r : Bool) (x y z : E) (k s : A) (c₁ c₂ c₃ c₄ : C) (out : Result E A × C)
    → out ≡ (
        if p then (err x, c₁) else if q then (err y, c₂) else if r then (err z, c₃) else (ok k, c₄))
    → out.0 ≡ ok s
    → (p ≡ false) × (q ≡ false) × (k ≡ s)
passed true q r x y z k s c₁ c₂ c₃ c₄ out e h = absurd (err_ok (sym (ap (λ o. o.0) e) ∙ h))
passed false true r x y z k s c₁ c₂ c₃ c₄ out e h = absurd (err_ok (sym (ap (λ o. o.0) e) ∙ h))
passed false false true x y z k s c₁ c₂ c₃ c₄ out e h = absurd (err_ok (sym (ap (λ o. o.0) e) ∙ h))
passed false false false x y z k s c₁ c₂ c₃ c₄ out e h =
    (refl, refl, ok_injective (sym (ap (λ o. o.0) e) ∙ h))

-- A validation that succeeds.
finish_validation-ok :
    (b : Session) (device : Option DeviceIdentity) (now : ℕ) (c : Option Session) (s : Session)
    → (finish_validation b device now c).0 ≡ ok s
    → (is_replaced b c ≡ false) × (is_barred device ≡ false) × (b ≡ s)
unfolding finish_validation
finish_validation-ok b device now c s h =
    passed (is_replaced b c) (is_barred device) (is_expired now b.expires_at) session_changed
      device_status_changed session_expired b s c none none c (finish_validation b device now c)
      refl h

not_replaced :
    (b : Session) (c : Option Session)
    → is_replaced b c ≡ false
    → (d : Session) × (c ≡ some d) × (d.object ≡ b.object)
not_replaced b none h = cc
not_replaced b (some d) h = (d, refl, (==_iff d.object b.object).0 (ground arith))

-- The first row that satisfies the test stands in the table.
find-Mem :
    {Row : Type 0} (p : Row → Bool) (rows : List Row) (r : Row)
    → find p rows ≡ some r
    → Any (λ x. x ≡ r) rows × (p r ≡ true)
unfolding find
find-Mem p [] r h = absurd (none-some h)
find-Mem p (x ∷ rows) r h = elim (Bool-cases (p x)) [
  | inl hit ↦
      let e = some_injective (rw (hit, find) at h) in (here e, subst (λ y. p y ≡ true) e hit)
  | inr miss ↦ let (m, q) = find-Mem p rows r (rw (miss, find) at h) in (there m, q)
]

-- What the tables must say of a native view: an ACTIVE user of the view's organisation, and a device that is
-- APPROVED or ACTIVE and belongs to nobody else.
pub record IsAccepted (v : NativeView) (t : Reads) : Type 0 where
  pub user : UserRow
  pub known_user : Any (λ u. u ≡ user) t.users
  pub same_user : user.id ≡ v.user_id
  pub active_user : user.status ≡ "ACTIVE"
  pub same_organisation : user.organisation_id ≡ v.organisation_id
  pub device : DeviceIdentity
  pub known_device : Any (λ d. d ≡ device) t.devices
  pub same_device : device.device_id ≡ v.device_id
  pub own_device : (device.user_id ≡ none) ⊎ (device.user_id ≡ some v.user_id)
  pub usable_device : (device.status ≡ approved) ⊎ (device.status ≡ active)

usable-cases : (s : DeviceStatus) → is_usable s ≡ true → (s ≡ approved) ⊎ (s ≡ active)
usable-cases approved h = inl refl
usable-cases active h = inr refl
usable-cases unregistered h = cc
usable-cases pending_approval h = cc
usable-cases suspended h = cc
usable-cases revoked h = cc

bound-cases :
    (u : String) (o : Option String) → is_bound_elsewhere u o ≡ false → (o ≡ none) ⊎ (o ≡ some u)
bound-cases u none h = inl refl
bound-cases u (some v) h = inr (ap some ((==_iff v u).0 (ground arith)))

throw_if-last : {E : Type 0} (b : Bool) (e : E) → throw_if b e ≡ ok tt → b ≡ false
throw_if-last true e h = cc
throw_if-last false e h = refl

check_view-IsAccepted : (v : NativeView) (t : Reads) → check_view v t ≡ ok tt → IsAccepted v t
unfolding check_view find_user find_by_device_id
check_view-IsAccepted v t h =
    let (u, found, h₁) = or_throw-ok (find_user v.user_id t.users) _ _ h in
    let (living, h₂) = throw_if-ok (not (u.status == "ACTIVE")) _ _ h₁ in
    let (ours, h₃) = throw_if-ok (not (u.organisation_id == v.organisation_id)) _ _ h₂ in
    let (d, known, h₄) = or_throw-ok (find_by_device_id v.device_id t.devices) _ _ h₃ in
    let (u_in, u_is) = find-Mem (λ (x : UserRow). x.id == v.user_id) t.users u found in
    let (d_in, d_is) =
      find-Mem (λ (x : DeviceIdentity). x.device_id == v.device_id) t.devices d known in
    let usable = throw_if-last _ _ h₄ in
    record {
      user = u;
      known_user = u_in;
      same_user = (==_iff u.id v.user_id).0 u_is;
      active_user = (==_iff u.status "ACTIVE").0 (ground arith);
      same_organisation = (==_iff u.organisation_id v.organisation_id).0 (ground arith);
      device = d;
      known_device = d_in;
      same_device = (==_iff d.device_id v.device_id).0 d_is;
      own_device = bound-cases v.user_id d.user_id (ground arith);
      usable_device = usable-cases d.status (ground arith);
    }

-- The device of a session is found, and neither revoked nor suspended.
pub record IsPresent (device_id : String) (ds : List DeviceIdentity) : Type 0 where
  pub device : DeviceIdentity
  pub known : Any (λ d. d ≡ device) ds
  pub same_device : device.device_id ≡ device_id
  pub not_revoked : ¬ (device.status ≡ revoked)
  pub not_suspended : ¬ (device.status ≡ suspended)

status-Present :
    (s : DeviceStatus)
    → elim s [ revoked ↦ true | suspended ↦ true | _ ↦ false ] ≡ false
    → (¬ (s ≡ revoked)) × (¬ (s ≡ suspended))
status-Present s h = ground arith

barred-IsPresent :
    (i : String) (ds : List DeviceIdentity) (o : Option DeviceIdentity)
    → find_by_device_id i ds ≡ o
    → is_barred o ≡ false
    → IsPresent i ds
unfolding find_by_device_id
barred-IsPresent i ds none e h = cc
barred-IsPresent i ds (some d) e h =
    let (d_in, d_is) = find-Mem (λ (x : DeviceIdentity). x.device_id == i) ds d e in
    let (a, b) = status-Present d.status h in
    record {
      device = d;
      known = d_in;
      same_device = (==_iff d.device_id i).0 d_is;
      not_revoked = a;
      not_suspended = b;
    }

module _ (rank : String → ℕ) where
  -- `currentSession` behind an event, and behind several.
  unfoldable pub step : Event → Option Session → Option Session
  unfolding authenticate restore_native_session validate_current_session logout
  step (signs_in user password view t n) c = (authenticate rank user password view t n c).1
  step (restores native t n) c = (restore_native_session rank native t n c).1
  step (validates started ds now) c = (validate_current_session started ds now c).1
  step (logs_out thrown) c = logout thrown c

  unfoldable pub run : List Event → Option Session → Option Session
  unfolding step
  run [] c = c
  run (e ∷ es) c = run es (step e c)

  -- The tables accept the native view, and the session is made of it.
  abbrev pub IsMadeOf : Session → NativeView → Reads → Drawn → Type 0
  IsMadeOf s v t n = IsAccepted v t × (s ≡ session_of rank v t n)

  abbrev pub Establishes : Session → Event → Type 0
  Establishes s (signs_in user password none t n) = ⊥
  Establishes s (signs_in user password (some v) t n) = IsMadeOf s v t n
  Establishes s (restores unsupported t n) = ⊥
  Establishes s (restores absent t n) = ⊥
  Establishes s (restores (present v) t n) = IsMadeOf s v t n
  Establishes s (validates started ds now) = ⊥
  Establishes s (logs_out thrown) = ⊥

  establish-IsMadeOf :
      (v : NativeView) (t : Reads) (n : Drawn) (s : Session)
      → (establish rank v t n).1 ≡ some s
      → IsMadeOf s v t n
  unfolding establish
  establish-IsMadeOf v t n s h = elim (Result-cases (check_view v t)) [
    | inl (u, e) ↦ (check_view-IsAccepted v t e, sym (some_injective (rw (e, establish) at h)))
    | inr (x, e) ↦ absurd (none-some (rw (e, establish) at h))
  ]

  as_optional-same : (p : Result SessionError Session × Option Session) → (as_optional p).1 ≡ p.1
  as_optional-same (ok s, c) = refl
  as_optional-same (err e, c) = refl

  validate-keeps :
      (started : Option Session) (ds : List DeviceIdentity) (now : ℕ) (c : Option Session)
      (s : Session)
      → (validate_current_session started ds now c).1 ≡ some s
      → c ≡ some s
  unfolding validate_current_session finish_validation
  validate-keeps none ds now c s h = h
  validate-keeps (some b) ds now c s h = ground arith

  signs_in-cases :
      (user password : String) (view : Option NativeView) (t : Reads) (n : Drawn)
      (c : Option Session) (s : Session) (blank : Bool)
      → (user == "" || password == "") ≡ blank
      → (authenticate rank user password view t n c).1 ≡ some s
      → (c ≡ some s) ⊎ Establishes s (signs_in user password view t n)
  unfolding authenticate
  signs_in-cases user password view t n c s true e h = inl (rw (e, authenticate) at h)
  signs_in-cases user password none t n c s false e h =
      absurd (none-some (rw (e, authenticate) at h))
  signs_in-cases user password (some v) t n c s false e h =
      inr (establish-IsMadeOf v t n s (rw (e, authenticate) at h))

  step-cases :
      (e : Event) (c : Option Session) (s : Session)
      → step e c ≡ some s
      → (c ≡ some s) ⊎ Establishes s e
  unfolding step restore_native_session logout
  step-cases (signs_in user password view t n) c s h =
      signs_in-cases user password view t n c s (user == "" || password == "") refl h
  step-cases (restores unsupported t n) c s h = inl h
  step-cases (restores absent t n) c s h = absurd (none-some h)
  step-cases (restores (present v) t n) c s h =
      inr (establish-IsMadeOf v t n s (sym (as_optional-same (establish rank v t n)) ∙ h))
  step-cases (validates started ds now) c s h = inl (validate-keeps started ds now c s h)
  step-cases (logs_out true) c s h = inl h
  step-cases (logs_out false) c s h = absurd (none-some h)

  run-cases :
      (es : List Event) (c : Option Session) (s : Session)
      → run es c ≡ some s
      → (c ≡ some s) ⊎ Any (Establishes s) es
  unfolding run
  run-cases [] c s h = inl h
  run-cases (e ∷ es) c s h = elim (run-cases es (step e c) s h) [
    | inr later ↦ inr (there later)
    | inl now ↦ elim (step-cases e c s now) [ inl before ↦ inl before | inr made ↦ inr (here made) ]
  ]

  -- Behind a moment with no session, and whatever signs in, is restored, validated or logged out since, and
  -- in whatever order their queries end: a session that a validation returns is the current one, was made by
  -- a sign-in or restoration since then, of a native view for which the tables then read held an ACTIVE user of
  -- the view's organisation and an APPROVED or ACTIVE device that belongs to that user or to nobody; and a row
  -- of its device was found that is neither revoked nor suspended. The session with which the validation started is the current one if both are
  -- the same object.
  pub validated-Establishes :
      (es : List Event) (started : Option Session) (ds : List DeviceIdentity) (now : ℕ)
      (s : Session)
      → ((b c : Session) → started ≡ some b → run es none ≡ some c → c.object ≡ b.object → c ≡ b)
      → (validate_current_session started ds now (run es none)).0 ≡ ok s
      → (run es none ≡ some s) × Any (Establishes s) es × IsPresent s.device_id ds
  unfolding validate_current_session
  validated-Establishes es none ds now s identity h = cc
  validated-Establishes es (some b) ds now s identity h =
      let (same, fine, it) =
        finish_validation-ok b (find_by_device_id b.device_id ds) now (run es none) s h in
      let (d, is, object) = not_replaced b (run es none) same in
      let current = is ∙ ap some (identity b d refl is object ∙ it) in
      (
        current,
        made current (run-cases es none s current),
        subst (λ (x : Session). IsPresent x.device_id ds) it
            (barred-IsPresent b.device_id ds (find_by_device_id b.device_id ds) refl fine),
      )
    where
      made :
          run es none ≡ some s
          → (Path (Option Session) none (some s)) ⊎ Any (Establishes s) es
          → Any (Establishes s) es
      made current (inl no_session) = absurd (none-some no_session)
      made current (inr any_made) = any_made
