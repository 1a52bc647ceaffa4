-- ===== src/Auth/MfaSubmit.antt =====
-- `mfa_submit` and `mfa_locked_out` of src/main.rs, branch by branch.
pub mod Outcomes
pub mod Code
use webshell.Base.{
  ℕ, ◌/◌, ◌++◌, Bool, true, false, not, ◌&&◌, Option, none, some, List, [], ◌∷◌, if◌then◌else◌,
  Text, codes, ◌=?◌, text_eq,
}
use webshell.HashMap
use webshell.Identity
use webshell.Identity.{Identity, Parsed, to_string, from_str}
use webshell.Session
use webshell.Session.{Session, Env}
use webshell.LoginGuard
use webshell.LoginGuard.{mfa_locked}
use webshell.Enrollment
use webshell.Enrollment.{Outcome}
use webshell.Devices
use webshell.Totp
use webshell.Totp.{ReplayGuard, valid_seed, accept_at}
use webshell.Auth.{
  Config, AppState, Jar, Moment, Reply, forbidden, server_error, to_login, mfa_page, Answer, enter,
  attempt_failed, attempt_succeeded, current_enrolled_at, current_session, login_error, sign_in,
}

-- `MfaForm`
pub record MfaForm : Type 0 where
  pub csrf : Text
  pub otp : Text
  pub seed : Option Text
  pub remember : Bool

-- The bucket of an identity's codes.
abbrev pub code_bucket : Identity → Text
code_bucket who = codes "mfa:" ++ to_string who

record_of : Option Enrollment.Record → Enrollment.Record
record_of none = Enrollment.default
record_of (some r) = r

-- `state.enrollment.get(&identity).unwrap_or_default()`
unfoldable pub enrollment_of : Identity → AppState → Enrollment.Record
unfolding record_of
enrollment_of who app = record_of (Enrollment.get who app.enrollment)

abbrev seed_of : Option Text → Text
seed_of none = []
seed_of (some seed) = seed

-- The enrolled secret, or the form's candidate.
abbrev pub secret_of : Enrollment.Record → MfaForm → Text
secret_of r form = elim r.mfa_secret [ none ↦ seed_of form.seed | some secret ↦ secret ]

guard_of : Option ReplayGuard → ReplayGuard
guard_of none = []
guard_of (some g) = g

-- `replay_guard`
unfoldable pub replay_guard : Text → AppState → ReplayGuard
unfolding guard_of
replay_guard user app = guard_of (HashMap.get user app.otp_used)

-- `replay_guard(..).accept(..)`
unfoldable pub accept : ℕ → Text → Text → AppState → AppState × Bool
accept now user otp app =
    let (used, fresh) = accept_at otp now (replay_guard user app) in
    (record app { otp_used = HashMap.insert user used app.otp_used }, fresh)

module _ (session_key token_hash : Text → Text) (hmac : Text → Text → Text) where
  -- `mfa_locked_out`
  unfoldable pub mfa_locked_out : Moment → Jar → Text → AppState → Answer
  mfa_locked_out m jar id app =
      let removed = Session.remove session_key m.late id app.sessions in
      let (sessions, new_id) = Session.create session_key m.late m.fresh removed in
      login_error session_key token_hash m.late (record jar { session = some new_id })
        (record app { sessions = sessions })

  locked_or : Moment → Jar → Text → Option ℕ → AppState → Answer
  locked_or m jar id none app = (app, jar, mfa_page)
  locked_or m jar id (some lock) app = mfa_locked_out m jar id app

  -- A code that was not accepted.
  pub rejected : Moment → Jar → Text → Session → Identity → Bool → AppState → Answer
  unfolding locked_or
  rejected m jar id session who verified app =
      let failed = attempt_failed m.late.instant (code_bucket who) app in
      let (guard, lock) =
        LoginGuard.mfa_failed m.late.instant session.username failed.login_guard in
      if verified
      then (failed, jar, mfa_page)
      else locked_or m jar id lock (record failed { login_guard = guard })

  trust_minted : Jar → AppState → Devices.DeviceStore × Outcome (Text × Text) → AppState × Jar
  trust_minted jar app (devices, Outcome.ok (token, id)) =
      (record app { devices = devices }, record jar { device = some token })
  trust_minted jar app (devices, Outcome.failed) = (record app { devices = devices }, jar)

  trust_since : Config → Moment → Jar → Identity → Option ℕ → AppState → AppState × Jar
  unfolding trust_minted
  trust_since config m jar who none app = (app, jar)
  trust_since config m jar who (some since) app = trust_minted jar app (
      Devices.mint token_hash m.devices_written m.device_token m.device_id who since
        config.remember_device_window config.max_devices_per_identity m.client m.late.unix
        app.devices)

  -- The device is remembered, if the form asked for it and nothing was enrolled.
  remembered : Config → Moment → MfaForm → Identity → Bool → Answer → Answer
  unfolding trust_since
  remembered config m form who enrolling (app, jar, reply) =
      if config.remember_device && form.remember && not enrolling
      then (let (app, jar) = trust_since config m jar who (current_enrolled_at who app) app in
          (app, jar, reply))
      else (app, jar, reply)

  -- The login, after the code and the enrollment.
  pub completed :
      Config → Moment → Jar → MfaForm → Text → Session → Identity → Bool → AppState → Answer
  unfolding remembered
  completed config m jar form id session who enrolling app =
      let succeeded = attempt_succeeded m.late.instant (code_bucket who) app in
      let cleared : AppState = record succeeded {
        login_guard = LoginGuard.mfa_succeeded session.username succeeded.login_guard;
      } in
      remembered config m form who enrolling
        (sign_in session_key token_hash m.late m id session.username jar cleared)

  -- The first code of a new secret.
  enrolled : Config → Moment → Jar → MfaForm → Text → Session → Identity → Text → AppState → Answer
  unfolding completed
  enrolled config m jar form id session who secret app =
      let enrollment =
        (Enrollment.enroll m.enrollment_written who secret m.late.unix app.enrollment).0 in
      let stored : AppState = record app { enrollment = enrollment } in
      if not m.enrollment_written
      then (stored, jar, server_error)
      else completed config m jar form id session who true
          (record stored { devices = (Devices.revoke_all m.devices_written who stored.devices).0 })

  -- A code that was accepted.
  accepted : Config → Moment → Jar → MfaForm → Text → Session → Identity → AppState → Answer
  unfolding completed enrolled
  accepted config m jar form id session who app =
      let r = enrollment_of who app in
      if not (Enrollment.enrolled r)
      then enrolled config m jar form id session who (secret_of r form) app
      else completed config m jar form id session who false app

  -- `totp::valid_seed(&secret) && totp::verify(&secret, &form.otp)`
  abbrev pub code_verified : ℕ → Text → Text → Bool
  code_verified now secret otp = valid_seed secret && Totp.verify hmac (now / 30) secret otp

  judged : Config → Moment → Jar → MfaForm → Text → Session → Identity → AppState × Bool → Answer
  unfolding accepted rejected
  judged config m jar form id session who (app, true) =
      accepted config m jar form id session who app
  judged config m jar form id session who (app, false) = rejected m jar id session who true app

  -- Not locked out: the code is checked.
  checked : Config → Moment → Jar → MfaForm → Text → Session → Identity → AppState → Answer
  unfolding judged rejected
  checked config m jar form id session who app =
      if code_verified m.late.unix (secret_of (enrollment_of who app) form) form.otp
      then judged config m jar form id session who
          (accept m.late.unix session.username form.otp app)
      else rejected m jar id session who false app

  unlocked :
      Config → Moment → Jar → MfaForm → Text → Session → Identity → Option ℕ → AppState → Answer
  unfolding checked
  unlocked config m jar form id session who (some left) app = mfa_locked_out m jar id app
  unlocked config m jar form id session who none app = checked config m jar form id session who app

  named : Config → Moment → Jar → MfaForm → Text → Session → Parsed → AppState → Answer
  unfolding unlocked
  named config m jar form id session (Parsed.err e) app = (app, jar, server_error)
  named config m jar form id session (Parsed.ok who) app =
      let entered = enter m.arrival.instant (code_bucket who) app in
      unlocked config m jar form id session who
        (mfa_locked m.late.instant session.username entered.login_guard) entered

  pending : Config → Moment → Jar → MfaForm → AppState × Option (Text × Session) → Answer
  unfolding named
  pending config m jar form (app, none) = (app, jar, to_login)
  pending config m jar form (app, some (id, session)) =
      if not session.mfa_pending
      then (app, jar, to_login)
      else if not (session.csrf =? form.csrf)
      then (app, jar, forbidden)
      else named config m jar form id session (from_str session.username) app

  -- `mfa_submit`
  unfoldable pub mfa_submit : Config → Moment → Jar → MfaForm → AppState → Answer
  unfolding pending
  mfa_submit config m jar form app =
      pending config m jar form (current_session session_key token_hash m.arrival jar.session app)
