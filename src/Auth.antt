-- ===== src/Auth.antt =====
-- The login handlers of src/main.rs over the stores they share: who is signed in after a request, and
-- on what grounds. Argon2, the hashes and HMAC are parameters. A request has a moment when it arrives
-- and one after its tarpit delay; random values come with it. Pages are told apart only by their kind.
pub mod LocalLogin
pub mod MfaSubmit
pub mod Callback
pub mod Logout
pub mod Sessions
mod Tests
use webshell.Base.{
  ℕ, ◌≡◌, Bool, true, false, not, ◌&&◌, Option, none, some, List, [], ◌∷◌, if◌then◌else◌, Text,
  ◌=?◌, text_eq, any_of,
}
use webshell.Base.Strings.{trim, to_lowercase}
use webshell.HashMap
use webshell.HashMap.{HashMap}
use webshell.Identity.{Identity, Provider, provider_eq, contains, to_string}
use webshell.Session
use webshell.Session.{Session, SessionStore, Env, Fresh}
use webshell.LoginGuard
use webshell.LoginGuard.{LoginGuard, Bucket}
use webshell.Enrollment
use webshell.Enrollment.{EnrollmentStore}
use webshell.Devices
use webshell.Devices.{DeviceStore, Client}
use webshell.Totp.{ReplayGuard}

-- The part of `Config` that logins read.
pub record Config : Type 0 where
  pub users : List Identity
  pub login_methods : List Provider
  pub local_passwords : HashMap Text Text
  pub mfa_required : Bool
  pub remember_device : Bool
  pub remember_device_window : ℕ
  pub max_devices_per_identity : ℕ

-- The part of `AppState` that logins change; `otp_used` has a replay guard for each user.
pub record AppState : Type 0 where
  pub sessions : SessionStore
  pub login_guard : LoginGuard
  pub enrollment : EnrollmentStore
  pub devices : DeviceStore
  pub otp_used : HashMap Text ReplayGuard

-- The two cookies of a browser, as far as their signatures hold.
pub record Jar : Type 0 where
  pub session : Option Text
  pub device : Option Text

-- What a request meets: the clocks at its arrival and after its delay, whether the enrollment and
-- device files can be written, what it draws, and the client it comes from.
pub record Moment : Type 0 where
  pub arrival : Env
  pub late : Env
  pub enrollment_written : Bool
  pub devices_written : Bool
  pub fresh : Fresh
  pub device_token : Text
  pub device_id : Text
  pub client : Client

pub data Reply : Type 0 where
  login_page mfa_page forbidden server_error to_login to_mfa to_private : Reply

abbrev pub Answer : Type 0
Answer = AppState × Jar × Reply

-- `Config::permits`
abbrev pub permits : Config → Identity → Bool
permits config who = contains config.users who

-- `Config::local_usable`
abbrev pub local_usable : Config → Bool
local_usable config =
    any_of (λ p. p =? Provider.local) config.login_methods
    && any_of (λ (u : Identity). u.provider =? Provider.local) config.users

-- `Config::local_password`
unfoldable pub find_password : Text → HashMap Text Text → Option Text
find_password wanted [] = none
find_password wanted ((k, v) ∷ m) =
    let rest = find_password wanted m in if to_lowercase (trim k) =? wanted then some v else rest

abbrev pub local_password : Config → Identity → Option Text
local_password config who = find_password (to_string who) config.local_passwords

bucket_of : ℕ → Option Bucket → Bucket
bucket_of now none = (0, now)
bucket_of now (some b) = b

-- `enter`, without its delay
abbrev pub enter : ℕ → Text → AppState → AppState
enter now name app = record app { login_guard = (LoginGuard.enter now name app.login_guard).0 }

-- `attempt.failed()` and `attempt.succeeded()`: the bucket that the attempt holds
unfoldable pub conclude : (Bucket → Bucket) → ℕ → Text → AppState → AppState
unfolding bucket_of
conclude change now name app =
    let b = bucket_of now (HashMap.get name app.login_guard.buckets) in
    record app {
      login_guard = record app.login_guard {
        buckets = HashMap.insert name (change b) app.login_guard.buckets;
      };
    }

abbrev pub attempt_failed : ℕ → Text → AppState → AppState
attempt_failed now name app = conclude (LoginGuard.failed now) now name app

abbrev pub attempt_succeeded : ℕ → Text → AppState → AppState
attempt_succeeded now name app = conclude (LoginGuard.succeeded now) now name app

enrolled_since : Option Enrollment.Record → Option ℕ
enrolled_since none = none
enrolled_since (some r) = if Enrollment.enrolled r then r.enrolled_at else none

-- `current_enrolled_at`
unfoldable pub current_enrolled_at : Identity → AppState → Option ℕ
unfolding enrolled_since
current_enrolled_at who app = enrolled_since (Enrollment.get who app.enrollment)

module _ (session_key token_hash : Text → Text) where
  get_session : Env → Text → AppState → AppState
  get_session env id app = record app { sessions = (Session.get session_key env id app.sessions).0 }

  session_of : Env → Text → AppState → Option (Text × Session)
  session_of env id app = elim (Session.get session_key env id app.sessions).1 [
    | none ↦ none
    | some s ↦ some (id, s)
  ]

  -- `current_session`
  unfoldable pub current_session : Env → Option Text → AppState → AppState × Option (Text × Session)
  unfolding get_session session_of
  current_session env none app = (app, none)
  current_session env (some id) app = (get_session env id app, session_of env id app)

  -- `login_error`: it looks the session up again for its CSRF token
  abbrev pub login_error : Env → Jar → AppState → Answer
  login_error env jar app = ((current_session env jar.session app).0, jar, login_page)

  authorize_device : Moment → Identity → Option Text → Option ℕ → AppState → AppState × Option Text
  authorize_device m who (some token) (some enrolled_at) app =
      let (devices, id) =
        Devices.authorize token_hash m.devices_written token who enrolled_at m.client m.late.unix
          app.devices in
      (record app { devices = devices }, id)
  authorize_device m who (some token) none app = (app, none)
  authorize_device m who none enrolled_at app = (app, none)

  -- `trusted_device`
  unfoldable pub trusted_device :
      Config → Moment → Jar → Identity → AppState → AppState × Option Text
  unfolding authorize_device
  trusted_device config m jar who app =
      if not config.remember_device
      then (app, none)
      else authorize_device m who jar.device (current_enrolled_at who app) app

  forget_device : Moment → Jar → Identity → Option Text → AppState → AppState × Jar
  forget_device m jar who none app = (app, jar)
  forget_device m jar who (some token) app = (
    record app {
      devices = (Devices.forget_if_owned token_hash m.devices_written token who app.devices).0;
    },
    record jar { device = none },
  )

  -- `forget_stale_device`
  unfoldable pub forget_stale_device : Config → Moment → Jar → Identity → AppState → AppState × Jar
  unfolding forget_device
  forget_stale_device config m jar who app =
      if not config.remember_device then (app, jar) else forget_device m jar who jar.device app

  -- The session is replaced by an authenticated one of the user.
  abbrev pub sign_in : Env → Moment → Text → Text → Jar → AppState → Answer
  sign_in env m id user jar app =
      let (sessions, new_id) = Session.login session_key env m.fresh id user app.sessions in
      (record app { sessions = sessions }, record jar { session = some new_id }, to_private)

  -- The session is replaced by one that waits for a code.
  abbrev pub await_code : Env → Moment → Text → Text → Jar → AppState → Answer
  await_code env m id user jar app =
      let (sessions, new_id) = Session.begin_mfa session_key env m.fresh id user app.sessions in
      (record app { sessions = sessions }, record jar { session = some new_id }, to_mfa)
