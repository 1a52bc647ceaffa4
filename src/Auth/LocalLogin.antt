-- ===== src/Auth/LocalLogin.antt =====
-- `local_login` of src/main.rs, branch by branch.
pub mod Password
use webshell.Base.{
  ℕ, Bool, true, false, not, Option, none, some, List, if◌then◌else◌, Text, codes, ◌=?◌, text_eq,
}
use webshell.Identity
use webshell.Identity.{Identity, Provider, to_string}
use webshell.Session.{Session, Env}
use webshell.Auth.{
  Config, AppState, Jar, Moment, Reply, forbidden, Answer, permits, local_usable, local_password,
  enter, attempt_failed, attempt_succeeded, current_session, login_error, trusted_device,
  forget_stale_device, sign_in, await_code,
}

-- `LocalLoginForm`
pub record LocalLoginForm : Type 0 where
  pub csrf : Text
  pub username : Text
  pub password : Text

-- `UNLISTED_BUCKET`
abbrev pub unlisted_bucket : Text
unlisted_bucket = codes "unlisted"

-- The identity that the form names.
abbrev pub named : LocalLoginForm → Identity
named form = Identity.new Provider.local form.username

module _ (session_key token_hash : Text → Text) (argon2 : Text → Text → Option Bool) where
  -- `localauth::verify` against the stored hash; `none` is an error
  unfoldable pub password_checked : Option Text → Text → Option Bool
  password_checked none password = none
  password_checked (some hash) password = argon2 hash password

  -- After the question whether the device is trusted.
  device_checked : Config → Moment → Jar → Identity → Text → AppState × Option Text → Answer
  device_checked config m jar who id (app, some device) =
      sign_in session_key token_hash m.late m id (to_string who) jar
        (attempt_succeeded m.late.instant (to_string who) app)
  device_checked config m jar who id (app, none) =
      let (app, jar) = forget_stale_device session_key token_hash config m jar who app in
      await_code session_key token_hash m.late m id (to_string who) jar app

  -- After the password check.
  verified : Config → Moment → Jar → Identity → Text → Option Bool → AppState → Answer
  unfolding device_checked
  verified config m jar who id (some true) app =
      if not config.mfa_required
      then sign_in session_key token_hash m.late m id (to_string who) jar
          (attempt_succeeded m.late.instant (to_string who) app)
      else device_checked config m jar who id
          (trusted_device session_key token_hash config m jar who app)
  verified config m jar who id (some false) app =
      login_error session_key token_hash m.late jar
        (attempt_failed m.late.instant (to_string who) app)
  verified config m jar who id none app = login_error session_key token_hash m.late jar app

  -- With a session.
  found : Config → Moment → Jar → LocalLoginForm → AppState × Option (Text × Session) → Answer
  unfolding verified
  found config m jar form (app, none) = login_error session_key token_hash m.arrival jar app
  found config m jar form (app, some (id, session)) =
      let who = named form in
      if not (session.csrf =? form.csrf)
      then (app, jar, forbidden)
      else if not (local_usable config)
      then (app, jar, forbidden)
      else if not (permits config who)
      then login_error session_key token_hash m.late jar (
          attempt_failed m.late.instant unlisted_bucket
            (enter m.arrival.instant unlisted_bucket app))
      else verified config m jar who id (password_checked (local_password config who) form.password)
          (enter m.arrival.instant (to_string who) app)

  -- `local_login`
  unfoldable pub local_login : Config → Moment → Jar → LocalLoginForm → AppState → Answer
  unfolding found
  local_login config m jar form app =
      found config m jar form (current_session session_key token_hash m.arrival jar.session app)
