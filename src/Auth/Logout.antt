-- ===== src/Auth/Logout.antt =====
-- `logout` and `mfa_cancel` of src/main.rs.
pub mod Ends
use webshell.Base.{
  Bool, true, false, not, Option, none, some, if◌then◌else◌, is_some, Text, ◌=?◌, text_eq,
}
use webshell.Devices
use webshell.Session
use webshell.Session.{Session, Env}
use webshell.Auth.{AppState, Jar, Moment, Reply, forbidden, to_login, Answer, current_session}

-- `LogoutForm`
pub record LogoutForm : Type 0 where
  pub csrf : Text
  pub forget : Option Text

-- `CsrfForm`
pub record CsrfForm : Type 0 where
  pub csrf : Text

-- The session cookie is removed.
abbrev pub without_session : Jar → Jar
without_session jar = record jar { session = none }

module _ (session_key token_hash : Text → Text) where
  abbrev pub drop_session : Env → Text → AppState → AppState
  drop_session env id app = record app { sessions = Session.remove session_key env id app.sessions }

  forget_token : Moment → Option Text → AppState → AppState
  forget_token m none app = app
  forget_token m (some token) app = record app {
    devices = (Devices.revoke_token token_hash m.devices_written token app.devices).0;
  }

  -- The end of `logout`.
  leave : Moment → Jar → Bool → AppState → Answer
  unfolding forget_token
  leave m jar forget app =
      if forget
      then (forget_token m jar.device app, record jar { session = none; device = none }, to_login)
      else (app, without_session jar, to_login)

  logout_found : Moment → Jar → LogoutForm → AppState × Option (Text × Session) → Answer
  unfolding leave
  logout_found m jar form (app, none) = leave m jar false app
  logout_found m jar form (app, some (id, session)) =
      if not (session.csrf =? form.csrf)
      then (app, jar, forbidden)
      else leave m jar (is_some form.forget) (drop_session m.arrival id app)

  -- `logout`
  unfoldable pub logout : Moment → Jar → LogoutForm → AppState → Answer
  unfolding logout_found
  logout m jar form app =
      logout_found m jar form (current_session session_key token_hash m.arrival jar.session app)

  cancel_pending : Moment → Jar → CsrfForm → Text → Session → AppState → Answer
  cancel_pending m jar form id session app =
      if not (session.csrf =? form.csrf)
      then (app, jar, forbidden)
      else (drop_session m.arrival id app, without_session jar, to_login)

  cancel_found : Moment → Jar → CsrfForm → AppState × Option (Text × Session) → Answer
  unfolding cancel_pending
  cancel_found m jar form (app, none) = (app, without_session jar, to_login)
  cancel_found m jar form (app, some (id, session)) =
      if session.mfa_pending
      then cancel_pending m jar form id session app
      else (app, without_session jar, to_login)

  -- `mfa_cancel`
  unfoldable pub mfa_cancel : Moment → Jar → CsrfForm → AppState → Answer
  unfolding cancel_found
  mfa_cancel m jar form app =
      cancel_found m jar form (current_session session_key token_hash m.arrival jar.session app)
