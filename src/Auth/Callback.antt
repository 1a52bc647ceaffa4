-- ===== src/Auth/Callback.antt =====
-- `oauth_callback` of src/main.rs, branch by branch. The exchange with the token endpoint is a
-- parameter: the claims that it answers with for a code, if any.
pub mod Google
pub mod Vouching
use webshell.Base.{
  ℕ, Bool, true, false, not, ◌&&◌, Option, none, some, List, ◌++◌, if◌then◌else◌, is_some, Text,
  codes, ◌=?◌, text_eq, any_of, ◌>>=◌,
}
use webshell.Enrollment
use webshell.Enrollment.{EnrollmentStore}
use webshell.Identity.{Identity, Provider, provider_eq, to_string}
use webshell.Oidc
use webshell.Oidc.{Flow, Claims, Verified, accept}
use webshell.Session
use webshell.Session.{Session, Env}
use webshell.Auth.{
  Config, AppState, Jar, Moment, Reply, forbidden, server_error, Answer, permits, current_session,
  login_error, trusted_device, forget_stale_device, sign_in, await_code,
}

-- The part of `Config` that is about Google.
pub record GoogleConfig : Type 0 where
  pub google_client_id : Option Text
  pub google_client_secret : Option Text
  pub public_base_url : Option Text

-- `CallbackQuery`
pub record CallbackQuery : Type 0 where
  pub code : Option Text
  pub state : Option Text
  pub error : Option Text

-- `Config::redirect_uri`
unfoldable pub redirect_uri : GoogleConfig → Option Text
redirect_uri g = g.public_base_url >>= λ base. some (base ++ codes "/webshell/oauth/callback")

-- `Config::google_usable`
unfoldable pub google_usable : Config → GoogleConfig → Bool
google_usable config g =
    any_of (λ p. p =? Provider.google) config.login_methods
    && is_some g.google_client_id
    && is_some g.google_client_secret
    && is_some (redirect_uri g)

module _ (session_key token_hash : Text → Text)
    (endpoint : Text → Text → Text → Text → Flow → Option Claims) where
  -- After the question whether the device is trusted.
  device_checked : Config → Moment → Jar → Identity → Text → AppState × Option Text → Answer
  device_checked config m jar who id (app, some device) =
      sign_in session_key token_hash m.late m id (to_string who) jar app
  device_checked config m jar who id (app, none) =
      let (app, jar) = forget_stale_device session_key token_hash config m jar who app in
      await_code session_key token_hash m.late m id (to_string who) jar app

  -- With the subject pinned.
  vouched : Config → Moment → Jar → Identity → Text → AppState → Answer
  unfolding device_checked
  vouched config m jar who id app =
      if not config.mfa_required
      then sign_in session_key token_hash m.late m id (to_string who) jar app
      else device_checked config m jar who id
          (trusted_device session_key token_hash config m jar who app)

  pinned : Config → Moment → Jar → Identity → Text → Enrollment.Outcome Bool → AppState → Answer
  unfolding vouched
  pinned config m jar who id (Enrollment.Outcome.ok true) app = vouched config m jar who id app
  pinned config m jar who id (Enrollment.Outcome.ok false) app =
      login_error session_key token_hash m.late jar app
  pinned config m jar who id Enrollment.Outcome.failed app =
      login_error session_key token_hash m.late jar app

  -- With an identity that Google has verified.
  pub verified : Config → Moment → Jar → Text → Verified → AppState → Answer
  unfolding pinned
  verified config m jar id v app =
      let (enrollment, outcome) =
        Enrollment.pin_subject m.enrollment_written v.identity v.sub app.enrollment in
      if not (permits config v.identity)
      then login_error session_key token_hash m.late jar app
      else pinned config m jar v.identity id outcome (record app { enrollment = enrollment })

  -- `exchange`, from the claims on.
  pub exchanged : Option Claims → Text → Flow → ℕ → Option Verified
  exchanged none client_id flow now = none
  exchanged (some claims) client_id flow now = elim (accept claims client_id flow now) [
    | Oidc.Result.ok v ↦ some v
    | Oidc.Result.err e ↦ none
  ]

  after_exchange : Config → Moment → Jar → Text → Option Verified → AppState → Answer
  unfolding verified
  after_exchange config m jar id none app = login_error session_key token_hash m.late jar app
  after_exchange config m jar id (some v) app = verified config m jar id v app

  -- With what Google is asked for.
  configured :
      Config
      → Moment
      → Jar
      → Text
      → Text
      → Flow
      → Option Text
      → Option Text
      → Option Text
      → AppState
      → Answer
  unfolding exchanged after_exchange
  configured config m jar id code flow (some client_id) (some client_secret) (some uri) app =
      after_exchange config m jar id
        (exchanged (endpoint client_id client_secret uri code flow) client_id flow m.late.unix) app
  configured config m jar id code flow _ _ _ app = (app, jar, server_error)

  -- With the session's flow and what the callback brings.
  returned :
      Config
      → GoogleConfig
      → Moment
      → Jar
      → Text
      → Option Flow
      → Option Text
      → Option Text
      → AppState
      → Answer
  unfolding configured
  returned config g m jar id (some flow) (some code) (some state) app =
      if not (flow.state =? state)
      then login_error session_key token_hash m.arrival jar app
      else configured config m jar id code flow g.google_client_id g.google_client_secret
          (redirect_uri g)
          (record app { sessions = Session.set_oauth session_key m.arrival id none app.sessions })
  returned config g m jar id _ _ _ app = login_error session_key token_hash m.arrival jar app

  not_declined :
      Config
      → GoogleConfig
      → Moment
      → Jar
      → CallbackQuery
      → Text
      → Session
      → Option Text
      → AppState
      → Answer
  unfolding returned
  not_declined config g m jar q id session (some error) app =
      login_error session_key token_hash m.arrival jar app
  not_declined config g m jar q id session none app =
      returned config g m jar id session.oauth q.code q.state app

  -- With a session.
  found :
      Config
      → GoogleConfig
      → Moment
      → Jar
      → CallbackQuery
      → AppState × Option (Text × Session)
      → Answer
  unfolding not_declined
  found config g m jar q (app, none) = login_error session_key token_hash m.arrival jar app
  found config g m jar q (app, some (id, session)) =
      not_declined config g m jar q id session q.error app

  -- `oauth_callback`
  unfoldable pub oauth_callback :
      Config → GoogleConfig → Moment → Jar → CallbackQuery → AppState → Answer
  unfolding found
  oauth_callback config g m jar q app =
      if not (google_usable config g)
      then (app, jar, forbidden)
      else found config g m jar q (current_session session_key token_hash m.arrival jar.session app)
