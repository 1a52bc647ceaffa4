-- ===== src/Auth/MfaSubmit/Outcomes.antt =====
-- What the branches of `mfa_submit` do to the sessions.
use webshell.Base.{
  ℕ, ◌≡◌, ◌⊎◌, refl, ◌∙◌, Bool, true, false, Option, none, some, [], ◌∷◌, Text, text_eq, inl, inr,
  arith,
}
use webshell.HashMap
use webshell.Identity.{Identity}
use webshell.Session
use webshell.Session.{Session, SessionStore, Env}
use webshell.Session.Steps.{removes, creates, step, run, IsDistinct, step-IsDistinct}
use webshell.Session.Login.{Was, run-LoggedIn}
use webshell.LoginGuard
use webshell.LoginGuard.{mfa_locked}
use webshell.Enrollment.{Outcome}
use webshell.Devices
use webshell.Auth.{
  Config, AppState, Jar, Moment, Answer, attempt_failed, attempt_succeeded, sign_in,
  current_enrolled_at,
}
use webshell.Auth.Sessions.{OnlyOld, sessions-conclude, login_cases, current-OnlyOld}
use webshell.Auth.MfaSubmit.{
  MfaForm, code_bucket, mfa_locked_out, locked_or, rejected, trust_minted, trust_since, remembered,
  completed,
}

module _ (session_key token_hash : Text → Text) (hmac : Text → Text → Text) where
  pub locked_out-OnlyOld :
      (m : Moment) (jar : Jar) (id : Text) (app : AppState)
      → IsDistinct app.sessions
      → OnlyOld app.sessions (mfa_locked_out session_key token_hash hmac m jar id app).0.sessions
  unfolding mfa_locked_out
  locked_out-OnlyOld m jar id app d k s e a =
      let removed = Session.remove session_key m.late id app.sessions in
      let (created, new_id) = Session.create session_key m.late m.fresh removed in
      let d1 : IsDistinct removed =
        unfold step in step-IsDistinct session_key app.sessions (removes m.late id) d in
      let d2 : IsDistinct created =
        unfold step in step-IsDistinct session_key removed (creates m.late m.fresh) d1 in
      let (t, f, b, u) =
        current-OnlyOld session_key token_hash m.late (some new_id)
          (record app { sessions = created }) d2 k s e a in
      elim (run-LoggedIn session_key app.sessions (removes m.late id ∷ creates m.late m.fresh ∷ [])
        k t d (unfold run step in f) b) [
          | inl none_made ↦ absurd none_made
          | inr (t', f', b', u') ↦ (t', f', b', u' ∙ u)
        ]

  locked_or-OnlyOld :
      (m : Moment) (jar : Jar) (id : Text) (lock : Option ℕ) (app : AppState)
      → IsDistinct app.sessions
      → OnlyOld app.sessions (locked_or session_key token_hash hmac m jar id lock app).0.sessions
  unfolding locked_or
  locked_or-OnlyOld m jar id none app d k s e a = (s, e, a, refl)
  locked_or-OnlyOld m jar id (some lock) app d k s e a = locked_out-OnlyOld m jar id app d k s e a

  pub rejected-OnlyOld :
      (m : Moment) (jar : Jar) (id : Text) (session : Session) (who : Identity) (verified : Bool)
      (app : AppState)
      → IsDistinct app.sessions
      → OnlyOld app.sessions
          (rejected session_key token_hash hmac m jar id session who verified app).0.sessions
  unfolding rejected
  rejected-OnlyOld m jar id session who true app d k s e a = (
    s,
    rw (sessions-conclude (LoginGuard.failed m.late.instant) m.late.instant (code_bucket who) app)
        at e,
    a,
    refl,
  )
  rejected-OnlyOld m jar id session who false app d k s e a =
      let now = m.late.instant in
      let failed = attempt_failed now (code_bucket who) app in
      let same = sessions-conclude (LoginGuard.failed now) now (code_bucket who) app in
      let (guard, lock) = LoginGuard.mfa_failed now session.username failed.login_guard in
      let old =
        locked_or-OnlyOld m jar id lock (record failed { login_guard = guard }) (rw same d) k s e
          a in
      rw same at old

  sessions-trust_since :
      (config : Config) (m : Moment) (jar : Jar) (who : Identity) (since : Option ℕ)
      (app : AppState)
      → (trust_since session_key token_hash hmac config m jar who since app).0.sessions
        ≡ app.sessions
  unfolding trust_since trust_minted
  sessions-trust_since config m jar who none app = refl
  sessions-trust_since config m jar who (some since) app = minted (
      Devices.mint token_hash m.devices_written m.device_token m.device_id who since
        config.remember_device_window config.max_devices_per_identity m.client m.late.unix
        app.devices)
    where
      minted :
          (r : Devices.DeviceStore × Outcome (Text × Text))
          → (trust_minted session_key token_hash hmac jar app r).0.sessions ≡ app.sessions
      minted (devices, Outcome.ok (token, id)) = refl
      minted (devices, Outcome.failed) = refl

  sessions-remembered :
      (config : Config) (m : Moment) (form : MfaForm) (who : Identity) (enrolling : Bool)
      (r : Answer)
      → (remembered session_key token_hash hmac config m form who enrolling r).0.sessions
        ≡ r.0.sessions
  unfolding remembered
  sessions-remembered config m form who enrolling (app, jar, reply) =
      ground (arith, sessions-trust_since config m jar who (current_enrolled_at who app) app)

  pub completed_cases :
      (config : Config) (m : Moment) (jar : Jar) (form : MfaForm) (id : Text) (session : Session)
      (who : Identity)
      → (enrolling : Bool) (app : AppState) (k : Text) (s : Session) → IsDistinct app.sessions
      → HashMap.get k
          (completed session_key token_hash hmac config m jar form id session who enrolling
            app).0.sessions.inner
        ≡ some s
      → s.authenticated ≡ true
      → (s.username ≡ session.username) ⊎ Was app.sessions k s
  unfolding completed
  completed_cases config m jar form id session who enrolling app k s d e a =
      let now = m.late.instant in
      let succeeded = attempt_succeeded now (code_bucket who) app in
      let cleared : AppState = record succeeded {
        login_guard = LoginGuard.mfa_succeeded session.username succeeded.login_guard;
      } in
      let same = sessions-conclude (LoginGuard.succeeded now) now (code_bucket who) app in
      let signed = sign_in session_key token_hash m.late m id session.username jar cleared in
      let left = sessions-remembered config m form who enrolling signed in
      elim (login_cases session_key token_hash m.late m.fresh id session.username succeeded.sessions
        k s (rw same d) (rw left at e) a) [ inl user ↦ inl user | inr old ↦ inr (rw same at old) ]
