-- ===== src/Auth/LocalLogin/Password.antt =====
-- What a local login needs.
use webshell.Base.{
  ◌≡◌, ◌⊎◌, refl, Bool, true, false, Option, none, some, Text, ◌=?◌, =?_iff, text_eq, inl, inr,
  Bool-cases,
}
use webshell.HashMap
use webshell.Identity.{Identity, to_string}
use webshell.Session.{Session, SessionStore, Env}
use webshell.Session.Steps.{IsDistinct}
use webshell.Session.Login.{Was}
use webshell.Auth.{
  Config, AppState, Jar, Moment, permits, local_usable, local_password, enter, attempt_failed,
  attempt_succeeded, current_session, trusted_device, forget_stale_device, sign_in,
}
use webshell.Auth.Sessions.{
  sessions-conclude, begin_mfa-OnlyOld, login_cases, current-IsDistinct, current-OnlyOld,
  Was-current, sessions-trusted_device, sessions-forget_stale_device,
}
use webshell.Auth.LocalLogin.{
  LocalLoginForm, named, unlisted_bucket, password_checked, device_checked, verified, found,
  local_login,
}
use webshell.LoginGuard

module _ (session_key token_hash : Text → Text) (argon2 : Text → Text → Option Bool) where
  -- The second factor is not asked for, or the browser's device is trusted in place of it.
  abbrev pub SecondFactor : Config → Moment → Jar → Identity → AppState → Type 0
  SecondFactor config m jar who app =
      (config.mfa_required ≡ false)
      ⊎ ((device : Text) × ((trusted_device session_key token_hash config m jar who app).1
            ≡ some device))

  -- The grounds on which a local login signs in the session `s`.
  pub record PasswordLogin (config : Config) (m : Moment) (jar : Jar) (form : LocalLoginForm)
      (app : AppState) (s : Session) : Type 0 where
    pub id : Text
    pub session : Session
    pub opened :
        (current_session session_key token_hash m.arrival jar.session app).1 ≡ some (id, session)
    pub csrf : session.csrf ≡ form.csrf
    pub usable : local_usable config ≡ true
    pub listed : permits config (named form) ≡ true
    pub password :
        password_checked session_key token_hash argon2
          (local_password config (named form))
          form.password
        ≡ some true
    pub user : s.username ≡ to_string (named form)
    pub second : SecondFactor config m jar (named form) (
        enter m.arrival.instant
          (to_string (named form))
          (current_session session_key token_hash m.arrival jar.session app).0)

  sign_in_cases :
      (env : Env) (m : Moment) (id user : Text) (jar : Jar) (app : AppState) (k : Text)
      (s : Session)
      → IsDistinct app.sessions
      → HashMap.get k (sign_in session_key token_hash env m id user jar app).0.sessions.inner
        ≡ some s
      → s.authenticated ≡ true
      → (s.username ≡ user) ⊎ Was app.sessions k s
  sign_in_cases env m id user jar app k s d e a =
      login_cases session_key token_hash env m.fresh id user app.sessions k s d e a

  device_checked_cases :
      (config : Config) (m : Moment) (jar : Jar) (who : Identity) (id : Text) (app : AppState)
      (o : Option Text)
      → (k : Text) (s : Session) → IsDistinct app.sessions
      → HashMap.get k
          (device_checked session_key token_hash argon2 config m jar who id
            (app, o)).0.sessions.inner
        ≡ some s
      → s.authenticated ≡ true
      → ((s.username ≡ to_string who) × ((device : Text) × (o ≡ some device)))
        ⊎ Was app.sessions k s
  unfolding device_checked
  device_checked_cases config m jar who id app (some device) k s d e a =
      let bucket = LoginGuard.succeeded m.late.instant in
      let same = sessions-conclude bucket m.late.instant (to_string who) app in
      elim (sign_in_cases m.late m id (to_string who) jar
        (attempt_succeeded m.late.instant (to_string who) app) k s (rw same d) e a) [
          | inl user ↦ inl (user, (device, refl))
          | inr old ↦ inr (rw same at old)
        ]
  device_checked_cases config m jar who id app none k s d e a =
      let same = sessions-forget_stale_device session_key token_hash config m jar who app in
      let forgotten = forget_stale_device session_key token_hash config m jar who app in
      inr (
        subst_Was k s same (
          begin_mfa-OnlyOld session_key token_hash m.late m.fresh id (to_string who)
            forgotten.0.sessions (rw same d) k s e a))
    where
      subst_Was :
          (k : Text) (s : Session) {st st' : SessionStore} → st ≡ st' → Was st k s → Was st' k s
      subst_Was k s p w = rw p at w

  verified_cases :
      (config : Config) (m : Moment) (jar : Jar) (who : Identity) (id : Text) (r : Option Bool)
      (app : AppState)
      → (k : Text) (s : Session) → IsDistinct app.sessions
      → HashMap.get k
          (verified session_key token_hash argon2 config m jar who id r app).0.sessions.inner
        ≡ some s
      → s.authenticated ≡ true
      → ((s.username ≡ to_string who) × (r ≡ some true) × SecondFactor config m jar who app)
        ⊎ Was app.sessions k s
  unfolding verified trusted_device forget_stale_device
  verified_cases config m jar who id (some true) app k s d e a =
      elim (Bool-cases config.mfa_required) [
        | inr unasked ↦
            let now = m.late.instant in
            let same = sessions-conclude (LoginGuard.succeeded now) now (to_string who) app in
            elim (sign_in_cases m.late m id (to_string who) jar
              (attempt_succeeded now (to_string who) app) k s (rw same d) (rw unasked at e) a) [
                | inl user ↦ inl (user, refl, inl unasked)
                | inr old ↦ inr (rw same at old)
              ]
        | inl asked ↦
            let (app', o) = trusted_device session_key token_hash config m jar who app in
            let same = sessions-trusted_device session_key token_hash config m jar who app in
            elim (device_checked_cases config m jar who id app' o k s (rw same d) (rw asked at e)
              a) [
                | inl (user, device) ↦ inl (user, refl, inr device)
                | inr old ↦ inr (rw same at old)
              ]
      ]
  verified_cases config m jar who id (some false) app k s d e a =
      let now = m.late.instant in
      let same = sessions-conclude (LoginGuard.failed now) now (to_string who) app in
      let old =
        current-OnlyOld session_key token_hash m.late jar.session
          (attempt_failed now (to_string who) app) (rw same d) k s e a in
      inr (rw same at old)
  verified_cases config m jar who id none app k s d e a =
      inr (current-OnlyOld session_key token_hash m.late jar.session app d k s e a)

  -- What the branches after `current_session` need, given what it found.
  record Passed (config : Config) (m : Moment) (jar : Jar) (form : LocalLoginForm) (app : AppState)
      (o : Option (Text × Session)) (s : Session) : Type 0 where
    id : Text
    session : Session
    opened : o ≡ some (id, session)
    csrf : session.csrf ≡ form.csrf
    usable : local_usable config ≡ true
    listed : permits config (named form) ≡ true
    password :
        password_checked session_key token_hash argon2
          (local_password config (named form))
          form.password
        ≡ some true
    user : s.username ≡ to_string (named form)
    second :
        SecondFactor config m jar
          (named form)
          (enter m.arrival.instant (to_string (named form)) app)

  found_cases :
      (config : Config) (m : Moment) (jar : Jar) (form : LocalLoginForm) (app : AppState)
      (o : Option (Text × Session))
      → (k : Text) (s : Session) → IsDistinct app.sessions
      → HashMap.get k
          (found session_key token_hash argon2 config m jar form (app, o)).0.sessions.inner
        ≡ some s
      → s.authenticated ≡ true
      → Passed config m jar form app o s ⊎ Was app.sessions k s
  unfolding found
  found_cases config m jar form app none k s d e a =
      inr (current-OnlyOld session_key token_hash m.arrival jar.session app d k s e a)
  found_cases config m jar form app (some (id, session)) k s d e a =
      elim (Bool-cases (session.csrf =? form.csrf)) [
        | inr forged ↦ inr (s, rw forged at e, a, refl)
        | inl csrf ↦ elim (Bool-cases (local_usable config)) [
          | inr disabled ↦ inr (s, rw (csrf, disabled) at e, a, refl)
          | inl usable ↦ elim (Bool-cases (permits config (named form))) [
            | inr unlisted ↦
                let now = m.late.instant in
                let entered = enter m.arrival.instant unlisted_bucket app in
                let same = sessions-conclude (LoginGuard.failed now) now unlisted_bucket entered in
                let old =
                  current-OnlyOld session_key token_hash m.late jar.session
                    (attempt_failed now unlisted_bucket entered) (rw same d) k s
                    (rw (csrf, usable, unlisted) at e) a in
                inr (rw same at old)
            | inl listed ↦
                let who = named form in
                elim (verified_cases config m jar who id
                  (password_checked session_key token_hash argon2 (local_password config who)
                    form.password)
                  (enter m.arrival.instant (to_string who) app) k s d
                  (rw (csrf, usable, listed) at e) a) [
                    | inl (user, password, second) ↦ inl (record {
                      id = id;
                      session = session;
                      opened = refl;
                      csrf = (=?_iff session.csrf form.csrf).0 csrf;
                      usable = usable;
                      listed = listed;
                      password = password;
                      user = user;
                      second = second;
                    })
                    | inr old ↦ inr old
                  ]
          ]
        ]
      ]

  -- A local login signs in nobody but the allowlisted local identity that its form names, and only with
  -- a session's CSRF token, that identity's password, and a trusted device where a second factor is
  -- required: any session that is authenticated afterwards was so before as the same user, or has all
  -- of these grounds.
  pub local_login-PasswordLogin :
      (config : Config) (m : Moment) (jar : Jar) (form : LocalLoginForm) (app : AppState) (k : Text)
      (s : Session)
      → IsDistinct app.sessions
      → HashMap.get k
          (local_login session_key token_hash argon2 config m jar form app).0.sessions.inner
        ≡ some s
      → s.authenticated ≡ true
      → PasswordLogin config m jar form app s ⊎ Was app.sessions k s
  unfolding local_login
  local_login-PasswordLogin config m jar form app k s d e a =
      let (app', o) = current_session session_key token_hash m.arrival jar.session app in
      elim (found_cases config m jar form app' o k s
        (current-IsDistinct session_key token_hash m.arrival jar.session app d) e a) [
          | inl p ↦ inl (record {
            id = p.id;
            session = p.session;
            opened = p.opened;
            csrf = p.csrf;
            usable = p.usable;
            listed = p.listed;
            password = p.password;
            user = p.user;
            second = p.second;
          })
          | inr old ↦ inr (Was-current session_key token_hash m.arrival jar.session app k s d old)
        ]
