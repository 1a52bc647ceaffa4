-- ===== src/Auth/Logout/Ends.antt =====
-- What `logout` of src/main.rs ends.
use webshell.Base.{
  ◌≡◌, refl, Bool, true, false, Option, none, some, if◌then◌else◌, is_some, Text, ◌=?◌, text_eq,
  Bool-cases, inl, inr,
}
use webshell.HashMap
use webshell.Session.{Session}
use webshell.Session.Steps.{get-remove}
use webshell.Auth.{AppState, Jar, Moment, to_login, forbidden, current_session}
use webshell.Auth.Logout.{LogoutForm, drop_session, forget_token, leave, logout_found, logout}

module _ (session_key token_hash : Text → Text) where
  sessions-forget_token :
      (m : Moment) (t : Option Text) (app : AppState)
      → (forget_token session_key token_hash m t app).sessions ≡ app.sessions
  unfolding forget_token
  sessions-forget_token m none app = refl
  sessions-forget_token m (some t) app = refl

  -- Whether or not the device is forgotten, the sessions stay and the session cookie is gone.
  leave_lem :
      (m : Moment) (jar : Jar) (forget : Bool) (app : AppState)
      → let (app', jar', reply) = leave session_key token_hash m jar forget app in
        (app'.sessions ≡ app.sessions) × (jar'.session ≡ none) × (reply ≡ to_login)
  unfolding leave
  leave_lem m jar true app = (sessions-forget_token m jar.device app, refl, refl)
  leave_lem m jar false app = (refl, refl, refl)

  -- When the session cookie names a live session, `logout` answers with the login page exactly when
  -- the form carries that session's CSRF token; then nothing is left under its identifier and the
  -- browser loses the cookie, whether or not the device is forgotten. With another token nothing
  -- changes but what looking the session up swept.
  pub logout-ends :
      (m : Moment) (jar : Jar) (form : LogoutForm) (app app' : AppState) (id : Text) (s : Session)
      → current_session session_key token_hash m.arrival jar.session app ≡ (app', some (id, s))
      → let (app'', jar', reply) = logout session_key token_hash m jar form app in
        if s.csrf =? form.csrf
        then ((HashMap.get (session_key id) app''.sessions.inner ≡ none)
            × (jar'.session ≡ none)
            × (reply ≡ to_login))
        else ((app'' ≡ app') × (jar' ≡ jar) × (reply ≡ forbidden))
  unfolding logout logout_found
  logout-ends m jar form app app' id s e = rw e (elim (Bool-cases (s.csrf =? form.csrf)) [
    | inl c ↦
        let (kept, left, page) =
          leave_lem m jar (is_some form.forget)
            (drop_session session_key token_hash m.arrival id app') in
        rw c (rw kept (get-remove session_key m.arrival id app'.sessions), left, page)
    | inr c ↦ rw c (refl, refl, refl)
  ])
