-- ===== src/Auth/Sessions.antt =====
-- What the parts of a login do to the sessions.
use webshell.Base.{
  ℕ, ◌≡◌, ◌⊎◌, refl, sym, ◌∙◌, true, Option, none, some, [], ◌∷◌, Text, text_eq, inl, inr, arith,
}
use webshell.HashMap
use webshell.Identity.{Identity}
use webshell.Oidc.{Flow}
use webshell.Session
use webshell.Session.{Session, SessionStore, Env, Fresh}
use webshell.Session.Steps.{
  gets, logs_in, begins_mfa, sets_oauth, step, run, IsDistinct, step-IsDistinct,
}
use webshell.Session.Login.{Was, run-LoggedIn}
use webshell.LoginGuard
use webshell.Auth.{
  Config, AppState, Jar, Moment, conclude, current_session, get_session, authorize_device,
  trusted_device, forget_device, forget_stale_device, current_enrolled_at,
}

-- Whoever is authenticated in `st'` was so in `st`, as the same user.
abbrev pub OnlyOld : SessionStore → SessionStore → Type 0
OnlyOld st st' =
    (k : Text) (s : Session)
    → HashMap.get k st'.inner ≡ some s
    → s.authenticated ≡ true
    → Was st k s

pub sessions-conclude :
    (change : LoginGuard.Bucket → LoginGuard.Bucket) (now : ℕ) (name : Text) (app : AppState)
    → (conclude change now name app).sessions ≡ app.sessions
unfolding conclude
sessions-conclude change now name app = refl

module _ (session_key token_hash : Text → Text) where
  pub get-OnlyOld :
      (env : Env) (id : Text) (st : SessionStore)
      → IsDistinct st
      → OnlyOld st (Session.get session_key env id st).0
  get-OnlyOld env id st d k s e a =
      elim (run-LoggedIn session_key st (gets env id ∷ []) k s d (unfold run step in e) a) [
        | inl none_made ↦ absurd none_made
        | inr old ↦ old
      ]

  pub begin_mfa-OnlyOld :
      (env : Env) (fresh : Fresh) (id user : Text) (st : SessionStore)
      → IsDistinct st
      → OnlyOld st (Session.begin_mfa session_key env fresh id user st).0
  begin_mfa-OnlyOld env fresh id user st d k s e a =
      elim (run-LoggedIn session_key st (begins_mfa env fresh id user ∷ []) k s d
        (unfold run step in e) a) [ inl none_made ↦ absurd none_made | inr old ↦ old ]

  pub set_oauth-IsDistinct :
      (env : Env) (id : Text) (flow : Option Flow) (st : SessionStore)
      → IsDistinct st
      → IsDistinct (Session.set_oauth session_key env id flow st)
  set_oauth-IsDistinct env id flow st d =
      unfold step in step-IsDistinct session_key st (sets_oauth env id flow) d

  pub set_oauth-OnlyOld :
      (env : Env) (id : Text) (flow : Option Flow) (st : SessionStore)
      → IsDistinct st
      → OnlyOld st (Session.set_oauth session_key env id flow st)
  set_oauth-OnlyOld env id flow st d k s e a =
      elim (run-LoggedIn session_key st (sets_oauth env id flow ∷ []) k s d (unfold run step in e)
        a) [ inl none_made ↦ absurd none_made | inr old ↦ old ]

  pub Was-trans :
      (st st' : SessionStore) (k : Text) (s : Session) → OnlyOld st st' → Was st' k s → Was st k s
  Was-trans st st' k s old (t, e, a, u) = let (t', e', a', u') = old k t e a in (t', e', a', u' ∙ u)

  pub login_cases :
      (env : Env) (fresh : Fresh) (id user : Text) (st : SessionStore) (k : Text) (s : Session)
      → IsDistinct st
      → HashMap.get k (Session.login session_key env fresh id user st).0.inner ≡ some s
      → s.authenticated ≡ true
      → (s.username ≡ user) ⊎ Was st k s
  login_cases env fresh id user st k s d e a =
      elim (run-LoggedIn session_key st (logs_in env fresh id user ∷ []) k s d
        (unfold run step in e) a) [
          | inl (inl (q, u)) ↦ inl (sym u)
          | inl (inr none_made) ↦ absurd none_made
          | inr old ↦ inr old
        ]

  pub current-IsDistinct :
      (env : Env) (cookie : Option Text) (app : AppState)
      → IsDistinct app.sessions
      → IsDistinct (current_session session_key token_hash env cookie app).0.sessions
  unfolding current_session get_session
  current-IsDistinct env none app d = d
  current-IsDistinct env (some id) app d =
      unfold step in step-IsDistinct session_key app.sessions (gets env id) d

  pub current-OnlyOld :
      (env : Env) (cookie : Option Text) (app : AppState)
      → IsDistinct app.sessions
      → OnlyOld app.sessions (current_session session_key token_hash env cookie app).0.sessions
  unfolding current_session get_session
  current-OnlyOld env none app d k s e a = (s, e, a, refl)
  current-OnlyOld env (some id) app d k s e a = get-OnlyOld env id app.sessions d k s e a

  pub Was-current :
      (env : Env) (cookie : Option Text) (app : AppState) (k : Text) (s : Session)
      → IsDistinct app.sessions
      → Was (current_session session_key token_hash env cookie app).0.sessions k s
      → Was app.sessions k s
  Was-current env cookie app k s d (t, e, a, u) =
      let (t', e', a', u') = current-OnlyOld env cookie app d k t e a in (t', e', a', u' ∙ u)

  sessions-authorize_device :
      (m : Moment) (who : Identity) (token : Option Text) (since : Option ℕ) (app : AppState)
      → (authorize_device session_key token_hash m who token since app).0.sessions ≡ app.sessions
  unfolding authorize_device
  sessions-authorize_device m who (some token) (some since) app = refl
  sessions-authorize_device m who (some token) none app = refl
  sessions-authorize_device m who none since app = refl

  pub sessions-trusted_device :
      (config : Config) (m : Moment) (jar : Jar) (who : Identity) (app : AppState)
      → (trusted_device session_key token_hash config m jar who app).0.sessions ≡ app.sessions
  unfolding trusted_device
  sessions-trusted_device config m jar who app =
      ground (arith, sessions-authorize_device m who jar.device (current_enrolled_at who app) app)

  sessions-forget_device :
      (m : Moment) (jar : Jar) (who : Identity) (token : Option Text) (app : AppState)
      → (forget_device session_key token_hash m jar who token app).0.sessions ≡ app.sessions
  unfolding forget_device
  sessions-forget_device m jar who none app = refl
  sessions-forget_device m jar who (some token) app = refl

  pub sessions-forget_stale_device :
      (config : Config) (m : Moment) (jar : Jar) (who : Identity) (app : AppState)
      → (forget_stale_device session_key token_hash config m jar who app).0.sessions ≡ app.sessions
  unfolding forget_stale_device
  sessions-forget_stale_device config m jar who app =
      ground (arith, sessions-forget_device m jar who jar.device app)
