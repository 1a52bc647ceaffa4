-- ===== src/Auth/Callback/Google.antt =====
-- What a sign-in with Google needs.
use webshell.Base.{
  ◌≡◌, ◌⊎◌, refl, ap, sym, true, not, Option, none, some, Text, ◌=?◌, =?_iff, text_eq, inl, inr,
  if_elim, arith,
}
use webshell.HashMap
use webshell.Oidc.{Flow, Claims, Verified}
use webshell.Session
use webshell.Session.{Session, SessionStore, Env}
use webshell.Session.Steps.{IsDistinct}
use webshell.Session.Login.{Was}
use webshell.Auth.{Config, AppState, Jar, Moment, current_session}
use webshell.Auth.Sessions.{
  current-IsDistinct, current-OnlyOld, set_oauth-IsDistinct, set_oauth-OnlyOld, Was-current,
  Was-trans,
}
use webshell.Auth.Callback.{
  GoogleConfig, CallbackQuery, google_usable, redirect_uri, exchanged, after_exchange, configured,
  returned, not_declined, found, oauth_callback,
}
use webshell.Auth.Callback.Vouching.{Grounded, Vouched, verified-Grounded, refused}

module _ (session_key token_hash : Text → Text)
    (endpoint : Text → Text → Text → Text → Flow → Option Claims) where
  -- What has to hold of a callback, given the session's flow and what the callback brings.
  pub record Confirmed (config : Config) (g : GoogleConfig) (m : Moment) (jar : Jar) (id : Text)
      (asked : Option Flow) (answered returned_state : Option Text) (app : AppState) (s : Session)
      : Type 0 where
    pub flow : Flow
    pub code : Text
    pub client_id : Text
    pub client_secret : Text
    pub uri : Text
    pub identity : Verified
    pub client :
        (g.google_client_id ≡ some client_id)
        × (g.google_client_secret ≡ some client_secret)
        × (redirect_uri g ≡ some uri)
    pub started : asked ≡ some flow
    pub brought : answered ≡ some code
    pub state : returned_state ≡ some flow.state
    pub checked :
        exchanged session_key token_hash endpoint
          (endpoint client_id client_secret uri code flow)
          client_id
          flow
          m.late.unix
        ≡ some identity
    pub vouched :
        Vouched session_key token_hash endpoint config m jar identity
          (record app { sessions = Session.set_oauth session_key m.arrival id none app.sessions })
          s

  after_exchange-Grounded :
      (config : Config) (m : Moment) (jar : Jar) (id : Text) (o : Option Verified) (app : AppState)
      → IsDistinct app.sessions
      → Grounded session_key token_hash endpoint
          (λ s.
            (v : Verified) × (o ≡ some v)
            × Vouched session_key token_hash endpoint config m jar v app s)
          app
          (after_exchange session_key token_hash endpoint config m jar id o app)
  unfolding after_exchange
  after_exchange-Grounded config m jar id none app d k s e a =
      inr (current-OnlyOld session_key token_hash m.late jar.session app d k s e a)
  after_exchange-Grounded config m jar id (some v) app d k s e a =
      elim (verified-Grounded session_key token_hash endpoint config m jar id v app d k s e a) [
        | inl h ↦ inl (v, refl, h)
        | inr old ↦ inr old
      ]

  -- The answer to a callback with a flow, a code and a matching state, of a client so configured.
  abbrev Asked :
      Config
      → Moment
      → Jar
      → Text
      → Text
      → Flow
      → Option Text
      → Option Text
      → Option Text
      → AppState
      → Session
      → Type 0
  Asked config m jar id code flow client secret address app s =
      (client_id : Text) × (client_secret : Text) × (uri : Text) × (v : Verified) × ((client
          ≡ some client_id)
        × (secret ≡ some client_secret)
        × (address ≡ some uri))
      × (exchanged session_key token_hash endpoint (endpoint client_id client_secret uri code flow)
            client_id flow m.late.unix
          ≡ some v)
      × Vouched session_key token_hash endpoint config m jar v app s

  configured-Grounded :
      (config : Config) (m : Moment) (jar : Jar) (id code : Text) (flow : Flow)
      (client_id client_secret uri : Option Text) (app : AppState)
      → IsDistinct app.sessions
      → Grounded session_key token_hash endpoint
          (Asked config m jar id code flow client_id client_secret uri app)
          app
          (configured session_key token_hash endpoint config m jar id code flow client_id
            client_secret uri app)
  unfolding configured
  configured-Grounded config m jar id code flow (some client_id) (some client_secret) (some uri) app
        d k s e a =
      elim (after_exchange-Grounded config m jar id _ app d k s e a) [
        | inl (v, checked, h) ↦
            inl (client_id, client_secret, uri, v, (refl, refl, refl), checked, h)
        | inr old ↦ inr old
      ]
  configured-Grounded config m jar id code flow none _ _ app d k s e a = inr (s, e, a, refl)
  configured-Grounded config m jar id code flow (some _) none _ app d k s e a = inr (s, e, a, refl)
  configured-Grounded config m jar id code flow (some _) (some _) none app d k s e a =
      inr (s, e, a, refl)

  returned-Grounded :
      (config : Config) (g : GoogleConfig) (m : Moment) (jar : Jar) (id : Text)
      (asked : Option Flow) (answered returned_state : Option Text) (app : AppState)
      → IsDistinct app.sessions
      → Grounded session_key token_hash endpoint
          (Confirmed config g m jar id asked answered returned_state app)
          app
          (returned session_key token_hash endpoint config g m jar id asked answered returned_state
            app)
  unfolding returned
  returned-Grounded config g m jar id (some flow) (some code) (some state) app d k s e a =
      let used = Session.set_oauth session_key m.arrival id none app.sessions in
      if_elim
        (Grounded session_key token_hash endpoint
          (Confirmed config g m jar id (some flow) (some code) (some state) app) app)
        (not (flow.state =? state)) _ _
        (λ _. refused session_key token_hash endpoint _ m.arrival jar app d)
        (λ same k s e a.
          let matches : flow.state ≡ state = (=?_iff flow.state state).0 (ground arith) in
          elim (configured-Grounded config m jar id code flow g.google_client_id
            g.google_client_secret (redirect_uri g) (record app { sessions = used })
            (set_oauth-IsDistinct session_key token_hash m.arrival id none app.sessions d) k s e
            a) [
              | inl (client_id, client_secret, uri, v, client, checked, h) ↦ inl (record {
                flow = flow;
                code = code;
                client_id = client_id;
                client_secret = client_secret;
                uri = uri;
                identity = v;
                client = client;
                started = refl;
                brought = refl;
                state = ap some (sym matches);
                checked = checked;
                vouched = h;
              })
              | inr old ↦ inr (
                  Was-trans session_key token_hash app.sessions used k s
                    (set_oauth-OnlyOld session_key token_hash m.arrival id none app.sessions d) old)
            ])
        k s e a
  returned-Grounded config g m jar id none _ _ app d k s e a =
      inr (current-OnlyOld session_key token_hash m.arrival jar.session app d k s e a)
  returned-Grounded config g m jar id (some _) none _ app d k s e a =
      inr (current-OnlyOld session_key token_hash m.arrival jar.session app d k s e a)
  returned-Grounded config g m jar id (some _) (some _) none app d k s e a =
      inr (current-OnlyOld session_key token_hash m.arrival jar.session app d k s e a)

  -- The grounds on which a callback from Google signs in the session `s`.
  pub record GoogleLogin (config : Config) (g : GoogleConfig) (m : Moment) (jar : Jar)
      (q : CallbackQuery) (app : AppState) (s : Session) : Type 0 where
    pub id : Text
    pub session : Session
    pub usable : google_usable config g ≡ true
    pub opened :
        (current_session session_key token_hash m.arrival jar.session app).1 ≡ some (id, session)
    pub accepted : q.error ≡ none
    pub confirmed :
        Confirmed config g m jar id session.oauth q.code q.state
          (current_session session_key token_hash m.arrival jar.session app).0
          s

  not_declined-Grounded :
      (config : Config) (g : GoogleConfig) (m : Moment) (jar : Jar) (q : CallbackQuery) (id : Text)
      (session : Session) (error : Option Text) (app : AppState)
      → IsDistinct app.sessions
      → Grounded session_key token_hash endpoint
          (λ s. (error ≡ none) × Confirmed config g m jar id session.oauth q.code q.state app s)
          app
          (not_declined session_key token_hash endpoint config g m jar q id session error app)
  unfolding not_declined
  not_declined-Grounded config g m jar q id session (some error) app d k s e a =
      inr (current-OnlyOld session_key token_hash m.arrival jar.session app d k s e a)
  not_declined-Grounded config g m jar q id session none app d k s e a =
      elim (returned-Grounded config g m jar id session.oauth q.code q.state app d k s e a) [
        | inl h ↦ inl (refl, h)
        | inr old ↦ inr old
      ]

  found-Grounded :
      (config : Config) (g : GoogleConfig) (m : Moment) (jar : Jar) (q : CallbackQuery)
      (app : AppState) (o : Option (Text × Session))
      → IsDistinct app.sessions
      → Grounded session_key token_hash endpoint
          (λ s.
            (id : Text) × (session : Session) × (o ≡ some (id, session))
            × (q.error ≡ none)
            × Confirmed config g m jar id session.oauth q.code q.state app s)
          app
          (found session_key token_hash endpoint config g m jar q (app, o))
  unfolding found
  found-Grounded config g m jar q app none d k s e a =
      inr (current-OnlyOld session_key token_hash m.arrival jar.session app d k s e a)
  found-Grounded config g m jar q app (some (id, session)) d k s e a =
      elim (not_declined-Grounded config g m jar q id session q.error app d k s e a) [
        | inl (accepted, h) ↦ inl (id, session, refl, accepted, h)
        | inr old ↦ inr old
      ]

  -- A callback from Google signs in nobody but the allowlisted identity that Google's checked claims
  -- name to the configured client, whose account is still the one pinned to it, and only in answer
  -- to the flow that the browser's own session has started, with that flow's state and a code, and
  -- with a trusted device where a second factor is required: any session that is authenticated afterwards was so before as
  -- the same user, or has all of these grounds.
  pub oauth_callback-GoogleLogin :
      (config : Config) (g : GoogleConfig) (m : Moment) (jar : Jar) (q : CallbackQuery)
      (app : AppState) (k : Text) (s : Session)
      → IsDistinct app.sessions
      → HashMap.get k
          (oauth_callback session_key token_hash endpoint config g m jar q app).0.sessions.inner
        ≡ some s
      → s.authenticated ≡ true
      → GoogleLogin config g m jar q app s ⊎ Was app.sessions k s
  unfolding oauth_callback
  oauth_callback-GoogleLogin config g m jar q app k s d e a =
      let (app', o) = current_session session_key token_hash m.arrival jar.session app in
      if_elim (Grounded session_key token_hash endpoint (GoogleLogin config g m jar q app) app)
        (not (google_usable config g)) _ _ (λ _ k s e a. inr (s, e, a, refl))
        (λ usable k s e a.
          elim (found-Grounded config g m jar q app' o
            (current-IsDistinct session_key token_hash m.arrival jar.session app d) k s e a) [
              | inl (id, session, opened, accepted, h) ↦ inl (record {
                id = id;
                session = session;
                usable = ground arith;
                opened = opened;
                accepted = accepted;
                confirmed = h;
              })
              | inr old ↦
                  inr (Was-current session_key token_hash m.arrival jar.session app k s d old)
            ])
        k s e a
