-- ===== src/Auth/MfaSubmit/Code.antt =====
-- What the second factor needs.
use webshell.Base.{
  ℕ, ◌-◌, ◌≤◌, All, ◌≡◌, ◌⊎◌, refl, Bool, true, false, not, Option, none, some, if◌then◌else◌, Text,
  ◌=?◌, =?_iff, text_eq, inl, inr, Bool-cases,
}
use webshell.HashMap
use webshell.Identity.{Identity, Parsed, from_str}
use webshell.Session.{Session}
use webshell.Session.Steps.{IsDistinct}
use webshell.Session.Login.{Was}
use webshell.LoginGuard.{mfa_locked}
use webshell.Enrollment
use webshell.Enrollment.{Outcome}
use webshell.Devices
use webshell.Auth.{Config, AppState, Jar, Moment, Answer, enter, current_session}
use webshell.Base.Strings.{trim}
use webshell.Totp.SingleUse.{accept_at-unused}
use webshell.Auth.Sessions.{current-IsDistinct, Was-current}
use webshell.Auth.MfaSubmit.{
  MfaForm, code_bucket, enrollment_of, secret_of, accept, enrolled, accepted, code_verified,
  replay_guard, judged, checked, unlocked, named, pending, mfa_submit,
}
use webshell.Auth.MfaSubmit.Outcomes.{rejected-OnlyOld, locked_out-OnlyOld, completed_cases}

module _ (session_key token_hash : Text → Text) (hmac : Text → Text → Text) where
  -- The grounds on which a code signs in the session `s`, given the session that the request has.
  pub record CodeLogin (config : Config) (m : Moment) (jar : Jar) (form : MfaForm) (app : AppState)
      (o : Option (Text × Session)) (s : Session) : Type 0 where
    pub id : Text
    pub session : Session
    pub who : Identity
    pub opened : o ≡ some (id, session)
    pub waiting : session.mfa_pending ≡ true
    pub csrf : session.csrf ≡ form.csrf
    pub parsed : from_str session.username ≡ Parsed.ok who
    pub unlocked :
        mfa_locked m.late.instant session.username
          (enter m.arrival.instant (code_bucket who) app).login_guard
        ≡ none
    pub code :
        code_verified session_key token_hash hmac m.late.unix
          (secret_of (enrollment_of who app) form)
          form.otp
        ≡ true
    pub unused :
        All (λ e. e.0 ≡ trim form.otp → 90 ≤ m.late.unix - e.1) (replay_guard session.username app)
    pub user : s.username ≡ session.username

  enrolled_cases :
      (config : Config) (m : Moment) (jar : Jar) (form : MfaForm) (id : Text) (session : Session)
      (who : Identity)
      → (secret : Text) (app : AppState) (k : Text) (s : Session) → IsDistinct app.sessions
      → HashMap.get k
          (enrolled session_key token_hash hmac config m jar form id session who secret
            app).0.sessions.inner
        ≡ some s
      → s.authenticated ≡ true
      → (s.username ≡ session.username) ⊎ Was app.sessions k s
  unfolding enrolled
  enrolled_cases config m jar form id session who secret app k s d e a =
      elim (Bool-cases m.enrollment_written) [
        | inr unwritten ↦ inr (s, rw unwritten at e, a, refl)
        | inl written ↦
            let enrollment =
              (Enrollment.enroll m.enrollment_written who secret m.late.unix app.enrollment).0 in
            let devices = (Devices.revoke_all m.devices_written who app.devices).0 in
            completed_cases session_key token_hash hmac config m jar form id session who true
              (record app { enrollment = enrollment; devices = devices }) k s d
              (finished _ _ m.enrollment_written written e) a
      ]
    where
      finished :
          (x y : Answer) (b : Bool)
          → b ≡ true
          → HashMap.get k (if not b then y else x).0.sessions.inner ≡ some s
          → HashMap.get k x.0.sessions.inner ≡ some s
      finished x y b w h = rw w at h

  accepted_cases :
      (config : Config) (m : Moment) (jar : Jar) (form : MfaForm) (id : Text) (session : Session)
      (who : Identity)
      → (app : AppState) (k : Text) (s : Session) → IsDistinct app.sessions
      → HashMap.get k
          (accepted session_key token_hash hmac config m jar form id session who
            app).0.sessions.inner
        ≡ some s
      → s.authenticated ≡ true
      → (s.username ≡ session.username) ⊎ Was app.sessions k s
  unfolding accepted
  accepted_cases config m jar form id session who app k s d e a =
      elim (Bool-cases (Enrollment.enrolled (enrollment_of who app))) [
        | inl old ↦
            completed_cases session_key token_hash hmac config m jar form id session who false app k
              s d (rw old at e) a
        | inr new ↦
            enrolled_cases config m jar form id session who (secret_of (enrollment_of who app) form)
              app k s d (rw new at e) a
      ]

  checked_cases :
      (config : Config) (m : Moment) (jar : Jar) (form : MfaForm) (id : Text) (session : Session)
      (who : Identity)
      → (app : AppState) (k : Text) (s : Session) → IsDistinct app.sessions
      → HashMap.get k
          (checked session_key token_hash hmac config m jar form id session who
            app).0.sessions.inner
        ≡ some s
      → s.authenticated ≡ true
      → ((code_verified session_key token_hash hmac m.late.unix
              (secret_of (enrollment_of who app) form)
              form.otp
            ≡ true)
          × ((accept m.late.unix session.username form.otp app).1 ≡ true)
          × (s.username ≡ session.username))
        ⊎ Was app.sessions k s
  unfolding checked judged accept
  checked_cases config m jar form id session who app k s d e a =
      elim (Bool-cases (
        code_verified session_key token_hash hmac m.late.unix
          (secret_of (enrollment_of who app) form) form.otp)) [
            | inr wrong ↦ inr (
                rejected-OnlyOld session_key token_hash hmac m jar id session who false app d k s
                  (rw wrong at e) a)
            | inl right ↦
                let (app', fresh) = accept m.late.unix session.username form.otp app in
                elim (Bool-cases fresh) [
                  | inl unused ↦
                      elim (accepted_cases config m jar form id session who app' k s d
                        (rw (right, unused) at e) a) [
                          | inl user ↦ inl (right, unused, user)
                          | inr old ↦ inr old
                        ]
                  | inr used ↦ inr (
                      rejected-OnlyOld session_key token_hash hmac m jar id session who true app' d
                        k s (rw (right, used) at e) a)
                ]
          ]

  unlocked_cases :
      (config : Config) (m : Moment) (jar : Jar) (form : MfaForm) (id : Text) (session : Session)
      (who : Identity)
      → (left : Option ℕ) (app : AppState) (k : Text) (s : Session) → IsDistinct app.sessions
      → HashMap.get k
          (unlocked session_key token_hash hmac config m jar form id session who left
            app).0.sessions.inner
        ≡ some s
      → s.authenticated ≡ true
      → ((left ≡ none)
          × (code_verified session_key token_hash hmac m.late.unix
                (secret_of (enrollment_of who app) form)
                form.otp
              ≡ true)
          × ((accept m.late.unix session.username form.otp app).1 ≡ true)
          × (s.username ≡ session.username))
        ⊎ Was app.sessions k s
  unfolding unlocked
  unlocked_cases config m jar form id session who (some left) app k s d e a =
      inr (locked_out-OnlyOld session_key token_hash hmac m jar id app d k s e a)
  unlocked_cases config m jar form id session who none app k s d e a =
      elim (checked_cases config m jar form id session who app k s d e a) [
        | inl (right, unused, user) ↦ inl (refl, right, unused, user)
        | inr old ↦ inr old
      ]

  named_cases :
      (config : Config) (m : Moment) (jar : Jar) (form : MfaForm) (id : Text) (session : Session)
      (p : Parsed)
      → (app : AppState) (k : Text) (s : Session) → session.mfa_pending ≡ true
      → session.csrf ≡ form.csrf
      → from_str session.username ≡ p
      → IsDistinct app.sessions
      → HashMap.get k
          (named session_key token_hash hmac config m jar form id session p app).0.sessions.inner
        ≡ some s
      → s.authenticated ≡ true
      → CodeLogin config m jar form app (some (id, session)) s ⊎ Was app.sessions k s
  unfolding named accept
  named_cases config m jar form id session (Parsed.err er) app k s w c p d e a = inr (s, e, a, refl)
  named_cases config m jar form id session (Parsed.ok who) app k s w c p d e a =
      let entered = enter m.arrival.instant (code_bucket who) app in
      elim (unlocked_cases config m jar form id session who
        (mfa_locked m.late.instant session.username entered.login_guard) entered k s d e a) [
          | inl (free, right, unused, user) ↦ inl (record {
            id = id;
            session = session;
            who = who;
            opened = refl;
            waiting = w;
            csrf = c;
            parsed = p;
            unlocked = free;
            code = unfold enrollment_of in right;
            unused =
                unfold replay_guard accept in
                accept_at-unused form.otp m.late.unix (replay_guard session.username app) unused;
            user = user;
          })
          | inr old ↦ inr old
        ]

  pending_cases :
      (config : Config) (m : Moment) (jar : Jar) (form : MfaForm) (app : AppState)
      (o : Option (Text × Session))
      → (k : Text) (s : Session) → IsDistinct app.sessions
      → HashMap.get k
          (pending session_key token_hash hmac config m jar form (app, o)).0.sessions.inner
        ≡ some s
      → s.authenticated ≡ true
      → CodeLogin config m jar form app o s ⊎ Was app.sessions k s
  unfolding pending
  pending_cases config m jar form app none k s d e a = inr (s, e, a, refl)
  pending_cases config m jar form app (some (id, session)) k s d e a =
      elim (Bool-cases session.mfa_pending) [
        | inr not_waiting ↦ inr (s, rw not_waiting at e, a, refl)
        | inl waiting ↦ elim (Bool-cases (session.csrf =? form.csrf)) [
          | inr forged ↦ inr (s, rw (waiting, forged) at e, a, refl)
          | inl same ↦
              named_cases config m jar form id session (from_str session.username) app k s waiting
                ((=?_iff session.csrf form.csrf).0 same) refl d (open_gate _ _ _ _ _ waiting same e)
                a
        ]
      ]
    where
      open_gate :
          (x y z : Answer) (b c : Bool)
          → b ≡ true
          → c ≡ true
          → HashMap.get k (if not b then x else if not c then y else z).0.sessions.inner ≡ some s
          → HashMap.get k z.0.sessions.inner ≡ some s
      open_gate x y z b c p q h = rw (p, q) at h

  -- A code signs in nobody but the user who has passed the first factor in that very session: any
  -- session that is authenticated after `mfa_submit` was so before as the same user, or it is that of
  -- a user whose pending session the request has with its CSRF token and who is not locked out, the
  -- code is that of a step at most one away from now for the secret on record, or for the seed in the
  -- form if the user has none on record, and the replay memory holds no entry for that code younger
  -- than 90 seconds.
  pub mfa_submit-CodeLogin :
      (config : Config) (m : Moment) (jar : Jar) (form : MfaForm) (app : AppState) (k : Text)
      (s : Session)
      → IsDistinct app.sessions
      → HashMap.get k
          (mfa_submit session_key token_hash hmac config m jar form app).0.sessions.inner
        ≡ some s
      → s.authenticated ≡ true
      → CodeLogin config m jar form
          (current_session session_key token_hash m.arrival jar.session app).0
          (current_session session_key token_hash m.arrival jar.session app).1
          s
        ⊎ Was app.sessions k s
  unfolding mfa_submit
  mfa_submit-CodeLogin config m jar form app k s d e a =
      let (app', o) = current_session session_key token_hash m.arrival jar.session app in
      elim (pending_cases config m jar form app' o k s
        (current-IsDistinct session_key token_hash m.arrival jar.session app d) e a) [
          | inl grounds ↦ inl grounds
          | inr old ↦ inr (Was-current session_key token_hash m.arrival jar.session app k s d old)
        ]
