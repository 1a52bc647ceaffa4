-- ===== src/Auth/Callback/Vouching.antt =====
-- What an identity that Google has verified needs to be signed in.
use webshell.Base.{
  ◌≡◌, ◌⊎◌, refl, sym, Bool, true, false, not, Option, none, some, Text, text_eq, inl, inr, if_elim,
  arith, subst,
}
use webshell.HashMap
use webshell.Enrollment
use webshell.Identity.{Identity, to_string}
use webshell.Oidc.{Flow, Claims, Verified}
use webshell.Session.{Session, Env}
use webshell.Session.Steps.{IsDistinct}
use webshell.Session.Login.{Was}
use webshell.Auth.{
  Config, AppState, Jar, Moment, Answer, permits, trusted_device, forget_stale_device, login_error,
}
use webshell.Auth.Sessions.{
  begin_mfa-OnlyOld, login_cases, current-OnlyOld, sessions-trusted_device,
  sessions-forget_stale_device,
}
use webshell.Auth.Callback.{device_checked, vouched, pinned, verified}

module _ (session_key token_hash : Text → Text)
    (endpoint : Text → Text → Text → Text → Flow → Option Claims) where
  -- Whoever is signed in by the answer has the grounds `G`, or was signed in before.
  abbrev pub Grounded : (Session → Type 0) → AppState → Answer → Type 0
  Grounded G app answer =
      (k : Text) (s : Session)
      → HashMap.get k answer.0.sessions.inner ≡ some s
      → s.authenticated ≡ true
      → G s ⊎ Was app.sessions k s

  pub refused :
      (G : Session → Type 0) (env : Env) (jar : Jar) (app : AppState)
      → IsDistinct app.sessions
      → Grounded G app (login_error session_key token_hash env jar app)
  refused G env jar app d k s e a =
      inr (current-OnlyOld session_key token_hash env jar.session app d k s e a)

  -- The second factor is not asked for, or the browser's device is trusted in place of it.
  abbrev pub SecondFactor : Config → Moment → Jar → Identity → AppState → Type 0
  SecondFactor config m jar who app =
      (config.mfa_required ≡ false)
      ⊎ ((device : Text) × ((trusted_device session_key token_hash config m jar who app).1
            ≡ some device))

  device_checked-Grounded :
      (config : Config) (m : Moment) (jar : Jar) (who : Identity) (id : Text) (app : AppState)
      (o : Option Text)
      → IsDistinct app.sessions
      → Grounded
          (λ s. (s.username ≡ to_string who) × ((device : Text) × (o ≡ some device)))
          app
          (device_checked session_key token_hash endpoint config m jar who id (app, o))
  unfolding device_checked
  device_checked-Grounded config m jar who id app (some device) d k s e a =
      elim (login_cases session_key token_hash m.late m.fresh id (to_string who) app.sessions k s d
        e a) [ inl user ↦ inl (user, (device, refl)) | inr old ↦ inr old ]
  device_checked-Grounded config m jar who id app none d k s e a =
      let same = sessions-forget_stale_device session_key token_hash config m jar who app in
      let forgotten = forget_stale_device session_key token_hash config m jar who app in
      inr (
        subst (λ st. Was st k s) same
          (begin_mfa-OnlyOld session_key token_hash m.late m.fresh id (to_string who)
            forgotten.0.sessions (subst IsDistinct (sym same) d) k s e a))

  vouched-Grounded :
      (config : Config) (m : Moment) (jar : Jar) (who : Identity) (id : Text) (app : AppState)
      → IsDistinct app.sessions
      → Grounded
          (λ s. (s.username ≡ to_string who) × SecondFactor config m jar who app)
          app
          (vouched session_key token_hash endpoint config m jar who id app)
  unfolding vouched
  vouched-Grounded config m jar who id app d =
      if_elim (Grounded (λ s. (s.username ≡ to_string who) × SecondFactor config m jar who app) app)
        (not config.mfa_required) _ _
        (λ unasked k s e a.
          elim (login_cases session_key token_hash m.late m.fresh id (to_string who) app.sessions k
            s d e a) [ inl user ↦ inl (user, inl (ground arith)) | inr old ↦ inr old ])
        (λ asked k s e a.
          let (app', o) = trusted_device session_key token_hash config m jar who app in
          let same = sessions-trusted_device session_key token_hash config m jar who app in
          elim (device_checked-Grounded config m jar who id app' o (subst IsDistinct (sym same) d) k
            s e a) [
              | inl (user, device) ↦ inl (user, inr device)
              | inr old ↦ inr (subst (λ st. Was st k s) same old)
            ])

  pinned-Grounded :
      (config : Config) (m : Moment) (jar : Jar) (who : Identity) (id : Text)
      (outcome : Enrollment.Outcome Bool) (app : AppState)
      → IsDistinct app.sessions
      → Grounded
          (λ s.
            (s.username ≡ to_string who)
            × (outcome ≡ Enrollment.Outcome.ok true)
            × SecondFactor config m jar who app)
          app
          (pinned session_key token_hash endpoint config m jar who id outcome app)
  unfolding pinned
  pinned-Grounded config m jar who id (Enrollment.Outcome.ok true) app d k s e a =
      elim (vouched-Grounded config m jar who id app d k s e a) [
        | inl (user, second) ↦ inl (user, refl, second)
        | inr old ↦ inr old
      ]
  pinned-Grounded config m jar who id (Enrollment.Outcome.ok false) app d k s e a =
      inr (current-OnlyOld session_key token_hash m.late jar.session app d k s e a)
  pinned-Grounded config m jar who id Enrollment.Outcome.failed app d k s e a =
      inr (current-OnlyOld session_key token_hash m.late jar.session app d k s e a)

  -- What has to hold of an identity that Google has verified, for it to be signed in.
  pub record Vouched (config : Config) (m : Moment) (jar : Jar) (v : Verified) (app : AppState)
      (s : Session) : Type 0 where
    pub listed : permits config v.identity ≡ true
    pub user : s.username ≡ to_string v.identity
    pub subject :
        (Enrollment.pin_subject m.enrollment_written v.identity v.sub app.enrollment).1
        ≡ Enrollment.Outcome.ok true
    pub second : SecondFactor config m jar v.identity (record app {
      enrollment = (Enrollment.pin_subject m.enrollment_written v.identity v.sub app.enrollment).0;
    })

  pub verified-Grounded :
      (config : Config) (m : Moment) (jar : Jar) (id : Text) (v : Verified) (app : AppState)
      → IsDistinct app.sessions
      → Grounded
          (Vouched config m jar v app)
          app
          (verified session_key token_hash endpoint config m jar id v app)
  unfolding verified
  verified-Grounded config m jar id v app d =
      let pin = Enrollment.pin_subject m.enrollment_written v.identity v.sub app.enrollment in
      if_elim (Grounded (Vouched config m jar v app) app) (not (permits config v.identity)) _ _
        (λ _. refused _ m.late jar app d)
        (λ listed k s e a.
          elim (pinned-Grounded config m jar v.identity id pin.1 (record app { enrollment = pin.0 })
            d k s e a) [
              | inl (user, subject, second) ↦ inl (record {
                listed = ground arith;
                user = user;
                subject = subject;
                second = second;
              })
              | inr old ↦ inr old
            ])
