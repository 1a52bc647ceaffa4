-- ===== src/Session/Login.antt =====
-- Which calls make a session authenticated, and what a login leaves.
use webshell.Base.{
  ◌≡◌, refl, ap, sym, ◌∙◌, true, false, not, Option, none, some, List, [], ◌∷◌, arith, Text, ◌⊎◌,
  text_eq, ◌=?◌, =?_iff, inl, inr, Bool-cases, if◌then◌else◌, subst,
}
use webshell.HashMap
use webshell.HashMap.{HashMap, Distinct, keep_entry}
use webshell.HashMap.Laws.{get-insert, get-remove, get-retain}
use webshell.Session.{
  Session, SessionStore, Env, Fresh, persist, drop_key, make_room, sweep, expired, start, create,
  replace, login, begin_mfa,
}
use webshell.Session.Steps.{
  Call, creates, gets, removes, logs_in, begins_mfa, sweeps, sets_oauth, step, run, IsDistinct,
  inner-persist, inner-sweep, make_room_cases, get_cases, remove_cases, set_oauth_cases,
  step-IsDistinct,
}

-- The store `st` already had an authenticated session of that user under the key.
abbrev pub Was : SessionStore → Text → Session → Type 0
Was st k s =
    (t : Session) × (HashMap.get k st.inner ≡ some t)
    × (t.authenticated ≡ true)
    × (t.username ≡ s.username)

-- No session is authenticated in `st'` that was not in `st`.
abbrev NoNew : SessionStore → SessionStore → Type 0
NoNew st st' =
    (k : Text) (s : Session)
    → HashMap.get k st'.inner ≡ some s
    → s.authenticated ≡ true
    → Was st k s

NoNew-refl : (st : SessionStore) → NoNew st st
NoNew-refl st k s e a = (s, e, a, refl)

NoNew-drop_key : (key : Text) (st : SessionStore) → NoNew st (drop_key key st)
unfolding drop_key
NoNew-drop_key key st k s e a = (s, ground (arith, get-remove key k st.inner), a, refl)

NoNew-persist : (env : Env) (st st' : SessionStore) → NoNew st st' → NoNew st (persist env st')
NoNew-persist env st st' h k s e a = h k s (rw inner-persist at e) a

-- A session that is not authenticated, or that stands for one which was, may be put in.
NoNew-insert :
    (key : Text) (v : Session) (st st' : SessionStore)
    → (v.authenticated ≡ true → Was st key v)
    → NoNew st st'
    → NoNew st (record st' { inner = HashMap.insert key v st'.inner })
NoNew-insert key v st st' hv h k s e a = elim (Bool-cases (key =? k)) [
  | inl same ↦
      let p : v ≡ s = ground (arith, get-insert key k v st'.inner) in
      let q : key ≡ k = (=?_iff key k).0 same in
      let (t, f, g, u) = hv (rw p a) in
      (
        t,
        subst (λ x. HashMap.get x st.inner ≡ some t) q f,
        g,
        u ∙ ap (λ (x : Session). x.username) p,
      )
  | inr other ↦ h k s (ground (arith, get-insert key k v st'.inner)) a
]

NoNew-sweep : (env : Env) (st : SessionStore) → IsDistinct st → NoNew st (sweep env st)
NoNew-sweep env st d k s e a =
    let r = get-retain (λ _ s. not (expired s st.ttl env.instant)) k st.inner d in
    let f : keep_entry (λ s. not (expired s st.ttl env.instant)) (HashMap.get k st.inner) ≡ some s =
      sym r ∙ ap (HashMap.get k) (sym (inner-sweep env st)) ∙ e in
    (s, kept (HashMap.get k st.inner) f, a, refl)
  where
    kept :
        (o : Option Session)
        → keep_entry (λ s. not (expired s st.ttl env.instant)) o ≡ some s
        → o ≡ some s
    kept none q = cc
    kept (some t) q = ground arith

-- A session as a login of `user` at that moment has to leave it.
pub record IsNew (env : Env) (fresh : Fresh) (user : Text) (s : Session) : Type 0 where
  pub signed_in : (s.authenticated ≡ true) × (s.mfa_pending ≡ false) × (s.username ≡ user)
  pub csrf : s.csrf ≡ fresh.csrf
  pub oauth : s.oauth ≡ none
  pub times : (s.created ≡ env.instant) × (s.created_unix ≡ env.unix)
  pub channel : s.channel ≡ fresh.channel

module _ (session_key : Text → Text) where
  -- The calls in which a login of `user` made the session under `k`.
  abbrev pub LoggedIn : Text → Text → List Call → Type 0
  LoggedIn k user [] = ⊥
  LoggedIn k user (logs_in env fresh old name ∷ cs) =
      ((session_key fresh.id ≡ k) × (name ≡ user)) ⊎ LoggedIn k user cs
  LoggedIn k user (c ∷ cs) = LoggedIn k user cs

  -- After `login` or `begin_mfa` (`replace` with the session that each starts) the new id names that
  -- session, the old one is dead, and every other key is as before.
  replace_lem :
      (env : Env) (fresh : Fresh) (old : Text) (v : Session) (st : SessionStore) (k : Text)
      → HashMap.get k (replace session_key env fresh old v st).0.inner ≡ (
          if session_key fresh.id =? k
          then some v
          else if session_key old =? k
          then none
          else HashMap.get k st.inner)
  unfolding replace drop_key
  replace_lem env fresh old v st k = rw (
    inner-persist env,
    get-insert (session_key fresh.id) k v (HashMap.remove (session_key old) st.inner),
    get-remove (session_key old) k st.inner,
  )

  NoNew-replace :
      (env : Env) (fresh : Fresh) (old : Text) (v : Session) (st : SessionStore)
      → v.authenticated ≡ false
      → NoNew st (replace session_key env fresh old v st).0
  unfolding replace
  NoNew-replace env fresh old v st h = NoNew-persist env st _ (
      NoNew-insert (session_key fresh.id) v st (drop_key (session_key old) st)
        (λ a. absurd (cc (h, a))) (NoNew-drop_key (session_key old) st))

  replace-Was :
      (env : Env) (fresh : Fresh) (old : Text) (v : Session) (st : SessionStore) (k : Text)
      (s : Session)
      → HashMap.get k (replace session_key env fresh old v st).0.inner ≡ some s
      → s.authenticated ≡ true
      → ((session_key fresh.id ≡ k) × (v.username ≡ s.username)) ⊎ Was st k s
  unfolding replace
  replace-Was env fresh old v st k s e a =
      let dropped = drop_key (session_key old) st in
      let e' : HashMap.get k (HashMap.insert (session_key fresh.id) v dropped.inner) ≡ some s =
        rw (inner-persist env) at e in
      elim (Bool-cases (session_key fresh.id =? k)) [
        | inl same ↦
            let p : v ≡ s = ground (arith, get-insert (session_key fresh.id) k v dropped.inner) in
            inl ((=?_iff (session_key fresh.id) k).0 same, ap (λ (x : Session). x.username) p)
        | inr other ↦ inr (
            NoNew-drop_key (session_key old) st k s
              (ground (arith, get-insert (session_key fresh.id) k v dropped.inner)) a)
      ]

  -- One call: an authenticated session was there before, or this call is the login that made it.
  step-Was :
      (st : SessionStore) (c : Call) (k : Text) (s : Session)
      → IsDistinct st
      → HashMap.get k (step session_key st c).inner ≡ some s
      → s.authenticated ≡ true
      → LoggedIn k s.username (c ∷ []) ⊎ Was st k s
  unfolding step create login begin_mfa
  step-Was st (creates env fresh) k s d e a = inr (
      NoNew-insert (session_key fresh.id) _ st (make_room st) (λ h. absurd (cc h))
        (make_room_cases (NoNew st) st (NoNew-refl st) (λ key. NoNew-drop_key key st)) k s e a)
  step-Was st (gets env id) k s d e a = inr (
      get_cases session_key (NoNew st) env id st (NoNew-refl st)
        (NoNew-persist env st _ (NoNew-drop_key (session_key id) st)) k s e a)
  step-Was st (removes env id) k s d e a = inr (
      remove_cases session_key (NoNew st) env id st (NoNew-refl st)
        (NoNew-persist env st _ (NoNew-drop_key (session_key id) st)) k s e a)
  step-Was st (logs_in env fresh old user) k s d e a =
      elim (replace-Was env fresh old (start session_key env fresh true false user) st k s e a) [
        | inl made ↦ inl (inl made)
        | inr was ↦ inr was
      ]
  step-Was st (begins_mfa env fresh old user) k s d e a =
      inr
        (NoNew-replace env fresh old (start session_key env fresh false true user) st refl k s e a)
  step-Was st (sweeps env) k s d e a = inr (NoNew-sweep env st d k s e a)
  step-Was st (sets_oauth env id flow) k s d e a = inr (
      set_oauth_cases session_key (NoNew st) env id flow st (NoNew-refl st)
        (λ t f. NoNew-persist env st _ (
          NoNew-insert (session_key id) (record t { oauth = flow }) st st (λ h. (t, f, h, refl))
            (NoNew-refl st)))
        k s e a)

  LoggedIn-cons :
      (k user : Text) (c : Call) (cs : List Call) → LoggedIn k user cs → LoggedIn k user (c ∷ cs)
  LoggedIn-cons k user (logs_in env fresh old name) cs h = inr h
  LoggedIn-cons k user (creates env fresh) cs h = h
  LoggedIn-cons k user (gets env id) cs h = h
  LoggedIn-cons k user (removes env id) cs h = h
  LoggedIn-cons k user (begins_mfa env fresh old name) cs h = h
  LoggedIn-cons k user (sweeps env) cs h = h
  LoggedIn-cons k user (sets_oauth env id flow) cs h = h

  LoggedIn-head :
      (k user : Text) (c : Call) (cs : List Call)
      → LoggedIn k user (c ∷ [])
      → LoggedIn k user (c ∷ cs)
  LoggedIn-head k user (logs_in env fresh old name) cs (inl h) = inl h
  LoggedIn-head k user (logs_in env fresh old name) cs (inr h) = absurd h
  LoggedIn-head k user (creates env fresh) cs h = absurd h
  LoggedIn-head k user (gets env id) cs h = absurd h
  LoggedIn-head k user (removes env id) cs h = absurd h
  LoggedIn-head k user (begins_mfa env fresh old name) cs h = absurd h
  LoggedIn-head k user (sweeps env) cs h = absurd h
  LoggedIn-head k user (sets_oauth env id flow) cs h = absurd h

  -- Whatever the calls on a store: a session that is authenticated in the end as some user was made
  -- by a login of that very user, under the id that the login drew, or was authenticated as that
  -- user from the start.
  pub run-LoggedIn :
      (st : SessionStore) (cs : List Call) (k : Text) (s : Session)
      → IsDistinct st
      → HashMap.get k (run session_key st cs).inner ≡ some s
      → s.authenticated ≡ true
      → LoggedIn k s.username cs ⊎ Was st k s
  unfolding run
  run-LoggedIn st [] k s d e a = inr (s, e, a, refl)
  run-LoggedIn st (c ∷ cs) k s d e a =
      elim (run-LoggedIn (step session_key st c) cs k s (step-IsDistinct session_key st c d) e a) [
        | inl later ↦ inl (LoggedIn-cons k s.username c cs later)
        | inr (t, f, b, u) ↦ elim (step-Was st c k t d f b) [
          | inl made ↦
              inl (subst (λ x. LoggedIn k x (c ∷ cs)) u (LoggedIn-head k t.username c cs made))
          | inr (t', f', b', u') ↦ inr (t', f', b', u' ∙ u)
        ]
      ]

  -- A login is a new session: the id that it drew names a session that is authenticated, waits for
  -- no code, is the user's, with the CSRF token and the channel drawn, no OAuth flow, and created
  -- now; the old id, if it is another, names none; and every other session is as before.
  pub login_lem :
      (env : Env) (fresh : Fresh) (old user : Text) (st : SessionStore) (k : Text)
      → let after = (login session_key env fresh old user st).0.inner in
        if session_key fresh.id =? k
        then ((s : Session) × (HashMap.get k after ≡ some s) × IsNew env fresh user s)
        else HashMap.get k after ≡ (if session_key old =? k then none else HashMap.get k st.inner)
  unfolding login
  login_lem env fresh old user st k =
      let read = replace_lem env fresh old (start session_key env fresh true false user) st k in
      elim (Bool-cases (session_key fresh.id =? k)) [
        | inl same ↦ rw same (
          start session_key env fresh true false user,
          read ∙ rw same refl,
          record {
            signed_in = (refl, refl, refl);
            csrf = refl;
            oauth = refl;
            times = (refl, refl);
            channel = refl;
          },
        )
        | inr other ↦ rw other (read ∙ rw other refl)
      ]
