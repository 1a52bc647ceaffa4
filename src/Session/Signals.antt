-- ===== src/Session/Signals.antt =====
-- Which sockets are told when a session goes.
use webshell.Base.{
  ℕ, ◌≡◌, refl, ap, sym, ◌∙◌, Bool, true, false, ◌||◌, none, some, List, [], ◌∷◌, arith, Text, ◌⊎◌,
  some_inj, text_eq, ◌=?◌, ◌==◌, =?_iff, inl, inr, Bool-cases,
}
use webshell.HashMap
use webshell.HashMap.{HashMap, Distinct, keep_entry}
use webshell.HashMap.Laws.{get-insert, get-remove, get-retain}
use webshell.Session.{
  Session, SessionStore, Env, Fresh, persist, drop_key, make_room, sweep, expired, signal,
  signal_all, outdated, put, create, replace, login, begin_mfa,
}
use webshell.Session.Steps.{
  Call, creates, gets, removes, logs_in, begins_mfa, sweeps, sets_oauth, step, IsDistinct,
  inner-persist, inner-sweep, make_room_cases, get_cases, remove_cases, set_oauth_cases,
  revoked-persist,
}

-- The channel has been told `true`.
unfoldable pub is_told : ℕ → List ℕ → Bool
is_told c [] = false
is_told c (d ∷ ds) = c == d || is_told c ds

-- Every session of `st` is in `st'` with its channel, or its channel has been told.
abbrev pub KeptOrTold : SessionStore → SessionStore → Type 0
KeptOrTold st st' =
    (k : Text) (s : Session)
    → HashMap.get k st.inner ≡ some s
    → ((t : Session) × (HashMap.get k st'.inner ≡ some t) × (t.channel ≡ s.channel))
      ⊎ (is_told s.channel st'.revoked ≡ true)

KeptOrTold-refl : (st : SessionStore) → KeptOrTold st st
KeptOrTold-refl st k s e = inl (s, e, refl)

KeptOrTold-persist :
    (env : Env) (st st' : SessionStore) → KeptOrTold st st' → KeptOrTold st (persist env st')
KeptOrTold-persist env st st' h k s e = rw (inner-persist env, revoked-persist env) (h k s e)

told_signal : (s : Session) (cs : List ℕ) → is_told s.channel (signal (some s) cs) ≡ true
unfolding is_told
told_signal s cs = ground arith

KeptOrTold-drop_key : (key : Text) (st : SessionStore) → KeptOrTold st (drop_key key st)
unfolding drop_key
KeptOrTold-drop_key key st k s e = elim (Bool-cases (key =? k)) [
  | inl same ↦ inr (rw ((=?_iff key k).0 same, e) (told_signal s st.revoked))
  | inr other ↦ inl (s, ground (arith, get-remove key k st.inner), refl)
]

-- Inserting keeps the others; under the key itself the old session must share the channel, or there
-- is none.
KeptOrTold-insert :
    (key : Text) (v : Session) (st st' : SessionStore)
    → ((t : Session) → HashMap.get key st'.inner ≡ some t → v.channel ≡ t.channel)
    → KeptOrTold st st'
    → KeptOrTold st (record st' { inner = HashMap.insert key v st'.inner })
KeptOrTold-insert key v st st' hv h k s e = elim (h k s e) [
  | inl (t, f, c) ↦ elim (Bool-cases (key =? k)) [
    | inl same ↦
        let q : key ≡ k = (=?_iff key k).0 same in
        inl (v, ground (arith, get-insert key k v st'.inner), hv t (rw q f) ∙ c)
    | inr other ↦ inl (t, ground (arith, get-insert key k v st'.inner), c)
  ]
  | inr told ↦ inr told
]

told_outdated :
    (ttl instant : ℕ) (m : HashMap Text Session) (cs : List ℕ) (k : Text) (s : Session)
    → HashMap.get k m ≡ some s
    → expired s ttl instant ≡ true
    → is_told s.channel (signal_all (outdated ttl instant m) cs) ≡ true
unfolding outdated is_told HashMap.get
told_outdated ttl instant [] cs k s e x = cc
told_outdated ttl instant ((j, t) ∷ m) cs k s e x =
    ground (arith, told_outdated ttl instant m cs k s)

revoked-sweep :
    (env : Env) (st : SessionStore)
    → (sweep env st).revoked ≡ signal_all (outdated st.ttl env.instant st.inner) st.revoked
unfolding sweep persist
revoked-sweep env st = ground arith

KeptOrTold-sweep : (env : Env) (st : SessionStore) → IsDistinct st → KeptOrTold st (sweep env st)
KeptOrTold-sweep env st d k s e = elim (Bool-cases (expired s st.ttl env.instant)) [
  | inl x ↦
      inr (rw (revoked-sweep env) (told_outdated st.ttl env.instant st.inner st.revoked k s e x))
  | inr x ↦ inl (s, rw (inner-sweep env) (get-retain _ k st.inner d ∙ rw e (rw x)), refl)
]

module _ (session_key : Text → Text) where
  -- The id that the call draws names no session yet.
  abbrev pub IsFresh : SessionStore → Call → Type 0
  IsFresh st (creates env fresh) = HashMap.get (session_key fresh.id) st.inner ≡ none
  IsFresh st (logs_in env fresh old user) = HashMap.get (session_key fresh.id) st.inner ≡ none
  IsFresh st (begins_mfa env fresh old user) = HashMap.get (session_key fresh.id) st.inner ≡ none
  IsFresh st c = Unit

  absent-drop_key :
      (k key : Text) (st : SessionStore)
      → HashMap.get k st.inner ≡ none
      → HashMap.get k (drop_key key st).inner ≡ none
  unfolding drop_key
  absent-drop_key k key st h = ground (arith, get-remove key k st.inner)

  KeptOrTold-put :
      (fresh : Fresh) (v : Session) (st st' : SessionStore)
      → HashMap.get (session_key fresh.id) st'.inner ≡ none
      → KeptOrTold st st'
      → KeptOrTold st (put session_key fresh v st')
  KeptOrTold-put fresh v st st' h =
      KeptOrTold-insert (session_key fresh.id) v st st' (λ t e. absurd (cc (h, e)))

  KeptOrTold-replace :
      (env : Env) (fresh : Fresh) (old : Text) (v : Session) (st : SessionStore)
      → HashMap.get (session_key fresh.id) st.inner ≡ none
      → KeptOrTold st (replace session_key env fresh old v st).0
  unfolding replace
  KeptOrTold-replace env fresh old v st h = KeptOrTold-persist env st _ (
      KeptOrTold-put fresh v st (drop_key (session_key old) st)
        (absent-drop_key (session_key fresh.id) (session_key old) st h)
        (KeptOrTold-drop_key (session_key old) st))

  step-KeptOrTold :
      (st : SessionStore) (c : Call)
      → IsDistinct st
      → IsFresh st c
      → KeptOrTold st (step session_key st c)
  unfolding step create login begin_mfa
  step-KeptOrTold st (creates env fresh) d f =
      KeptOrTold-put fresh _ st (make_room st)
        (make_room_cases (λ t. HashMap.get (session_key fresh.id) t.inner ≡ none) st f
          (λ k. absent-drop_key (session_key fresh.id) k st f))
        (make_room_cases (KeptOrTold st) st (KeptOrTold-refl st) (λ k. KeptOrTold-drop_key k st))
  step-KeptOrTold st (gets env id) d f =
      get_cases session_key (KeptOrTold st) env id st (KeptOrTold-refl st)
        (KeptOrTold-persist env st _ (KeptOrTold-drop_key (session_key id) st))
  step-KeptOrTold st (removes env id) d f =
      remove_cases session_key (KeptOrTold st) env id st (KeptOrTold-refl st)
        (KeptOrTold-persist env st _ (KeptOrTold-drop_key (session_key id) st))
  step-KeptOrTold st (logs_in env fresh old user) d f = KeptOrTold-replace env fresh old _ st f
  step-KeptOrTold st (begins_mfa env fresh old user) d f = KeptOrTold-replace env fresh old _ st f
  step-KeptOrTold st (sweeps env) d f = KeptOrTold-sweep env st d
  step-KeptOrTold st (sets_oauth env id flow) d f =
      set_oauth_cases session_key (KeptOrTold st) env id flow st (KeptOrTold-refl st) (λ t e.
        KeptOrTold-persist env st _ (
          KeptOrTold-insert (session_key id) (record t { oauth = flow }) st st
            (λ u g. ap (λ (x : Session). x.channel) (some_inj (sym e ∙ g))) (KeptOrTold-refl st)))

  -- No session goes silently: whatever the call, a session is either still there with its channel or
  -- its channel has been told: eviction, expiry, logout and the change of id at a login alike. The
  -- map's keys are distinct and the id that the call draws is new.
  pub step-watched :
      (st : SessionStore) (c : Call) (k : Text) (s : Session)
      → IsDistinct st
      → IsFresh st c
      → HashMap.get k st.inner ≡ some s
      → ((t : Session) × (HashMap.get k (step session_key st c).inner ≡ some t)
          × (t.channel ≡ s.channel))
        ⊎ (is_told s.channel (step session_key st c).revoked ≡ true)
  step-watched st c k s d f e = step-KeptOrTold st c d f k s e
