-- ===== src/Session/Steps.antt =====
-- The calls of a session store as steps, and what each leaves under a key.
use webshell.Base.{
  ◌≡◌, not, Option, none, some, List, [], ◌∷◌, arith, Text, text_eq, inl, inr, Option-cases,
  Bool-cases, leb, length,
}
use webshell.HashMap
use webshell.HashMap.{HashMap, Distinct, keep_entry}
use webshell.HashMap.Laws.{get-remove_self, insert-Distinct, remove-Distinct, retain-Distinct}
use webshell.Oidc.{Flow}
use webshell.Session.{
  Session, SessionStore, Env, Fresh, persist, drop_key, drop_victim, victim, make_room, sweep,
  expired, create, get, max_sessions, get_found, remove, remove_found, replace, login, begin_mfa,
  set_oauth, set_oauth_found,
}

pub data Call : Type 0 where
  creates : Env → Fresh → Call
  gets removes : Env → Text → Call
  logs_in begins_mfa : Env → Fresh → Text → Text → Call
  sweeps : Env → Call
  sets_oauth : Env → Text → Option Flow → Call

pub inner-persist : (env : Env) (st : SessionStore) → (persist env st).inner ≡ st.inner
unfolding persist
inner-persist env st = ground arith

pub revoked-persist : (env : Env) (st : SessionStore) → (persist env st).revoked ≡ st.revoked
unfolding persist
revoked-persist env st = ground arith

pub inner-sweep :
    (env : Env) (st : SessionStore)
    → (sweep env st).inner ≡ HashMap.retain (λ _ s. not (expired s st.ttl env.instant)) st.inner
unfolding sweep persist
inner-sweep env st = ground arith

-- `drop_victim` and `make_room` drop one key or none.
pub drop_victim_cases {ℓ} :
    (P : SessionStore → Type ℓ) (v : Option (Text × Session)) (st : SessionStore)
    → P st
    → ((k : Text) → P (drop_key k st))
    → P (drop_victim v st)
drop_victim_cases P none st keep drop = keep
drop_victim_cases P (some (k, s)) st keep drop = drop k

pub make_room_cases {ℓ} :
    (P : SessionStore → Type ℓ) (st : SessionStore)
    → P st
    → ((k : Text) → P (drop_key k st))
    → P (make_room st)
unfolding make_room
make_room_cases P st keep drop = elim (Bool-cases (leb max_sessions (length st.inner))) [
  | inl e ↦ rw e (drop_victim_cases P (victim st.inner) st keep drop)
  | inr e ↦ rw e keep
]

module _ (session_key : Text → Text) where
  unfoldable pub step : SessionStore → Call → SessionStore
  step st (creates env fresh) = (create session_key env fresh st).0
  step st (gets env id) = (get session_key env id st).0
  step st (removes env id) = remove session_key env id st
  step st (logs_in env fresh old user) = (login session_key env fresh old user st).0
  step st (begins_mfa env fresh old user) = (begin_mfa session_key env fresh old user st).0
  step st (sweeps env) = sweep env st
  step st (sets_oauth env id flow) = set_oauth session_key env id flow st

  unfoldable pub run : SessionStore → List Call → SessionStore
  run st [] = st
  run st (c ∷ cs) = run (step st c) cs

  pub get_cases {ℓ} :
      (P : SessionStore → Type ℓ) (env : Env) (id : Text) (st : SessionStore)
      → P st
      → P (persist env (drop_key (session_key id) st))
      → P (get session_key env id st).0
  unfolding get get_found
  get_cases P env id st keep drop = elim (Option-cases (HashMap.get (session_key id) st.inner)) [
    | inl e ↦ rw (e, get_found) keep
    | inr (s, e) ↦ elim (Bool-cases (expired s st.ttl env.instant)) [
      | inl x ↦ rw (e, get_found) (rw x drop)
      | inr x ↦ rw (e, get_found) (rw x keep)
    ]
  ]

  pub remove_cases {ℓ} :
      (P : SessionStore → Type ℓ) (env : Env) (id : Text) (st : SessionStore)
      → P st
      → P (persist env (drop_key (session_key id) st))
      → P (remove session_key env id st)
  unfolding remove remove_found
  remove_cases P env id st keep drop = elim (Option-cases (HashMap.get (session_key id) st.inner)) [
    | inl e ↦ rw (e, remove_found) keep
    | inr (s, e) ↦ rw (e, remove_found) drop
  ]

  -- What `remove` removes is gone.
  pub get-remove :
      (env : Env) (id : Text) (st : SessionStore)
      → HashMap.get (session_key id) (remove session_key env id st).inner ≡ none
  unfolding remove remove_found drop_key
  get-remove env id st = elim (Option-cases (HashMap.get (session_key id) st.inner)) [
    | inl e ↦ rw (e, remove_found) e
    | inr (s, e) ↦
        rw (e, remove_found, inner-persist env (drop_key (session_key id) st))
          (get-remove_self (session_key id) st.inner)
  ]

  pub set_oauth_cases {ℓ} :
      (P : SessionStore → Type ℓ) (env : Env) (id : Text) (flow : Option Flow) (st : SessionStore)
      → P st
      → ((s : Session)
          → HashMap.get (session_key id) st.inner ≡ some s
          → P (
              persist env (record st {
                inner = HashMap.insert (session_key id) (record s { oauth = flow }) st.inner;
              })))
      → P (set_oauth session_key env id flow st)
  unfolding set_oauth set_oauth_found
  set_oauth_cases P env id flow st keep change =
      elim (Option-cases (HashMap.get (session_key id) st.inner)) [
        | inl e ↦ rw (e, set_oauth_found) keep
        | inr (s, e) ↦ rw (e, set_oauth_found) (change s e)
      ]

-- No key stands twice in the map, whatever the calls.
abbrev pub IsDistinct : SessionStore → Type 0
IsDistinct st = Distinct st.inner

drop_key-IsDistinct : (k : Text) (st : SessionStore) → IsDistinct st → IsDistinct (drop_key k st)
unfolding drop_key
drop_key-IsDistinct k st d = remove-Distinct k st.inner d

persist-IsDistinct : (env : Env) (st : SessionStore) → IsDistinct st → IsDistinct (persist env st)
persist-IsDistinct env st d = rw (inner-persist env st) d

module _ (session_key : Text → Text) where
  replace-IsDistinct :
      (env : Env) (fresh : Fresh) (old : Text) (s : Session) (st : SessionStore)
      → IsDistinct st
      → IsDistinct (replace session_key env fresh old s st).0
  unfolding replace
  replace-IsDistinct env fresh old s st d =
      persist-IsDistinct env _
        (insert-Distinct (session_key fresh.id) s _ (drop_key-IsDistinct (session_key old) st d))

  pub step-IsDistinct :
      (st : SessionStore) (c : Call) → IsDistinct st → IsDistinct (step session_key st c)
  unfolding step create login begin_mfa
  step-IsDistinct st (creates env fresh) d =
      insert-Distinct (session_key fresh.id) _ _
        (make_room_cases IsDistinct st d (λ k. drop_key-IsDistinct k st d))
  step-IsDistinct st (gets env id) d =
      get_cases session_key IsDistinct env id st d
        (persist-IsDistinct env _ (drop_key-IsDistinct (session_key id) st d))
  step-IsDistinct st (removes env id) d =
      remove_cases session_key IsDistinct env id st d
        (persist-IsDistinct env _ (drop_key-IsDistinct (session_key id) st d))
  step-IsDistinct st (logs_in env fresh old user) d = replace-IsDistinct env fresh old _ st d
  step-IsDistinct st (begins_mfa env fresh old user) d = replace-IsDistinct env fresh old _ st d
  step-IsDistinct st (sweeps env) d = rw (inner-sweep env st) (retain-Distinct _ st.inner d)
  step-IsDistinct st (sets_oauth env id flow) d =
      set_oauth_cases session_key IsDistinct env id flow st d
        (λ s e. persist-IsDistinct env _ (insert-Distinct (session_key id) _ st.inner d))
