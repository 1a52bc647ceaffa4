-- ===== src/Session.antt =====
-- `SessionStore` of src/session.rs. An `Instant` is a number of nanoseconds, a ttl is in seconds.
-- The hash of a cookie's id (SHA-256 in base64) is a parameter; random tokens, the clocks and
-- whether a write of the file succeeds come with each call. A `watch` channel is a number, and the
-- store keeps the list of those that have been told `true`.
pub mod Steps
pub mod Signals
pub mod Login
pub mod Capacity
pub mod Load
pub mod Disk
mod Tests
use webshell.Base.{
  ℕ, ◌+◌, ◌-◌, ◌*◌, ◌≡◌, ◌++◌, Bool, true, false, not, ◌&&◌, ◌||◌, Option, none, some, List, [],
  ◌∷◌, ltb, leb, if◌then◌else◌, length, Text, is_some, any_of, text_eq,
}
use webshell.HashMap
use webshell.HashMap.{HashMap}
use webshell.Oidc.{Flow}

-- `PREAUTH_TTL` in seconds, and `MAX_SESSIONS`
abbrev pub preauth_ttl : ℕ
preauth_ttl = 1800

abbrev pub max_sessions : ℕ
max_sessions = 10_000

abbrev pub nanos : ℕ → ℕ
nanos secs = secs * 1_000_000_000

-- `Session`; `channel` is its `revoked` sender.
pub record Session : Type 0 where
  pub authenticated : Bool
  pub mfa_pending : Bool
  pub username : Text
  pub oauth : Option Flow
  pub csrf : Text
  pub created : ℕ
  pub created_unix : ℕ
  pub channel : ℕ

-- `DiskSession`
pub record DiskSession : Type 0 where
  pub authenticated : Bool
  pub mfa_pending : Bool
  pub username : Text
  pub oauth : Option Flow
  pub csrf : Text
  pub created_unix : ℕ

-- `SessionStore`, its file and the channels that were signalled.
pub record SessionStore : Type 0 where
  pub inner : HashMap Text Session
  pub ttl : ℕ
  pub has_path : Bool
  pub disk : Option (HashMap Text DiskSession)
  pub revoked : List ℕ

-- What a call meets: the two clocks, and whether `write_atomic` succeeds.
pub record Env : Type 0 where
  pub instant : ℕ
  pub unix : ℕ
  pub wrote : Bool

-- What a call draws: a session id, a CSRF token and a new channel.
pub record Fresh : Type 0 where
  pub id : Text
  pub csrf : Text
  pub channel : ℕ

-- `Session::ttl` and `Session::expired`
abbrev pub ttl_of : Bool → ℕ → ℕ
ttl_of authenticated auth_ttl = if authenticated then auth_ttl else preauth_ttl

unfoldable pub expired : Session → ℕ → ℕ → Bool
expired s auth_ttl instant = leb (nanos (ttl_of s.authenticated auth_ttl)) (instant - s.created)

-- `Session::remaining`
unfoldable pub remaining : Session → ℕ → ℕ → ℕ
remaining s auth_ttl instant = nanos (ttl_of s.authenticated auth_ttl) - (instant - s.created)

-- `meaningful`
unfoldable pub meaningful : Session → Bool
meaningful s = s.authenticated || s.mfa_pending || is_some s.oauth

abbrev pub to_disk : Session → DiskSession
to_disk s = record {
  authenticated = s.authenticated;
  mfa_pending = s.mfa_pending;
  username = s.username;
  oauth = s.oauth;
  csrf = s.csrf;
  created_unix = s.created_unix;
}

-- The sessions that `persist_locked` writes.
unfoldable pub snapshot : ℕ → ℕ → HashMap Text Session → HashMap Text DiskSession
snapshot ttl instant [] = []
snapshot ttl instant ((k, s) ∷ m) =
    let rest = snapshot ttl instant m in
    if meaningful s && not (expired s ttl instant) then (k, to_disk s) ∷ rest else rest

-- `persist_locked`: with no path, or when the write fails, the file stays as it is.
unfoldable pub persist : Env → SessionStore → SessionStore
persist env st =
    if st.has_path && env.wrote
    then record st { disk = some (snapshot st.ttl env.instant st.inner) }
    else st

-- `session.revoke()` on what `guard.remove(&key)` returned
abbrev pub signal : Option Session → List ℕ → List ℕ
signal none revoked = revoked
signal (some s) revoked = s.channel ∷ revoked

-- `if let Some(session) = guard.remove(&key) { session.revoke() }`
unfoldable pub drop_key : Text → SessionStore → SessionStore
drop_key key st = record st {
  inner = HashMap.remove key st.inner;
  revoked = signal (HashMap.get key st.inner) st.revoked;
}

abbrev pub earlier : Text × Session → Option (Text × Session) → Option (Text × Session)
earlier e none = some e
earlier (k, s) (some (j, t)) = if leb s.created t.created then some (k, s) else some (j, t)

-- `min_by_key(|(_, s)| s.created)` over the sessions that pass the filter
unfoldable pub oldest : (Session → Bool) → HashMap Text Session → Option (Text × Session)
oldest p [] = none
oldest p ((k, s) ∷ m) = let rest = oldest p m in if p s then earlier (k, s) rest else rest

-- The oldest session that is not authenticated, or else the oldest of all.
abbrev or_oldest : HashMap Text Session → Option (Text × Session) → Option (Text × Session)
or_oldest m (some v) = some v
or_oldest m none = oldest (λ _. true) m

unfoldable pub victim : HashMap Text Session → Option (Text × Session)
victim m = or_oldest m (oldest (λ s. not s.authenticated) m)

abbrev drop_victim : Option (Text × Session) → SessionStore → SessionStore
drop_victim none st = st
drop_victim (some (k, _)) st = drop_key k st

-- The eviction of `create`
unfoldable pub make_room : SessionStore → SessionStore
make_room st = if leb max_sessions (length st.inner) then drop_victim (victim st.inner) st else st

abbrev signal_all : List Session → List ℕ → List ℕ
signal_all [] revoked = revoked
signal_all (s ∷ ss) revoked = s.channel ∷ signal_all ss revoked

-- The sessions that `sweep` drops
unfoldable pub outdated : ℕ → ℕ → HashMap Text Session → List Session
outdated ttl instant [] = []
outdated ttl instant ((k, s) ∷ m) =
    let rest = outdated ttl instant m in if expired s ttl instant then s ∷ rest else rest

abbrev nonempty : List Session → Bool
nonempty [] = false
nonempty (s ∷ ss) = true

-- `sweep`
unfoldable pub sweep : Env → SessionStore → SessionStore
sweep env st =
    let gone = outdated st.ttl env.instant st.inner in
    let swept : SessionStore = record st {
      inner = HashMap.retain (λ _ s. not (expired s st.ttl env.instant)) st.inner;
      revoked = signal_all gone st.revoked;
    } in
    if nonempty gone then persist env swept else swept

module _ (session_key : Text → Text) where
  -- A new session as `create`, `login` and `begin_mfa` fill it in.
  abbrev pub start : Env → Fresh → Bool → Bool → Text → Session
  start env fresh authenticated mfa_pending username = record {
    authenticated = authenticated;
    mfa_pending = mfa_pending;
    username = username;
    oauth = none;
    csrf = fresh.csrf;
    created = env.instant;
    created_unix = env.unix;
    channel = fresh.channel;
  }

  abbrev put : Fresh → Session → SessionStore → SessionStore
  put fresh s st = record st { inner = HashMap.insert (session_key fresh.id) s st.inner }

  -- `create`
  unfoldable pub create : Env → Fresh → SessionStore → SessionStore × Text
  create env fresh st = (put fresh (start env fresh false false []) (make_room st), fresh.id)

  get_found : Env → Text → Option Session → SessionStore → SessionStore × Option Session
  get_found env key none st = (st, none)
  get_found env key (some s) st =
      if not (expired s st.ttl env.instant)
      then (st, some s)
      else (persist env (drop_key key st), none)

  -- `get`
  unfoldable pub get : Env → Text → SessionStore → SessionStore × Option Session
  unfolding get_found
  get env id st = get_found env (session_key id) (HashMap.get (session_key id) st.inner) st

  remove_found : Env → Text → Option Session → SessionStore → SessionStore
  remove_found env key none st = st
  remove_found env key (some s) st = persist env (drop_key key st)

  -- `remove`
  unfoldable pub remove : Env → Text → SessionStore → SessionStore
  unfolding remove_found
  remove env id st = remove_found env (session_key id) (HashMap.get (session_key id) st.inner) st

  -- The common body of `login` and `begin_mfa`
  unfoldable pub replace : Env → Fresh → Text → Session → SessionStore → SessionStore × Text
  replace env fresh old_id s st =
      (persist env (put fresh s (drop_key (session_key old_id) st)), fresh.id)

  -- `login`
  unfoldable pub login : Env → Fresh → Text → Text → SessionStore → SessionStore × Text
  unfolding replace
  login env fresh old_id username st =
      replace env fresh old_id (start env fresh true false username) st

  -- `begin_mfa`
  unfoldable pub begin_mfa : Env → Fresh → Text → Text → SessionStore → SessionStore × Text
  unfolding replace
  begin_mfa env fresh old_id username st =
      replace env fresh old_id (start env fresh false true username) st

  set_oauth_found : Env → Text → Option Flow → Option Session → SessionStore → SessionStore
  set_oauth_found env key flow none st = st
  set_oauth_found env key flow (some s) st =
      persist env (record st { inner = HashMap.insert key (record s { oauth = flow }) st.inner })

  -- `set_oauth`
  unfoldable pub set_oauth : Env → Text → Option Flow → SessionStore → SessionStore
  unfolding set_oauth_found
  set_oauth env id flow st =
      set_oauth_found env (session_key id) flow (HashMap.get (session_key id) st.inner) st
