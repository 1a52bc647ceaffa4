-- ===== src/Session/Load.antt =====
-- `SessionStore::load`: the sessions of the file that are still alive at the start of the process.
use webshell.Base.{
  ℕ, suc, ◌-◌, Bool, true, not, ◌&&◌, ◌||◌, Option, none, some, [], ◌∷◌, leb, if◌then◌else◌, Text,
  is_some, text_eq,
}
use webshell.HashMap
use webshell.HashMap.{HashMap}
use webshell.Session.{Session, SessionStore, DiskSession, Env, nanos, ttl_of, persist}

-- `DiskSession::meaningful`
unfoldable pub disk_meaningful : DiskSession → Bool
disk_meaningful d = d.authenticated || d.mfa_pending || is_some d.oauth

-- `created`: now less the age, or now if the clock does not reach back that far.
abbrev pub created_at : ℕ → ℕ → ℕ
created_at instant age = if leb (nanos age) instant then instant - nanos age else instant

abbrev pub restore : Env → ℕ → DiskSession → Session
restore env channel d = record {
  authenticated = d.authenticated;
  mfa_pending = d.mfa_pending;
  username = d.username;
  oauth = d.oauth;
  csrf = d.csrf;
  created = created_at env.instant (env.unix - d.created_unix);
  created_unix = d.created_unix;
  channel = channel;
}

unfoldable pub is_live : Env → ℕ → DiskSession → Bool
is_live env ttl d =
    disk_meaningful d && not (leb (ttl_of d.authenticated ttl) (env.unix - d.created_unix))

-- The loop over the file's sessions; each gets a new channel.
unfoldable pub restore_all : Env → ℕ → ℕ → HashMap Text DiskSession → HashMap Text Session
restore_all env ttl channel [] = []
restore_all env ttl channel ((k, d) ∷ ds) =
    let rest = restore_all env ttl (suc channel) ds in
    if is_live env ttl d then HashMap.insert k (restore env channel d) rest else rest

unfoldable pub from_file : Option (HashMap Text DiskSession) → HashMap Text DiskSession
from_file none = []
from_file (some ds) = ds

-- `load` from a file that parses, or from none. The file is then written back.
unfoldable pub load : Env → ℕ → ℕ → Option (HashMap Text DiskSession) → SessionStore
unfolding from_file
load env ttl channel file = persist env (record {
  inner = restore_all env ttl channel (from_file file);
  ttl = ttl;
  has_path = true;
  disk = file;
  revoked = [];
})
