-- ===== src/Session/Tests.antt =====
-- A store with one pending session.
use webshell.Base.{◌≡◌, ◌⊎◌, refl, true, false, none, some, [], ◌∷◌, arith, Text, codes, text_eq}
use webshell.HashMap
use webshell.HashMap.{HashMap}
use webshell.Session.{
  Session, SessionStore, Env, Fresh, start, login, persist, snapshot, meaningful, expired, replace,
  drop_key,
}
use webshell.Session.Steps.{Call, logs_in, step, run, IsDistinct}
use webshell.Session.Signals.{is_told, step-watched}
use webshell.Session.Login.{LoggedIn, Was, IsNew, run-LoggedIn, login_lem}
use webshell.Session.Load.{load}
use webshell.Session.Disk.{Resumes, load-persist}

-- A hash that is none.
abbrev hash : Text → Text
hash id = b'#' ∷ id

abbrev pending : Session
pending = record {
  authenticated = false;
  mfa_pending = true;
  username = codes "a";
  oauth = none;
  csrf = codes "c";
  created = 0;
  created_unix = 1000;
  channel = 1;
}

abbrev store : SessionStore
store = record {
  inner = (hash (codes "old"), pending) ∷ [];
  ttl = 3600;
  has_path = true;
  disk = none;
  revoked = [];
}

abbrev env : Env
env = record { instant = 5; unix = 1001; wrote = true }

abbrev later : Env
later = record { instant = 0; unix = 1100; wrote = true }

abbrev fresh : Fresh
fresh = record { id = codes "new"; csrf = codes "d"; channel = 2 }

distinct : IsDistinct store
distinct = (unfold HashMap.get in refl, tt)

abbrev call : Call
call = logs_in env fresh (codes "old") (codes "a")

step-watched_example :
    ((t : Session) × (HashMap.get (hash (codes "old")) (step hash store call).inner ≡ some t)
      × (t.channel ≡ 1))
    ⊎ (is_told 1 (step hash store call).revoked ≡ true)
step-watched_example =
    step-watched hash store call (hash (codes "old")) pending distinct (unfold HashMap.get in refl)
      (unfold HashMap.get in refl)

abbrev signed_in : Session
signed_in = start hash env fresh true false (codes "a")

after_login : HashMap.get (hash (codes "new")) (run hash store (call ∷ [])).inner ≡ some signed_in
unfolding run step login replace persist drop_key snapshot HashMap.get HashMap.insert HashMap.remove
after_login = refl

run-LoggedIn_example :
    LoggedIn hash (hash (codes "new")) (codes "a") (call ∷ [])
    ⊎ Was store (hash (codes "new")) signed_in
run-LoggedIn_example =
    run-LoggedIn hash store (call ∷ []) (hash (codes "new")) signed_in distinct after_login refl

login_lem_example :
    (s : Session) × (HashMap.get
        (hash fresh.id)
        (login hash env fresh (codes "old") (codes "a") store).0.inner
      ≡ some s)
    × IsNew env fresh (codes "a") s
login_lem_example = login_lem hash env fresh (codes "old") (codes "a") store (hash fresh.id)

load-persist_example :
    (t : Session) × (HashMap.get
        (hash (codes "old"))
        (load later 3600 0 (persist env store).disk).inner
      ≡ some t)
    × Resumes later pending t
load-persist_example =
    load-persist env later 0 store (hash (codes "old")) pending refl refl
      (unfold HashMap.get in refl) (unfold meaningful in refl) (unfold expired in refl)
      (omega arith)
