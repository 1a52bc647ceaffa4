-- ===== src/Auth/Tests.antt =====
-- The logins of one user, with a password, a code and with Google, and a logout.
use webshell.Base.{
  ℕ, ◌≡◌, ◌⊎◌, ◌=?◌, refl, Bool, true, false, Option, none, some, List, [], ◌∷◌, Text, codes,
  text_eq,
}
use webshell.HashMap
use webshell.Identity.{Identity, Provider}
use webshell.Session
use webshell.Session.{Session, SessionStore, Env, Fresh, start}
use webshell.Session.Steps.{IsDistinct}
use webshell.Session.Login.{Was}
use webshell.LoginGuard
use webshell.Auth.{Config, AppState, Jar, Moment, to_login, current_session}
use webshell.Auth.Logout.{logout}
use webshell.Auth.Logout.Ends.{logout-ends}
use webshell.Auth.LocalLogin.{LocalLoginForm, local_login}
use webshell.Auth.LocalLogin.Password.{PasswordLogin, local_login-PasswordLogin}
use webshell.Auth.MfaSubmit.{MfaForm, mfa_submit}
use webshell.Auth.Callback.{
  GoogleConfig, CallbackQuery, google_usable, redirect_uri, oauth_callback,
}
use webshell.Auth.Callback.Google.{GoogleLogin, oauth_callback-GoogleLogin}
use webshell.Oidc.{Flow, Claims}
use webshell.Auth.MfaSubmit.Code.{CodeLogin, mfa_submit-CodeLogin}

-- Hashes that are none: of a cookie, of a password, of a counter.
abbrev hash : Text → Text
hash t = b'#' ∷ t

abbrev same : Text → Text → Option Bool
same stored password = some (stored =? password)

abbrev toy : Text → Text → Text
toy key message = message

abbrev alice : Identity
alice = record { provider = Provider.local; subject = codes "alice" }

abbrev config : Config
config = record {
  users = alice ∷ [];
  login_methods = Provider.local ∷ [];
  local_passwords = (codes "local:alice", codes "pw") ∷ [];
  mfa_required = false;
  remember_device = false;
  remember_device_window = 0;
  max_devices_per_identity = 1;
}

abbrev env : Env
env = record { instant = 5; unix = 1001; wrote = true }

abbrev m : Moment
m = record {
  arrival = env;
  late = env;
  enrollment_written = true;
  devices_written = true;
  fresh = record { id = codes "new"; csrf = codes "d"; channel = 2 };
  device_token = codes "t";
  device_id = codes "i";
  client = record { user_agent = []; ip = [] };
}

abbrev waiting : Session
waiting = record {
  authenticated = false;
  mfa_pending = true;
  username = codes "local:alice";
  oauth = none;
  csrf = codes "c";
  created = 0;
  created_unix = 1000;
  channel = 1;
}

abbrev app : AppState
app = record {
  sessions = record {
    inner = (hash (codes "old"), waiting) ∷ [];
    ttl = 3600;
    has_path = false;
    disk = none;
    revoked = [];
  };
  login_guard = LoginGuard.new;
  enrollment = record { inner = []; disk = none };
  devices = record { inner = []; disk = none };
  otp_used = [];
}

abbrev jar : Jar
jar = record { session = some (codes "old"); device = none }

abbrev form : LocalLoginForm
form = record { csrf = codes "c"; username = codes "Alice"; password = codes "pw" }

abbrev code_form : MfaForm
code_form = record {
  csrf = codes "c";
  otp = codes "000000";
  seed = some (codes "AAAAAAAAAAAAAAAAAAAAAAAAAA");
  remember = false;
}

abbrev signed_in : Session
signed_in = start hash env m.fresh true false (codes "local:alice")

distinct : IsDistinct app.sessions
distinct = (unfold HashMap.get in refl, tt)

after_password :
    HashMap.get
      (hash (codes "new"))
      (local_login hash hash same config m jar form app).0.sessions.inner
    ≡ some signed_in
unfolding local_login current_session Session.get HashMap.get Session.expired
    webshell.Identity.contains webshell.Identity.new webshell.Base.Strings.trim
    webshell.Base.Strings.is_whitespace webshell.Auth.LocalLogin.password_checked
    webshell.Auth.find_password webshell.Identity.to_string webshell.Identity.as_str Session.login
    Session.persist Session.drop_key webshell.Auth.conclude HashMap.insert
after_password = refl

local_login-PasswordLogin_example :
    PasswordLogin hash hash same config m jar form app signed_in
    ⊎ Was app.sessions (hash (codes "new")) signed_in
local_login-PasswordLogin_example =
    local_login-PasswordLogin hash hash same config m jar form app (hash (codes "new")) signed_in
      distinct after_password refl

after_code :
    HashMap.get
      (hash (codes "new"))
      (mfa_submit hash hash toy config m jar code_form app).0.sessions.inner
    ≡ some signed_in
unfolding mfa_submit current_session Session.get HashMap.get Session.expired
    webshell.Identity.from_str webshell.Base.Strings.split_once webshell.Base.Strings.trim
    webshell.Base.Strings.is_whitespace webshell.Identity.parse_provider LoginGuard.mfa_locked
    LoginGuard.enter webshell.Totp.valid_seed webshell.Auth.MfaSubmit.enrollment_of
    webshell.Totp.verify webshell.Totp.code_at webshell.Base.Strings.to_decimal
    webshell.Totp.at_index webshell.Auth.MfaSubmit.accept webshell.Totp.accept_at
    webshell.Auth.MfaSubmit.replay_guard webshell.Devices.revoke_all webshell.Devices.shrink
    webshell.Devices.write webshell.Enrollment.enroll webshell.Enrollment.entry
    webshell.Enrollment.write HashMap.insert HashMap.remove HashMap.retain webshell.Identity.as_str
    webshell.Identity.new webshell.Identity.to_string LoginGuard.recent_failures Session.drop_key
    Session.login Session.persist Session.snapshot webshell.Totp.decode_base32
    webshell.Totp.decode_from webshell.Totp.is_skipped webshell.Totp.position webshell.Auth.conclude
after_code = refl

mfa_submit-CodeLogin_example :
    CodeLogin hash hash toy config m jar code_form
      (current_session hash hash env (some (codes "old")) app).0
      (current_session hash hash env (some (codes "old")) app).1
      signed_in
    ⊎ Was app.sessions (hash (codes "new")) signed_in
mfa_submit-CodeLogin_example =
    mfa_submit-CodeLogin hash hash toy config m jar code_form app (hash (codes "new")) signed_in
      distinct after_code refl

-- A sign-in with Google of the same browser.
abbrev google_alice : Identity
google_alice = record { provider = Provider.google; subject = codes "a@b" }

abbrev google_config : Config
google_config = record config { users = google_alice ∷ []; login_methods = Provider.google ∷ [] }

abbrev google : GoogleConfig
google = record {
  google_client_id = some (codes "client");
  google_client_secret = some (codes "secret");
  public_base_url = some (codes "https://h");
}

abbrev flow : Flow
flow = record { state = codes "s"; nonce = codes "n"; verifier = codes "v" }

abbrev query : CallbackQuery
query = record { code = some (codes "k"); state = some (codes "s"); error = none }

abbrev endpoint : Text → Text → Text → Text → Flow → Option Claims
endpoint client_id client_secret uri code _ = some (record {
  iss = codes "accounts.google.com";
  aud = codes "client";
  exp = 2000;
  sub = codes "sub";
  nonce = some (codes "n");
  email = some (codes "A@b");
  email_verified = true;
})

abbrev asked : AppState
asked = record app {
  sessions = record app.sessions {
    inner =
        (
          hash (codes "old"),
          record waiting { mfa_pending = false; username = []; oauth = some flow },
        )
        ∷ [];
  };
}

abbrev google_signed_in : Session
google_signed_in = start hash env m.fresh true false (codes "google:a@b")

asked-IsDistinct : IsDistinct asked.sessions
asked-IsDistinct = (unfold HashMap.get in refl, tt)

after_callback :
    HashMap.get
      (hash (codes "new"))
      (oauth_callback hash hash endpoint google_config google m jar query asked).0.sessions.inner
    ≡ some google_signed_in
unfolding oauth_callback google_usable redirect_uri current_session Session.get HashMap.get
    Session.expired Session.set_oauth webshell.Oidc.accept webshell.Oidc.validate
    webshell.Oidc.known_issuer webshell.Identity.contains webshell.Identity.new
    webshell.Base.Strings.trim webshell.Base.Strings.is_whitespace webshell.Identity.to_string
    webshell.Identity.as_str webshell.Enrollment.pin_subject webshell.Enrollment.entry
    webshell.Enrollment.write Session.login Session.persist Session.drop_key HashMap.insert
    HashMap.remove
after_callback = refl

oauth_callback-GoogleLogin_example :
    GoogleLogin hash hash endpoint google_config google m jar query asked google_signed_in
    ⊎ Was asked.sessions (hash (codes "new")) google_signed_in
oauth_callback-GoogleLogin_example =
    oauth_callback-GoogleLogin hash hash endpoint google_config google m jar query asked
      (hash (codes "new")) google_signed_in asked-IsDistinct after_callback refl

found_waiting :
    current_session hash hash env (some (codes "old")) app ≡ (app, some (codes "old", waiting))
unfolding current_session Session.get HashMap.get Session.expired
found_waiting = refl

logout-ends_example :
    let (app', jar', reply) =
      logout hash hash m jar (record { csrf = codes "c"; forget = none }) app in
    (HashMap.get (hash (codes "old")) app'.sessions.inner ≡ none)
    × (jar'.session ≡ none)
    × (reply ≡ to_login)
logout-ends_example =
    logout-ends hash hash m jar (record { csrf = codes "c"; forget = none }) app app (codes "old")
      waiting found_waiting
