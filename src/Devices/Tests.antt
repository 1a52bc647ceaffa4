-- ===== src/Devices/Tests.antt =====
-- A store with one trusted browser.
use webshell.Base.{◌≡◌, ◌↔◌, ◌⊎◌, ◌≤◌, refl, true, false, none, some, [], ◌∷◌, Text, codes, length}
use webshell.HashMap
use webshell.HashMap.{HashMap}
use webshell.Identity.{Identity, Provider}
use webshell.Devices.{Device, DeviceStore, Client, authorize, mint, mine, revoke_all, load, write}
use webshell.Devices.Trust.{IsTrusted, authorize_iff}
use webshell.Devices.Revocation.{revoke_all-refused}
use webshell.Devices.Eviction.{mint-bound}

-- A hash that is none.
abbrev hash : Text → Text
hash token = b'#' ∷ token

abbrev alice : Identity
alice = record { provider = Provider.google; subject = codes "alice" }

abbrev client : Client
client = record { user_agent = codes "Firefox"; ip = codes "10.0.0.1" }

abbrev laptop : Device
laptop = record {
  id = codes "d1";
  identity = alice;
  token_hash = hash (codes "t");
  created_at = 10;
  expires_at = 100;
  last_used_at = 20;
  enrolled_at = 5;
  user_agent = codes "Firefox";
  created_ip = codes "10.0.0.1";
  last_ip = codes "10.0.0.1";
}

abbrev store : DeviceStore
store = record { inner = (hash (codes "t"), laptop) ∷ []; disk = none }

test_authorize : (authorize hash false (codes "t") alice 5 client 99 store).1 ≡ some (codes "d1")
unfolding authorize write HashMap.get
test_authorize = refl

test_expired : (authorize hash true (codes "t") alice 5 client 100 store).1 ≡ none
unfolding authorize write HashMap.get
test_expired = refl

authorize_iff_example :
    ((authorize hash true (codes "t") alice 5 client 99 store).1 ≡ some (codes "d1"))
    ↔ ((d : Device) × IsTrusted hash (codes "t") alice 5 99 store d × (d.id ≡ codes "d1"))
authorize_iff_example = authorize_iff hash true (codes "t") alice 5 client 99 store (codes "d1")

revoke_all-refused_example :
    ((authorize hash true (codes "t") alice 5 client 99 (revoke_all false alice store).0).1 ≡ none)
    × (((revoke_all true alice store).1 ≡ 0)
        ⊎ ((authorize hash true
              (codes "t")
              alice
              5
              client
              99
              (load 30 (revoke_all true alice store).0.disk)).1
            ≡ none))
revoke_all-refused_example =
    revoke_all-refused hash false true (codes "t") alice 5 client 99 30 store

mint-bound_example :
    length
      (mine alice (mint hash true (codes "u") (codes "d2") alice 5 1000 1 client 50 store).0.inner)
    ≤ 1
mint-bound_example =
    mint-bound hash true (codes "u") (codes "d2") alice 5 1000 1 client 50 store
      (unfold HashMap.get in refl, tt)
