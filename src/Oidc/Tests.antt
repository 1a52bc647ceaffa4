-- ===== src/Oidc/Tests.antt =====
-- The claims of one sign-in.
use webshell.Base.{◌≡◌, ◌↔◌, true, some, codes}
use webshell.Identity
use webshell.Identity.{Provider}
use webshell.Oidc.{Claims, Flow, Verified, ok, accept}
use webshell.Oidc.Checks.{Acceptable, SignsIn, accept_iff}

abbrev claims : Claims
claims = record {
  iss = codes "accounts.google.com";
  aud = codes "client";
  exp = 100;
  sub = codes "sub";
  nonce = some (codes "n");
  email = some (codes "Alice@gmail.com");
  email_verified = true;
}

abbrev flow : Flow
flow = record { state = codes "s"; nonce = codes "n"; verifier = codes "v" }

abbrev alice : Verified
alice = record {
  identity = Identity.new Provider.google (codes "alice@gmail.com");
  sub = codes "sub";
}

accept_iff_example :
    (accept claims (codes "client") flow 99 ≡ ok alice)
    ↔ (Acceptable claims (codes "client") flow 99 × SignsIn claims alice)
accept_iff_example = accept_iff claims (codes "client") flow 99 alice
