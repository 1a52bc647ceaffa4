-- ===== src/Oidc.antt =====
-- src/oidc.rs: the secrets of one sign-in and the checks on the claims of an ID token. The exchange
-- with the token endpoint, base64 and JSON are not modelled: the claims are its input.
pub mod Checks
mod Tests
use webshell.Base.{
  ℕ, ◌≡◌, Bool, true, false, not, ◌&&◌, ◌||◌, Option, none, some, ltb, leb, if◌then◌else◌, Text,
  codes, Eq, ◌=?◌, text_eq, any_of, List, [], ◌∷◌,
}
use webshell.Identity.{Identity, Provider}
use webshell.Identity

-- `Flow`
pub record Flow : Type 0 where
  pub state : Text
  pub nonce : Text
  pub verifier : Text

-- `Claims`
pub record Claims : Type 0 where
  pub iss : Text
  pub aud : Text
  pub exp : ℕ
  pub sub : Text
  pub nonce : Option Text
  pub email : Option Text
  pub email_verified : Bool

-- `Verified`
pub record Verified : Type 0 where
  pub identity : Identity
  pub sub : Text

-- `ISSUERS`
abbrev pub issuers : List Text
issuers = codes "https://accounts.google.com" ∷ codes "accounts.google.com" ∷ []

unfoldable pub known_issuer : Text → Bool
known_issuer iss = any_of (λ i. i =? iss) issuers

pub data Refusal : Type 0 where
  wrong_issuer wrong_audience expired wrong_nonce unverified_email no_email : Refusal

pub data Result {ℓ} (A : Type ℓ) : Type ℓ where
  ok : A → Result A
  err : Refusal → Result A

abbrev pub nonce_is : Text → Option Text → Bool
nonce_is wanted none = false
nonce_is wanted (some n) = n =? wanted

-- `validate`
unfoldable pub validate : Claims → Text → Flow → ℕ → Result (Unit {0})
validate claims client_id flow now =
    if not (known_issuer claims.iss)
    then err wrong_issuer
    else if not (claims.aud =? client_id)
    then err wrong_audience
    else if leb claims.exp now
    then err expired
    else if not (nonce_is flow.nonce claims.nonce)
    then err wrong_nonce
    else if not claims.email_verified
    then err unverified_email
    else ok tt

with_email : Claims → Option Text → Result Verified
with_email claims none = err no_email
with_email claims (some email) =
    ok (record { identity = Identity.new Provider.google email; sub = claims.sub })

then_email : Claims → Result (Unit {0}) → Result Verified
then_email claims (ok _) = with_email claims claims.email
then_email claims (err e) = err e

-- The end of `exchange`, from the claims on.
unfoldable pub accept : Claims → Text → Flow → ℕ → Result Verified
unfolding with_email then_email
accept claims client_id flow now = then_email claims (validate claims client_id flow now)
