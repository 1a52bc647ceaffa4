-- ===== src/Oidc/Checks.antt =====
-- Which ID tokens sign somebody in.
use webshell.Base.{
  ℕ, ◌≡◌, ◌↔◌, ◌<◌, refl, sym, true, ◌⊎◌, Option, none, some, arith, ◌=?◌, text_eq, inl, inr,
  Bool-cases, Text, codes, =?_iff,
}
use webshell.Identity
use webshell.Identity.{Provider}
use webshell.Oidc.{
  Flow, Claims, Verified, ok, err, validate, accept, with_email, known_issuer, nonce_is, then_email,
  Result,
}

-- What must hold of the claims.
pub record Acceptable (claims : Claims) (client_id : Text) (flow : Flow) (now : ℕ) : Type 0 where
  pub issuer :
      (claims.iss ≡ codes "https://accounts.google.com")
      ⊎ (claims.iss ≡ codes "accounts.google.com")
  pub audience : claims.aud ≡ client_id
  pub live : now < claims.exp
  pub nonce : claims.nonce ≡ some flow.nonce
  pub verified : claims.email_verified ≡ true

known_issuer_sound :
    (iss : Text)
    → known_issuer iss ≡ true
    → (iss ≡ codes "https://accounts.google.com") ⊎ (iss ≡ codes "accounts.google.com")
unfolding known_issuer
known_issuer_sound iss h = elim (Bool-cases (codes "https://accounts.google.com" =? iss)) [
  | inl e ↦ inl (sym ((=?_iff _ iss).0 e))
  | inr e ↦ elim (Bool-cases (codes "accounts.google.com" =? iss)) [
    | inl e' ↦ inr (sym ((=?_iff _ iss).0 e'))
    | inr e' ↦ absurd (cc (rw (e, e') at h))
  ]
]

known_issuer_complete :
    (iss : Text)
    → (iss ≡ codes "https://accounts.google.com") ⊎ (iss ≡ codes "accounts.google.com")
    → known_issuer iss ≡ true
unfolding known_issuer
known_issuer_complete iss (inl e) = rw e
known_issuer_complete iss (inr e) = rw e

nonce_is_iff : (wanted : Text) (n : Option Text) → (nonce_is wanted n ≡ true) ↔ (n ≡ some wanted)
nonce_is_iff wanted none = (λ e. cc, λ e. cc)
nonce_is_iff wanted (some n) = ground (arith, =?_iff n wanted)

pub validate_sound :
    (claims : Claims) (client_id : Text) (flow : Flow) (now : ℕ)
    → validate claims client_id flow now ≡ ok tt
    → Acceptable claims client_id flow now
unfolding validate
validate_sound claims client_id flow now h = ground (
  arith,
  known_issuer_sound claims.iss,
  =?_iff claims.aud client_id,
  nonce_is_iff flow.nonce claims.nonce,
)

pub validate_complete :
    (claims : Claims) (client_id : Text) (flow : Flow) (now : ℕ)
    → Acceptable claims client_id flow now
    → validate claims client_id flow now ≡ ok tt
unfolding validate
validate_complete claims client_id flow now a = ground (
  arith,
  known_issuer_complete claims.iss a.issuer,
  a.audience,
  a.live,
  a.verified,
  =?_iff claims.aud client_id,
  (nonce_is_iff flow.nonce claims.nonce).1 a.nonce,
)

-- The part after the checks.
abbrev pub SignsIn : Claims → Verified → Type 0
SignsIn claims v =
    (email : Text) × (claims.email ≡ some email)
    × (v ≡ record { identity = Identity.new Provider.google email; sub = claims.sub })

with_email_inv :
    (claims : Claims) (m : Option Text) (v : Verified)
    → with_email claims m ≡ ok v
    → (email : Text) × (m ≡ some email)
      × (v ≡ record { identity = Identity.new Provider.google email; sub = claims.sub })
unfolding with_email
with_email_inv claims none v h = absurd (cc h)
with_email_inv claims (some email) v h = (email, refl, ground arith)

then_email_inv :
    (claims : Claims) (r : Result (Unit {0})) (v : Verified)
    → then_email claims r ≡ ok v
    → (r ≡ ok tt) × SignsIn claims v
unfolding then_email
then_email_inv claims (ok _) v h = (refl, with_email_inv claims claims.email v h)
then_email_inv claims (err e) v h = absurd (cc h)

accept_complete :
    (claims : Claims) (client_id : Text) (flow : Flow) (now : ℕ) (v : Verified)
    → Acceptable claims client_id flow now
    → SignsIn claims v
    → accept claims client_id flow now ≡ ok v
unfolding accept
accept_complete claims client_id flow now v a (email, e, d) =
    rw (validate_complete claims client_id flow now a, e, d)

accept_sound :
    (claims : Claims) (client_id : Text) (flow : Flow) (now : ℕ) (v : Verified)
    → accept claims client_id flow now ≡ ok v
    → Acceptable claims client_id flow now × SignsIn claims v
unfolding accept
accept_sound claims client_id flow now v h =
    let (e, s) = then_email_inv claims (validate claims client_id flow now) v h in
    (validate_sound claims client_id flow now e, s)

-- The claims sign in the identity `v` exactly when a Google issuer made them for this client, they
-- have not expired, they carry the nonce of this very sign-in, Google has verified the address, and
-- `v` is the Google identity of that address with the subject claimed.
pub accept_iff :
    (claims : Claims) (client_id : Text) (flow : Flow) (now : ℕ) (v : Verified)
    → (accept claims client_id flow now ≡ ok v)
      ↔ (Acceptable claims client_id flow now × SignsIn claims v)
accept_iff claims client_id flow now v = (
  accept_sound claims client_id flow now v,
  λ (a, s). accept_complete claims client_id flow now v a s,
)
