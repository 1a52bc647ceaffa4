-- ===== src/Identity.antt =====
-- src/identity.rs: who may log in, and how that is written. A text is its code points, and
-- lowercasing is that of ASCII: other letters are left as they are.
pub mod RoundTrip
pub mod Allowlist
mod Tests
use webshell.Base.{
  ℕ, ◌≡◌, refl, ◌++◌, Bool, true, false, not, ◌&&◌, ◌||◌, Option, none, some, List, [], ◌∷◌, arith,
  if◌then◌else◌, Text, codes, Eq, ◌=?◌, text_eq, ◌↔◌, ap,
}
use webshell.Base.Strings.{trim, to_lowercase, split_once}

-- `Provider`
pub data Provider : Type 0 where
  local google microsoft apple : Provider

abbrev pub provider_beq : Provider → Provider → Bool
provider_beq local local = true
provider_beq google google = true
provider_beq microsoft microsoft = true
provider_beq apple apple = true
provider_beq _ _ = false

pub provider_beq_iff : (a b : Provider) → (provider_beq a b ≡ true) ↔ (a ≡ b)
provider_beq_iff a b = ground arith

instance abbrev pub provider_eq : Eq Provider
provider_eq = record { beq = provider_beq; beq_iff = provider_beq_iff }

-- `Provider::as_str`
unfoldable pub as_str : Provider → Text
as_str local = codes "local"
as_str google = codes "google"
as_str microsoft = codes "microsoft"
as_str apple = codes "apple"

-- `Provider::supported`
unfoldable pub supported : Provider → Bool
supported local = true
supported google = true
supported _ = false

-- `Provider::parse`
unfoldable pub parse_provider : Text → Option Provider
parse_provider s =
    if s =? codes "local"
    then some local
    else if s =? codes "google"
    then some google
    else if s =? codes "microsoft"
    then some microsoft
    else if s =? codes "apple"
    then some apple
    else none

-- `Identity`
pub record Identity : Type 0 where
  pub provider : Provider
  pub subject : Text

abbrev pub identity_beq : Identity → Identity → Bool
identity_beq a b = a.provider =? b.provider && a.subject =? b.subject

pub identity_beq_iff : (a b : Identity) → (identity_beq a b ≡ true) ↔ (a ≡ b)
identity_beq_iff a b =
    ground (arith, provider_beq_iff a.provider b.provider, text_eq.beq_iff a.subject b.subject)

instance abbrev pub identity_eq : Eq Identity
identity_eq = record { beq = identity_beq; beq_iff = identity_beq_iff }

-- `Identity::new`
unfoldable pub new : Provider → Text → Identity
new p subject = record { provider = p; subject = to_lowercase (trim subject) }

-- `Display`
unfoldable pub to_string : Identity → Text
to_string i = as_str i.provider ++ (b':' ∷ i.subject)

-- `from_str` fails with a message for each of these.
pub data ParseError : Type 0 where
  missing_prefix unknown_provider empty_subject : ParseError

pub data Parsed : Type 0 where
  ok : Identity → Parsed
  err : ParseError → Parsed

is_empty : Text → Bool
is_empty [] = true
is_empty (c ∷ cs) = false

parse_parts : Option (Text × Text) → Parsed
parse_parts none = err missing_prefix
parse_parts (some (provider, subject)) = elim (parse_provider (to_lowercase (trim provider))) [
  | none ↦ err unknown_provider
  | some p ↦ if is_empty (trim subject) then err empty_subject else ok (new p subject)
]

-- `Identity::from_str`
unfoldable pub from_str : Text → Parsed
unfolding parse_parts is_empty
from_str s = parse_parts (split_once b':' (trim s))

-- `validate`
pub data Validation : Type 0 where
  valid no_users : Validation
  unsupported duplicate : Identity → Validation

first_unsupported : List Identity → Option Identity
first_unsupported [] = none
first_unsupported (u ∷ us) = if supported u.provider then first_unsupported us else some u

unfoldable pub contains : List Identity → Identity → Bool
contains [] u = false
contains (v ∷ vs) u = v =? u || contains vs u

-- The loop over `users[..i].contains(user)`; `seen` holds the users before.
first_duplicate : List Identity → List Identity → Option Identity
first_duplicate seen [] = none
first_duplicate seen (u ∷ us) =
    let rest = first_duplicate (u ∷ seen) us in if contains seen u then some u else rest

check_duplicates : Option Identity → Validation
check_duplicates none = valid
check_duplicates (some u) = duplicate u

check_users : List Identity → Option Identity → Validation
check_users users (some u) = unsupported u
check_users users none = check_duplicates (first_duplicate [] users)

unfoldable pub validate : List Identity → Validation
unfolding first_unsupported first_duplicate check_duplicates check_users
validate [] = no_users
validate (u ∷ us) = check_users (u ∷ us) (first_unsupported (u ∷ us))
