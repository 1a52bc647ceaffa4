-- ===== src/Identity/Tests.antt =====
-- Identities as a configuration writes them.
use webshell.Base.{◌≡◌, ◌≢◌, ◌↔◌, refl, [], ◌∷◌, codes, All}
use webshell.Base.Strings.{trim, split_once, is_whitespace}
use webshell.Identity.{
  Identity, Provider, new, to_string, from_str, parse_provider, ok, validate, valid,
}
use webshell.Identity.RoundTrip.{IsNormal, from_str-to_string}
use webshell.Identity.Allowlist.{Unrepeated, IsImplemented, validate_iff}

abbrev alice : Identity
alice = record { provider = Provider.google; subject = codes "alice@gmail.com" }

alice-IsNormal : IsNormal alice
alice-IsNormal = record {
  trimmed = unfold trim is_whitespace in refl;
  lowered = refl;
  present = λ e. absurd (cc e);
}

test_from_str : from_str (codes " Google: Alice@gmail.com ") ≡ ok alice
unfolding from_str new split_once trim is_whitespace parse_provider
test_from_str = refl

from_str-to_string_example : from_str (to_string alice) ≡ ok alice
from_str-to_string_example = from_str-to_string alice alice-IsNormal

validate_iff_example :
    (validate (alice ∷ []) ≡ valid)
    ↔ (((alice ∷ []) ≢ []) × All IsImplemented (alice ∷ []) × Unrepeated (alice ∷ []))
validate_iff_example = validate_iff (alice ∷ [])
