-- ===== src/Identity/RoundTrip.antt =====
-- An identity is written and read back: sessions carry it as a text.
use webshell.Base.{
  ◌≡◌, ◌≢◌, refl, ap, sym, ◌∙◌, ◌++◌, false, Option, none, some, [], ◌∷◌, arith, Text, inl, inr,
  Option-cases,
}
use webshell.Base.Strings.{trim, trim_start, trim_end, to_lowercase, split_once, is_whitespace}
use webshell.Base.Trim.{
  trim_idem, trim-to_lowercase, to_lowercase_idem, trim_end-append, trim_end-trim,
}
use webshell.Identity.{
  Provider, local, google, microsoft, apple, Identity, new, as_str, to_string, from_str, ok,
  parse_provider, parse_parts, is_empty,
}

-- The subject is as `new` leaves it, and there is one.
pub record IsNormal (i : Identity) : Type 0 where
  pub trimmed : trim i.subject ≡ i.subject
  pub lowered : to_lowercase i.subject ≡ i.subject
  pub present : i.subject ≢ []

to_lowercase-ne-nil : (s : Text) → s ≢ [] → to_lowercase s ≢ []
to_lowercase-ne-nil [] h = λ e. h refl
to_lowercase-ne-nil (c ∷ cs) h = λ e. cc

pub new-IsNormal : (p : Provider) (s : Text) → trim s ≢ [] → IsNormal (new p s)
unfolding new
new-IsNormal p s h = record {
  trimmed = trim-to_lowercase (trim s) ∙ ap to_lowercase (trim_idem s);
  lowered = to_lowercase_idem (trim s);
  present = to_lowercase-ne-nil (trim s) h;
}

split_once-to_string :
    (p : Provider) (s : Text) → split_once b':' (as_str p ++ (b':' ∷ s)) ≡ some (as_str p, s)
unfolding as_str split_once
split_once-to_string local s = refl
split_once-to_string google s = refl
split_once-to_string microsoft s = refl
split_once-to_string apple s = refl

parse_provider-as_str : (p : Provider) → parse_provider (to_lowercase (trim (as_str p))) ≡ some p
unfolding as_str parse_provider trim is_whitespace
parse_provider-as_str local = refl
parse_provider-as_str google = refl
parse_provider-as_str microsoft = refl
parse_provider-as_str apple = refl

trim_start-as_str : (p : Provider) (s : Text) → trim_start (as_str p ++ s) ≡ as_str p ++ s
unfolding as_str trim_start is_whitespace
trim_start-as_str local s = refl
trim_start-as_str google s = refl
trim_start-as_str microsoft s = refl
trim_start-as_str apple s = refl

trim_end-colon : (s : Text) → trim s ≡ s → s ≢ [] → trim_end (b':' ∷ s) ≡ b':' ∷ s
trim_end-colon [] e h = absurd (h refl)
trim_end-colon (c ∷ cs) e h =
    trim_end-append (b':' ∷ []) c cs (ap trim_end (sym e) ∙ trim_end-trim (c ∷ cs) ∙ e)

trim-to_string :
    (p : Provider) (s : Text)
    → trim s ≡ s
    → s ≢ []
    → trim (as_str p ++ (b':' ∷ s)) ≡ as_str p ++ (b':' ∷ s)
unfolding trim
trim-to_string p s e h =
    ap trim_end (trim_start-as_str p (b':' ∷ s))
    ∙ trim_end-append (as_str p) b':' s (trim_end-colon s e h)

is_empty-false : (s : Text) → s ≢ [] → is_empty s ≡ false
unfolding is_empty
is_empty-false [] h = absurd (h refl)
is_empty-false (c ∷ cs) h = refl

parse_parts_ok :
    (a b : Text) (p : Provider)
    → parse_provider (to_lowercase (trim a)) ≡ some p
    → is_empty (trim b) ≡ false
    → parse_parts (some (a, b)) ≡ ok (new p b)
unfolding parse_parts
parse_parts_ok a b p e e' = ground arith

new_fixed : (i : Identity) → IsNormal i → new i.provider i.subject ≡ i
unfolding new
new_fixed i n = ap (λ s. record i { subject = s }) (ap to_lowercase n.trimmed ∙ n.lowered)

-- A normal identity is read back from what `Display` prints for it.
pub from_str-to_string : (i : Identity) → IsNormal i → from_str (to_string i) ≡ ok i
unfolding from_str to_string
from_str-to_string i n =
    ap (λ t. parse_parts (split_once b':' t))
      (trim-to_string i.provider i.subject n.trimmed n.present)
    ∙ ap parse_parts (split_once-to_string i.provider i.subject)
    ∙ parse_parts_ok (as_str i.provider) i.subject i.provider (parse_provider-as_str i.provider)
        (rw n.trimmed (is_empty-false i.subject n.present))
    ∙ ap ok (new_fixed i n)

ne_nil_of_is_empty : (s : Text) → is_empty s ≡ false → s ≢ []
unfolding is_empty
ne_nil_of_is_empty [] h = λ e. cc
ne_nil_of_is_empty (c ∷ cs) h = λ e. cc

parse_parts_inv :
    (a b : Text) (i : Identity)
    → parse_parts (some (a, b)) ≡ ok i
    → (p : Provider) × (is_empty (trim b) ≡ false) × (i ≡ new p b)
unfolding parse_parts
parse_parts_inv a b i h = elim (Option-cases (parse_provider (to_lowercase (trim a)))) [
  | inl e ↦ absurd (ground arith)
  | inr (p, e) ↦ (p, ground arith, ground arith)
]

parse_parts-IsNormal : (r : Option (Text × Text)) (i : Identity) → parse_parts r ≡ ok i → IsNormal i
unfolding parse_parts
parse_parts-IsNormal none i h = cc
parse_parts-IsNormal (some (a, b)) i h =
    let (p, present, e) = parse_parts_inv a b i h in
    rw e (new-IsNormal p b (ne_nil_of_is_empty (trim b) present))

-- What `from_str` accepts is normal, so printing it and reading that gives the same identity.
pub from_str_stable : (s : Text) (i : Identity) → from_str s ≡ ok i → from_str (to_string i) ≡ ok i
unfolding from_str
from_str_stable s i h = from_str-to_string i (parse_parts-IsNormal _ i h)
