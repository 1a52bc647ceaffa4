-- ===== src/Base/Trim.antt =====
-- Trimming and lowercasing, twice and in either order.
use Prim.Native.Nat.{ℕ}
use mathlib.Core.Path.{◌≡◌, refl, ap, ◌∙◌}
use mathlib.Core.Logic.{inl, inr}
use mathlib.Core.Bool.{false}
use mathlib.Core.List.{[], ◌∷◌, ◌++◌}
use native.Mathlib.Omega.{arith}
use webshell.Base.Equality.{Text}
use webshell.Base.Tests.{Bool-cases}
use webshell.Base.Strings.{
  is_whitespace, trim_start, trim_end, trim, keep_nonempty, lower, to_lowercase,
}

-- The text does not begin with white space.
abbrev NoLead : Text → Type 0
NoLead [] = Unit
NoLead (c ∷ cs) = is_whitespace c ≡ false

trim_start-NoLead : (s : Text) → NoLead (trim_start s)
unfolding trim_start
trim_start-NoLead [] = tt
trim_start-NoLead (c ∷ cs) = elim (Bool-cases (is_whitespace c)) [
  | inl e ↦ rw e (trim_start-NoLead cs)
  | inr e ↦ rw e e
]

pub trim_start_fixed : (s : Text) → NoLead s → trim_start s ≡ s
unfolding trim_start
trim_start_fixed [] h = refl
trim_start_fixed (c ∷ cs) h = rw h

keep_nonempty-NoLead : (c : ℕ) (r : Text) → is_whitespace c ≡ false → NoLead (keep_nonempty c r)
unfolding keep_nonempty
keep_nonempty-NoLead c [] h = rw h h
keep_nonempty-NoLead c (d ∷ ds) h = h

trim_end-NoLead : (s : Text) → NoLead s → NoLead (trim_end s)
unfolding trim_end
trim_end-NoLead [] h = tt
trim_end-NoLead (c ∷ cs) h = keep_nonempty-NoLead c (trim_end cs) h

trim_end-keep :
    (c : ℕ) (r : Text) → trim_end r ≡ r → trim_end (keep_nonempty c r) ≡ keep_nonempty c r
unfolding trim_end keep_nonempty
trim_end-keep c [] h = elim (Bool-cases (is_whitespace c)) [ inl e ↦ rw e | inr e ↦ rw e (rw e) ]
trim_end-keep c (d ∷ ds) h = ap (keep_nonempty c) h

trim_end_idem : (s : Text) → trim_end (trim_end s) ≡ trim_end s
unfolding trim_end
trim_end_idem [] = refl
trim_end_idem (c ∷ cs) = trim_end-keep c (trim_end cs) (trim_end_idem cs)

pub trim_idem : (s : Text) → trim (trim s) ≡ trim s
unfolding trim
trim_idem s =
    ap trim_end (trim_start_fixed _ (trim_end-NoLead _ (trim_start-NoLead s)))
    ∙ trim_end_idem (trim_start s)

is_whitespace-lower : (c : ℕ) → is_whitespace (lower c) ≡ is_whitespace c
unfolding is_whitespace
is_whitespace-lower c = ground arith

trim_start-lower : (s : Text) → trim_start (to_lowercase s) ≡ to_lowercase (trim_start s)
unfolding trim_start
trim_start-lower [] = refl
trim_start-lower (c ∷ cs) = elim (Bool-cases (is_whitespace c)) [
  | inl e ↦ rw (is_whitespace-lower c, e) (trim_start-lower cs)
  | inr e ↦ rw (is_whitespace-lower c, e)
]

keep_nonempty-lower :
    (c : ℕ) (r : Text) → keep_nonempty (lower c) (to_lowercase r) ≡ to_lowercase (keep_nonempty c r)
unfolding keep_nonempty
keep_nonempty-lower c [] = elim (Bool-cases (is_whitespace c)) [
  | inl e ↦ rw (is_whitespace-lower c, e)
  | inr e ↦ rw (is_whitespace-lower c, e)
]
keep_nonempty-lower c (d ∷ ds) = refl

trim_end-lower : (s : Text) → trim_end (to_lowercase s) ≡ to_lowercase (trim_end s)
unfolding trim_end
trim_end-lower [] = refl
trim_end-lower (c ∷ cs) =
    ap (keep_nonempty (lower c)) (trim_end-lower cs) ∙ keep_nonempty-lower c (trim_end cs)

pub trim-to_lowercase : (s : Text) → trim (to_lowercase s) ≡ to_lowercase (trim s)
unfolding trim
trim-to_lowercase s = ap trim_end (trim_start-lower s) ∙ trim_end-lower (trim_start s)

lower_idem : (c : ℕ) → lower (lower c) ≡ lower c
lower_idem c = ground arith

pub to_lowercase_idem : (s : Text) → to_lowercase (to_lowercase s) ≡ to_lowercase s
to_lowercase_idem [] = refl
to_lowercase_idem (c ∷ cs) = cc (lower_idem c, to_lowercase_idem cs)

-- A text that ends in something visible is not cut at the end.
pub trim_end-append :
    (xs : Text) (y : ℕ) (ys : Text)
    → trim_end (y ∷ ys) ≡ y ∷ ys
    → trim_end (xs ++ (y ∷ ys)) ≡ xs ++ (y ∷ ys)
unfolding trim_end keep_nonempty
trim_end-append [] y ys h = h
trim_end-append (x ∷ []) y ys h = ap (keep_nonempty x) h
trim_end-append (x ∷ x' ∷ xs) y ys h = ap (keep_nonempty x) (trim_end-append (x' ∷ xs) y ys h)

-- What `trim` leaves has nothing to trim at the end.
pub trim_end-trim : (s : Text) → trim_end (trim s) ≡ trim s
unfolding trim
trim_end-trim s = trim_end_idem (trim_start s)
