-- ===== src/Base/Strings.antt =====
-- The string operations of the standard library that the program uses: `trim`, `to_lowercase`,
-- `split_once`, `split`, decimal `Display` and `FromStr` of the unsigned integers.
pub mod Decimal
use Prim.Native.Nat.{ℕ, zero, suc, ◌+◌, ◌-◌, ◌*◌, ◌/◌, ◌%◌, ◌≤◌, ◌<◌}
use mathlib.Core.Path.{◌≡◌, ◌∙◌}
use mathlib.Core.Logic.{◌≢◌, inl, inr}
use mathlib.Core.Bool.{Bool, ◌&&◌, ◌||◌}
use mathlib.Core.Option.{Option, none, some}
use mathlib.Core.List.{List, [], ◌∷◌, ◌++◌, map}
use native.Mathlib.Omega.{arith}
use webshell.Base.Equality.{Text}
use webshell.Base.Tests.{ltb, leb, ◌==◌, if◌then◌else◌, Bool-cases}
use webshell.Base.Lists.{All}

abbrev pub is_digit : ℕ → Bool
is_digit c = leb b'0' c && leb c b'9'

-- `char::is_whitespace`.
unfoldable pub is_whitespace : ℕ → Bool
is_whitespace c =
    (leb 9 c && leb c 13)
    || c == 32
    || c == 0x85
    || c == 0xA0
    || c == 0x1680
    || (leb 0x2000 c && leb c 0x200A)
    || c == 0x2028
    || c == 0x2029
    || c == 0x202F
    || c == 0x205F
    || c == 0x3000

unfoldable pub trim_start : Text → Text
trim_start [] = []
trim_start (c ∷ cs) = if is_whitespace c then trim_start cs else c ∷ cs

unfoldable pub keep_nonempty : ℕ → Text → Text
keep_nonempty c [] = if is_whitespace c then [] else c ∷ []
keep_nonempty c (d ∷ ds) = c ∷ d ∷ ds

unfoldable pub trim_end : Text → Text
unfolding keep_nonempty
trim_end [] = []
trim_end (c ∷ cs) = keep_nonempty c (trim_end cs)

unfoldable pub trim : Text → Text
unfolding trim_start trim_end
trim s = trim_end (trim_start s)

-- `char::to_lowercase` on ASCII; other characters stay as they are.
abbrev pub lower : ℕ → ℕ
lower c = if leb b'A' c && leb c b'Z' then c + 32 else c

abbrev pub to_lowercase : Text → Text
to_lowercase = map lower

-- `split_once(c)`.
unfoldable pub split_once : ℕ → Text → Option (Text × Text)
split_once c [] = none
split_once c (x ∷ xs) =
    let rest = split_once c xs in
    if x == c then some ([], xs) else elim rest [ none ↦ none | some (a, b) ↦ some (x ∷ a, b) ]

cons_head : ℕ → List Text → List Text
cons_head x [] = (x ∷ []) ∷ []
cons_head x (p ∷ ps) = (x ∷ p) ∷ ps

-- `split(c)`: at least one piece.
unfoldable pub split : ℕ → Text → List Text
unfolding cons_head
split c [] = [] ∷ []
split c (x ∷ xs) = let rest = split c xs in if x == c then [] ∷ rest else cons_head x rest

-- A text that has no `c` before the first separator is split there.
pub split_once-append :
    (c : ℕ) (a b : Text) → All (λ x. x ≢ c) a → split_once c (a ++ c ∷ b) ≡ some (a, b)
unfolding split_once
split_once-append c [] b h = ground arith
split_once-append c (x ∷ xs) b h = ground (arith, split_once-append c xs b h.1)

-- The digits of `n` in front of `rest`; the fuel bounds their number.
digits_onto : ℕ → ℕ → Text → Text
digits_onto zero n rest = rest
digits_onto (suc f) n rest =
    let more = digits_onto f (n / 10) ((48 + n % 10) ∷ rest) in
    if ltb n 10 then (48 + n) ∷ rest else more

-- `Display` of an unsigned integer.
unfoldable pub to_decimal : ℕ → Text
unfolding digits_onto
to_decimal n = digits_onto (suc n) n []

-- The digit loop of `from_str`, which refuses a value that is not below `limit`.
parse_digits : ℕ → ℕ → Text → Option ℕ
parse_digits limit acc [] = some acc
parse_digits limit acc (c ∷ cs) =
    let value = acc * 10 + (c - 48) in
    let rest = parse_digits limit value cs in if is_digit c && ltb value limit then rest else none

nonempty_digits : ℕ → Text → Option ℕ
nonempty_digits limit [] = none
nonempty_digits limit (c ∷ cs) = parse_digits limit 0 (c ∷ cs)

-- `str::parse` to an unsigned integer below `limit`: one leading `+` is allowed.
unfoldable pub parse_uint : ℕ → Text → Option ℕ
unfolding parse_digits nonempty_digits
parse_uint limit [] = none
parse_uint limit (c ∷ cs) =
    if c == b'+' then nonempty_digits limit cs else parse_digits limit 0 (c ∷ cs)

digits_onto-parse :
    (limit f n : ℕ) (rest : Text)
    → n < f
    → n < limit
    → parse_digits limit 0 (digits_onto f n rest) ≡ parse_digits limit n rest
unfolding digits_onto parse_digits
digits_onto-parse limit zero n rest h b = absurd (omega arith)
digits_onto-parse limit (suc f) n rest h b = elim (Bool-cases (ltb n 10)) [
  | inl small ↦ ground arith
  | inr large ↦ rw large (
      digits_onto-parse limit f (n / 10) ((48 + n % 10) ∷ rest) (ground arith) (omega arith)
      ∙ ground arith)
]

abbrev HeadIsDigit : Text → Type 0
HeadIsDigit [] = ⊥
HeadIsDigit (c ∷ cs) = (48 ≤ c) × (c ≤ 57)

digits_onto-HeadIsDigit : (f n : ℕ) (rest : Text) → n < f → HeadIsDigit (digits_onto f n rest)
unfolding digits_onto
digits_onto-HeadIsDigit zero n rest h = absurd (omega arith)
digits_onto-HeadIsDigit (suc f) n rest h = elim (Bool-cases (ltb n 10)) [
  | inl small ↦ rw small (ground arith)
  | inr large ↦ rw large (digits_onto-HeadIsDigit f (n / 10) ((48 + n % 10) ∷ rest) (ground arith))
]

parse_uint-digits :
    (limit : ℕ) (t : Text) → HeadIsDigit t → parse_uint limit t ≡ parse_digits limit 0 t
unfolding parse_uint
parse_uint-digits limit [] h = absurd h
parse_uint-digits limit (c ∷ cs) h = ground arith

-- What is printed is parsed back.
pub parse_uint-to_decimal : (limit n : ℕ) → n < limit → parse_uint limit (to_decimal n) ≡ some n
unfolding to_decimal parse_digits
parse_uint-to_decimal limit n h =
    parse_uint-digits limit _ (digits_onto-HeadIsDigit (suc n) n [] (omega arith))
    ∙ digits_onto-parse limit (suc n) n [] (omega arith) h

IsDigits-onto :
    (f n : ℕ) (rest : Text)
    → All (λ c. (48 ≤ c) × (c ≤ 57)) rest
    → All (λ c. (48 ≤ c) × (c ≤ 57)) (digits_onto f n rest)
unfolding digits_onto
IsDigits-onto zero n rest h = h
IsDigits-onto (suc f) n rest h = elim (Bool-cases (ltb n 10)) [
  | inl small ↦ rw small ((ground arith, ground arith), h)
  | inr large ↦
      rw large (IsDigits-onto f (n / 10) ((48 + n % 10) ∷ rest) ((omega arith, omega arith), h))
]

-- A printed number holds digits only.
pub to_decimal-digits : (n : ℕ) → All (λ c. (48 ≤ c) × (c ≤ 57)) (to_decimal n)
unfolding to_decimal
to_decimal-digits n = IsDigits-onto (suc n) n [] tt
