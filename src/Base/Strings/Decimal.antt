-- ===== src/Base/Strings/Decimal.antt =====
-- Numbers as lists of digits, most significant first: `Display` of an unsigned integer.
use Prim.Native.Nat.{ℕ, zero, suc, ◌+◌, ◌-◌, ◌*◌, ◌/◌, ◌%◌, ◌^◌, ◌≤◌, ◌<◌}
use mathlib.Core.Path.{◌≡◌, refl, ap₂}
use mathlib.Core.Logic.{inl, inr}
use mathlib.Core.List.{[], ◌∷◌}
use native.Mathlib.Omega.{arith}
use native.Mathlib.Numerals.{unary_clauses}
use webshell.Base.Equality.{Text}
use webshell.Base.Tests.{ltb, Bool-cases}
use webshell.Base.Lists.{All, length}
use webshell.Base.Strings.{to_decimal, digits_onto}

-- The value of digits, with one step for each.
abbrev pub value : (ℕ → ℕ → ℕ) → ℕ → Text → ℕ
value step acc [] = acc
value step acc (c ∷ cs) = value step (step acc c) cs

-- As many digits with the same value are the same.
pub value-inj :
    (step : ℕ → ℕ → ℕ) (Digit : ℕ → Type 0)
    → ((a b c d : ℕ) → Digit c → Digit d → step a c ≡ step b d → (a ≡ b) × (c ≡ d))
    → (a b : ℕ) (s t : Text) → All Digit s
    → All Digit t
    → length s ≡ length t
    → value step a s ≡ value step b t
    → (a ≡ b) × (s ≡ t)
value-inj step Digit inj a b [] [] p q l e = (e, refl)
value-inj step Digit inj a b [] (d ∷ t) p q l e = absurd (omega arith)
value-inj step Digit inj a b (c ∷ s) [] p q l e = absurd (omega arith)
value-inj step Digit inj a b (c ∷ s) (d ∷ t) p q l e =
    let (f, rest) = value-inj step Digit inj (step a c) (step b d) s t p.1 q.1 (omega arith) e in
    let (g, head) = inj a b c d p.0 q.0 f in (g, ap₂ (λ x y. x ∷ y) head rest)

-- The step of a decimal number.
abbrev pub decimal_step : ℕ → ℕ → ℕ
decimal_step acc c = acc * 10 + (c - 48)

abbrev pub IsDigit : ℕ → Type 0
IsDigit c = (48 ≤ c) × (c ≤ 57)

pub decimal-inj :
    (s t : Text)
    → All IsDigit s
    → All IsDigit t
    → length s ≡ length t
    → value decimal_step 0 s ≡ value decimal_step 0 t
    → s ≡ t
decimal-inj s t p q l e =
    (value-inj decimal_step IsDigit (λ a b c d h k e. (omega arith, omega arith)) 0 0 s t p q l e).1

value-onto :
    (f n : ℕ) (rest : Text)
    → n < f
    → value decimal_step 0 (digits_onto f n rest) ≡ value decimal_step n rest
unfolding digits_onto
value-onto zero n rest h = absurd (omega arith)
value-onto (suc f) n rest h = elim (Bool-cases (ltb n 10)) [
  | inl small ↦ ground arith
  | inr large ↦
      let ih = value-onto f (n / 10) ((48 + n % 10) ∷ rest) (ground arith) in ground (arith, ih)
]

pub value-to_decimal : (n : ℕ) → value decimal_step 0 (to_decimal n) ≡ n
unfolding to_decimal
value-to_decimal n = value-onto (suc n) n [] (omega arith)

length-onto :
    (k f n : ℕ) (rest : Text)
    → n < f
    → n < 10 ^ suc k
    → length (digits_onto f n rest) ≤ suc k + length rest
unfolding digits_onto
length-onto k zero n rest h b = absurd (omega arith)
length-onto zero (suc f) n rest h b = ground arith
length-onto (suc k) (suc f) n rest h b = elim (Bool-cases (ltb n 10)) [
  | inl small ↦ ground arith
  | inr large ↦
      let ten : 10 ^ suc (suc k) ≡ 10 * 10 ^ suc k = simp unary_clauses (omega arith) in
      let ih : length (digits_onto f (n / 10) ((48 + n % 10) ∷ rest)) ≤ suc k + suc (length rest) =
        length-onto k f (n / 10) ((48 + n % 10) ∷ rest) (ground arith) (omega (arith, ten)) in
      ground (arith, ih)
]

-- A number below a million has six digits at most.
pub length-to_decimal : (n : ℕ) → n < 1000000 → length (to_decimal n) ≤ 6
unfolding to_decimal
length-to_decimal n h = length-onto 5 (suc n) n [] (omega arith) h
