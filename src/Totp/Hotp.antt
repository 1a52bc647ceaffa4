-- ===== src/Totp/Hotp.antt =====
-- HOTP as RFC 4226 describes it: the counter as eight bytes, the dynamic truncation of the digest by
-- its low nibble, and six decimal digits; and `code_at` in these terms.
use webshell.Base.{
  ℕ, zero, suc, ◌+◌, ◌-◌, ◌*◌, ◌%◌, ◌^◌, ◌≤◌, ◌<◌, ◌≡◌, refl, ap, sym, ◌∙◌, some, [], ◌∷◌, ◌++◌,
  arith, length, All, Text, replicate, drop, take,
}
use webshell.Base.Strings.{to_decimal, to_decimal-digits}
use webshell.Base.Strings.Decimal.{
  value, value-inj, decimal_step, IsDigit, decimal-inj, value-to_decimal, length-to_decimal,
}
use webshell.Totp.{at_index, to_be_bytes, six_digits, code_at, truncated, decode_base32}

-- The documentation of HMAC-SHA1: a digest is twenty bytes.
pub record IsSha1 (hmac : Text → Text → Text) : Type 0 where
  pub size : (key message : Text) → length (hmac key message) ≡ 20
  pub bytes : (key message : Text) → All (λ b. b < 256) (hmac key message)

-- The eight bytes of a counter, most significant first.
pub record IsCounter (counter : ℕ) (message : Text) : Type 0 where
  pub eight : length message ≡ 8
  pub bytes : All (λ b. b < 256) message
  pub big_endian : value (λ acc b. acc * 256 + b) 0 message ≡ counter

-- The truncation: four bytes from the place that the last nibble names, without the top bit.
abbrev pub hotp : Text → ℕ
hotp digest =
    let o = at_index digest 19 % 16 in
    (at_index digest o % 128 * 16777216
      + at_index digest (suc o) * 65536
      + at_index digest (suc (suc o)) * 256
      + at_index digest (suc (suc (suc o))))
    % 1000000

-- The text is that number in six decimal digits.
pub record IsSixDigits (number : ℕ) (text : Text) : Type 0 where
  pub six : length text ≡ 6
  pub digits : All IsDigit text
  pub reads : value decimal_step 0 text ≡ number

pub to_be_bytes-IsCounter :
    (counter : ℕ) → counter < 2 ^ 64 → IsCounter counter (to_be_bytes 8 counter)
to_be_bytes-IsCounter counter h = record {
  eight = refl;
  bytes = ground arith;
  big_endian = omega (arith, h);
}

pub IsCounter-unique :
    (counter : ℕ) (s t : Text) → IsCounter counter s → IsCounter counter t → s ≡ t
IsCounter-unique counter s t p q =
    (value-inj (λ acc b. acc * 256 + b) (λ b. b < 256) (λ a b c d h k e. (omega arith, omega arith))
      0 0 s t p.bytes q.bytes (omega (arith, p.eight, q.eight)) (p.big_endian ∙ sym q.big_endian)).1

pub IsSixDigits-unique :
    (number : ℕ) (s t : Text) → IsSixDigits number s → IsSixDigits number t → s ≡ t
IsSixDigits-unique number s t p q =
    decimal-inj s t p.digits q.digits (omega (arith, p.six, q.six)) (p.reads ∙ sym q.reads)

value-zeros :
    (n : ℕ) (t : Text) → value decimal_step 0 (replicate n b'0' ++ t) ≡ value decimal_step 0 t
value-zeros zero t = refl
value-zeros (suc n) t = value-zeros n t

zeros-digits : (n : ℕ) (t : Text) → All IsDigit t → All IsDigit (replicate n b'0' ++ t)
zeros-digits zero t h = h
zeros-digits (suc n) t h = ((omega arith, omega arith), zeros-digits n t h)

length-zeros : (n : ℕ) (t : Text) → length (replicate n b'0' ++ t) ≡ n + length t
length-zeros zero t = omega arith
length-zeros (suc n) t = omega (arith, length-zeros n t)

pub six_digits-IsSixDigits : (n : ℕ) → n < 1000000 → IsSixDigits n (six_digits n)
six_digits-IsSixDigits n h = record {
  six =
      omega (arith, length-zeros (6 - length (to_decimal n)) (to_decimal n), length-to_decimal n h);
  digits = zeros-digits (6 - length (to_decimal n)) (to_decimal n) (to_decimal-digits n);
  reads = value-zeros (6 - length (to_decimal n)) (to_decimal n) ∙ value-to_decimal n;
}

-- Four bytes of a list that has them.
four_bytes :
    (o : ℕ) (d : Text)
    → o + 4 ≤ length d
    → take 4 (drop o d)
      ≡ at_index d o
        ∷ at_index d (suc o)
        ∷ at_index d (suc (suc o))
        ∷ at_index d (suc (suc (suc o)))
        ∷ []
unfolding at_index
four_bytes zero [] h = absurd (omega arith)
four_bytes zero (a ∷ []) h = absurd (omega arith)
four_bytes zero (a ∷ b ∷ []) h = absurd (omega arith)
four_bytes zero (a ∷ b ∷ c ∷ []) h = absurd (omega arith)
four_bytes zero (a ∷ b ∷ c ∷ e ∷ d) h = refl
four_bytes (suc o) [] h = absurd (omega arith)
four_bytes (suc o) (a ∷ d) h = four_bytes o d (omega arith)

at_index-byte : (d : Text) (i : ℕ) → All (λ b. b < 256) d → at_index d i < 256
unfolding at_index
at_index-byte [] i h = omega arith
at_index-byte (x ∷ d) zero h = h.0
at_index-byte (x ∷ d) (suc i) h = at_index-byte d i h.1

module _ (hmac : Text → Text → Text) where
  truncated-hotp : (d : Text) → length d ≡ 20 → All (λ b. b < 256) d → truncated hmac d ≡ hotp d
  unfolding truncated
  truncated-hotp d n b =
      let o = at_index d 19 % 16 in
      rw (four_bytes o d (omega (arith, n))) (
        omega (
          arith,
          at_index-byte d o b,
          at_index-byte d (suc o) b,
          at_index-byte d (suc (suc o)) b,
          at_index-byte d (suc (suc (suc o))) b,
        ))

  -- What `code_at` answers under a seed that decodes.
  pub code_at-hotp :
      (seed key : Text) (counter : ℕ)
      → IsSha1 hmac
      → decode_base32 seed ≡ some key
      → code_at hmac seed counter ≡ some (six_digits (hotp (hmac key (to_be_bytes 8 counter))))
  unfolding code_at
  code_at-hotp seed key counter sha d =
      let digest = hmac key (to_be_bytes 8 counter) in
      rw d
        (ap (λ n. some (six_digits n)) (truncated-hotp digest (sha.size key _) (sha.bytes key _)))
