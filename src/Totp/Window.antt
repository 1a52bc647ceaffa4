-- ===== src/Totp/Window.antt =====
-- What `verify` accepts, in the terms of RFC 4226 and RFC 6238.
use webshell.Base.{
  ℕ, ◌+◌, ◌-◌, ◌^◌, ◌≤◌, ◌<◌, refl, ap, sym, ◌∙◌, [], ◌∷◌, All, subst, some_inj, inl, inr,
  Option-cases, ◌≡◌, ◌↔◌, ◌⊎◌, true, ◌&&◌, Option, none, some, arith, length, leb, all_of, Text,
  =?_iff, text_eq, min,
}
use webshell.Base.Strings.{trim}
use webshell.Base.Strings.Decimal.{IsDigit}
use webshell.Totp.{code_at, is_code, verify, decode_base32, six_digits, to_be_bytes}
use webshell.Totp.Hotp.{
  IsSha1, IsCounter, IsCounter-unique, to_be_bytes-IsCounter, hotp, IsSixDigits, IsSixDigits-unique,
  six_digits-IsSixDigits, code_at-hotp,
}

is_code_iff :
    (provided : Text) (o : Option Text) → (is_code provided o ≡ true) ↔ (o ≡ some provided)
is_code_iff provided none = ground arith
is_code_iff provided (some code) = ground (arith, =?_iff code provided)

module _ (hmac : Text → Text → Text) where
  verify_cases :
      (now : ℕ) (seed provided : Text)
      → (verify hmac now seed provided ≡ true) ↔ (
          (length (trim provided) ≡ 6)
          × (all_of (λ b. leb b'0' b && leb b b'9') (trim provided) ≡ true)
          × ((code_at hmac seed (now - 1) ≡ some (trim provided))
              ⊎ ((code_at hmac seed now ≡ some (trim provided))
                  ⊎ (code_at hmac seed (min (now + 1) (2 ^ 64 - 1)) ≡ some (trim provided)))))
  unfolding verify
  verify_cases now seed provided = ground (
    arith,
    is_code_iff (trim provided) (code_at hmac seed (now - 1)),
    is_code_iff (trim provided) (code_at hmac seed now),
    is_code_iff (trim provided) (code_at hmac seed (min (now + 1) (2 ^ 64 - 1))),
  )

  -- The code that is accepted, and the step of 30 seconds that it belongs to.
  pub record IsAccepted (now : ℕ) (seed provided : Text) : Type 0 where
    pub key : Text
    pub counter : ℕ
    pub message : Text
    pub decoded : decode_base32 seed ≡ some key
    pub near : (counter ≤ now + 1) × (now ≤ counter + 1)
    pub fits : counter < 2 ^ 64
    pub counted : IsCounter counter message
    pub shown : IsSixDigits (hotp (hmac key message)) (trim provided)

  code_at-none :
      (seed : Text) (counter : ℕ) → decode_base32 seed ≡ none → code_at hmac seed counter ≡ none
  unfolding code_at
  code_at-none seed counter d = rw d refl

  shown_by :
      (now counter : ℕ) (seed provided : Text)
      → IsSha1 hmac
      → (counter ≤ now + 1) × (now ≤ counter + 1)
      → counter < 2 ^ 64
      → code_at hmac seed counter ≡ some (trim provided)
      → IsAccepted now seed provided
  shown_by now counter seed provided sha near fits e = elim (Option-cases (decode_base32 seed)) [
    | inl d ↦ absurd (cc (e, code_at-none seed counter d))
    | inr (key, d) ↦
        let digest = hmac key (to_be_bytes 8 counter) in
        let same : six_digits (hotp digest) ≡ trim provided =
          some_inj (sym (code_at-hotp hmac seed key counter sha d) ∙ e) in
        record {
          key = key;
          counter = counter;
          message = to_be_bytes 8 counter;
          decoded = d;
          near = near;
          fits = fits;
          counted = to_be_bytes-IsCounter counter fits;
          shown =
              subst (IsSixDigits (hotp digest)) same
                (six_digits-IsSixDigits (hotp digest) (omega arith));
        }
  ]

  ascii_digits : (t : Text) → All IsDigit t → all_of (λ b. leb b'0' b && leb b b'9') t ≡ true
  ascii_digits [] h = refl
  ascii_digits (c ∷ t) h = ground (arith, ascii_digits t h.1)

  shown_at :
      (now : ℕ) (seed provided : Text) (a : IsAccepted now seed provided)
      → IsSha1 hmac
      → code_at hmac seed a.counter ≡ some (trim provided)
  shown_at now seed provided a sha =
      let message : a.message ≡ to_be_bytes 8 a.counter =
        IsCounter-unique a.counter _ _ a.counted (to_be_bytes-IsCounter a.counter a.fits) in
      let digest = hmac a.key (to_be_bytes 8 a.counter) in
      let shown : IsSixDigits (hotp digest) (trim provided) =
        subst (λ m. IsSixDigits (hotp (hmac a.key m)) (trim provided)) message a.shown in
      code_at-hotp hmac seed a.key a.counter sha a.decoded
      ∙ ap some (
          IsSixDigits-unique (hotp digest) _ _ (six_digits-IsSixDigits (hotp digest) (omega arith))
            shown)

  three_steps :
      (now counter : ℕ)
      → (counter ≤ now + 1) × (now ≤ counter + 1)
      → counter < 2 ^ 64
      → (counter ≡ now - 1) ⊎ ((counter ≡ now) ⊎ (counter ≡ min (now + 1) (2 ^ 64 - 1)))
  three_steps now counter near fits = ground arith

  -- With digests of twenty bytes, as HMAC-SHA1 has, and at a step that is a `u64`, `verify` accepts a
  -- text exactly if it shows, white space around it aside, the HOTP value of RFC 4226 in six digits,
  -- under the key that the seed decodes to, for a counter that is at most one step away and a `u64`.
  pub verify_iff :
      (now : ℕ) (seed provided : Text)
      → IsSha1 hmac
      → now < 2 ^ 64
      → (verify hmac now seed provided ≡ true) ↔ IsAccepted now seed provided
  verify_iff now seed provided sha h = (
    λ e.
        let (six, digits, steps) = (verify_cases now seed provided).0 e in
        elim steps [
          | inl before ↦
              shown_by now (now - 1) seed provided sha (omega arith, omega arith) (omega arith)
                before
          | inr (inl here) ↦ shown_by now now seed provided sha (omega arith, omega arith) h here
          | inr (inr after) ↦
              shown_by now (min (now + 1) (2 ^ 64 - 1)) seed provided sha (omega arith, omega arith)
                (omega arith) after
        ],
    λ a.
        let shown = shown_at now seed provided a sha in
        let at : (n : ℕ) → a.counter ≡ n → code_at hmac seed n ≡ some (trim provided) =
          λ n same. subst (λ c. code_at hmac seed c ≡ some (trim provided)) same shown in
        (verify_cases now seed provided).1 (
          a.shown.six,
          ascii_digits (trim provided) a.shown.digits,
          elim (three_steps now a.counter a.near a.fits) [
            | inl before ↦ inl (at _ before)
            | inr (inl here) ↦ inr (inl (at _ here))
            | inr (inr after) ↦ inr (inr (at _ after))
          ],
        ),
  )
