-- ===== src/Share/Token.antt =====
-- Tokens, encoded and verified.
use webshell.Base.{
  ℕ, ◌<◌, ◌≡◌, ◌≢◌, refl, ap, sym, ◌∙◌, Option, none, some, [], ◌∷◌, arith, Text, All, All-mono,
  ◌=?◌, =?_iff, =?_refl, text_eq, inl, inr, Bool-cases, ◌>>=◌,
}
use webshell.Base.Strings.{
  split_once, split_once-append, to_decimal, to_decimal-digits, parse_uint-to_decimal,
}
use webshell.Base.Utf8.{IsUtf8, append-IsUtf8, ascii-IsUtf8, from_utf8_valid, from_utf8-some}
use webshell.Share.{Codec, Claim, payload, encode_token, parse_payload, check, verify, u64_limit}

-- What base64 promises: decoding undoes encoding, and its alphabet has no dot.
pub record IsBase64 (crypto : Codec) : Type 0 where
  pub decode-encode : (t : Text) → crypto.decode (crypto.encode t) ≡ some t
  pub no_dot : (t : Text) → All (λ b. b ≢ b'.') (crypto.encode t)

-- An id as `random_token` makes it: ASCII without a colon.
abbrev pub IsId : Text → Type 0
IsId id = All (λ b. (b < 0x80) × (b ≢ b':')) id

decimal_no_colon : (n : ℕ) → All (λ b. b ≢ b':') (to_decimal n)
decimal_no_colon n = All-mono _ _ (to_decimal n) (λ b h. omega arith) (to_decimal-digits n)

decimal-IsUtf8 : (n : ℕ) → IsUtf8 (to_decimal n)
decimal-IsUtf8 n =
    ascii-IsUtf8 (to_decimal n)
      (All-mono _ _ (to_decimal n) (λ b h. omega arith) (to_decimal-digits n))

colon-IsUtf8 : (t : Text) → IsUtf8 t → IsUtf8 (b':' ∷ t)
colon-IsUtf8 t h = append-IsUtf8 (b':' ∷ []) t (ascii-IsUtf8 (b':' ∷ []) (omega arith, tt)) h

module _ (crypto : Codec) where
  payload-IsUtf8 :
      (id : Text) (index exp : ℕ) (user : Text)
      → IsId id
      → IsUtf8 user
      → IsUtf8 (payload crypto id index exp user)
  unfolding payload
  payload-IsUtf8 id index exp user i u =
      append-IsUtf8 id _ (ascii-IsUtf8 id (All-mono _ _ id (λ b h. h.0) i)) (
        colon-IsUtf8 _ (
          append-IsUtf8 _ _ (decimal-IsUtf8 index)
            (colon-IsUtf8 _ (append-IsUtf8 _ _ (decimal-IsUtf8 exp) (colon-IsUtf8 user u)))))

  parse_payload-payload :
      (id : Text) (index exp : ℕ) (user : Text)
      → IsId id
      → index < u64_limit
      → exp < u64_limit
      → parse_payload crypto (payload crypto id index exp user)
        ≡ some (record { id = id; user = user; index = index; exp = exp })
  unfolding payload parse_payload
  parse_payload-payload id index exp user i hi he = rw (
    split_once-append b':' id _ (All-mono _ _ id (λ b h. h.1) i),
    split_once-append b':' (to_decimal index) _ (decimal_no_colon index),
    parse_uint-to_decimal u64_limit index hi,
    split_once-append b':' (to_decimal exp) user (decimal_no_colon exp),
    parse_uint-to_decimal u64_limit exp he,
  )

  -- A token says what was signed: `verify` reads back the id, the slot, the expiry and the user that
  -- `encode` was given, also when the user's name holds colons.
  pub verify-encode_token :
      (key id : Text) (index exp : ℕ) (user : Text)
      → IsBase64 crypto
      → IsId id
      → IsUtf8 user
      → index < u64_limit
      → exp < u64_limit
      → verify crypto key (encode_token crypto key id index exp user)
        ≡ some (record { id = id; user = user; index = index; exp = exp })
  unfolding verify encode_token
  verify-encode_token key id index exp user b64 i u hi he =
      let message = payload crypto id index exp user in
      rw
        (
          split_once-append b'.' (crypto.encode message) _ (b64.no_dot message),
          b64.decode-encode message,
          b64.decode-encode (crypto.mac key message),
          =?_refl (crypto.mac key message),
          from_utf8_valid message (payload-IsUtf8 id index exp user i u),
        )
        (parse_payload-payload id index exp user i hi he)

  -- How a token that passes is made up.
  pub record Signed (key token : Text) (c : Claim) : Type 0 where
    pub message : Text
    pub left : Text
    pub right : Text
    pub halves : split_once b'.' token ≡ some (left, right)
    pub says : crypto.decode left ≡ some message
    pub signature : crypto.decode right ≡ some (crypto.mac key message)
    pub parsed : parse_payload crypto message ≡ some c

  bind_some :
      {A B : Type 0} (m : Option A) (f : A → Option B) (b : B)
      → (m >>= f) ≡ some b
      → (a : A) × (m ≡ some a) × (f a ≡ some b)
  bind_some none f b h = absurd (cc h)
  bind_some (some a) f b h = (a, refl, h)

  check-some :
      (key message sig text : Text)
      → check crypto key message sig ≡ some text
      → (sig ≡ crypto.mac key message) × (text ≡ message)
  check-some key message sig text h = elim (Bool-cases (crypto.mac key message =? sig)) [
    | inl e ↦
        (sym ((=?_iff (crypto.mac key message) sig).0 e), from_utf8-some message text (rw e at h))
    | inr e ↦ absurd (cc (rw e at h))
  ]

  -- A token that passes carries the HMAC of its payload under the server's key, and says what that
  -- payload says.
  pub verify-Signed :
      (key token : Text) (c : Claim) → verify crypto key token ≡ some c → Signed key token c
  unfolding verify
  verify-Signed key token c h =
      let ((p, s), e1, h1) = bind_some (split_once b'.' token) _ c h in
      let (message, e2, h2) = bind_some (crypto.decode p) _ c h1 in
      let (sig, e3, h3) = bind_some (crypto.decode s) _ c h2 in
      let (text, e4, h4) = bind_some (check crypto key message sig) _ c h3 in
      let (es, et) = check-some key message sig text e4 in
      record {
        message = message;
        left = p;
        right = s;
        halves = e1;
        says = e2;
        signature = e3 ∙ ap some es;
        parsed = rw et at h4;
      }
