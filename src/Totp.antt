-- ===== src/Totp.antt =====
-- src/totp.rs: one-time codes and their single use. HMAC-SHA1 is a parameter; keys, digests and texts
-- are lists of bytes, and the clock is in seconds.
pub mod SingleUse
pub mod Hotp
pub mod Window
mod Tests
use webshell.Base.{
  ℕ, zero, suc, ◌+◌, ◌-◌, ◌*◌, ◌/◌, ◌%◌, ◌^◌, ◌≡◌, ◌++◌, Bool, true, false, not, ◌&&◌, ◌||◌, Option,
  none, some, List, [], ◌∷◌, if◌then◌else◌, length, ltb, leb, ◌==◌, Text, ◌=?◌, text_eq, keep_if,
  any_of, all_of, replicate, drop, take, get_elem?, min, codes, ◌>>=◌,
}
use webshell.Base.Strings.{trim, to_decimal}

-- `const B32`
abbrev pub b32 : Text
b32 = codes "ABCDEFGHIJKLMNOPQRSTUVWXYZ234567"

-- A list as a total array: 0 beyond its end.
unfoldable pub at_index : Text → ℕ → ℕ
at_index [] i = 0
at_index (x ∷ xs) zero = x
at_index (x ∷ xs) (suc i) = at_index xs i

-- `iter().position(|&x| x == c)`
unfoldable pub position : Text → ℕ → Option ℕ
position [] c = none
position (x ∷ xs) c =
    let rest = position xs c in if x == c then some 0 else rest >>= λ i. some (suc i)

-- The `while bits >= 5` loop: at most two rounds for the at most 12 bits it starts with, so that
-- fuel 3 is never used up.
unfoldable pub emit : ℕ → ℕ → ℕ → Text × ℕ
emit zero acc bits = ([], bits)
emit (suc fuel) acc bits =
    let (more, left) = emit fuel acc (bits - 5) in
    if leb 5 bits then (at_index b32 (acc / 2 ^ (bits - 5) % 32) ∷ more, left) else ([], bits)

-- The loop over the bytes; `acc` is a `u32`, and its high bits fall out.
unfoldable pub encode_from : ℕ → ℕ → Text → Text
unfolding emit at_index
encode_from acc bits [] =
    if ltb 0 bits then at_index b32 (acc * 2 ^ (5 - bits) % 2 ^ 32 % 32) ∷ [] else []
encode_from acc bits (byte ∷ bytes) =
    let acc = acc * 256 % 2 ^ 32 + byte in
    let (out, left) = emit 3 acc (bits + 8) in out ++ encode_from acc left bytes

-- `encode_base32`
unfoldable pub encode_base32 : Text → Text
unfolding encode_from
encode_base32 bytes = encode_from 0 0 bytes

-- `u8::is_ascii_whitespace`, and the padding
unfoldable pub is_skipped : ℕ → Bool
is_skipped b = b == 0x20 || b == 0x09 || b == 0x0A || b == 0x0C || b == 0x0D || b == b'='

abbrev pub to_ascii_uppercase : ℕ → ℕ
to_ascii_uppercase c = if leb b'a' c && leb c b'z' then c - 32 else c

decode_value : (ℕ → ℕ → Option Text) → ℕ → ℕ → Option ℕ → Option Text
decode_value rest acc bits none = none
decode_value rest acc bits (some value) =
    let acc = acc * 32 % 2 ^ 32 + value in
    if leb 8 (bits + 5)
    then (rest (acc % 2 ^ (bits + 5 - 8)) (bits + 5 - 8) >>= λ out.
        some (acc / 2 ^ (bits + 5 - 8) % 256 ∷ out))
    else rest acc (bits + 5)

-- The loop over the characters.
unfoldable pub decode_from : ℕ → ℕ → Text → Option Text
unfolding decode_value position is_skipped
decode_from acc bits [] = some []
decode_from acc bits (c ∷ text) =
    if is_skipped c
    then decode_from acc bits text
    else decode_value (λ a b. decode_from a b text) acc bits (position b32 (to_ascii_uppercase c))

-- `decode_base32`
unfoldable pub decode_base32 : Text → Option Text
unfolding decode_from
decode_base32 text = decode_from 0 0 text

long_enough : Option Text → Bool
long_enough none = false
long_enough (some bytes) = leb 16 (length bytes)

-- `valid_seed`
unfoldable pub valid_seed : Text → Bool
unfolding long_enough decode_base32
valid_seed seed = long_enough (decode_base32 seed)

-- `counter.to_be_bytes()` of the last `n` bytes
abbrev pub to_be_bytes : ℕ → ℕ → Text
to_be_bytes zero counter = []
to_be_bytes (suc n) counter = counter / 256 ^ n % 256 ∷ to_be_bytes n counter

-- `u32::from_be_bytes`
abbrev pub from_be_bytes : ℕ → Text → ℕ
from_be_bytes acc [] = acc
from_be_bytes acc (b ∷ bs) = from_be_bytes (acc * 256 + b) bs

-- `{value:06}`
abbrev pub six_digits : ℕ → Text
six_digits value = let text = to_decimal value in replicate (6 - length text) b'0' ++ text

-- `ReplayGuard`: the codes accepted last and when, newest last
abbrev pub ReplayGuard : Type 0
ReplayGuard = List (Text × ℕ)

abbrev pub replay_memory : ℕ
replay_memory = 3

abbrev pub replay_window_secs : ℕ
replay_window_secs = 90

abbrev pub seen_in : Text → ReplayGuard → Bool
seen_in code recent = any_of (λ e. e.0 =? code) recent

abbrev pub pop_front : ReplayGuard → ReplayGuard
pop_front recent = if length recent == replay_memory then drop 1 recent else recent

-- `accept_at`
unfoldable pub accept_at : Text → ℕ → ReplayGuard → ReplayGuard × Bool
accept_at code now recent =
    let kept = keep_if (λ e. ltb (now - e.1) replay_window_secs) recent in
    if seen_in (trim code) kept
    then (kept, false)
    else (pop_front kept ++ ((trim code, now) ∷ []), true)

abbrev pub is_code : Text → Option Text → Bool
is_code provided none = false
is_code provided (some code) = code =? provided

module _ (hmac : Text → Text → Text) where
  truncated : Text → ℕ
  truncated digest =
      from_be_bytes 0 (take 4 (drop (at_index digest 19 % 16) digest)) % 2 ^ 31 % 1000000

  -- `code_at`
  unfoldable pub code_at : Text → ℕ → Option Text
  unfolding truncated
  code_at seed counter =
      decode_base32 seed >>= λ key. some (six_digits (truncated (hmac key (to_be_bytes 8 counter))))

  -- `verify`, at the counter `now`
  unfoldable pub verify : ℕ → Text → Text → Bool
  verify now seed provided =
      let provided = trim provided in
      if not (length provided == 6) || not (all_of (λ b. leb b'0' b && leb b b'9') provided)
      then false
      else is_code provided (code_at seed (now - 1))
        || is_code provided (code_at seed now)
        || is_code provided (code_at seed (min (now + 1) (2 ^ 64 - 1)))
