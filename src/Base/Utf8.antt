-- ===== src/Base/Utf8.antt =====
-- `str::from_utf8`: which byte strings are texts.
use Prim.Native.Nat.{ℕ, zero, suc, ◌<◌}
use mathlib.Core.Path.{◌≡◌, refl, sym, ◌∙◌}
use mathlib.Core.Bool.{◌&&◌}
use mathlib.Core.Option.{Option, none, some}
use mathlib.Core.List.{[], ◌∷◌, ◌++◌}
use native.Mathlib.Omega.{arith}
use webshell.Base.Equality.{Text}
use webshell.Base.Tests.{ltb, leb, ◌==◌, if◌then◌else◌, ◌>>=◌, some_inj}
use webshell.Base.Lists.{All}

-- Between two characters, or before `suc n` continuation bytes, the first within the bounds.
pub data Utf8 : Type 0 where
  start : Utf8
  wants : ℕ → ℕ → ℕ → Utf8

lead_byte : ℕ → Option Utf8
lead_byte b =
    if ltb b 0x80
    then some start
    else if leb 0xC2 b && leb b 0xDF
    then some (wants 0 0x80 0xBF)
    else if b == 0xE0
    then some (wants 1 0xA0 0xBF)
    else if b == 0xED
    then some (wants 1 0x80 0x9F)
    else if leb 0xE1 b && leb b 0xEF
    then some (wants 1 0x80 0xBF)
    else if b == 0xF0
    then some (wants 2 0x90 0xBF)
    else if leb 0xF1 b && leb b 0xF3
    then some (wants 2 0x80 0xBF)
    else if b == 0xF4
    then some (wants 2 0x80 0x8F)
    else none

after_continuation : ℕ → Utf8
after_continuation zero = start
after_continuation (suc n) = wants n 0x80 0xBF

utf8_byte : Utf8 → ℕ → Option Utf8
unfolding lead_byte after_continuation
utf8_byte start b = lead_byte b
utf8_byte (wants n lo hi) b = if leb lo b && leb b hi then some (after_continuation n) else none

unfoldable pub utf8_scan : Utf8 → Text → Option Utf8
unfolding utf8_byte
utf8_scan s [] = some s
utf8_scan s (b ∷ bs) = utf8_byte s b >>= λ t. utf8_scan t bs

-- The bytes are whole characters.
abbrev pub IsUtf8 : Text → Type 0
IsUtf8 t = utf8_scan start t ≡ some start

accept : Text → Option Utf8 → Option Text
accept t (some start) = some t
accept t _ = none

-- `str::from_utf8(bytes).ok()`
unfoldable pub from_utf8 : Text → Option Text
unfolding accept
from_utf8 t = accept t (utf8_scan start t)

pub from_utf8_valid : (t : Text) → IsUtf8 t → from_utf8 t ≡ some t
unfolding from_utf8 accept
from_utf8_valid t h = rw h

bind_cong :
    (o : Option Utf8) (f g h : Utf8 → Option Utf8)
    → ((t : Utf8) → f t ≡ (g t >>= h))
    → (o >>= f) ≡ ((o >>= g) >>= h)
bind_cong none f g h e = refl
bind_cong (some t) f g h e = e t

scan-append :
    (s : Utf8) (a b : Text) → utf8_scan s (a ++ b) ≡ (utf8_scan s a >>= λ t. utf8_scan t b)
unfolding utf8_scan
scan-append s [] b = refl
scan-append s (x ∷ xs) b =
    bind_cong (utf8_byte s x) (λ t. utf8_scan t (xs ++ b)) (λ t. utf8_scan t xs)
      (λ t. utf8_scan t b) (λ t. scan-append t xs b)

pub append-IsUtf8 : (a b : Text) → IsUtf8 a → IsUtf8 b → IsUtf8 (a ++ b)
append-IsUtf8 a b ha hb = scan-append start a b ∙ rw ha hb

-- A byte of ASCII is a character.
pub ascii-IsUtf8 : (t : Text) → All (λ b. b < 0x80) t → IsUtf8 t
unfolding utf8_scan
ascii-IsUtf8 [] h = refl
ascii-IsUtf8 (b ∷ bs) h =
    let first : utf8_byte start b ≡ some start = ground arith in rw first (ascii-IsUtf8 bs h.1)

accept-some : (t u : Text) (o : Option Utf8) → accept t o ≡ some u → u ≡ t
unfolding accept
accept-some t u none h = absurd (cc h)
accept-some t u (some start) h = sym (some_inj h)
accept-some t u (some (wants n lo hi)) h = absurd (cc h)

-- What is read is the bytes themselves.
pub from_utf8-some : (t u : Text) → from_utf8 t ≡ some u → u ≡ t
unfolding from_utf8
from_utf8-some t u h = accept-some t u (utf8_scan start t) h
