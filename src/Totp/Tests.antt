-- ===== src/Totp/Tests.antt =====
-- Codes of one seed, under a toy HMAC, and the memory of the replay guard.
use webshell.Base.{
  ℕ, ◌%◌, replicate, ◌≡◌, ◌↔◌, refl, true, false, List, [], ◌∷◌, Text, codes, some, arith,
}
use webshell.Base.Strings.{trim, is_whitespace, to_decimal}
use webshell.Totp.{accept_at, at_index, code_at, verify, encode_base32, decode_base32}
use webshell.Totp.Window.{IsAccepted, verify_iff}
use webshell.Totp.Hotp.{IsSha1}
use webshell.Totp.SingleUse.{accept_all, accept_at-once}

-- Twenty bytes, of which the fourth is the last one of the message.
abbrev toy : Text → Text → Text
toy key message = 0 ∷ 0 ∷ 0 ∷ at_index message 7 % 256 ∷ replicate 16 0

toy-IsSha1 : IsSha1 toy
toy-IsSha1 = record { size = λ key message. refl; bytes = λ key message. ground arith }

abbrev seed : Text
seed = codes "MZXW6YTBOI"

test_base32 :
    (encode_base32 (codes "foobar") ≡ codes "MZXW6YTBOI")
    × (decode_base32 seed ≡ some (codes "foobar"))
unfolding encode_base32 decode_base32
test_base32 = (refl, refl)

test_verify : verify toy 6 seed (codes " 000005") ≡ true
unfolding verify code_at decode_base32 at_index to_decimal trim is_whitespace
test_verify = refl

verify_iff_example :
    (verify toy 6 seed (codes " 000005") ≡ true) ↔ IsAccepted toy 6 seed (codes " 000005")
verify_iff_example = verify_iff toy 6 seed (codes " 000005") toy-IsSha1 (omega arith)

abbrev others : List (Text × ℕ)
others = (codes "222222", 11) ∷ (codes "333333", 40) ∷ []

accepted : (accept_at (codes "111111") 10 []).1 ≡ true
unfolding accept_at
accepted = refl

accept_at-once_example :
    (accept_at (codes " 111111") 99 (accept_all others (accept_at (codes "111111") 10 []).0)).1
    ≡ false
accept_at-once_example =
    accept_at-once (codes "111111") (codes " 111111") 10 99 others [] (omega arith) accepted
      (unfold trim is_whitespace in refl) (omega arith, (omega arith, tt)) (omega arith)
      (omega arith)

-- A third code in between, and the first is accepted again after 30 seconds.
test_replayed :
    (accept_at (codes "111111") 40 (
      accept_all
        ((codes "222222", 11) ∷ (codes "333333", 12) ∷ (codes "444444", 40) ∷ [])
        (accept_at (codes "111111") 10 []).0)).1
    ≡ true
unfolding accept_all accept_at trim is_whitespace
test_replayed = refl
