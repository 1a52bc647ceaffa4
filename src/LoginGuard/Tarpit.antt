-- ===== src/LoginGuard/Tarpit.antt =====
-- The tarpit: how failures slow down the next attempt on their bucket.
use webshell.Base.{
  ℕ, ◌+◌, ◌-◌, ◌*◌, ◌^◌, ◌≤◌, ◌<◌, ◌≡◌, ap, ◌∙◌, some, List, [], ◌∷◌, arith, Text, text_eq, length,
  min, ◌++◌,
}
use webshell.HashMap
use webshell.HashMap.{HashMap}
use webshell.Session.{nanos}
use webshell.LoginGuard.{Bucket, LoginGuard, recent_failures, enter, or_insert, failed}

-- Failed attempts on one bucket, at these instants.
unfoldable pub fail_bucket : List ℕ → Bucket → Bucket
fail_bucket [] b = b
fail_bucket (now ∷ later) b = fail_bucket later (failed now b)

-- Each comes within a minute of the one before it.
abbrev pub Close : ℕ → List ℕ → Type 0
Close last [] = Unit
Close last (now ∷ later) = (now - last ≤ nanos 60) × Close now later

fail_bucket-failures :
    (n last : ℕ) (later : List ℕ) (now : ℕ)
    → Close last (later ++ (now ∷ []))
    → n + length later < 2 ^ 32
    → recent_failures now (fail_bucket later (n, last)) ≡ n + length later
unfolding fail_bucket recent_failures
fail_bucket-failures n last [] now c b = ground (arith, c.0)
fail_bucket-failures n last (t ∷ later) now c b =
    let one : failed t (n, last) ≡ (n + 1, t) = unfold failed in ground (arith, c.0, b) in
    ap (λ q. recent_failures now (fail_bucket later q)) one
    ∙ fail_bucket-failures (n + 1) t later now c.1 (omega (arith, b))
    ∙ omega arith

-- The tarpit slows down a run of guesses: when a bucket's attempts failed at these instants, each
-- within a minute of the one before, the next attempt within a minute waits 300 milliseconds for
-- every one of them, and 5 seconds at most.
pub enter-delay :
    (bucket : Text) (start : ℕ) (failures : List ℕ) (now : ℕ) (g : LoginGuard)
    → HashMap.get bucket g.buckets ≡ some (fail_bucket failures (0, start))
    → Close start (failures ++ (now ∷ []))
    → length failures < 2 ^ 32
    → (enter now bucket g).1 ≡ min (length failures * 300) 5000
unfolding enter or_insert
enter-delay bucket start failures now g e c b = rw e (
    ap (λ n. min (n * 300) 5000)
      (fail_bucket-failures 0 start failures now c (omega (arith, b)) ∙ omega arith))
