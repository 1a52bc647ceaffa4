-- ===== src/LoginGuard/Tests.antt =====
-- A run of wrong codes, one each second.
use webshell.Base.{ℕ, ◌≡◌, refl, some, List, [], ◌∷◌, codes, arith}
use webshell.HashMap
use webshell.Session.{nanos}
use webshell.LoginGuard.{LoginGuard, new, mfa_failed}
use webshell.LoginGuard.Strikes.{fail_all, mfa_failed-nth}
use webshell.LoginGuard.Tarpit.{fail_bucket}

abbrev seconds : List ℕ
seconds = nanos 2 ∷ nanos 3 ∷ nanos 4 ∷ []

mfa_failed-nth_example :
    (mfa_failed (nanos 5) (codes "a") (fail_all (codes "a") (nanos 1 ∷ seconds) new)).1 ≡ some 900
mfa_failed-nth_example =
    mfa_failed-nth (codes "a") (nanos 1) seconds (nanos 5) new (unfold HashMap.get in refl)
      (omega arith, (omega arith, (omega arith, (omega arith, tt)))) (omega arith)

abbrev four : LoginGuard
four = fail_all (codes "a") (nanos 1 ∷ seconds) new

abbrev busy : LoginGuard
busy = record new { buckets = (codes "b", fail_bucket seconds (0, nanos 1)) ∷ [] }
