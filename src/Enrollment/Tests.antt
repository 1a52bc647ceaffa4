-- ===== src/Enrollment/Tests.antt =====
-- One identity and two subjects.
use webshell.Base.{◌≡◌, refl, true, false, none, [], ◌∷◌, codes}
use webshell.HashMap
use webshell.Identity.{Identity, Provider}
use webshell.Enrollment.{EnrollmentStore, ok, pin_subject, entry}
use webshell.Enrollment.Pinning.{enrolls, pins, run, pin_subject-lasting}

abbrev alice : Identity
alice = record { provider = Provider.google; subject = codes "alice" }

abbrev empty : EnrollmentStore
empty = record { inner = []; disk = none }

first_pin : (pin_subject true alice (codes "s") empty).1 ≡ ok true
unfolding pin_subject entry HashMap.get
first_pin = refl

pin_subject-lasting_example :
    (pin_subject true alice (codes "t") (
      run
        (enrolls true alice (codes "SEED") 7 ∷ pins true alice (codes "u") ∷ [])
        (pin_subject true alice (codes "s") empty).0)).1
    ≡ ok false
pin_subject-lasting_example =
    pin_subject-lasting true true alice (codes "s") (codes "t")
      (enrolls true alice (codes "SEED") 7 ∷ pins true alice (codes "u") ∷ []) empty first_pin
