-- ===== src/Enrollment/Pinning.antt =====
-- What later pins and enrolments leave of a pinned subject in memory.
use webshell.Base.{
  ℕ, ◌≡◌, refl, ap, ◌∙◌, Bool, true, Option, none, some, List, [], ◌∷◌, arith, Text, ◌=?◌, =?_iff,
  text_eq, inl, inr, Bool-cases, Option-cases,
}
use webshell.HashMap
use webshell.HashMap.{HashMap}
use webshell.HashMap.Laws.{get-insert, get-insert_self}
use webshell.Identity.{Identity, identity_eq}
use webshell.Enrollment.{
  Record, EnrollmentStore, ok, write, get, entry, or_default, put, pin, pin_subject, enroll,
}

-- The calls that change a store.
pub data Call : Type 0 where
  pins : Bool → Identity → Text → Call
  enrolls : Bool → Identity → Text → ℕ → Call

unfoldable pub step : Call → EnrollmentStore → EnrollmentStore
step (pins works id sub) st = (pin_subject works id sub st).0
step (enrolls works id secret now) st = (enroll works id secret now st).0

unfoldable pub run : List Call → EnrollmentStore → EnrollmentStore
run [] st = st
run (c ∷ cs) st = run cs (step c st)

-- The identity is pinned to the subject.
abbrev pub IsPinned : Identity → Text → EnrollmentStore → Type 0
IsPinned id sub st = (r : Record) × (get id st ≡ some r) × (r.sub ≡ some sub)

inner-write : (works : Bool) (st : EnrollmentStore) → (write works st).inner ≡ st.inner
unfolding write
inner-write works st = ground arith

-- A change to one record that keeps a pin keeps every pin.
put-IsPinned :
    (id i : Identity) (sub : Text) (r : Record) (st : EnrollmentStore)
    → ((sub : Text) → (entry i st).sub ≡ some sub → r.sub ≡ some sub)
    → IsPinned id sub st
    → IsPinned id sub (put i r st)
unfolding entry or_default
put-IsPinned id i sub r st keeps (q, e, p) = elim (Bool-cases (i =? id)) [
  | inl same ↦
      let i=id : i ≡ id = (=?_iff i id).0 same in
      (r, rw (get-insert i id r st.inner, same), keeps sub (rw (i=id, e) p))
  | inr other ↦ (q, rw (get-insert i id r st.inner, other) e, p)
]

pin-IsPinned :
    (works : Bool) (i : Identity) (s : Text) (o : Option Text) (st : EnrollmentStore)
    → (entry i st).sub ≡ o
    → (id : Identity) (sub : Text) → IsPinned id sub st
    → IsPinned id sub (pin works i s o (entry i st) st).0
unfolding pin
pin-IsPinned works i s none st e id sub h =
    rw (inner-write works (put i (record (entry i st) { sub = some s }) st)) (
      put-IsPinned id i sub (record (entry i st) { sub = some s }) st (λ t f. absurd (cc (e, f))) h)
pin-IsPinned works i s (some known) st e id sub h =
    put-IsPinned id i sub (entry i st) st (λ t f. f) h

step-IsPinned :
    (c : Call) (id : Identity) (sub : Text) (st : EnrollmentStore)
    → IsPinned id sub st
    → IsPinned id sub (step c st)
unfolding step pin_subject enroll
step-IsPinned (pins works i s) id sub st h =
    pin-IsPinned works i s (entry i st).sub st refl id sub h
step-IsPinned (enrolls works i secret now) id sub st h =
    rw
      (inner-write works
        (put i (record (entry i st) { mfa_secret = some secret; enrolled_at = some now }) st))
      (put-IsPinned id i sub
        (record (entry i st) { mfa_secret = some secret; enrolled_at = some now }) st (λ t f. f) h)

pub run-IsPinned :
    (cs : List Call) (id : Identity) (sub : Text) (st : EnrollmentStore)
    → IsPinned id sub st
    → IsPinned id sub (run cs st)
unfolding run
run-IsPinned [] id sub st h = h
run-IsPinned (c ∷ cs) id sub st h = run-IsPinned cs id sub (step c st) (step-IsPinned c id sub st h)

answer-IsPinned :
    (works : Bool) (id : Identity) (known sub : Text) (st : EnrollmentStore)
    → IsPinned id known st
    → (pin_subject works id sub st).1 ≡ ok (known =? sub)
unfolding pin_subject pin entry or_default
answer-IsPinned works id known sub st (r, e, p) = rw (e, p)

pins-IsPinned :
    (works : Bool) (id : Identity) (sub : Text) (st : EnrollmentStore)
    → (pin_subject works id sub st).1 ≡ ok true
    → IsPinned id sub (pin_subject works id sub st).0
unfolding pin_subject pin entry
pins-IsPinned works id sub st h = elim (Option-cases (entry id st).sub) [
  | inl e ↦ rw e (
    record (entry id st) { sub = some sub },
    ap (HashMap.get id) (inner-write works (put id (record (entry id st) { sub = some sub }) st))
        ∙ get-insert_self id _ st.inner,
    refl,
  )
  | inr (known, e) ↦
      let answer : ok (known =? sub) ≡ ok true = rw e at h in
      let same : known ≡ sub = (=?_iff known sub).0 (cc answer) in
      rw e (entry id st, get-insert_self id (entry id st) st.inner, rw same at e)
]

-- An address is not handed over: once `pin_subject` has let a subject in, then whatever subjects are
-- pinned and secrets enrolled after that, for whomever, it lets in that subject and no other.
pub pin_subject-lasting :
    (works again : Bool) (id : Identity) (sub other : Text) (cs : List Call) (st : EnrollmentStore)
    → (pin_subject works id sub st).1 ≡ ok true
    → (pin_subject again id other (run cs (pin_subject works id sub st).0)).1 ≡ ok (sub =? other)
pin_subject-lasting works again id sub other cs st h =
    answer-IsPinned again id sub other _
      (run-IsPinned cs id sub _ (pins-IsPinned works id sub st h))
