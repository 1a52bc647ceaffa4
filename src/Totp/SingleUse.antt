-- ===== src/Totp/SingleUse.antt =====
-- The replay guard: for how long, and against how many other codes, a code stays used.
use webshell.Base.{
  ℕ, suc, ◌+◌, ◌-◌, ◌≤◌, ◌<◌, ◌≡◌, refl, ap, ◌∙◌, ◌++◌, Bool, true, false, List, [], ◌∷◌, arith,
  length, length-append, length-keep_if-le, ltb, ◌==◌, keep_if, any_of, All, Text, ◌=?◌, =?_refl,
  =?_iff, text_eq, inl, inr, Bool-cases, append_assoc,
}
use webshell.Base.Strings.{trim}
use webshell.Totp.{ReplayGuard, replay_memory, replay_window_secs, seen_in, pop_front, accept_at}

-- A run of calls: codes and the clock they come at.
unfoldable pub accept_all : List (Text × ℕ) → ReplayGuard → ReplayGuard
accept_all [] recent = recent
accept_all ((code, now) ∷ calls) recent = accept_all calls (accept_at code now recent).0

length-pop_front :
    (q : ReplayGuard) → length q ≤ replay_memory → length (pop_front q) + 1 ≤ replay_memory
length-pop_front [] h = omega arith
length-pop_front (x ∷ q) h = ground arith

-- The memory never holds more than `REPLAY_MEMORY` codes.
pub accept_at-length :
    (code : Text) (now : ℕ) (recent : ReplayGuard)
    → length recent ≤ replay_memory
    → length (accept_at code now recent).0 ≤ replay_memory
unfolding accept_at
accept_at-length code now recent h =
    let kept = keep_if (λ e. ltb (now - e.1) replay_window_secs) recent in
    let shorter = length-keep_if-le (λ e. ltb (now - e.1) replay_window_secs) recent in
    ground (arith, length-pop_front kept, length-append (pop_front kept) ((trim code, now) ∷ []))

keep_if-append :
    (p : Text × ℕ → Bool) (xs ys : ReplayGuard)
    → keep_if p (xs ++ ys) ≡ keep_if p xs ++ keep_if p ys
keep_if-append p [] ys = refl
keep_if-append p (x ∷ xs) ys = ground (arith, keep_if-append p xs ys)

keep_if-kept :
    (p : Text × ℕ → Bool) (e : Text × ℕ) (xs : ReplayGuard)
    → p e ≡ true
    → keep_if p (e ∷ xs) ≡ e ∷ keep_if p xs
keep_if-kept p e xs h = rw h

unseen-kept :
    (code : Text) (now : ℕ) (recent : ReplayGuard)
    → seen_in code (keep_if (λ e. ltb (now - e.1) replay_window_secs) recent) ≡ false
    → All (λ e. e.0 ≡ code → 90 ≤ now - e.1) recent
unseen-kept code now [] h = tt
unseen-kept code now ((seen, at) ∷ recent) h = elim (Bool-cases (ltb (now - at) 90)) [
  | inl young ↦
      let other : (seen =? code) ≡ false = ground arith in
      (λ e. absurd (cc (other, (=?_iff seen code).1 e)), unseen-kept code now recent (ground arith))
  | inr old ↦ (λ e. ground arith, unseen-kept code now recent (rw old at h))
]

-- An accepted code is in no entry of the memory that is younger than 90 seconds.
pub accept_at-unused :
    (code : Text) (now : ℕ) (recent : ReplayGuard)
    → (accept_at code now recent).1 ≡ true
    → All (λ e. e.0 ≡ trim code → 90 ≤ now - e.1) recent
unfolding accept_at
accept_at-unused code now recent h = unseen-kept (trim code) now recent (ground arith)

-- The code is in the memory, with at most `k` younger ones behind it.
pub record Remembers (code : Text) (at k : ℕ) (recent : ReplayGuard) : Type 0 where
  pub older : ReplayGuard
  pub younger : ReplayGuard
  pub split : recent ≡ older ++ (code, at) ∷ younger
  pub few : length younger ≤ k
  pub bounded : length recent ≤ replay_memory

any_of-middle :
    (p : Text × ℕ → Bool) (xs : ReplayGuard) (e : Text × ℕ) (ys : ReplayGuard)
    → p e ≡ true
    → any_of p (xs ++ e ∷ ys) ≡ true
any_of-middle p [] e ys h = ground arith
any_of-middle p (x ∷ xs) e ys h = ground (arith, any_of-middle p xs e ys h)

-- `retain` leaves a code alone that is younger than 90 seconds.
kept-Remembers :
    (code : Text) (at k now : ℕ) (recent : ReplayGuard)
    → now < at + replay_window_secs
    → Remembers code at k recent
    → Remembers code at k (keep_if (λ e. ltb (now - e.1) replay_window_secs) recent)
kept-Remembers code at k now recent h r =
    let p : Text × ℕ → Bool = λ e. ltb (now - e.1) replay_window_secs in
    let fresh : p (code, at) ≡ true = ground arith in
    record {
      older = keep_if p r.older;
      younger = keep_if p r.younger;
      split =
          ap (keep_if p) r.split
          ∙ keep_if-append p r.older ((code, at) ∷ r.younger)
          ∙ ap (λ q. keep_if p r.older ++ q) (keep_if-kept p (code, at) r.younger fresh);
      few = omega (arith, length-keep_if-le p r.younger, r.few);
      bounded = omega (arith, length-keep_if-le p recent, r.bounded);
    }

pop_front-older :
    (older : ReplayGuard) (e : Text × ℕ) (younger : ReplayGuard)
    → suc (length younger) < replay_memory
    → (rest : ReplayGuard) × (pop_front (older ++ e ∷ younger) ≡ rest ++ e ∷ younger)
pop_front-older [] e younger h = ([], ground arith)
pop_front-older (x ∷ xs) e younger h =
    elim (Bool-cases (length (x ∷ (xs ++ e ∷ younger)) == replay_memory)) [
      | inl full ↦ (xs, rw full)
      | inr space ↦ (x ∷ xs, rw space)
    ]

pushed-Remembers :
    (code : Text) (at k : ℕ) (recent : ReplayGuard) (e : Text × ℕ)
    → suc k < replay_memory
    → Remembers code at k recent
    → Remembers code at (suc k) (pop_front recent ++ (e ∷ []))
pushed-Remembers code at k recent e h r =
    let (rest, same) = pop_front-older r.older (code, at) r.younger (omega (arith, h, r.few)) in
    record {
      older = rest;
      younger = r.younger ++ (e ∷ []);
      split =
          ap (λ q. pop_front q ++ (e ∷ [])) r.split
          ∙ ap (λ q. q ++ (e ∷ [])) same
          ∙ append_assoc rest ((code, at) ∷ r.younger) (e ∷ []);
      few = omega (arith, length-append r.younger (e ∷ []), r.few);
      bounded =
          omega
            (arith, length-append (pop_front recent) (e ∷ []), length-pop_front recent r.bounded);
    }

accept_at-Remembers :
    (code : Text) (at k now : ℕ) (other : Text) (recent : ReplayGuard)
    → now < at + replay_window_secs
    → suc k < replay_memory
    → Remembers code at k recent
    → Remembers code at (suc k) (accept_at other now recent).0
unfolding accept_at
accept_at-Remembers code at k now other recent h hk r =
    let kept = kept-Remembers code at k now recent h r in
    elim (Bool-cases
      (seen_in (trim other) (keep_if (λ e. ltb (now - e.1) replay_window_secs) recent))) [
        | inl seen ↦ rw seen (record {
          older = kept.older;
          younger = kept.younger;
          split = kept.split;
          few = omega (arith, kept.few);
          bounded = kept.bounded;
        })
        | inr unseen ↦ rw unseen (pushed-Remembers code at k _ (trim other, now) hk kept)
      ]

accept_all-Remembers :
    (code : Text) (at k : ℕ) (calls : List (Text × ℕ)) (recent : ReplayGuard)
    → All (λ c. c.1 < at + replay_window_secs) calls
    → length calls + k < replay_memory
    → Remembers code at k recent
    → (m : ℕ) × Remembers code at m (accept_all calls recent)
unfolding accept_all
accept_all-Remembers code at k [] recent h hk r = (k, r)
accept_all-Remembers code at k ((other, now) ∷ calls) recent h hk r =
    let next = accept_at-Remembers code at k now other recent h.0 (omega (arith, hk)) r in
    accept_all-Remembers code at (suc k) calls (accept_at other now recent).0 h.1
      (omega (arith, hk)) next

Remembers-refused :
    (code again : Text) (at k now : ℕ) (recent : ReplayGuard)
    → trim again ≡ code
    → now < at + replay_window_secs
    → Remembers code at k recent
    → (accept_at again now recent).1 ≡ false
unfolding accept_at
Remembers-refused code again at k now recent e h r =
    let kept = kept-Remembers code at k now recent h r in
    let p : Text × ℕ → Bool = λ x. x.0 =? trim again in
    let found : any_of p (keep_if (λ e. ltb (now - e.1) replay_window_secs) recent) ≡ true =
      ap (any_of p) kept.split
      ∙ any_of-middle p kept.older (code, at) kept.younger (rw e (=?_refl code)) in
    rw found

accepted-Remembers :
    (code : Text) (now : ℕ) (recent : ReplayGuard)
    → length recent ≤ replay_memory
    → (accept_at code now recent).1 ≡ true
    → Remembers (trim code) now 0 (accept_at code now recent).0
unfolding accept_at
accepted-Remembers code now recent h ok =
    let p : Text × ℕ → Bool = λ e. ltb (now - e.1) replay_window_secs in
    elim (Bool-cases (seen_in (trim code) (keep_if p recent))) [
      | inl seen ↦ absurd (cc (rw seen at ok))
      | inr unseen ↦ rw unseen (record {
        older = pop_front (keep_if p recent);
        younger = [];
        split = refl;
        few = omega arith;
        bounded = omega (
          arith,
          length-append (pop_front (keep_if p recent)) ((trim code, now) ∷ []),
          length-pop_front (keep_if p recent) (omega (arith, h, length-keep_if-le p recent)),
        );
      })
    ]

-- A code is used once: when `accept` took it, it refuses the same code, spaces around it aside, until
-- 90 seconds have passed, as long as fewer than three other calls came in between.
pub accept_at-once :
    (code again : Text) (now later : ℕ) (calls : List (Text × ℕ)) (recent : ReplayGuard)
    → length recent ≤ replay_memory
    → (accept_at code now recent).1 ≡ true
    → trim again ≡ trim code
    → All (λ c. c.1 < now + replay_window_secs) calls
    → length calls < replay_memory
    → later < now + replay_window_secs
    → (accept_at again later (accept_all calls (accept_at code now recent).0)).1 ≡ false
accept_at-once code again now later calls recent h ok same times few late =
    let (m, r) =
      accept_all-Remembers (trim code) now 0 calls _ times (omega (arith, few))
        (accepted-Remembers code now recent h ok) in
    Remembers-refused (trim code) again now m later _ same late r
