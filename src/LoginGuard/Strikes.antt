-- ===== src/LoginGuard/Strikes.antt =====
-- Runs of wrong codes: which of them lock the second factor, and for how long.
use webshell.Base.{
  ℕ, zero, suc, ap, ◌+◌, ◌-◌, ◌*◌, ◌/◌, ◌%◌, ◌^◌, ◌≤◌, ◌<◌, ◌≡◌, refl, ◌∙◌, none, some, List, [],
  ◌∷◌, arith, if◌then◌else◌, ltb, ◌==◌, Text, text_eq, inl, inr, Bool-cases, some_inj, length, min,
  ◌++◌, subst,
}
use native.Mathlib.Numerals.{unary_clauses}
use webshell.HashMap
use webshell.HashMap.{HashMap}
use webshell.HashMap.Laws.{get-insert_self}
use webshell.Session.{nanos}
use webshell.LoginGuard.{
  LoginGuard, MfaStrikes, mfa_failed, mfa_locked, strikes_locked, locked_at, lockout, counted,
  or_first, mfa_max_strikes, mfa_strike_memory,
}

-- Wrong codes of one identity, at these instants.
unfoldable pub fail_all : Text → List ℕ → LoginGuard → LoginGuard
fail_all identity [] g = g
fail_all identity (now ∷ later) g = fail_all identity later (mfa_failed now identity g).0

-- None comes more than seven days after the one before it.
abbrev pub Steady : ℕ → List ℕ → Type 0
Steady last [] = Unit
Steady last (now ∷ later) = (now - last ≤ nanos mfa_strike_memory) × Steady now later

-- What `mfa_failed` leaves for the identity.
failed-strikes :
    (now : ℕ) (identity : Text) (g : LoginGuard)
    → (s : MfaStrikes) × (HashMap.get identity (mfa_failed now identity g).0.mfa ≡ some s)
      × (s.count ≡ counted now (or_first now (HashMap.get identity g.mfa)))
      × (s.last ≡ now)
unfolding mfa_failed
failed-strikes now identity g =
    elim (Bool-cases
      (counted now (or_first now (HashMap.get identity g.mfa)) % mfa_max_strikes == 0)) [
        | inl hit ↦ rw hit (_, get-insert_self identity _ g.mfa, refl, refl)
        | inr miss ↦ rw miss (_, get-insert_self identity _ g.mfa, refl, refl)
      ]

failed-answer :
    (now : ℕ) (identity : Text) (g : LoginGuard) (n : ℕ)
    → counted now (or_first now (HashMap.get identity g.mfa)) ≡ n
    → (mfa_failed now identity g).1
      ≡ (if n % mfa_max_strikes == 0 then some (lockout (n / mfa_max_strikes - 1)) else none)
unfolding mfa_failed
failed-answer now identity g n e = rw⁻¹ e (ground arith)

-- The identity has `n` strikes, the last of them at `last`.
abbrev HasStrikes : Text → ℕ → ℕ → LoginGuard → Type 0
HasStrikes identity n last g =
    (s : MfaStrikes) × (HashMap.get identity g.mfa ≡ some s) × (s.count ≡ n) × (s.last ≡ last)

counted-steady :
    (now n last : ℕ) (identity : Text) (g : LoginGuard)
    → HasStrikes identity n last g
    → now - last ≤ nanos mfa_strike_memory
    → n + 1 < 2 ^ 32
    → counted now (or_first now (HashMap.get identity g.mfa)) ≡ n + 1
unfolding or_first
counted-steady now n last identity g (s, e, c, l) h b = rw (e, c, l) (ground (arith, h, b))

run-HasStrikes :
    (identity : Text) (n last : ℕ) (later : List ℕ) (g : LoginGuard)
    → HasStrikes identity n last g
    → Steady last later
    → n + length later < 2 ^ 32
    → (at : ℕ) × HasStrikes identity (n + length later) at (fail_all identity later g)
      × ((now : ℕ) → Steady last (later ++ (now ∷ [])) → now - at ≤ nanos mfa_strike_memory)
unfolding fail_all
run-HasStrikes identity n last [] g h st b =
    (last, subst (λ k. HasStrikes identity k last g) (omega arith) h, λ now s. s.0)
run-HasStrikes identity n last (now ∷ later) g h st b =
    let (s, e, c, l) = failed-strikes now identity g in
    let count = c ∙ counted-steady now n last identity g h st.0 (omega (arith, b)) in
    let (at, has, next) =
      run-HasStrikes identity (n + 1) now later (mfa_failed now identity g).0 (s, e, count, l) st.1
        (omega (arith, b)) in
    (
      at,
      subst (λ k. HasStrikes identity k at (fail_all identity later (mfa_failed now identity g).0))
          (omega arith) has,
      λ t r. next t r.1,
    )

counted-fresh :
    (now : ℕ) (identity : Text) (g : LoginGuard)
    → HashMap.get identity g.mfa ≡ none
    → counted now (or_first now (HashMap.get identity g.mfa)) ≡ 1
unfolding or_first
counted-fresh now identity g e = rw e (ground arith)

Steady-init :
    (last : ℕ) (later : List ℕ) (now : ℕ) → Steady last (later ++ (now ∷ [])) → Steady last later
Steady-init last [] now s = tt
Steady-init last (t ∷ later) now s = (s.0, Steady-init t later now s.1)

pow_ge : (k : ℕ) → 128 ≤ 2 ^ (k + 7)
pow_ge zero = omega arith
pow_ge (suc k) =
    let twice : 2 ^ (suc k + 7) ≡ 2 * 2 ^ (k + 7) = simp unary_clauses (omega arith) in
    let ih = pow_ge k in omega (arith, ih, twice)

-- The shift that saturates and the power agree below the longest lockout.
lockout_lem : (round : ℕ) → lockout round ≡ min (900 * 2 ^ round) 86400
unfolding lockout
lockout_lem round = elim (Bool-cases (ltb round 32)) [
  | inl small ↦ rw small refl
  | inr big ↦
      let large : 128 ≤ 2 ^ round = subst (λ n. 128 ≤ 2 ^ n) (ground arith) (pow_ge (round - 7)) in
      rw big (ground (arith, large))
]

-- Which wrong code locks, and for how long: of a run of wrong codes that starts with a clean slate and
-- never pauses for more than seven days, exactly every fifth locks the second factor, for 15 minutes
-- at first, twice as long each further time, and never longer than a day.
pub mfa_failed-nth :
    (identity : Text) (first : ℕ) (later : List ℕ) (now : ℕ) (g : LoginGuard)
    → HashMap.get identity g.mfa ≡ none
    → Steady first (later ++ (now ∷ []))
    → length later + 2 < 2 ^ 32
    → (mfa_failed now identity (fail_all identity (first ∷ later) g)).1 ≡ (
        if (length later + 2) % 5 == 0
        then some (min (900 * 2 ^ ((length later + 2) / 5 - 1)) 86400)
        else none)
unfolding fail_all
mfa_failed-nth identity first later now g fresh st b =
    let (s, e, c, l) = failed-strikes first identity g in
    let one : s.count ≡ 1 = c ∙ counted-fresh first identity g fresh in
    let (at, has, next) =
      run-HasStrikes identity 1 first later (mfa_failed first identity g).0 (s, e, one, l)
        (Steady-init first later now st) (omega (arith, b)) in
    let answer =
      failed-answer now identity (fail_all identity later (mfa_failed first identity g).0)
        (length later + 2)
        (counted-steady now (1 + length later) at identity
            (fail_all identity later (mfa_failed first identity g).0) has (next now st)
            (omega (arith, b))
          ∙ omega arith) in
    answer
    ∙ ap (λ l. if (length later + 2) % 5 == 0 then some l else none)
        (lockout_lem ((length later + 2) / 5 - 1))

-- A lockout holds: from the moment `mfa_failed` answers it until that time has passed, `mfa_locked`
-- answers the time that is left, and nothing after.
pub mfa_failed-locks :
    (now later lock : ℕ) (identity : Text) (g : LoginGuard)
    → (mfa_failed now identity g).1 ≡ some lock
    → mfa_locked later identity (mfa_failed now identity g).0
      ≡ (if ltb later (now + nanos lock) then some (now + nanos lock - later) else none)
unfolding mfa_failed mfa_locked strikes_locked locked_at
mfa_failed-locks now later lock identity g h =
    elim (Bool-cases
      (counted now (or_first now (HashMap.get identity g.mfa)) % mfa_max_strikes == 0)) [
        | inl hit ↦
            let same = some_inj (rw hit at h) in
            let n = counted now (or_first now (HashMap.get identity g.mfa)) in
            let s : MfaStrikes = record {
              count = n;
              last = now;
              locked_until = some (now + nanos (lockout (n / mfa_max_strikes - 1)));
            } in
            rw hit (rw (get-insert_self identity s g.mfa, same) (ground arith))
        | inr miss ↦ absurd (cc (rw miss at h))
      ]
