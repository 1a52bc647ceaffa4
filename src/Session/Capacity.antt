-- ===== src/Session/Capacity.antt =====
-- The bound on stored sessions, and whom the eviction chooses.
use webshell.Base.{
  ℕ, ◌+◌, ◌≤◌, ◌≡◌, refl, ap, ◌∙◌, Bool, true, false, not, Option, none, some, [], ◌∷◌, arith, Text,
  text_eq, ◌=?◌, =?_iff, =?_refl, inl, inr, Option-cases, Bool-cases, length, leb,
}
use webshell.HashMap
use webshell.HashMap.{HashMap, Distinct}
use webshell.HashMap.Laws.{length-insert-le, length-remove_present}
use webshell.Session.{
  Session, SessionStore, Env, Fresh, drop_key, make_room, victim, oldest, earlier, max_sessions,
  create, start,
}

get-first :
    (j : Text) (t : Session) (m : HashMap Text Session) → HashMap.get j ((j, t) ∷ m) ≡ some t
unfolding HashMap.get
get-first j t m = rw (=?_refl j)

get-cons :
    (j k : Text) (t s : Session) (m : HashMap Text Session)
    → HashMap.get j m ≡ none
    → HashMap.get k m ≡ some s
    → HashMap.get k ((j, t) ∷ m) ≡ some s
unfolding HashMap.get
get-cons j k t s m a e = elim (Bool-cases (j =? k)) [
  | inl same ↦ absurd (cc ((=?_iff j k).0 same, a, e))
  | inr other ↦ rw other e
]

-- The chosen entry stands in the map and passes the filter.
oldest-found :
    (p : Session → Bool) (m : HashMap Text Session) (k : Text) (s : Session)
    → Distinct m
    → oldest p m ≡ some (k, s)
    → (HashMap.get k m ≡ some s) × (p s ≡ true)
unfolding oldest
oldest-found p [] k s d e = absurd (cc e)
oldest-found p ((j, t) ∷ m) k s d e = elim (Option-cases (oldest p m)) [
  | inl e0 ↦ ground (arith, get-first j t m)
  | inr ((j', t'), e0) ↦
      let (f, q) = oldest-found p m j' t' d.1 e0 in
      ground (arith, f, q, get-first j t m, get-cons j j' t t' m d.0 f)
]

-- A chosen session that was created no later than `c`.
abbrev pub AtMost : Option (Text × Session) → ℕ → Type 0
AtMost none c = ⊥
AtMost (some (k, s)) c = s.created ≤ c

earlier_head :
    (k : Text) (s : Session) (o : Option (Text × Session)) → AtMost (earlier (k, s) o) s.created
earlier_head k s none = omega arith
earlier_head k s (some (j, t)) = elim (Bool-cases (leb s.created t.created)) [
  | inl e ↦ rw e (omega arith)
  | inr e ↦ rw e (ground arith)
]

earlier_tail :
    (k : Text) (s : Session) (o : Option (Text × Session)) (c : ℕ)
    → AtMost o c
    → AtMost (earlier (k, s) o) c
earlier_tail k s none c h = absurd h
earlier_tail k s (some (j, t)) c h = elim (Bool-cases (leb s.created t.created)) [
  | inl e ↦ rw e (ground arith)
  | inr e ↦ rw e h
]

-- It is found as soon as any entry passes, and is created no later than that one.
oldest_le :
    (p : Session → Bool) (m : HashMap Text Session) (j : Text) (t : Session)
    → HashMap.get j m ≡ some t
    → p t ≡ true
    → AtMost (oldest p m) t.created
unfolding oldest HashMap.get
oldest_le p [] j t e h = absurd (cc e)
oldest_le p ((i, u) ∷ m) j t e h = elim (Bool-cases (i =? j)) [
  | inl same ↦ let q : u ≡ t = ground arith in rw (q, h) (earlier_head i t (oldest p m))
  | inr other ↦
      let ih : AtMost (oldest p m) t.created = oldest_le p m j t (ground arith) h in
      elim (Bool-cases (p u)) [
        | inl b ↦ rw b (earlier_tail i u (oldest p m) t.created ih)
        | inr b ↦ rw b ih
      ]
]

-- The victim of an eviction is in the map. While any session is not authenticated, it is one of
-- those, and no other of them is older; only when all are authenticated does one of them go.
pub victim_lem :
    (m : HashMap Text Session) (k : Text) (s : Session)
    → Distinct m
    → victim m ≡ some (k, s)
    → (HashMap.get k m ≡ some s)
      × ((j : Text) (t : Session)
          → HashMap.get j m ≡ some t
          → t.authenticated ≡ false
          → (s.authenticated ≡ false) × (s.created ≤ t.created))
unfolding victim
victim_lem m k s d e = elim (Option-cases (oldest (λ t. not t.authenticated) m)) [
  | inl e0 ↦
      let e' : oldest (λ _. true) m ≡ some (k, s) = rw e0 at e in
      (
        (oldest-found _ m k s d e').0,
        λ j t f a. absurd (rw e0 at (oldest_le (λ t. not t.authenticated) m j t f (rw a))),
      )
  | inr ((k', s'), e0) ↦
      let e' : some (k', s') ≡ some (k, s) = rw e0 at e in
      let e1 : oldest (λ t. not t.authenticated) m ≡ some (k, s) = e0 ∙ e' in
      let (f, q) = oldest-found _ m k s d e1 in
      (
        f,
        λ j t g a.
            (ground (arith, q), rw e1 at (oldest_le (λ t. not t.authenticated) m j t g (rw a))),
      )
]

victim-none : (m : HashMap Text Session) → victim m ≡ none → m ≡ []
unfolding victim
victim-none [] e = refl
victim-none ((i, u) ∷ m) e = elim (Option-cases (oldest (λ t. not t.authenticated) ((i, u) ∷ m))) [
  | inl e0 ↦
      let e' : oldest (λ _. true) ((i, u) ∷ m) ≡ none = rw e0 at e in
      absurd (rw e' at (oldest_le (λ _. true) ((i, u) ∷ m) i u (get-first i u m) refl))
  | inr (v, e0) ↦ absurd (cc (rw e0 at e))
]

length-make_room :
    (st : SessionStore)
    → Distinct st.inner
    → length st.inner ≤ max_sessions
    → length (make_room st).inner + 1 ≤ max_sessions
unfolding make_room drop_key
length-make_room st d h = elim (Option-cases (victim st.inner)) [
  | inl e ↦ rw e (let n : st.inner ≡ [] = victim-none st.inner e in ground (arith, ap length n))
  | inr ((k, s), e) ↦ rw e (
      let f = (victim_lem st.inner k s d e).0 in
      ground (arith, length-remove_present k st.inner s f))
]

-- A flood of anonymous requests cannot grow the store: `create` keeps it within `MAX_SESSIONS`.
pub create-length :
    (session_key : Text → Text) (env : Env) (fresh : Fresh) (st : SessionStore)
    → Distinct st.inner
    → length st.inner ≤ max_sessions
    → length (create session_key env fresh st).0.inner ≤ max_sessions
unfolding create
create-length session_key env fresh st d h = omega (
  arith,
  length-make_room st d h,
  length-insert-le (session_key fresh.id) (start session_key env fresh false false [])
      (make_room st).inner,
)
