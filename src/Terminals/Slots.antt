-- ===== src/Terminals/Slots.antt =====
-- The slots of all users, read after each change to them.
use webshell.Base.{
  ℕ, ◌≤◌, ◌<◌, ◌≡◌, ◌⊎◌, refl, ap, sym, ◌∙◌, inl, inr, ◌&&◌, Option, none, some, List, ◌>>=◌, arith,
  ltb, ◌==◌, if◌then◌else◌, length, length-set, get_elem?, set, Text, text_eq, ◌=?◌, =?_iff,
  Bool-cases, if_elim, some_inj,
}
use webshell.Base.Places.{get_elem?-set, get_elem?-replicate-none, length-replicate}
use webshell.HashMap
use webshell.HashMap.{HashMap}
use webshell.HashMap.Laws.{get-insert}
use webshell.Terminals.{Terminals, slots_or_new, slots_of, put_slots, pool, slot_of, put_slot, new}

-- The slot at `j` after one at `i` was written.
set_read :
    (i j : ℕ) (o : Option ℕ) (slots : List (Option ℕ))
    → i < length slots
    → ((if i == j && ltb i (length slots) then some o else get_elem? slots j) >>= λ x. x)
      ≡ (if i == j then o else (get_elem? slots j >>= λ x. x))
set_read i j o slots h = ground arith

-- A slot is written with nothing, or with the place of a shell that was just added.
abbrev pub Fresh : Option ℕ → ℕ → ℕ → Type 0
Fresh none old now = Unit
Fresh (some id) old now = (old ≤ id) × (id < now)

Fresh-some :
    (o : Option ℕ) (old now id : ℕ) → Fresh o old now → o ≡ some id → (old ≤ id) × (id < now)
Fresh-some none old now id f e = absurd (cc e)
Fresh-some (some k) old now id f e =
    let same = some_inj e in (omega (arith, f.0, same), omega (arith, f.1, same))

read-cases :
    (u v : Text) (i j : ℕ) (o was : Option ℕ) (id : ℕ)
    → (if u =? v && i == j then o else was) ≡ some id
    → ((u ≡ v) × (i ≡ j) × (o ≡ some id)) ⊎ (was ≡ some id)
read-cases u v i j o was id h = elim (Bool-cases (u =? v && i == j)) [
  | inl e ↦ inl ((=?_iff u v).0 (ground arith), ground arith, rw e at h)
  | inr e ↦ inr (rw e at h)
]

module _ {Sh : Type 0} where
  pub slots_of-put_slots :
      (u v : Text) (slots : List (Option ℕ)) (ts : Terminals Sh)
      → slots_of v (put_slots u slots ts) ≡ (if u =? v then slots else slots_of v ts)
  unfolding slots_of put_slots slots_or_new
  slots_of-put_slots u v slots ts = elim (Bool-cases (u =? v)) [
    | inl e ↦ rw (get-insert u v slots ts.pools, e) refl
    | inr e ↦ rw (get-insert u v slots ts.pools, e) refl
  ]

  -- Looking a pool up leaves every user's slots as they are.
  pub slots_of-pool : (u v : Text) (ts : Terminals Sh) → slots_of v (pool u ts) ≡ slots_of v ts
  unfolding pool
  slots_of-pool u v ts =
      slots_of-put_slots u v (slots_of u ts) ts
      ∙ if_elim (λ s. s ≡ slots_of v ts) (u =? v) _ _
          (λ e. ap (λ w. slots_of w ts) ((=?_iff u v).0 e)) (λ e. refl)

  pub slot_of-put_slot :
      (u v : Text) (i j : ℕ) (o : Option ℕ) (ts : Terminals Sh)
      → i < length (slots_of u ts)
      → slot_of v j (put_slot u i o ts) ≡ (if u =? v && i == j then o else slot_of v j ts)
  slot_of-put_slot u v i j o ts h = elim (Bool-cases (u =? v)) [
    | inl e ↦
        let same : slots_of u ts ≡ slots_of v ts = ap (λ w. slots_of w ts) ((=?_iff u v).0 e) in
        rw (slots_of-put_slots u v (set (slots_of u ts) i o) ts, e)
          (ap (λ x. x >>= λ o. o) (get_elem?-set (slots_of u ts) i j o)
            ∙ set_read i j o (slots_of u ts) h
            ∙ ap (λ s. if i == j then o else (get_elem? s j >>= λ x. x)) same)
    | inr e ↦ rw (slots_of-put_slots u v (set (slots_of u ts) i o) ts, e) refl
  ]

  -- What holds of the slots of every user at any time: as many as configured, each naming a shell that
  -- was started, and no two the same.
  pub record WellPlaced (ts : Terminals Sh) : Type 0 where
    pub sized : (u : Text) → length (slots_of u ts) ≡ ts.slots_per_user
    pub placed : (u : Text) (i id : ℕ) → slot_of u i ts ≡ some id → id < length ts.shells
    pub apart :
        (u v : Text) (i j id : ℕ)
        → slot_of u i ts ≡ some id
        → slot_of v j ts ≡ some id
        → (u ≡ v) × (i ≡ j)

  pub new-WellPlaced :
      (n : ℕ) (cmd : List Text) (envs inherited : HashMap Text Text) (owner home : Text) (cap : ℕ)
      → WellPlaced (new {Sh = Sh} n cmd envs owner home cap inherited)
  unfolding slots_of slots_or_new HashMap.get
  new-WellPlaced n cmd envs inherited owner home cap = record {
    sized = λ u. length-replicate n none;
    placed = λ u i id e. absurd (cc (e, get_elem?-replicate-none {A = ℕ} n i));
    apart = λ u v i j id e _. absurd (cc (e, get_elem?-replicate-none {A = ℕ} n i));
  }

  -- Writing one slot, whatever else happens to the list of shells.
  pub write-WellPlaced :
      (u : Text) (i : ℕ) (o : Option ℕ) (ts ts' : Terminals Sh)
      → WellPlaced ts
      → ts'.slots_per_user ≡ ts.slots_per_user
      → length ts.shells ≤ length ts'.shells
      → Fresh o (length ts.shells) (length ts'.shells)
      → ((v : Text) → length (slots_of v ts') ≡ length (slots_of v ts))
      → ((v : Text) (j : ℕ) → slot_of v j ts' ≡ (if u =? v && i == j then o else slot_of v j ts))
      → WellPlaced ts'
  write-WellPlaced u i o ts ts' w same more fresh lengths reads = record {
    sized = λ v. lengths v ∙ w.sized v ∙ sym same;
    placed = λ v j id e. elim (read-cases u v i j o (slot_of v j ts) id (sym (reads v j) ∙ e)) [
      | inl (_, _, new) ↦ (Fresh-some o _ _ id fresh new).1
      | inr old ↦ omega (arith, w.placed v j id old, more)
    ];
    apart = λ v v' j j' id e e'.
        elim (read-cases u v i j o (slot_of v j ts) id (sym (reads v j) ∙ e)) [
          | inl (p, q, new) ↦
              elim (read-cases u v' i j' o (slot_of v' j' ts) id (sym (reads v' j') ∙ e')) [
                | inl (p', q', _) ↦ (sym p ∙ p', sym q ∙ q')
                | inr old ↦
                    absurd (omega (arith, w.placed v' j' id old, Fresh-some o _ _ id fresh new))
              ]
          | inr old ↦ elim (read-cases u v' i j' o (slot_of v' j' ts) id (sym (reads v' j') ∙ e')) [
            | inl (_, _, new) ↦
                absurd (omega (arith, w.placed v j id old, Fresh-some o _ _ id fresh new))
            | inr old' ↦ w.apart v v' j j' id old old'
          ]
        ];
  }

  pub length-put_slot :
      (u v : Text) (i : ℕ) (o : Option ℕ) (ts : Terminals Sh)
      → length (slots_of v (put_slot u i o ts)) ≡ length (slots_of v ts)
  length-put_slot u v i o ts =
      ap length (slots_of-put_slots u v (set (slots_of u ts) i o) ts)
      ∙ if_elim (λ s. length s ≡ length (slots_of v ts)) (u =? v) _ _
          (λ e.
            length-set (slots_of u ts) i o ∙ ap (λ w. length (slots_of w ts)) ((=?_iff u v).0 e))
          (λ e. refl)
