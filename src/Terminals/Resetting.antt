-- ===== src/Terminals/Resetting.antt =====
-- `Terminals::reset` of src/terminals.rs on all slots and all shells at once.
use webshell.Base.{
  ℕ, ◌<◌, ◌≡◌, refl, ap, sym, ◌∙◌, Bool, true, false, Option, none, some, ◌>>=◌, arith, ltb, leb,
  ◌==◌, if◌then◌else◌, length, get_elem?, Text, Bool-cases, inl, inr,
}
use webshell.Base.Places.{get_elem?-set, get_elem?-some}
use webshell.Scrollback.{Vt100}
use webshell.Shell.{Broadcast, Shell, stop}
use webshell.Terminals.{
  World, put_slots, pool, slot_of, held, put_slot, stop_at, stop_found, take_and_stop, reset,
}
use webshell.Terminals.Slots.{WellPlaced}
use webshell.Terminals.Isolation.{same_slot, pool-WellPlaced, held-pool, slot_of-pool}
use webshell.Terminals.Stops.{take_and_stop_lem}

-- The slot names that place.
abbrev pub names : Option ℕ → ℕ → Bool
names none id = false
names (some k) id = k == id

module _ (vt : Vt100) (bc : Broadcast) where
  -- What is at a place of which the shell, if any, is stopped.
  abbrev pub stopped : Option (Shell vt bc) → Option (Shell vt bc)
  stopped o = o >>= λ t. some (stop t)

  stop_found-shells :
      (id j : ℕ) (found : Option (Shell vt bc)) (ts : World vt bc)
      → get_elem? ts.shells id ≡ found
      → get_elem? (stop_found vt bc id found ts).shells j
        ≡ (if id == j then stopped (get_elem? ts.shells j) else get_elem? ts.shells j)
  unfolding stop_found
  stop_found-shells id j none ts e = elim (Bool-cases (id == j)) [
    | inl same ↦
        let same' : id ≡ j = ground arith in
        let gone : get_elem? ts.shells j ≡ none = ap (get_elem? ts.shells) (sym same') ∙ e in
        rw (same, gone) refl
    | inr other ↦ rw other refl
  ]
  stop_found-shells id j (some t) ts e =
      let inside : id < length ts.shells = get_elem?-some ts.shells id t e in
      let inside' : ltb id (length ts.shells) ≡ true = ground arith in
      get_elem?-set ts.shells id j (stop t) ∙ elim (Bool-cases (id == j)) [
        | inl same ↦
            let same' : id ≡ j = ground arith in
            let there : get_elem? ts.shells j ≡ some t = ap (get_elem? ts.shells) (sym same') ∙ e in
            rw (same, inside', there) refl
        | inr other ↦ rw other refl
      ]

  stop_at-shells :
      (o : Option ℕ) (j : ℕ) (ts : World vt bc)
      → get_elem? (stop_at vt bc o ts).shells j
        ≡ (if names o j then stopped (get_elem? ts.shells j) else get_elem? ts.shells j)
  unfolding stop_at
  stop_at-shells none j ts = refl
  stop_at-shells (some id) j ts = stop_found-shells id j (get_elem? ts.shells id) ts refl

  take_and_stop-shells :
      (u : Text) (i : ℕ) (ts : World vt bc) (id : ℕ)
      → get_elem? (take_and_stop vt bc u i (pool u ts)).shells id ≡ (
          if names (slot_of u i ts) id
          then stopped (get_elem? ts.shells id)
          else get_elem? ts.shells id)
  unfolding take_and_stop put_slots pool
  take_and_stop-shells u i ts id =
      stop_at-shells (slot_of u i (pool u ts)) id (put_slot u i none (pool u ts))
      ∙ ap (λ o. if names o id then stopped (get_elem? ts.shells id) else get_elem? ts.shells id)
          (slot_of-pool u u i ts)

  -- What a reset of a slot in range leads to.
  pub record IsReset (u : Text) (i : ℕ) (ts after : World vt bc) : Type 0 where
    pub placed : WellPlaced after
    pub slots :
        (v : Text) (j : ℕ) → held v j after ≡ (if same_slot u i v j then none else held v j ts)
    pub shells :
        (id : ℕ)
        → get_elem? after.shells id ≡ (
            if names (slot_of u i ts) id
            then stopped (get_elem? ts.shells id)
            else get_elem? ts.shells id)

  -- In a world where no two slots share a shell, resetting a slot empties it, stops the shell that was
  -- in it, and leaves every other slot of every user and every other shell as they are; out of range
  -- nothing at all changes.
  pub reset_lem :
      (u : Text) (i : ℕ) (ts : World vt bc)
      → WellPlaced ts
      → if ltb i ts.slots_per_user
        then IsReset u i ts (reset vt bc u i ts)
        else reset vt bc u i ts ≡ ts
  unfolding reset
  reset_lem u i ts w = elim (Bool-cases (leb ts.slots_per_user i)) [
    | inl e ↦ let out : ltb i ts.slots_per_user ≡ false = ground arith in rw (out, e) refl
    | inr e ↦
        let inside : ltb i ts.slots_per_user ≡ true = ground arith in
        let (placed, reads) =
          take_and_stop_lem vt bc u i (pool u ts) (pool-WellPlaced u ts w)
            (unfold pool put_slots in ground arith) in
        rw (inside, e)
          (record {
            placed = placed;
            slots = λ v j.
                reads v j ∙ ap (λ x. if same_slot u i v j then none else x) (held-pool u v j ts);
            shells = take_and_stop-shells u i ts;
          })
  ]
