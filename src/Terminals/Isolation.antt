-- ===== src/Terminals/Isolation.antt =====
-- What an operation on one slot does to every slot. As all slots are told apart, the list of shells
-- that they share is a private shell for each.
use webshell.Base.{
  ℕ, ◌<◌, ◌≡◌, ◌≢◌, refl, ap, ap₂, sym, ◌∙◌, inl, inr, Bool, true, false, ◌&&◌, Option, none, some,
  List, [], ◌∷◌, ◌++◌, ◌>>=◌, arith, ◌==◌, if◌then◌else◌, length, length-append, length-set,
  get_elem?, set, Text, text_eq, ◌=?◌, =?_iff, Bool-cases,
}
use webshell.Base.Places.{get_elem?-set, get_elem?-append_lt, get_elem?-append_last}
use webshell.Terminals.{Terminals, slots_of, put_slots, pool, slot_of, held, put_slot, put_shell}
use webshell.Terminals.Slots.{
  WellPlaced, write-WellPlaced, slots_of-pool, slot_of-put_slot, length-put_slot,
}

-- The same slot of the same user.
abbrev pub same_slot : Text → ℕ → Text → ℕ → Bool
same_slot u i v j = u =? v && i == j

pub same_slot-true : (u v : Text) (i j : ℕ) → same_slot u i v j ≡ true → (u ≡ v) × (i ≡ j)
same_slot-true u v i j e = ((=?_iff u v).0 (ground arith), ground arith)

pub same_slot_refl : (u v : Text) (i j : ℕ) → u ≡ v → i ≡ j → same_slot u i v j ≡ true
same_slot_refl u v i j e f = ground (arith, (=?_iff u v).1 e)

module _ {Sh : Type 0} where
  read_at-set :
      (o : Option ℕ) (id : ℕ) (t : Sh) (shells : List Sh)
      → o ≢ some id
      → (o >>= λ k. get_elem? (set shells id t) k) ≡ (o >>= λ k. get_elem? shells k)
  read_at-set none id t shells other = refl
  read_at-set (some k) id t shells other =
      let ne : (id == k) ≡ false = ground (arith, ap some {x = k} {y = id}) in
      get_elem?-set shells id k t ∙ rw ne refl

  if_read :
      (b : Bool) (o p : Option ℕ) (shells : List Sh)
      → ((if b then o else p) >>= λ k. get_elem? shells k)
        ≡ (if b then (o >>= λ k. get_elem? shells k) else (p >>= λ k. get_elem? shells k))
  if_read true o p shells = refl
  if_read false o p shells = refl

  read_at-append :
      (o : Option ℕ) (t : Sh) (shells : List Sh)
      → ((k : ℕ) → o ≡ some k → k < length shells)
      → (o >>= λ k. get_elem? (shells ++ t ∷ []) k) ≡ (o >>= λ k. get_elem? shells k)
  read_at-append none t shells h = refl
  read_at-append (some k) t shells h = get_elem?-append_lt shells (t ∷ []) k (h k refl)

  pub slot_of-pool :
      (u v : Text) (i : ℕ) (ts : Terminals Sh) → slot_of v i (pool u ts) ≡ slot_of v i ts
  slot_of-pool u v i ts = ap (λ s. get_elem? s i >>= λ o. o) (slots_of-pool u v ts)

  pub pool-WellPlaced : (u : Text) (ts : Terminals Sh) → WellPlaced ts → WellPlaced (pool u ts)
  unfolding pool put_slots
  pool-WellPlaced u ts w = record {
    sized = λ v. ap length (slots_of-pool u v ts) ∙ w.sized v;
    placed = λ v i id e. w.placed v i id (sym (slot_of-pool u v i ts) ∙ e);
    apart = λ v v' i j id e e'.
        w.apart v v' i j id (sym (slot_of-pool u v i ts) ∙ e) (sym (slot_of-pool u v' j ts) ∙ e');
  }

  pub held-pool : (u v : Text) (i : ℕ) (ts : Terminals Sh) → held v i (pool u ts) ≡ held v i ts
  held-pool u v i ts =
      unfold pool put_slots in ap (λ o. o >>= λ id. get_elem? ts.shells id) (slot_of-pool u v i ts)

  -- Changing a shell that no slot names any more, or that only one names.
  pub held-put_shell_other :
      (v : Text) (j id : ℕ) (t : Sh) (ts : Terminals Sh)
      → slot_of v j ts ≢ some id
      → held v j (put_shell id t ts) ≡ held v j ts
  unfolding slots_of
  held-put_shell_other v j id t ts other = read_at-set (slot_of v j ts) id t ts.shells other

  pub held-put_shell :
      (u v : Text) (i j id : ℕ) (t : Sh) (ts : Terminals Sh)
      → WellPlaced ts
      → slot_of u i ts ≡ some id
      → held v j (put_shell id t ts) ≡ (if same_slot u i v j then some t else held v j ts)
  unfolding slots_of
  held-put_shell u v i j id t ts w e = elim (Bool-cases (same_slot u i v j)) [
    | inl s ↦
        let (p, q) = same_slot-true u v i j s in
        let e' : slot_of v j ts ≡ some id = rw (← p, ← q) e in
        let lt : id < length ts.shells = w.placed u i id e in
        rw (s, e') (get_elem?-set ts.shells id id t ∙ ground arith)
    | inr s ↦ rw s (
        held-put_shell_other v j id t ts
          (λ f. let (p, q) = w.apart u v i j id e f in absurd (cc (same_slot_refl u v i j p q, s))))
  ]

  -- The slots and shells when one slot is emptied, or gets a shell that was just started.
  pub held-put_slot-none :
      (u v : Text) (i j : ℕ) (ts : Terminals Sh)
      → i < length (slots_of u ts)
      → held v j (put_slot u i none ts) ≡ (if same_slot u i v j then none else held v j ts)
  held-put_slot-none u v i j ts h =
      unfold put_slots in
      ap (λ o. o >>= λ id. get_elem? ts.shells id) (slot_of-put_slot u v i j none ts h)
      ∙ if_read (same_slot u i v j) none (slot_of v j ts) ts.shells

  pub put_slot-none-WellPlaced :
      (u : Text) (i : ℕ) (ts : Terminals Sh)
      → WellPlaced ts
      → i < length (slots_of u ts)
      → WellPlaced (put_slot u i none ts)
  put_slot-none-WellPlaced u i ts w h =
      unfold put_slots in
      write-WellPlaced u i none ts (put_slot u i none ts) w refl (omega arith) tt
        (λ v. length-put_slot u v i none ts) (λ v j. slot_of-put_slot u v i j none ts h)

  pub put_shell-WellPlaced :
      (id : ℕ) (t : Sh) (ts : Terminals Sh) → WellPlaced ts → WellPlaced (put_shell id t ts)
  unfolding slots_of
  put_shell-WellPlaced id t ts w = record {
    sized = w.sized;
    placed = λ u i k e. omega (arith, w.placed u i k e, length-set ts.shells id t);
    apart = w.apart;
  }

  -- A shell added at the end of the list and put into a slot.
  abbrev pub add_shell : Text → ℕ → Sh → Terminals Sh → Terminals Sh
  add_shell u i t ts =
      put_slot u i (some (length ts.shells)) (record ts { shells = ts.shells ++ t ∷ [] })

  pub slot_of-add_shell :
      (u v : Text) (i j : ℕ) (t : Sh) (ts : Terminals Sh)
      → i < length (slots_of u ts)
      → slot_of v j (add_shell u i t ts)
        ≡ (if same_slot u i v j then some (length ts.shells) else slot_of v j ts)
  unfolding slots_of
  slot_of-add_shell u v i j t ts h =
      slot_of-put_slot u v i j (some (length ts.shells))
        (record ts { shells = ts.shells ++ t ∷ [] }) h

  pub add_shell-WellPlaced :
      (u : Text) (i : ℕ) (t : Sh) (ts : Terminals Sh)
      → WellPlaced ts
      → i < length (slots_of u ts)
      → WellPlaced (add_shell u i t ts)
  unfolding slots_of
  add_shell-WellPlaced u i t ts w h =
      let more = length-append ts.shells (t ∷ []) in
      unfold put_slots in
      write-WellPlaced u i (some (length ts.shells)) ts (add_shell u i t ts) w refl
        (omega (arith, more)) (omega arith, omega (arith, more))
        (λ v. length-put_slot u v i _ (record ts { shells = ts.shells ++ t ∷ [] }))
        (λ v j. slot_of-add_shell u v i j t ts h)

  pub held-add_shell :
      (u v : Text) (i j : ℕ) (t : Sh) (ts : Terminals Sh)
      → WellPlaced ts
      → i < length (slots_of u ts)
      → held v j (add_shell u i t ts) ≡ (if same_slot u i v j then some t else held v j ts)
  held-add_shell u v i j t ts w h =
      unfold put_slots in
      ap (λ o. o >>= λ id. get_elem? (ts.shells ++ t ∷ []) id) (slot_of-add_shell u v i j t ts h)
      ∙ if_read (same_slot u i v j) (some (length ts.shells)) (slot_of v j ts) (ts.shells ++ t ∷ [])
      ∙ ap₂ (λ x y. if same_slot u i v j then x else y) (get_elem?-append_last ts.shells t)
          (read_at-append (slot_of v j ts) t ts.shells (w.placed v j))
