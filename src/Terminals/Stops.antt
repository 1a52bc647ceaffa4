-- ===== src/Terminals/Stops.antt =====
-- Emptying a slot and stopping its shell, on all slots at once.
use webshell.Base.{
  ℕ, ◌<◌, ◌≡◌, ◌≢◌, refl, sym, ◌∙◌, Option, none, some, arith, if◌then◌else◌, length, get_elem?,
  Text, if_elim,
}
use webshell.Scrollback.{Vt100}
use webshell.Shell.{Broadcast, Shell, stop}
use webshell.Terminals.{
  World, slots_of, put_slots, slot_of, held, put_slot, stop_at, stop_found, take_and_stop,
}
use webshell.Terminals.Slots.{WellPlaced, slot_of-put_slot}
use webshell.Terminals.Isolation.{
  same_slot, same_slot-true, same_slot_refl, held-put_shell_other, held-put_slot-none,
  put_slot-none-WellPlaced, put_shell-WellPlaced,
}

-- Another user's slot is another slot.
pub other_user :
    (u v : Text) (i j : ℕ) (o was : Option ℕ) → u ≢ v → (if same_slot u i v j then o else was) ≡ was
other_user u v i j o was ne =
    if_elim (λ x. x ≡ was) (same_slot u i v j) o was (λ s. absurd (ne (same_slot-true u v i j s).0))
      (λ s. refl)

module _ (vt : Vt100) (bc : Broadcast) where
  stop_found_lem :
      (id : ℕ) (found : Option (Shell vt bc)) (ts : World vt bc)
      → WellPlaced ts
      → ((v : Text) (j : ℕ) → slot_of v j ts ≢ some id)
      → WellPlaced (stop_found vt bc id found ts)
        × ((v : Text) (j : ℕ) → held v j (stop_found vt bc id found ts) ≡ held v j ts)
  unfolding stop_found
  stop_found_lem id none ts w gone = (w, λ v j. refl)
  stop_found_lem id (some t) ts w gone = (
    put_shell-WellPlaced id (stop t) ts w,
    λ v j. held-put_shell_other v j id (stop t) ts (gone v j),
  )

  stop_found-slots_per_user :
      (id : ℕ) (found : Option (Shell vt bc)) (ts : World vt bc)
      → (stop_found vt bc id found ts).slots_per_user ≡ ts.slots_per_user
  unfolding stop_found
  stop_found-slots_per_user id none ts = refl
  stop_found-slots_per_user id (some t) ts = refl

  slot_of-stop_found :
      (id : ℕ) (found : Option (Shell vt bc)) (v : Text) (j : ℕ) (ts : World vt bc)
      → slot_of v j (stop_found vt bc id found ts) ≡ slot_of v j ts
  unfolding stop_found slots_of
  slot_of-stop_found id none v j ts = refl
  slot_of-stop_found id (some t) v j ts = refl

  -- Stopping a shell that no slot names: every slot keeps what it has.
  stop_at_lem :
      (o : Option ℕ) (ts : World vt bc)
      → WellPlaced ts
      → ((v : Text) (j id : ℕ) → o ≡ some id → slot_of v j ts ≢ some id)
      → WellPlaced (stop_at vt bc o ts)
        × ((v : Text) (j : ℕ) → held v j (stop_at vt bc o ts) ≡ held v j ts)
  unfolding stop_at
  stop_at_lem none ts w gone = (w, λ v j. refl)
  stop_at_lem (some id) ts w gone =
      stop_found_lem id (get_elem? ts.shells id) ts w (λ v j. gone v j id refl)

  emptied :
      (u v : Text) (i j id : ℕ) (ts : World vt bc)
      → WellPlaced ts
      → i < length (slots_of u ts)
      → slot_of u i ts ≡ some id
      → slot_of v j (put_slot u i none ts) ≢ some id
  emptied u v i j id ts w h e f =
      if_elim (λ o. o ≡ some id → ⊥) (same_slot u i v j) none (slot_of v j ts) (λ s q. cc q)
        (λ s q. let (p, r) = w.apart u v i j id e q in cc (same_slot_refl u v i j p r, s))
        (sym (slot_of-put_slot u v i j none ts h) ∙ f)

  stop_at-slots_per_user :
      (o : Option ℕ) (ts : World vt bc) → (stop_at vt bc o ts).slots_per_user ≡ ts.slots_per_user
  unfolding stop_at
  stop_at-slots_per_user none ts = refl
  stop_at-slots_per_user (some id) ts = stop_found-slots_per_user id (get_elem? ts.shells id) ts

  pub take_and_stop-slots_per_user :
      (u : Text) (i : ℕ) (ts : World vt bc)
      → (take_and_stop vt bc u i ts).slots_per_user ≡ ts.slots_per_user
  unfolding take_and_stop put_slots
  take_and_stop-slots_per_user u i ts =
      stop_at-slots_per_user (slot_of u i ts) (put_slot u i none ts)

  slot_of-stop_at :
      (o : Option ℕ) (v : Text) (j : ℕ) (ts : World vt bc)
      → slot_of v j (stop_at vt bc o ts) ≡ slot_of v j ts
  unfolding stop_at
  slot_of-stop_at none v j ts = refl
  slot_of-stop_at (some id) v j ts = slot_of-stop_found id (get_elem? ts.shells id) v j ts

  pub slot_of-take_and_stop :
      (u v : Text) (i j : ℕ) (ts : World vt bc)
      → i < length (slots_of u ts)
      → u ≢ v
      → slot_of v j (take_and_stop vt bc u i ts) ≡ slot_of v j ts
  unfolding take_and_stop
  slot_of-take_and_stop u v i j ts h ne =
      slot_of-stop_at (slot_of u i ts) v j (put_slot u i none ts)
      ∙ slot_of-put_slot u v i j none ts h
      ∙ other_user u v i j none (slot_of v j ts) ne

  -- Resetting a slot empties that one and leaves every other slot as it is.
  pub take_and_stop_lem :
      (u : Text) (i : ℕ) (ts : World vt bc)
      → WellPlaced ts
      → i < ts.slots_per_user
      → WellPlaced (take_and_stop vt bc u i ts)
        × ((v : Text) (j : ℕ)
            → held v j (take_and_stop vt bc u i ts)
              ≡ (if same_slot u i v j then none else held v j ts))
  unfolding take_and_stop
  take_and_stop_lem u i ts w h =
      let inside : i < length (slots_of u ts) = omega (arith, h, w.sized u) in
      let (placed, same) =
        stop_at_lem (slot_of u i ts) (put_slot u i none ts)
          (put_slot-none-WellPlaced u i ts w inside)
          (λ v j id e. emptied u v i j id ts w inside e) in
      (placed, λ v j. same v j ∙ held-put_slot-none u v i j ts inside)
