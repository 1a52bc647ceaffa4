-- ===== src/Terminals/Viewing.antt =====
-- Attaching a viewer to a slot.
use webshell.Base.{
  ℕ, ◌≡◌, ◌⊎◌, refl, inl, inr, true, false, Option, none, some, ◌>>=◌, arith, ltb, leb,
  if◌then◌else◌, get_elem?, Text, if_elim,
}
use webshell.Scrollback.{Vt100}
use webshell.Shell.{Broadcast, Shell}
use webshell.Terminals.{
  World, Attachment, AttachError, out_of_range, not_running, put_slots, pool, slot_of, held,
  attach_view, attachment_to, view_held, view_found,
}
use webshell.Terminals.Slots.{WellPlaced}
use webshell.Terminals.Isolation.{held-pool}

module _ (vt : Vt100) (bc : Broadcast) where
  -- What a viewer may be told of a slot: that nothing runs there, or an attachment to what does.
  abbrev pub Viewed :
      Text
      → ℕ
      → Option (ℕ × ℕ)
      → World vt bc
      → Option (Shell vt bc)
      → AttachError ⊎ Attachment bc.Receiver
      → Type 0
  Viewed u i asked ts none r = r ≡ inl not_running
  Viewed u i asked ts (some t) r =
      ((t.alive ≡ false) × (r ≡ inl not_running))
      ⊎ ((t.alive ≡ true)
          × ((id : ℕ) × (slot_of u i ts ≡ some id) × (r ≡ inr (attachment_to vt bc id t asked))))

  view_found_lem :
      (u : Text) (i id : ℕ) (asked : Option (ℕ × ℕ)) (ts : World vt bc)
      → slot_of u i ts ≡ some id
      → (found : Option (Shell vt bc)) → Viewed u i asked ts found (view_found vt bc id found asked)
  unfolding view_found
  view_found_lem u i id asked ts e none = refl
  view_found_lem u i id asked ts e (some t) =
      if_elim (Viewed u i asked ts (some t)) t.alive _ _ (λ a. inr (a, (id, e, refl)))
        (λ a. inl (a, refl))

  view_held_lem :
      (u : Text) (i : ℕ) (asked : Option (ℕ × ℕ)) (ts : World vt bc) (o : Option ℕ)
      → slot_of u i ts ≡ o
      → Viewed u i asked ts (o >>= λ id. get_elem? ts.shells id) (view_held vt bc o asked ts)
  unfolding view_held
  view_held_lem u i asked ts none e = refl
  view_held_lem u i asked ts (some id) e = view_found_lem u i id asked ts e (get_elem? ts.shells id)

  -- Attaching a viewer changes no shell and no slot, whatever comes of it: out of range and on a slot
  -- where nothing runs it is refused, and else it gets an attachment to what runs there.
  pub attach_view_lem :
      (u : Text) (i : ℕ) (asked : Option (ℕ × ℕ)) (ts : World vt bc)
      → WellPlaced ts
      → let (after, answer) = attach_view vt bc u i asked ts in
        (after.shells ≡ ts.shells)
        × ((v : Text) (j : ℕ) → held v j after ≡ held v j ts)
        × (if ltb i ts.slots_per_user
            then Viewed u i asked ts (held u i ts) answer
            else answer ≡ inl out_of_range)
  unfolding attach_view
  attach_view_lem u i asked ts w =
      if_elim
        (λ (x : World vt bc × (AttachError ⊎ Attachment bc.Receiver)).
          (x.0.shells ≡ ts.shells)
          × ((v : Text) (j : ℕ) → held v j x.0 ≡ held v j ts)
          × (if ltb i ts.slots_per_user
              then Viewed u i asked ts (held u i ts) x.1
              else x.1 ≡ inl out_of_range))
        (leb ts.slots_per_user i) _ _
        (λ e.
          let out : ltb i ts.slots_per_user ≡ false = ground arith in
          (refl, λ v j. refl, rw out refl))
        (λ e.
          let inside : ltb i ts.slots_per_user ≡ true = ground arith in
          (
            unfold pool put_slots in refl,
            λ v j. held-pool u v j ts,
            rw inside (view_held_lem u i asked ts (slot_of u i ts) refl),
          ))
