-- ===== src/Terminals/Refinement.antt =====
-- `attach` against its specification, in which every slot of every user has a shell of its own or
-- none.
use webshell.Base.{
  ℕ, ◌<◌, ◌≡◌, refl, ap₂, sym, ◌∙◌, inl, Bool, true, false, not, Option, none, some, arith, leb,
  if◌then◌else◌, Text, if_elim, subst,
}
use webshell.Command.{CommandBuilder}
use webshell.Scrollback.{Vt100}
use webshell.Shell.{Broadcast, Shell, Os}
use webshell.Terminals.{
  World, out_of_range, put_slots, pool, slot_of, held, is_running, is_alive, take_and_stop, attach,
  attach_slot, spawn_for, join_held, join_started,
}
use webshell.Terminals.Slots.{WellPlaced}
use webshell.Terminals.Isolation.{
  same_slot, same_slot-true, pool-WellPlaced, held-pool, slot_of-pool,
}
use webshell.Terminals.Operations.{Only, attached, rebase, join_held_lem, join_started_lem}
use webshell.Terminals.Stops.{
  take_and_stop_lem, take_and_stop-slots_per_user, slot_of-take_and_stop,
}

module _ (vt : Vt100) (bc : Broadcast) where
  -- The shell that a client attaches to: the one there if it is alive, or else a new one.
  abbrev pub chosen : Option (Shell vt bc) → Option (Shell vt bc) → Option (Shell vt bc)
  chosen there started = if is_alive vt bc there then there else started

  alive_some :
      (o : Option (Shell vt bc)) → is_alive vt bc o ≡ true → (t : Shell vt bc) × (o ≡ some t)
  unfolding is_alive
  alive_some none e = absurd (cc e)
  alive_some (some t) e = (t, refl)

  before_pool :
      (u v : Text) (i j : ℕ) (ts : World vt bc)
      → held v j (pool u ts) ≡ (if same_slot u i v j then held u i ts else held v j ts)
  before_pool u v i j ts =
      held-pool u v j ts
      ∙ if_elim (λ x. held v j ts ≡ x) (same_slot u i v j) _ _
          (λ s. let (p, q) = same_slot-true u v i j s in sym (ap₂ (λ x y. held x y ts) p q))
          (λ s. refl)

  module _ (cb : CommandBuilder) where
    attach_slot_lem :
        (os : Os) (u : Text) (i cols rows : ℕ) (asked : Option (ℕ × ℕ)) (ts : World vt bc)
        → WellPlaced ts
        → i < ts.slots_per_user
        → Only vt bc u i asked
            (attached vt bc cols rows (chosen (held u i ts) (spawn_for vt bc cb os u cols rows ts)))
            ts
            (attach_slot vt bc cb os u i cols rows asked ts)
    unfolding attach_slot is_running
    attach_slot_lem os u i cols rows asked ts w h =
        let want : Bool → Option (Shell vt bc) = λ o.
          attached vt bc cols rows
            (if o then held u i ts else spawn_for vt bc cb os u cols rows ts) in
        if_elim (Only vt bc u i asked (want (is_alive vt bc (held u i ts))) ts)
          (not (is_alive vt bc (held u i ts))) _ _
          (λ e.
            let dead : is_alive vt bc (held u i ts) ≡ false = ground arith in
            let (placed, reads) = take_and_stop_lem vt bc u i ts w h in
            subst
              (λ o. Only vt bc u i asked (want o) ts (
                join_started vt bc u i cols rows asked (spawn_for vt bc cb os u cols rows ts)
                  (take_and_stop vt bc u i ts)))
              (sym dead)
              (join_started_lem vt bc u i cols rows asked (spawn_for vt bc cb os u cols rows ts) ts
                (take_and_stop vt bc u i ts) placed
                (omega (arith, h, take_and_stop-slots_per_user vt bc u i ts)) reads
                (λ v j ne.
                  slot_of-take_and_stop vt bc u v i j ts (omega (arith, h, w.sized u)) ne)))
          (λ e.
            let live : is_alive vt bc (held u i ts) ≡ true = ground arith in
            let (t, there) = alive_some (held u i ts) live in
            subst
              (λ o.
                Only vt bc u i asked (attached vt bc cols rows o) ts
                  (join_held vt bc cols rows asked (slot_of u i ts) ts))
              (sym there ∙ sym (rw live refl))
              (join_held_lem vt bc u i cols rows asked (slot_of u i ts) t ts w refl there))

    pooled :
        (os : Os) (u : Text) (i cols rows : ℕ) (asked : Option (ℕ × ℕ)) (ts : World vt bc)
        → WellPlaced ts
        → i < ts.slots_per_user
        → Only vt bc u i asked
            (attached vt bc cols rows
              (chosen (held u i (pool u ts)) (spawn_for vt bc cb os u cols rows ts)))
            (pool u ts)
            (attach_slot vt bc cb os u i cols rows asked (pool u ts))
    unfolding pool put_slots
    pooled os u i cols rows asked ts w h =
        attach_slot_lem os u i cols rows asked (pool u ts) (pool-WellPlaced u ts w) h

    -- Attaching refines the specification: afterwards the slot holds the shell that was there, if it
    -- is alive, or else a new one if one could be started, with the client's size offered to it; no
    -- other slot of any user has changed; the answer is an attachment to that shell, or the error
    -- that none could be started; and no two slots share a shell.
    pub attach-Only :
        (os : Os) (u : Text) (i cols rows : ℕ) (asked : Option (ℕ × ℕ)) (ts : World vt bc)
        → WellPlaced ts
        → i < ts.slots_per_user
        → Only vt bc u i asked
            (attached vt bc cols rows (chosen (held u i ts) (spawn_for vt bc cb os u cols rows ts)))
            ts
            (attach vt bc cb os u i cols rows asked ts)
    unfolding attach
    attach-Only os u i cols rows asked ts w h =
        if_elim
          (Only vt bc u i asked
            (attached vt bc cols rows (chosen (held u i ts) (spawn_for vt bc cb os u cols rows ts)))
            ts)
          (leb ts.slots_per_user i) _ _ (λ e. absurd (ground arith))
          (λ e.
            rebase vt bc u i asked _ (held u i ts) ts (pool u ts) _ (λ v j. before_pool u v i j ts)
              (λ v j ne. slot_of-pool u v j ts)
              (subst
                (λ o.
                  Only vt bc u i asked
                    (attached vt bc cols rows (chosen o (spawn_for vt bc cb os u cols rows ts)))
                    (pool u ts) (attach_slot vt bc cb os u i cols rows asked (pool u ts)))
                (held-pool u u i ts) (pooled os u i cols rows asked ts w h)))

    pub attach-out_of_range :
        (os : Os) (u : Text) (i cols rows : ℕ) (asked : Option (ℕ × ℕ)) (ts : World vt bc)
        → leb ts.slots_per_user i ≡ true
        → attach vt bc cb os u i cols rows asked ts ≡ (ts, inl out_of_range)
    unfolding attach
    attach-out_of_range os u i cols rows asked ts e =
        if_elim (λ x. x ≡ (ts, inl out_of_range)) (leb ts.slots_per_user i) _ _ (λ _. refl)
          (λ f. absurd (cc (e, f)))
