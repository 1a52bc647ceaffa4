-- ===== src/Terminals/Operations.antt =====
-- Attaching to a slot, on all slots at once.
use webshell.Base.{
  ℕ, ◌<◌, ◌≡◌, ◌≢◌, ◌⊎◌, refl, ap, sym, ◌∙◌, inl, inr, Bool, true, false, Option, none, some, [],
  ◌∷◌, ◌++◌, ◌>>=◌, arith, if◌then◌else◌, length, get_elem?, Text, Option-cases, some_inj, subst,
}
use webshell.Base.Places.{get_elem?-append_last, get_elem?-set}
use webshell.Scrollback.{Vt100}
use webshell.Shell.{PtyCmd, Broadcast, Shell, offer}
use webshell.Terminals.{
  World, Attachment, AttachError, spawn_failed, slots_of, put_slots, slot_of, held, join_found,
  join, join_held, join_started, install, attachment_to,
}
use webshell.Terminals.Slots.{WellPlaced}
use webshell.Terminals.Isolation.{
  same_slot, same_slot_refl, held-put_shell, put_shell-WellPlaced, add_shell, add_shell-WellPlaced,
  held-add_shell, slot_of-add_shell,
}
use webshell.Terminals.Stops.{other_user}

overwrite :
    {A : Type 0} (b : Bool) (x y z : A)
    → (if b then x else (if b then y else z)) ≡ (if b then x else z)
overwrite true x y z = refl
overwrite false x y z = refl

module _ (vt : Vt100) (bc : Broadcast) where
  -- What an answer says of the slot afterwards: nothing could be started, or it is the attachment to
  -- the shell that the slot holds.
  abbrev pub Answers :
      Text
      → ℕ
      → Option (ℕ × ℕ)
      → World vt bc
      → Option (Shell vt bc)
      → AttachError ⊎ Attachment bc.Receiver
      → Type 0
  Answers u i asked ts none r = r ≡ inl spawn_failed
  Answers u i asked ts (some t) r =
      (id : ℕ) × (slot_of u i ts ≡ some id)
      × (get_elem? ts.shells id ≡ some t)
      × (r ≡ inr (attachment_to vt bc id t asked))

  -- One slot holds `want` afterwards, every other slot what it held, and the answer is right.
  pub record Only (u : Text) (i : ℕ) (asked : Option (ℕ × ℕ)) (want : Option (Shell vt bc))
      (ts : World vt bc) (r : World vt bc × (AttachError ⊎ Attachment bc.Receiver)) : Type 0 where
    pub placed : WellPlaced r.0
    pub others :
        (v : Text) (j : ℕ) → held v j r.0 ≡ (if same_slot u i v j then want else held v j ts)
    pub slots : (v : Text) (j : ℕ) → u ≢ v → slot_of v j r.0 ≡ slot_of v j ts
    pub answer : Answers u i asked r.0 want r.1

  -- The shell that a size was offered to.
  abbrev pub resized : ℕ → ℕ → Shell vt bc → Shell vt bc
  resized cols rows t = offer (PtyCmd.resize cols rows) t

  join_found_lem :
      (u : Text) (i cols rows id : ℕ) (asked : Option (ℕ × ℕ)) (found : Option (Shell vt bc))
      (t : Shell vt bc) (ts : World vt bc)
      → WellPlaced ts
      → slot_of u i ts ≡ some id
      → found ≡ some t
      → Only u i asked
          (some (resized cols rows t))
          ts
          (join_found vt bc cols rows asked id found ts)
  unfolding join_found slots_of
  join_found_lem u i cols rows id asked none t ts w e f = absurd (cc f)
  join_found_lem u i cols rows id asked (some t') t ts w e f =
      subst
        (λ x.
          Only u i asked (some (resized cols rows x)) ts
            (join_found vt bc cols rows asked id (some t') ts))
        (some_inj f)
        (record {
          placed = put_shell-WellPlaced id (resized cols rows t') ts w;
          others = λ v j. held-put_shell u v i j id (resized cols rows t') ts w e;
          slots = λ v j ne. refl;
          answer = (
            id,
            e,
            get_elem?-set ts.shells id id (resized cols rows t')
                ∙ ground (arith, w.placed u i id e),
            refl,
          );
        })

  -- The shell in a slot and the place that the slot names.
  held_at :
      (u : Text) (i : ℕ) (t : Shell vt bc) (ts : World vt bc)
      → held u i ts ≡ some t
      → (id : ℕ) × (slot_of u i ts ≡ some id) × (get_elem? ts.shells id ≡ some t)
  held_at u i t ts h = elim (Option-cases (slot_of u i ts)) [
    | inl e ↦ absurd (cc (h, ap (λ o. o >>= λ id. get_elem? ts.shells id) e))
    | inr (id, e) ↦ (id, e, sym (ap (λ o. o >>= λ id. get_elem? ts.shells id) e) ∙ h)
  ]

  pub join_held_lem :
      (u : Text) (i cols rows : ℕ) (asked : Option (ℕ × ℕ)) (o : Option ℕ) (t : Shell vt bc)
      (ts : World vt bc)
      → WellPlaced ts
      → slot_of u i ts ≡ o
      → held u i ts ≡ some t
      → Only u i asked (some (resized cols rows t)) ts (join_held vt bc cols rows asked o ts)
  unfolding join_held join
  join_held_lem u i cols rows asked none t ts w e h =
      absurd (cc (h, ap (λ o. o >>= λ id. get_elem? ts.shells id) e))
  join_held_lem u i cols rows asked (some id) t ts w e h =
      join_found_lem u i cols rows id asked (get_elem? ts.shells id) t ts w e
        (sym (ap (λ o. o >>= λ id. get_elem? ts.shells id) e) ∙ h)

  abbrev pub attached : ℕ → ℕ → Option (Shell vt bc) → Option (Shell vt bc)
  attached cols rows none = none
  attached cols rows (some t) = some (resized cols rows t)

  -- The slot held `was` in an earlier world, which was otherwise the same.
  pub rebase :
      (u : Text) (i : ℕ) (asked : Option (ℕ × ℕ)) (want was : Option (Shell vt bc))
      (ts ts' : World vt bc) (r : World vt bc × (AttachError ⊎ Attachment bc.Receiver))
      → ((v : Text) (j : ℕ) → held v j ts' ≡ (if same_slot u i v j then was else held v j ts))
      → ((v : Text) (j : ℕ) → u ≢ v → slot_of v j ts' ≡ slot_of v j ts)
      → Only u i asked want ts' r
      → Only u i asked want ts r
  rebase u i asked want was ts ts' r before kept o = record {
    placed = o.placed;
    slots = λ v j ne. o.slots v j ne ∙ kept v j ne;
    others = λ v j.
        o.others v j
        ∙ ap (λ x. if same_slot u i v j then want else x) (before v j)
        ∙ overwrite (same_slot u i v j) want was (held v j ts);
    answer = o.answer;
  }

  pub join_started_lem :
      (u : Text) (i cols rows : ℕ) (asked : Option (ℕ × ℕ)) (started : Option (Shell vt bc))
      (ts ts' : World vt bc)
      → WellPlaced ts'
      → i < ts'.slots_per_user
      → ((v : Text) (j : ℕ) → held v j ts' ≡ (if same_slot u i v j then none else held v j ts))
      → ((v : Text) (j : ℕ) → u ≢ v → slot_of v j ts' ≡ slot_of v j ts)
      → Only u i asked
          (attached cols rows started)
          ts
          (join_started vt bc u i cols rows asked started ts')
  unfolding join_started install join put_slots
  join_started_lem u i cols rows asked none ts ts' w h before kept = record {
    placed = w;
    others = before;
    slots = kept;
    answer = refl;
  }
  join_started_lem u i cols rows asked (some t) ts ts' w h before kept =
      let inside : i < length (slots_of u ts') = omega (arith, h, w.sized u) in
      let added = add_shell u i t ts' in
      let here : slot_of u i added ≡ some (length ts'.shells) =
        slot_of-add_shell u u i i t ts' inside ∙ rw (same_slot_refl u u i i refl refl) refl in
      rebase u i asked _ none ts ts' _ before kept (
        rebase u i asked _ (some t) ts' added _ (λ v j. held-add_shell u v i j t ts' w inside)
          (λ v j ne.
            slot_of-add_shell u v i j t ts' inside
            ∙ other_user u v i j (some (length ts'.shells)) (slot_of v j ts') ne)
          (join_found_lem u i cols rows (length ts'.shells) asked
            (get_elem? (ts'.shells ++ t ∷ []) (length ts'.shells)) t added
            (add_shell-WellPlaced u i t ts' w inside) here (get_elem?-append_last ts'.shells t)))
