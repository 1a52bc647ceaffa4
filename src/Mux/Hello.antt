-- ===== src/Mux/Hello.antt =====
-- What a browser is sent when it opens a slot.
use webshell.Base.{
  ℕ, ◌≡◌, ◌⊎◌, refl, ap, sym, ◌∙◌, inl, inr, Bool, true, Option, none, some, [], ◌∷◌, ◌++◌, arith,
  leb, if◌then◌else◌, get_elem?, Text, nat_eq, Bool-cases, if_elim, codes, append_assoc, subst,
}
use webshell.HashMap
use webshell.HashMap.{HashMap}
use webshell.HashMap.Laws.{get-insert_self, get-remove_self}
use webshell.Command.{CommandBuilder}
use webshell.Frames.{valid_size, closed_json, tagged, hello_json}
use webshell.Scrollback.{Vt100}
use webshell.Shell.{Broadcast, Shell, Os}
use webshell.Terminals.{
  World, Attachment, AttachError, out_of_range, spawn_failed, attach, slot_of, held, attachment_to,
  spawn_for,
}
use webshell.Terminals.Slots.{WellPlaced}
use webshell.Terminals.Operations.{Answers, attached}
use webshell.Terminals.Refinement.{attach-Only, attach-out_of_range, chosen}
use webshell.Forward.{Message, text, binary, Channel, Mux, send, put_channel}
use webshell.Mux.Opening.{send-world}
use webshell.Mux.{on_open, opened, send_or_finish, close_channel}

module _ (vt : Vt100) (bc : Broadcast) where
  -- The slot is refused: an error frame, and no channel.
  abbrev pub Refused : ℕ → Mux vt bc → Mux vt bc → Type 0
  Refused term m after =
      (after.sent ≡ m.sent ++ text (closed_json term (codes "error")) ∷ [])
      × (HashMap.get term after.channels ≡ none)

  -- The slot is open: the hello, then the replay, and a channel to the shell of the attachment.
  abbrev pub Greeted : ℕ → Bool → Attachment bc.Receiver → Mux vt bc → Mux vt bc → Type 0
  Greeted term ro a m after =
      (after.sent ≡ m.sent ++ text (hello_json (some term) a) ∷ binary (tagged term a.replay) ∷ [])
      × (HashMap.get term after.channels
          ≡ some (record { shell = a.shell; read_only = ro; forward = some a.output_rx }))

  abbrev Outcome : ℕ → Bool → AttachError ⊎ Attachment bc.Receiver → Mux vt bc → Mux vt bc → Type 0
  Outcome term ro (inl e) m after = Refused term m after
  Outcome term ro (inr a) m after = Greeted term ro a m after

  send-connected :
      (msg : Message) (m : Mux vt bc)
      → m.connected ≡ true
      → send vt bc msg m ≡ record m { sent = m.sent ++ msg ∷ [] }
  unfolding send
  send-connected msg m on =
      if_elim (λ (x : Mux vt bc). x ≡ record m { sent = m.sent ++ msg ∷ [] }) m.connected _ _
        (λ _. refl) (λ off. absurd (cc (on, off)))

  opened-Outcome :
      (term : ℕ) (ro : Bool) (answer : AttachError ⊎ Attachment bc.Receiver) (m : Mux vt bc)
      → m.connected ≡ true
      → HashMap.get term m.channels ≡ none
      → Outcome term ro answer m (opened vt bc term ro answer m)
  unfolding opened send_or_finish send
  opened-Outcome term ro (inl e) m on gone =
      if_elim (Refused term m) m.connected _ _
        (λ _.
          if_elim (Refused term m) m.connected _ _ (λ _. (refl, gone))
            (λ off. absurd (cc (on, off))))
        (λ off. absurd (cc (on, off)))
  opened-Outcome term ro (inr a) m on gone =
      let hello = text (hello_json (some term) a) in
      let payload = binary (tagged term a.replay) in
      let greeted = record m { sent = m.sent ++ hello ∷ [] } in
      let ch : Channel bc.Receiver = record {
        shell = a.shell;
        read_only = ro;
        forward = some a.output_rx;
      } in
      if_elim (Greeted term ro a m) m.connected _ _
        (λ _.
          subst (λ x. Greeted term ro a m (put_channel vt bc term ch x))
            (sym (
              ap (send vt bc payload) (send-connected hello m on)
              ∙ send-connected payload greeted on))
            (append_assoc m.sent (hello ∷ []) (payload ∷ []), get-insert_self term ch m.channels))
        (λ off. absurd (cc (on, off)))

  -- What opening a slot that is in range comes to: no shell could be started, or the shell `t`.
  abbrev pub Opens :
      Text → ℕ → Option (ℕ × ℕ) → Bool → Mux vt bc → Mux vt bc → Option (Shell vt bc) → Type 0
  Opens user term asked ro m after none = Refused term m after
  Opens user term asked ro m after (some t) =
      (id : ℕ) × (slot_of user term after.world ≡ some id)
      × (get_elem? after.world.shells id ≡ some t)
      × Greeted term ro (attachment_to vt bc id t asked) m after

  opened-world :
      (term : ℕ) (ro : Bool) (answer : AttachError ⊎ Attachment bc.Receiver) (m : Mux vt bc)
      → m.connected ≡ true
      → (opened vt bc term ro answer m).world ≡ m.world
  unfolding opened send_or_finish
  opened-world term ro (inl e) m on =
      if_elim (λ (x : Mux vt bc). x.world ≡ m.world) m.connected _ _ (λ _. send-world vt bc _ m)
        (λ off. absurd (cc (on, off)))
  opened-world term ro (inr a) m on =
      if_elim (λ (x : Mux vt bc). x.world ≡ m.world) m.connected _ _
        (λ _.
          send-world vt bc _ (send vt bc (text (hello_json (some term) a)) m)
          ∙ send-world vt bc _ m)
        (λ off. absurd (cc (on, off)))

  opens :
      (user : Text) (term : ℕ) (asked : Option (ℕ × ℕ)) (ro : Bool) (m : Mux vt bc)
      (want : Option (Shell vt bc)) (r : World vt bc × (AttachError ⊎ Attachment bc.Receiver))
      → m.connected ≡ true
      → Answers vt bc user term asked r.0 want r.1
      → Opens user term asked ro m
          (opened vt bc term ro r.1
            (record m { world = r.0; channels = HashMap.remove term m.channels }))
          want
  opens user term asked ro m none (w, answer) on e =
      let gone = get-remove_self term m.channels in
      subst
        (λ x. Refused term m (
          opened vt bc term ro x
            (record m { world = w; channels = HashMap.remove term m.channels })))
        (sym e)
        (opened-Outcome term ro (inl spawn_failed)
          (record m { world = w; channels = HashMap.remove term m.channels }) on gone)
  opens user term asked ro m (some t) (w, answer) on (id, named, there, e) =
      let joined = record m { world = w; channels = HashMap.remove term m.channels } in
      let a = attachment_to vt bc id t asked in
      let same = opened-world term ro answer joined on in
      (
        id,
        ap (slot_of user term) same ∙ named,
        ap (λ (x : World vt bc). get_elem? x.shells id) same ∙ there,
        subst (λ x. Greeted term ro a m (opened vt bc term ro x joined)) (sym e)
            (opened-Outcome term ro (inr a) joined on (get-remove_self term m.channels)),
      )

  -- Opening a slot over a connection that is there, whatever channel it replaces: out of range the
  -- browser gets an error frame and no channel. In range it gets that too if no shell runs and none
  -- could be started; and else the hello of its attachment to the shell that the slot holds then,
  -- right after it the replay, tagged with the slot, and a channel to this shell.
  pub on_open_lem :
      (cb : CommandBuilder) (user : Text) (os : Os) (term cols rows : ℕ) (asked : Option (ℕ × ℕ))
      (ro : Bool) (m : Mux vt bc)
      → WellPlaced m.world
      → m.connected ≡ true
      → let (c, r) = valid_size cols rows in
        let after = on_open vt bc cb user os term cols rows asked ro m in
        if leb m.world.slots_per_user term
        then Refused term m after
        else Opens user term asked ro m after (
            attached vt bc c r
              (chosen vt bc (held user term m.world) (spawn_for vt bc cb os user c r m.world)))
  unfolding on_open close_channel
  on_open_lem cb user os term cols rows asked ro m w on =
      let (c, r) = valid_size cols rows in
      let result = attach vt bc cb os user term c r asked m.world in
      let joined = record m { world = result.0; channels = HashMap.remove term m.channels } in
      elim (Bool-cases (leb m.world.slots_per_user term)) [
        | inl out ↦
            let e = attach-out_of_range vt bc cb os user term c r asked m.world out in
            rw out (
              subst (λ x. Refused term m (opened vt bc term ro x joined))
                (sym (ap (λ (x : World vt bc × (AttachError ⊎ Attachment bc.Receiver)). x.1) e))
                (opened-Outcome term ro (inl out_of_range) joined on
                  (get-remove_self term m.channels)))
        | inr inside ↦ rw inside (
            opens user term asked ro m _ result on
              (attach-Only vt bc cb os user term c r asked m.world w (ground arith)).answer)
      ]
