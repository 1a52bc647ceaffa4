-- ===== src/Mux/Opening.antt =====
-- Which shells the opening of a slot touches.
use webshell.Base.{
  ℕ, ◌≡◌, ◌≢◌, ◌⊎◌, refl, sym, ◌∙◌, inl, inr, Bool, false, Option, none, some, arith, leb, Text,
  text_eq, nat_eq, ◌=?◌, =?_iff, Bool-cases, if_elim, subst,
}
use webshell.HashMap
use webshell.HashMap.{HashMap}
use webshell.Command.{CommandBuilder}
use webshell.Frames.{valid_size, tagged, hello_json}
use webshell.Scrollback.{Vt100}
use webshell.Shell.{Broadcast, Shell, Os}
use webshell.Terminals.{World, Attachment, AttachError, attach, slot_of, held, attachment_to}
use webshell.Terminals.Slots.{WellPlaced}
use webshell.Terminals.Isolation.{same_slot, same_slot-true}
use webshell.Terminals.Operations.{Answers}
use webshell.Terminals.Refinement.{attach-Only, attach-out_of_range}
use webshell.Forward.{Message, text, binary, Mux, send}
use webshell.Forward.Ownership.{
  Mine, Keeps-refl, Keeps-trans, finish-Keeps, sends-Keeps, put_channel-Keeps, remove-Keeps,
}
use webshell.Mux.Routing.{Ok, Kept}
use webshell.Mux.{send_or_finish, close_channel, opened, on_open}

module _ (vt : Vt100) (bc : Broadcast) where
  pub send-world : (msg : Message) (m : Mux vt bc) → (send vt bc msg m).world ≡ m.world
  unfolding send
  send-world msg m =
      if_elim (λ (x : Mux vt bc). x.world ≡ m.world) m.connected _ _ (λ _. refl) (λ _. refl)

module _ (vt : Vt100) (bc : Broadcast) (user : Text) where
  send-Keeps :
      (msg : Message) (m : Mux vt bc) → Ok vt bc user m → Kept vt bc user m (send vt bc msg m)
  unfolding send
  send-Keeps msg m o =
      if_elim (Kept vt bc user m) m.connected _ _
        (λ _. sends-Keeps vt bc user m _ m.running m.connected o) (λ _. Keeps-refl vt bc user m o)

  opened-Keeps :
      (term : ℕ) (ro : Bool) (answer : AttachError ⊎ Attachment bc.Receiver) (m : Mux vt bc)
      → Ok vt bc user m
      → ((a : Attachment bc.Receiver) → answer ≡ inr a → Mine vt bc user m.world a.shell)
      → Kept vt bc user m (opened vt bc term ro answer m)
  unfolding opened send_or_finish
  opened-Keeps term ro (inl e) m o mine =
      if_elim (Kept vt bc user m) m.connected _ _ (λ _. send-Keeps _ m o)
        (λ _. finish-Keeps vt bc user m o)
  opened-Keeps term ro (inr a) m o mine =
      let greeted = send vt bc (text (hello_json (some term) a)) m in
      let replayed = send vt bc (binary (tagged term a.replay)) greeted in
      let k = send-Keeps (text (hello_json (some term) a)) m o in
      let l = send-Keeps (binary (tagged term a.replay)) greeted k.owned in
      if_elim (Kept vt bc user m) m.connected _ _
        (λ c. Keeps-trans vt bc user m greeted _ k (
          Keeps-trans vt bc user greeted replayed _ l (
            put_channel-Keeps vt bc user term _ replayed l.owned (
              subst (λ w. Mine vt bc user w a.shell)
                (sym (
                  send-world vt bc (binary (tagged term a.replay)) greeted
                  ∙ send-world vt bc (text (hello_json (some term) a)) m))
                (mine a refl)))))
        (λ c. finish-Keeps vt bc user m o)

  -- What attaching to one of its user's slots does to the shells that a connection may touch.
  record Attached (w : World vt bc) (r : World vt bc × (AttachError ⊎ Attachment bc.Receiver))
      : Type 0 where
    placed : WellPlaced r.0
    others : (v : Text) (j : ℕ) → user ≢ v → held v j r.0 ≡ held v j w
    slots : (v : Text) (j : ℕ) → user ≢ v → slot_of v j r.0 ≡ slot_of v j w
    mine : (a : Attachment bc.Receiver) → r.1 ≡ inr a → Mine vt bc user r.0 a.shell

  answer-mine :
      (i : ℕ) (asked : Option (ℕ × ℕ)) (w : World vt bc) (want : Option (Shell vt bc))
      (answer : AttachError ⊎ Attachment bc.Receiver)
      → WellPlaced w
      → Answers vt bc user i asked w want answer
      → (a : Attachment bc.Receiver) → answer ≡ inr a
      → Mine vt bc user w a.shell
  unfolding attachment_to
  answer-mine i asked w none answer placed e a q = absurd (cc (e, q))
  answer-mine i asked w (some t) answer placed (id, named, there, e) a q =
      let same : attachment_to vt bc id t asked ≡ a = cc (e, q) in
      subst (λ (x : Attachment bc.Receiver). Mine vt bc user w x.shell) same
        (λ v j f. (placed.apart v user j i id f named).0)

  different : (u v : Text) (i j : ℕ) → u ≢ v → same_slot u i v j ≡ false
  different u v i j ne = elim (Bool-cases (same_slot u i v j)) [
    | inl s ↦ absurd (ne (same_slot-true u v i j s).0)
    | inr s ↦ s
  ]

  module _ (cb : CommandBuilder) where
    attach-Attached :
        (os : Os) (i cols rows : ℕ) (asked : Option (ℕ × ℕ)) (w : World vt bc)
        → WellPlaced w
        → Attached w (attach vt bc cb os user i cols rows asked w)
    attach-Attached os i cols rows asked w placed = elim (Bool-cases (leb w.slots_per_user i)) [
      | inl out ↦
          let r = attach-out_of_range vt bc cb os user i cols rows asked w out in
          subst (Attached w) (sym r) (record {
            placed = placed;
            others = λ v j ne. refl;
            slots = λ v j ne. refl;
            mine = λ a e. absurd (cc e);
          })
      | inr inside ↦
          let only = attach-Only vt bc cb os user i cols rows asked w placed (ground arith) in
          record {
            placed = only.placed;
            others = λ v j ne. only.others v j ∙ rw (different user v i j ne) refl;
            slots = only.slots;
            mine = answer-mine i asked _ _ _ only.placed only.answer;
          }
    ]

    pub on_open-Keeps :
        (os : Os) (term cols rows : ℕ) (asked : Option (ℕ × ℕ)) (ro : Bool) (m : Mux vt bc)
        → Ok vt bc user m
        → Kept vt bc user m (on_open vt bc cb user os term cols rows asked ro m)
    unfolding on_open close_channel
    on_open-Keeps os term cols rows asked ro m o =
        let (c, r) = valid_size cols rows in
        let result = attach vt bc cb os user term c r asked m.world in
        let at = attach-Attached os term c r asked m.world o.placed in
        let closed = remove-Keeps vt bc user term m o in
        let joined = record m { world = result.0; channels = HashMap.remove term m.channels } in
        let k : Kept vt bc user m joined = record {
          owned = record {
            placed = at.placed;
            own = λ k ch e v j f. elim (Bool-cases (user =? v)) [
              | inl same ↦ sym ((=?_iff user v).0 same)
              | inr apart ↦
                  let ne : user ≢ v = λ q. cc ((=?_iff user v).1 q, apart) in
                  closed.owned.own k ch e v j (sym (at.slots v j ne) ∙ f)
            ];
          };
          others = at.others;
        } in
        Keeps-trans vt bc user m joined _ k (opened-Keeps term ro result.1 joined k.owned at.mine)
