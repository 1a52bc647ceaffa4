-- ===== src/Mux/Routing.antt =====
-- Where the input, sizes and modes of a message go.
use webshell.Base.{
  ℕ, ◌≡◌, refl, Bool, not, Option, none, some, [], ◌∷◌, Text, text_eq, nat_eq, if_elim,
}
use webshell.HashMap
use webshell.HashMap.{HashMap}
use webshell.Frames.{valid_size}
use webshell.Scrollback.{Vt100}
use webshell.Shell.{Broadcast, Shell}
use webshell.Forward.{Channel, Mux}
use webshell.Forward.Ownership.{
  Mine, Owned, Keeps, Keeps-refl, finish-Keeps, touch-Keeps, put_channel-Keeps,
}
use webshell.Mux.{
  sent_input, input_to, route_input, on_binary, resize_found, resize_channel, set_mode,
}

module _ (vt : Vt100) (bc : Broadcast) (user : Text) where
  abbrev pub Ok : Mux vt bc → Type 0
  Ok m = Owned vt bc user m

  abbrev pub Kept : Mux vt bc → Mux vt bc → Type 0
  Kept m m' = Keeps vt bc user m m'

  sent_input-Keeps :
      (id : ℕ) (o : Option (Shell vt bc)) (m : Mux vt bc)
      → Ok m
      → Mine vt bc user m.world id
      → Kept m (sent_input vt bc id o m)
  unfolding sent_input
  sent_input-Keeps id none m o mine = finish-Keeps vt bc user m o
  sent_input-Keeps id (some t) m o mine = touch-Keeps vt bc user m id t o mine

  input_to-Keeps :
      (bytes : Text) (id : ℕ) (found : Option (Shell vt bc)) (m : Mux vt bc)
      → Ok m
      → Mine vt bc user m.world id
      → Kept m (input_to vt bc bytes id found m)
  unfolding input_to
  input_to-Keeps bytes id none m o mine = finish-Keeps vt bc user m o
  input_to-Keeps bytes id (some t) m o mine = sent_input-Keeps id _ m o mine

  route_input-Keeps :
      (term : ℕ) (bytes : Text) (ch : Option (Channel bc.Receiver)) (m : Mux vt bc)
      → Ok m
      → HashMap.get term m.channels ≡ ch
      → Kept m (route_input vt bc bytes ch m)
  unfolding route_input
  route_input-Keeps term bytes none m o e = Keeps-refl vt bc user m o
  route_input-Keeps term bytes (some ch) m o e =
      if_elim (Kept m) (not ch.read_only) _ _
        (λ _. input_to-Keeps bytes ch.shell _ m o (o.own term ch e))
        (λ _. Keeps-refl vt bc user m o)

  pub on_binary-Keeps : (b : Text) (m : Mux vt bc) → Ok m → Kept m (on_binary vt bc b m)
  unfolding on_binary
  on_binary-Keeps [] m o = Keeps-refl vt bc user m o
  on_binary-Keeps (term ∷ bytes) m o = route_input-Keeps term bytes _ m o refl

  resize_found-Keeps :
      (size : ℕ × ℕ) (id : ℕ) (found : Option (Shell vt bc)) (m : Mux vt bc)
      → Ok m
      → Mine vt bc user m.world id
      → Kept m (resize_found vt bc size id found m)
  unfolding resize_found
  resize_found-Keeps size id none m o mine = Keeps-refl vt bc user m o
  resize_found-Keeps (cols, rows) id (some t) m o mine = touch-Keeps vt bc user m id _ o mine

  pub resize_channel-Keeps :
      (term cols rows : ℕ) (ch : Option (Channel bc.Receiver)) (m : Mux vt bc)
      → Ok m
      → HashMap.get term m.channels ≡ ch
      → Kept m (resize_channel vt bc cols rows ch m)
  unfolding resize_channel
  resize_channel-Keeps term cols rows none m o e = Keeps-refl vt bc user m o
  resize_channel-Keeps term cols rows (some ch) m o e =
      if_elim (Kept m) (not ch.read_only) _ _
        (λ _. resize_found-Keeps (valid_size cols rows) ch.shell _ m o (o.own term ch e))
        (λ _. Keeps-refl vt bc user m o)

  pub set_mode-Keeps :
      (term : ℕ) (ro : Bool) (ch : Option (Channel bc.Receiver)) (m : Mux vt bc)
      → Ok m
      → HashMap.get term m.channels ≡ ch
      → Kept m (set_mode vt bc term ro ch m)
  unfolding set_mode
  set_mode-Keeps term ro none m o e = Keeps-refl vt bc user m o
  set_mode-Keeps term ro (some ch) m o e = put_channel-Keeps vt bc user term _ m o (o.own term ch e)
