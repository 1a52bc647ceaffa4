-- ===== src/Mux.antt =====
-- `mux_bridge` of src/pty.rs: one WebSocket that carries every slot a user has opened. The JSON parser
-- is a parameter.
pub mod Isolation
pub mod Opening
pub mod Routing
pub mod Hello
mod Tests
use webshell.Base.{
  ℕ, Bool, true, false, not, Option, none, some, List, [], ◌∷◌, ◌++◌, ◌⊎◌, inl, inr, if◌then◌else◌,
  get_elem?, Text, codes, nat_eq,
}
use webshell.HashMap
use webshell.HashMap.{HashMap}
use webshell.Command.{CommandBuilder}
use webshell.Frames.{hello_json, closed_json, tagged, valid_size}
use webshell.Scrollback.{Vt100}
use webshell.Shell.{PtyCmd, Broadcast, Shell, Os, try_send, offer}
use webshell.Terminals.{Attachment, AttachError, attach, put_shell}
use webshell.Forward.{
  Message, text, binary, close_frame, failure, other, Event, message, deadline, revocation,
  writer_gone, stream_ended, redraw_tick, shutdown, output, Channel, Mux, finish, send, put_channel,
  on_forward,
}

-- `MuxControl`
pub data MuxControl : Type 0 where
  open_slot : ℕ → ℕ → ℕ → Option ℕ → Option ℕ → Bool → MuxControl
  resize_slot : ℕ → ℕ → ℕ → MuxControl
  mode_slot : ℕ → Bool → MuxControl
  close_slot : ℕ → MuxControl

abbrev pub resume_at : Option ℕ → Option ℕ → Option (ℕ × ℕ)
resume_at (some e) (some o) = some (e, o)
resume_at (some e) none = none
resume_at none o = none

module _ (vt : Vt100) (bc : Broadcast) where
  -- Send, and go on unless the writer is gone.
  send_or_finish : Message → Mux vt bc → Mux vt bc
  send_or_finish msg m = if m.connected then send vt bc msg m else finish vt bc m

  sent_input : ℕ → Option (Shell vt bc) → Mux vt bc → Mux vt bc
  sent_input id none m = finish vt bc m
  sent_input id (some t) m = record m { world = put_shell id t m.world }

  -- `try_send(PtyCmd::Input(bytes))` on the shell of a channel
  input_to : Text → ℕ → Option (Shell vt bc) → Mux vt bc → Mux vt bc
  unfolding sent_input
  input_to bytes id none m = finish vt bc m
  input_to bytes id (some t) m = sent_input id (try_send (PtyCmd.input bytes) t) m

  route_input : Text → Option (Channel bc.Receiver) → Mux vt bc → Mux vt bc
  unfolding input_to
  route_input bytes none m = m
  route_input bytes (some ch) m =
      if not ch.read_only then input_to bytes ch.shell (get_elem? m.world.shells ch.shell) m else m

  -- The arm of a binary message.
  unfoldable pub on_binary : Text → Mux vt bc → Mux vt bc
  unfolding route_input
  on_binary [] m = m
  on_binary (term ∷ bytes) m = route_input bytes (HashMap.get term m.channels) m

  resize_found : ℕ × ℕ → ℕ → Option (Shell vt bc) → Mux vt bc → Mux vt bc
  resize_found size id none m = m
  resize_found (cols, rows) id (some t) m = record m {
    world = put_shell id (offer (PtyCmd.resize cols rows) t) m.world;
  }

  pub resize_channel : ℕ → ℕ → Option (Channel bc.Receiver) → Mux vt bc → Mux vt bc
  unfolding resize_found
  resize_channel cols rows none m = m
  resize_channel cols rows (some ch) m =
      if not ch.read_only
      then resize_found (valid_size cols rows) ch.shell (get_elem? m.world.shells ch.shell) m
      else m

  pub set_mode : ℕ → Bool → Option (Channel bc.Receiver) → Mux vt bc → Mux vt bc
  set_mode term ro none m = m
  set_mode term ro (some ch) m = put_channel vt bc term (record ch { read_only = ro }) m

  close_channel : ℕ → Mux vt bc → Mux vt bc
  close_channel term m = record m { channels = HashMap.remove term m.channels }

  -- What follows an attachment: hello and replay are queued before the forward task exists.
  opened : ℕ → Bool → AttachError ⊎ Attachment bc.Receiver → Mux vt bc → Mux vt bc
  unfolding send_or_finish
  opened term ro (inl e) m = send_or_finish (text (closed_json term (codes "error"))) m
  opened term ro (inr a) m =
      if m.connected
      then put_channel vt bc term
          (record { shell = a.shell; read_only = ro; forward = some a.output_rx })
          (send vt bc (binary (tagged term a.replay))
            (send vt bc (text (hello_json (some term) a)) m))
      else finish vt bc m

  module _ (cb : CommandBuilder) (user : Text) where
    -- `MuxControl::Open`
    unfoldable pub on_open : Os → ℕ → ℕ → ℕ → Option (ℕ × ℕ) → Bool → Mux vt bc → Mux vt bc
    unfolding opened close_channel
    on_open os term cols rows asked ro m =
        let (c, r) = valid_size cols rows in
        let (world, answer) = attach vt bc cb os user term c r asked m.world in
        opened term ro answer (record (close_channel term m) { world = world })

    pub on_control : Os → Option MuxControl → Mux vt bc → Mux vt bc
    unfolding resize_channel set_mode close_channel
    on_control os none m = m
    on_control os (some (open_slot term cols rows epoch offset ro)) m =
        on_open os term cols rows (resume_at epoch offset) ro m
    on_control os (some (resize_slot term cols rows)) m =
        resize_channel cols rows (HashMap.get term m.channels) m
    on_control os (some (mode_slot term ro)) m = set_mode term ro (HashMap.get term m.channels) m
    on_control os (some (close_slot term)) m = close_channel term m

    module _ (base64 : Text → Text) (parse : Text → Option MuxControl) where
      on_message : Os → Message → Mux vt bc → Mux vt bc
      unfolding on_control
      on_message os (binary b) m = on_binary b m
      on_message os (text t) m = on_control os (parse t) m
      on_message os close_frame m = finish vt bc m
      on_message os failure m = finish vt bc m
      on_message os other m = m

      -- One event of the main loop or of a forward task; once the loop has ended nothing happens.
      unfoldable pub step : Event → Mux vt bc → Mux vt bc
      unfolding on_message
      step (message os msg) m = if m.running then on_message os msg m else m
      step deadline m = finish vt bc m
      step (revocation ends) m = if ends then finish vt bc m else m
      step writer_gone m = record m { connected = false }
      step stream_ended m = finish vt bc m
      step (redraw_tick front term) m = on_forward vt bc base64 (redraw_tick front term) term m
      step (shutdown term) m = on_forward vt bc base64 (shutdown term) term m
      step (output term) m = on_forward vt bc base64 (output term) term m
