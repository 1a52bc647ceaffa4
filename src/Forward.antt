-- ===== src/Forward.antt =====
-- The connection of `mux_bridge` of src/pty.rs and `spawn_forward`, the task that passes a slot's
-- output on. The base64 encoder is a parameter. What is queued for the single writer is the list
-- `sent`; a forward task that has ended by itself has no receiver any more.
pub mod Ownership
pub mod Isolation
use webshell.Base.{
  ℕ, Bool, true, false, Option, none, some, List, [], ◌∷◌, ◌++◌, if◌then◌else◌, get_elem?, map,
  Text, codes, nat_eq,
}
use webshell.HashMap
use webshell.HashMap.{HashMap}
use webshell.Frames.{redraw_json, closed_json, tagged}
use webshell.Scrollback.{Vt100}
use webshell.Shell.{TryRecv, ok, lagged, empty, closed, Broadcast, Shell, Os}
use webshell.Shell.Screen.{Redraw, redraw}
use webshell.Terminals.{World, put_shell}

-- A WebSocket message, as far as the bridge tells them apart.
pub data Message : Type 0 where
  text : Text → Message
  binary : Text → Message
  close_frame : Message
  failure : Message
  other : Message

-- `Channel`: `shell` is the terminal whose input queue it has; `forward` the receiver of its task.
pub record Channel (Receiver : Type 0) : Type 0 where
  pub shell : ℕ
  pub read_only : Bool
  pub forward : Option Receiver

-- What reaches the connection: a message from the browser (with what the system answers if it
-- starts a shell), the deadline, a change of the revocation channel, and the ends of the writer and
-- of the stream; and what wakes the forward task of a slot.
pub data Event : Type 0 where
  message : Os → Message → Event
  deadline : Event
  revocation : Bool → Event
  writer_gone : Event
  stream_ended : Event
  redraw_tick : ℕ → ℕ → Event
  shutdown : ℕ → Event
  output : ℕ → Event

module _ (vt : Vt100) (bc : Broadcast) where
  -- The connection: the terminals it shares with all others, its channels, what it has queued, and
  -- whether its loop and its writer still run.
  pub record Mux : Type 0 where
    pub world : World vt bc
    pub channels : HashMap ℕ (Channel bc.Receiver)
    pub sent : List Message
    pub running : Bool
    pub connected : Bool

  -- The end of `mux_bridge`: every forward task is stopped, and no shell is.
  unfoldable pub finish : Mux → Mux
  finish m = record m { channels = []; running = false; connected = false }

  -- `out_tx.send(message).await`
  unfoldable pub send : Message → Mux → Mux
  send msg m = if m.connected then record m { sent = m.sent ++ msg ∷ [] } else m

  abbrev pub put_channel : ℕ → Channel bc.Receiver → Mux → Mux
  put_channel term ch m = record m { channels = HashMap.insert term ch m.channels }

  -- The forward task of a slot ends by itself, or goes on from a receiver.
  set_forward : ℕ → Channel bc.Receiver → Option bc.Receiver → Mux → Mux
  set_forward term ch rx m = put_channel term (record ch { forward = rx }) m

  -- Queue what a forward task sends; it ends when the writer is gone, or with `rx` none.
  forward_sends : ℕ → Channel bc.Receiver → List Message → Option bc.Receiver → Mux → Mux
  unfolding set_forward
  forward_sends term ch msgs rx m =
      if m.connected
      then set_forward term ch rx (record m { sent = m.sent ++ msgs })
      else set_forward term ch none m

  -- The arm of `recv` in `spawn_forward`
  forward_output : ℕ → Channel bc.Receiver → TryRecv → bc.Receiver → Mux → Mux
  unfolding forward_sends set_forward
  forward_output term ch (ok bytes) rx m =
      forward_sends term ch (binary (tagged term bytes) ∷ []) (some rx) m
  forward_output term ch lagged rx m =
      forward_sends term ch (text (closed_json term (codes "error")) ∷ []) none m
  forward_output term ch empty rx m = m
  forward_output term ch closed rx m = set_forward term ch none m

  -- The arm of `shutdown_rx.changed()`
  forward_shutdown : ℕ → Channel bc.Receiver → Shell vt bc → Mux → Mux
  unfolding forward_sends
  forward_shutdown term ch t m =
      if t.shutdown_tx
      then forward_sends term ch (text (closed_json term (codes "exit")) ∷ []) none m
      else m

  module _ (base64 : Text → Text) where
    redraw_frames : ℕ → Redraw → List Message
    redraw_frames term r =
        map (λ bytes. binary (tagged term bytes)) r.pending
        ++ (if r.lagged
            then text (closed_json term (codes "error")) ∷ []
            else text (redraw_json base64 (some term) r) ∷ [])

    -- The arm of `next_redraw`
    forward_redraw : ℕ → ℕ → Channel bc.Receiver → Shell vt bc → bc.Receiver → Mux → Mux
    unfolding forward_sends redraw_frames
    forward_redraw front term ch t rx m =
        let (after, rest, r) = redraw vt bc front t rx in
        forward_sends term ch (redraw_frames term r) (if r.lagged then none else some rest)
          (record m { world = put_shell ch.shell after m.world })

    forward_live :
        Event → ℕ → Channel bc.Receiver → Option (Shell vt bc) → Option bc.Receiver → Mux → Mux
    unfolding forward_redraw forward_shutdown forward_output
    forward_live (redraw_tick front _) term ch (some t) (some rx) m =
        forward_redraw front term ch t rx m
    forward_live (shutdown _) term ch (some t) (some rx) m = forward_shutdown term ch t m
    forward_live (output _) term ch (some t) (some rx) m =
        let (got, rest) = bc.try_recv t.output_tx rx in forward_output term ch got rest m
    forward_live e term ch t rx m = m

    forward_found : Event → ℕ → Option (Channel bc.Receiver) → Mux → Mux
    unfolding forward_live
    forward_found e term none m = m
    forward_found e term (some ch) m =
        forward_live e term ch (get_elem? m.world.shells ch.shell) ch.forward m

    -- One turn of the forward task of a slot.
    unfoldable pub on_forward : Event → ℕ → Mux → Mux
    unfolding forward_found
    on_forward e term m = forward_found e term (HashMap.get term m.channels) m
