-- ===== src/Forward/Isolation.antt =====
-- Which shells the forward tasks touch.
use webshell.Base.{ℕ, ◌≡◌, refl, Option, none, some, List, ◌++◌, Text, nat_eq, if_elim}
use webshell.HashMap
use webshell.HashMap.{HashMap}
use webshell.Scrollback.{Vt100}
use webshell.Shell.{Broadcast, Shell, TryRecv, ok, lagged, empty, closed}
use webshell.Shell.Screen.{redraw}
use webshell.Terminals.{put_shell}
use webshell.Forward.{
  Message, Event, redraw_tick, shutdown, output, Channel, Mux, on_forward, set_forward,
  forward_sends, forward_output, forward_shutdown, forward_redraw, forward_live, forward_found,
}
use webshell.Forward.Ownership.{
  Mine, Owned, Keeps, Keeps-refl, Keeps-trans, sends-Keeps, touch-Keeps, put_channel-Keeps,
  Mine-put_shell,
}

module _ (vt : Vt100) (bc : Broadcast) (user : Text) where
  set_forward-Keeps :
      (term : ℕ) (ch : Channel bc.Receiver) (rx : Option bc.Receiver) (m : Mux vt bc)
      → Owned vt bc user m
      → Mine vt bc user m.world ch.shell
      → Keeps vt bc user m (set_forward vt bc term ch rx m)
  unfolding set_forward
  set_forward-Keeps term ch rx m o mine =
      put_channel-Keeps vt bc user term (record ch { forward = rx }) m o mine

  forward_sends-Keeps :
      (term : ℕ) (ch : Channel bc.Receiver) (msgs : List Message) (rx : Option bc.Receiver)
      (m : Mux vt bc)
      → Owned vt bc user m
      → Mine vt bc user m.world ch.shell
      → Keeps vt bc user m (forward_sends vt bc term ch msgs rx m)
  unfolding forward_sends
  forward_sends-Keeps term ch msgs rx m o mine =
      if_elim (Keeps vt bc user m) m.connected _ _
        (λ e.
          let queued = record m { sent = m.sent ++ msgs } in
          let k = sends-Keeps vt bc user m (m.sent ++ msgs) m.running m.connected o in
          Keeps-trans vt bc user m queued _ k (set_forward-Keeps term ch rx queued k.owned mine))
        (λ e. set_forward-Keeps term ch none m o mine)

  forward_output-Keeps :
      (term : ℕ) (ch : Channel bc.Receiver) (got : TryRecv) (rx : bc.Receiver) (m : Mux vt bc)
      → Owned vt bc user m
      → Mine vt bc user m.world ch.shell
      → Keeps vt bc user m (forward_output vt bc term ch got rx m)
  unfolding forward_output
  forward_output-Keeps term ch (ok bytes) rx m o mine =
      forward_sends-Keeps term ch _ (some rx) m o mine
  forward_output-Keeps term ch lagged rx m o mine = forward_sends-Keeps term ch _ none m o mine
  forward_output-Keeps term ch empty rx m o mine = Keeps-refl vt bc user m o
  forward_output-Keeps term ch closed rx m o mine = set_forward-Keeps term ch none m o mine

  forward_shutdown-Keeps :
      (term : ℕ) (ch : Channel bc.Receiver) (t : Shell vt bc) (m : Mux vt bc)
      → Owned vt bc user m
      → Mine vt bc user m.world ch.shell
      → Keeps vt bc user m (forward_shutdown vt bc term ch t m)
  unfolding forward_shutdown
  forward_shutdown-Keeps term ch t m o mine =
      if_elim (Keeps vt bc user m) t.shutdown_tx _ _
        (λ e. forward_sends-Keeps term ch _ none m o mine) (λ e. Keeps-refl vt bc user m o)

  module _ (base64 : Text → Text) where
    forward_redraw-Keeps :
        (front term : ℕ) (ch : Channel bc.Receiver) (t : Shell vt bc) (rx : bc.Receiver)
        (m : Mux vt bc)
        → Owned vt bc user m
        → Mine vt bc user m.world ch.shell
        → Keeps vt bc user m (forward_redraw vt bc base64 front term ch t rx m)
    unfolding forward_redraw
    forward_redraw-Keeps front term ch t rx m o mine =
        let after = (redraw vt bc front t rx).0 in
        let k = touch-Keeps vt bc user m ch.shell after o mine in
        let shown = record m { world = put_shell ch.shell after m.world } in
        Keeps-trans vt bc user m shown _ k (
          forward_sends-Keeps term ch _ _ shown k.owned
            (Mine-put_shell vt bc user m.world ch.shell after ch.shell mine))

    forward_live-Keeps :
        (e : Event) (term : ℕ) (ch : Channel bc.Receiver) (t : Option (Shell vt bc))
        (rx : Option bc.Receiver) (m : Mux vt bc)
        → Owned vt bc user m
        → Mine vt bc user m.world ch.shell
        → Keeps vt bc user m (forward_live vt bc base64 e term ch t rx m)
    unfolding forward_live
    forward_live-Keeps (redraw_tick front _) term ch (some t) (some rx) m o mine =
        forward_redraw-Keeps front term ch t rx m o mine
    forward_live-Keeps (shutdown _) term ch (some t) (some rx) m o mine =
        forward_shutdown-Keeps term ch t m o mine
    forward_live-Keeps (output _) term ch (some t) (some rx) m o mine =
        forward_output-Keeps term ch _ _ m o mine
    forward_live-Keeps e term ch t rx m o mine = Keeps-refl vt bc user m o

    forward_found-Keeps :
        (e : Event) (term : ℕ) (found : Option (Channel bc.Receiver)) (m : Mux vt bc)
        → Owned vt bc user m
        → HashMap.get term m.channels ≡ found
        → Keeps vt bc user m (forward_found vt bc base64 e term found m)
    unfolding forward_found
    forward_found-Keeps e term none m o f = Keeps-refl vt bc user m o
    forward_found-Keeps e term (some ch) m o f =
        forward_live-Keeps e term ch _ _ m o (o.own term ch f)

    pub on_forward-Keeps :
        (e : Event) (term : ℕ) (m : Mux vt bc)
        → Owned vt bc user m
        → Keeps vt bc user m (on_forward vt bc base64 e term m)
    unfolding on_forward
    on_forward-Keeps e term m o = forward_found-Keeps e term _ m o refl
