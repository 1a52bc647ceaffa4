-- ===== src/Mux/Isolation.antt =====
-- Which slots the messages to a connection touch.
use webshell.Base.{refl, false, Option, none, some, List, [], ◌∷◌, Text, text_eq, nat_eq, if_elim}
use webshell.Command.{CommandBuilder}
use webshell.Scrollback.{Vt100}
use webshell.Shell.{Broadcast, Os}
use webshell.Forward.{
  Message, text, binary, close_frame, failure, other, Event, message, deadline, revocation,
  writer_gone, stream_ended, redraw_tick, shutdown, output, Mux,
}
use webshell.Forward.Ownership.{
  Owned, Keeps, Keeps-refl, Keeps-trans, finish-Keeps, sends-Keeps, remove-Keeps,
}
use webshell.Forward.Isolation.{on_forward-Keeps}
use webshell.Mux.Routing.{Ok, Kept, on_binary-Keeps, resize_channel-Keeps, set_mode-Keeps}
use webshell.Mux.Opening.{on_open-Keeps}
use webshell.Mux.{
  MuxControl, open_slot, resize_slot, mode_slot, close_slot, resume_at, step, close_channel,
  on_control, on_message,
}

module _ (vt : Vt100) (bc : Broadcast) (user : Text) (cb : CommandBuilder) where
  on_control-Keeps :
      (os : Os) (control : Option MuxControl) (m : Mux vt bc)
      → Ok vt bc user m
      → Kept vt bc user m (on_control vt bc cb user os control m)
  unfolding on_control close_channel
  on_control-Keeps os none m o = Keeps-refl vt bc user m o
  on_control-Keeps os (some (open_slot term cols rows epoch offset ro)) m o =
      on_open-Keeps vt bc user cb os term cols rows (resume_at epoch offset) ro m o
  on_control-Keeps os (some (resize_slot term cols rows)) m o =
      resize_channel-Keeps vt bc user term cols rows _ m o refl
  on_control-Keeps os (some (mode_slot term ro)) m o = set_mode-Keeps vt bc user term ro _ m o refl
  on_control-Keeps os (some (close_slot term)) m o = remove-Keeps vt bc user term m o

  module _ (base64 : Text → Text) (parse : Text → Option MuxControl) where
    on_message-Keeps :
        (os : Os) (msg : Message) (m : Mux vt bc)
        → Ok vt bc user m
        → Kept vt bc user m (on_message vt bc cb user base64 parse os msg m)
    unfolding on_message
    on_message-Keeps os (binary b) m o = on_binary-Keeps vt bc user b m o
    on_message-Keeps os (text t) m o = on_control-Keeps os (parse t) m o
    on_message-Keeps os close_frame m o = finish-Keeps vt bc user m o
    on_message-Keeps os failure m o = finish-Keeps vt bc user m o
    on_message-Keeps os other m o = Keeps-refl vt bc user m o

    step-Keeps :
        (e : Event) (m : Mux vt bc)
        → Ok vt bc user m
        → Kept vt bc user m (step vt bc cb user base64 parse e m)
    unfolding step
    step-Keeps (message os msg) m o =
        if_elim (Kept vt bc user m) m.running _ _ (λ _. on_message-Keeps os msg m o)
          (λ _. Keeps-refl vt bc user m o)
    step-Keeps deadline m o = finish-Keeps vt bc user m o
    step-Keeps (revocation ends) m o =
        if_elim (Kept vt bc user m) ends _ _ (λ _. finish-Keeps vt bc user m o)
          (λ _. Keeps-refl vt bc user m o)
    step-Keeps writer_gone m o = sends-Keeps vt bc user m m.sent m.running false o
    step-Keeps stream_ended m o = finish-Keeps vt bc user m o
    step-Keeps (redraw_tick front term) m o = on_forward-Keeps vt bc user base64 _ term m o
    step-Keeps (shutdown term) m o = on_forward-Keeps vt bc user base64 _ term m o
    step-Keeps (output term) m o = on_forward-Keeps vt bc user base64 _ term m o

    pub run : List Event → Mux vt bc → Mux vt bc
    run [] m = m
    run (e ∷ es) m = run es (step vt bc cb user base64 parse e m)

    -- Whatever a browser sends and whatever else reaches its connection, in any order: no slot of
    -- another user is changed, and the connection's channels still lead to its own user's shells only.
    pub run-Keeps :
        (es : List Event) (m : Mux vt bc) → Owned vt bc user m → Keeps vt bc user m (run es m)
    unfolding run
    run-Keeps [] m o = Keeps-refl vt bc user m o
    run-Keeps (e ∷ es) m o =
        let k = step-Keeps e m o in Keeps-trans vt bc user m _ _ k (run-Keeps es _ k.owned)
