-- ===== src/Viewer/Watching.antt =====
-- The whole life of a viewer's socket after its lease has ended.
use webshell.Base.{
  ℕ, ◌≡◌, refl, ap, ◌∙◌, inl, false, not, ◌&&◌, Option, none, some, List, [], ◌∷◌, Text, if_elim,
  All,
}
use webshell.Scrollback.{Vt100}
use webshell.Shell.{Broadcast, TryRecv, ok, lagged, empty, closed}
use webshell.Shell.Screen.{redraw}
use webshell.Forward.{Message, text, binary, close_frame, failure, other}
use webshell.Viewer.{
  Clock, valid, Write, ClientControl, resize, Wake, expiry, revocation, audit, shutdown, stream_end,
  redraw_tick, output, client, elsewhere, Viewer, send_pending, resize_client, on_redraw, on_output,
  on_client, on_wake, step, run, is_leased,
}
use webshell.Viewer.Guard.{
  Later, valid-lasting, Silent, close-Silent, leave-Silent, same-Silent, send-Silent, Still, chain,
  same-Still, send_next-Silent, send_next-Still, send_pending-Silent,
}

module _ (vt : Vt100) (bc : Broadcast) (base64 : Text → Text)
    (parse : Text → Option ClientControl) where
  redraw-Silent :
      (c : Clock) (front : ℕ) (ws : List Write) (w : Write) (v : Viewer vt bc)
      → valid v.lease c ≡ false
      → Silent vt bc v (on_redraw vt bc base64 parse c front ws w v)
  unfolding on_redraw
  redraw-Silent c front ws w v e =
      let (after, rest, r) = redraw vt bc front v.shell v.output_rx in
      let drawn = record v { shell = after; output_rx = rest } in
      let all = send_pending vt bc c r.pending ws drawn in
      let s = send_pending-Silent vt bc c r.pending ws drawn e in
      let s' : Silent vt bc v all = record { lease = s.lease; sent = s.sent } in
      if_elim (Silent vt bc v) r.lagged _ _
        (λ _.
          if_elim (Silent vt bc v) all.live _ _
            (λ on.
              chain vt bc v all _ s' (λ _. close-Silent vt bc all) (λ off. absurd (cc (on, off))))
            (λ _. s'))
        (λ _.
          chain vt bc v all _ s'
            (λ on. send_next-Silent vt bc c w _ all (ap (λ l. valid l c) s'.lease ∙ e))
            (λ off. send_next-Still vt bc c w _ all off))

  output-Silent :
      (c : Clock) (w : Write) (got : TryRecv) (rx : bc.Receiver) (v : Viewer vt bc)
      → valid v.lease c ≡ false
      → Silent vt bc v (on_output vt bc base64 parse c w got rx v)
  unfolding on_output
  output-Silent c w (ok bytes) rx v e =
      let s = send-Silent vt bc c w (binary bytes) (record v { output_rx = rx }) e in
      record { lease = s.lease; sent = s.sent }
  output-Silent c w lagged rx v e = close-Silent vt bc v
  output-Silent c w closed rx v e = leave-Silent vt bc v
  output-Silent c w empty rx v e = same-Silent vt bc v

  resize_client-Silent :
      (control : Option ClientControl) (v : Viewer vt bc)
      → Silent vt bc v (resize_client vt bc control v)
  unfolding resize_client
  resize_client-Silent none v = same-Silent vt bc v
  resize_client-Silent (some (resize cols rows)) v = record { lease = refl; sent = inl refl }

  client-Silent :
      (msg : Message) (v : Viewer vt bc) → Silent vt bc v (on_client vt bc base64 parse msg v)
  unfolding on_client
  client-Silent (binary b) v =
      if_elim (Silent vt bc v) (not v.read_only) _ _ (λ _. record { lease = refl; sent = inl refl })
        (λ _. same-Silent vt bc v)
  client-Silent (text t) v =
      if_elim (Silent vt bc v) (not v.read_only) _ _ (λ _. resize_client-Silent (parse t) v)
        (λ _. same-Silent vt bc v)
  client-Silent close_frame v = leave-Silent vt bc v
  client-Silent failure v = leave-Silent vt bc v
  client-Silent other v = same-Silent vt bc v

  wake-Silent :
      (c : Clock) (w : Wake) (v : Viewer vt bc)
      → valid v.lease c ≡ false
      → Silent vt bc v (on_wake vt bc base64 parse c w v)
  unfolding on_wake
  wake-Silent c expiry v e = close-Silent vt bc v
  wake-Silent c revocation v e = close-Silent vt bc v
  wake-Silent c audit v e =
      if_elim (Silent vt bc v) (is_leased v.lease && not (valid v.lease c)) _ _
        (λ _. close-Silent vt bc v) (λ _. same-Silent vt bc v)
  wake-Silent c (redraw_tick front ws w) v e = redraw-Silent c front ws w v e
  wake-Silent c shutdown v e =
      if_elim (Silent vt bc v) v.shell.shutdown_tx _ _ (λ _. close-Silent vt bc v)
        (λ _. same-Silent vt bc v)
  wake-Silent c (output w) v e = output-Silent c w _ _ v e
  wake-Silent c (client msg) v e = client-Silent msg v
  wake-Silent c stream_end v e = leave-Silent vt bc v
  wake-Silent c (elsewhere t) v e = record { lease = refl; sent = inl refl }

  step-Silent :
      (c : Clock) (w : Wake) (v : Viewer vt bc)
      → valid v.lease c ≡ false
      → Silent vt bc v (step vt bc base64 parse c w v)
  unfolding step
  step-Silent c w v e =
      if_elim (Silent vt bc v) v.live _ _ (λ _. wake-Silent c w v e) (λ _. same-Silent vt bc v)

  run-Still :
      (turns : List (Clock × Wake)) (v : Viewer vt bc)
      → v.live ≡ false
      → Still vt bc v (run vt bc base64 parse turns v)
  unfolding run step
  run-Still [] v off = same-Still vt bc v off
  run-Still ((c, w) ∷ more) v off =
      if_elim (λ x. Still vt bc v (run vt bc base64 parse more x)) v.live _ _
        (λ on. absurd (cc (on, off))) (λ _. run-Still more v off)

  -- Once the lease of a viewer is no longer valid at some time, then from that time on, whatever wakes
  -- its bridge, in any order and for as long as it runs, nothing more is sent to the viewer than one
  -- close frame, after which the bridge has returned.
  pub run-Silent :
      (start : Clock) (turns : List (Clock × Wake)) (v : Viewer vt bc)
      → valid v.lease start ≡ false
      → All (λ t. Later start t.0) turns
      → Silent vt bc v (run vt bc base64 parse turns v)
  unfolding run
  run-Silent start [] v e later = same-Silent vt bc v
  run-Silent start ((c, w) ∷ more) v e later =
      let s = step-Silent c w v (valid-lasting v.lease start c later.0 e) in
      let next = step vt bc base64 parse c w v in
      chain vt bc v next _ s
        (λ on. run-Silent start more next (ap (λ l. valid l start) s.lease ∙ e) later.1)
        (λ off. run-Still more next off)
