-- ===== src/Viewer/Inert.antt =====
-- What a viewer that may only read can change of the shell that it watches: the emulator's screen,
-- when a redraw rebuilds a stale one.
use webshell.Base.{
  ℕ, ◌≡◌, refl, ap, sym, ◌∙◌, true, false, not, ◌&&◌, Option, List, [], ◌∷◌, ◌++◌, Text, if_elim,
  All, subst, ◌⊎◌, inl, inr,
}
use webshell.Scrollback.{Vt100, Scrollback, screen_snapshot, refresh}
use webshell.Shell.{Broadcast, Shell, TryRecv, ok, lagged, empty, closed}
use webshell.Shell.Screen.{redraw}
use webshell.Forward.{Message, text, binary, close_frame, failure, other}
use webshell.Viewer.{
  Clock, valid, Write, written, broken, ended, ClientControl, Wake, expiry, revocation, audit,
  shutdown, stream_end, redraw_tick, output, client, elsewhere, Viewer, leave, close, after_write,
  send, send_next, send_pending, on_redraw, on_output, on_client, on_wake, step, run, is_leased,
}

-- A wake of the bridge itself.
abbrev pub Own : Wake → Type 0
Own (elsewhere t) = ⊥
Own _ = Unit

module _ (vt : Vt100) (bc : Broadcast) where
  -- Of the shell only the emulator's screen and its mark that it is stale may differ, and those only
  -- if the screen was stale.
  pub record Untouched (t u : Shell vt bc) : Type 0 where
    pub rest : u ≡ record t { scrollback = u.scrollback }
    pub ring :
        u.scrollback
        ≡ record t.scrollback { screen = u.scrollback.screen; stale = u.scrollback.stale }
    pub drawn : (t.scrollback.stale ≡ true) ⊎ (u.scrollback ≡ t.scrollback)

  pub record Watches (v w : Viewer vt bc) : Type 0 where
    pub untouched : Untouched v.shell w.shell
    pub still_reads : w.read_only ≡ v.read_only

  Watches-refl : (v : Viewer vt bc) → Watches v v
  Watches-refl v = record {
    untouched = record { rest = refl; ring = refl; drawn = inr refl };
    still_reads = refl;
  }

  drawn_trans :
      (x y z : Scrollback vt.Screen)
      → (x.stale ≡ true) ⊎ (y ≡ x)
      → (y.stale ≡ true) ⊎ (z ≡ y)
      → (x.stale ≡ true) ⊎ (z ≡ x)
  drawn_trans x y z (inl p) q = inl p
  drawn_trans x y z (inr p) (inl q) = inl (ap (λ s. s.stale) (sym p) ∙ q)
  drawn_trans x y z (inr p) (inr q) = inr (q ∙ p)

  Watches-trans : (a b c : Viewer vt bc) → Watches a b → Watches b c → Watches a c
  Watches-trans a b c p q = record {
    untouched = record {
      rest =
          q.untouched.rest
          ∙ ap (λ (t : Shell vt bc). record t { scrollback = c.shell.scrollback }) p.untouched.rest;
      ring =
          q.untouched.ring
          ∙ ap
              (λ (s : Scrollback vt.Screen). record s {
                screen = c.shell.scrollback.screen;
                stale = c.shell.scrollback.stale;
              })
              p.untouched.ring;
      drawn =
          drawn_trans a.shell.scrollback b.shell.scrollback c.shell.scrollback p.untouched.drawn
            q.untouched.drawn;
    };
    still_reads = q.still_reads ∙ p.still_reads;
  }

  -- The shell is the very same.
  same : (v w : Viewer vt bc) → w.shell ≡ v.shell → w.read_only ≡ v.read_only → Watches v w
  same v w e f = record {
    untouched =
        subst (Untouched v.shell) (sym e) (record { rest = refl; ring = refl; drawn = inr refl });
    still_reads = f;
  }

  leave-Watches : (v : Viewer vt bc) → Watches v (leave vt bc v)
  unfolding leave
  leave-Watches v = same v (record v { live = false }) refl refl

  after_write-Watches :
      (msg : Message) (w : Write) (v : Viewer vt bc) → Watches v (after_write vt bc msg w v)
  unfolding after_write leave
  after_write-Watches msg written v = same v (record v { sent = v.sent ++ msg ∷ [] }) refl refl
  after_write-Watches msg broken v = leave-Watches v
  after_write-Watches msg ended v = leave-Watches v

  close-Watches : (v : Viewer vt bc) → Watches v (close vt bc v)
  unfolding close leave
  close-Watches v = same v (record v { sent = v.sent ++ close_frame ∷ []; live = false }) refl refl

  send-Watches :
      (c : Clock) (w : Write) (msg : Message) (v : Viewer vt bc) → Watches v (send vt bc c w msg v)
  unfolding send
  send-Watches c w msg v =
      if_elim (Watches v) (valid v.lease c) _ _ (λ _. after_write-Watches msg w v)
        (λ _. close-Watches v)

  send_next-Watches :
      (c : Clock) (w : Write) (msg : Message) (v : Viewer vt bc)
      → Watches v (send_next vt bc c w msg v)
  unfolding send_next
  send_next-Watches c w msg v =
      if_elim (Watches v) v.live _ _ (λ _. send-Watches c w msg v) (λ _. Watches-refl v)

  send_pending-Watches :
      (c : Clock) (pending : List Text) (ws : List Write) (v : Viewer vt bc)
      → Watches v (send_pending vt bc c pending ws v)
  unfolding send_pending
  send_pending-Watches c [] ws v = Watches-refl v
  send_pending-Watches c (b ∷ more) [] v = leave-Watches v
  send_pending-Watches c (b ∷ more) (w ∷ ws) v =
      let next = send_next vt bc c w (binary b) v in
      Watches-trans v next _ (send_next-Watches c w (binary b) v)
        (send_pending-Watches c more ws next)

  -- The server's picture of the screen is brought up to date.
  redraw-Untouched :
      (front : ℕ) (t : Shell vt bc) (rx : bc.Receiver) → Untouched t (redraw vt bc front t rx).0
  unfolding redraw screen_snapshot refresh
  redraw-Untouched front t rx = record {
    rest = refl;
    ring =
        if_elim
          (λ (sb : Scrollback vt.Screen).
            sb ≡ record t.scrollback { screen = sb.screen; stale = sb.stale })
          t.scrollback.stale _ _ (λ _. refl) (λ _. refl);
    drawn =
        if_elim (λ (sb : Scrollback vt.Screen). (t.scrollback.stale ≡ true) ⊎ (sb ≡ t.scrollback))
          t.scrollback.stale _ _ (λ e. inl e) (λ _. inr refl);
  }

  module _ (base64 : Text → Text) (parse : Text → Option ClientControl) where
    on_redraw-Watches :
        (c : Clock) (front : ℕ) (ws : List Write) (w : Write) (v : Viewer vt bc)
        → Watches v (on_redraw vt bc base64 parse c front ws w v)
    unfolding on_redraw
    on_redraw-Watches c front ws w v =
        let (after, rest, r) = redraw vt bc front v.shell v.output_rx in
        let drawn = record v { shell = after; output_rx = rest } in
        let all = send_pending vt bc c r.pending ws drawn in
        let first : Watches v drawn = record {
          untouched = redraw-Untouched front v.shell v.output_rx;
          still_reads = refl;
        } in
        let sent = Watches-trans v drawn all first (send_pending-Watches c r.pending ws drawn) in
        if_elim (Watches v) r.lagged _ _
          (λ _.
            if_elim (Watches v) all.live _ _ (λ _. Watches-trans v all _ sent (close-Watches all))
              (λ _. sent))
          (λ _. Watches-trans v all _ sent (send_next-Watches c w _ all))

    on_output-Watches :
        (c : Clock) (w : Write) (got : TryRecv) (rx : bc.Receiver) (v : Viewer vt bc)
        → Watches v (on_output vt bc base64 parse c w got rx v)
    unfolding on_output
    on_output-Watches c w (ok bytes) rx v =
        Watches-trans v (record v { output_rx = rx }) _
          (same v (record v { output_rx = rx }) refl refl)
          (send-Watches c w (binary bytes) (record v { output_rx = rx }))
    on_output-Watches c w lagged rx v = close-Watches v
    on_output-Watches c w closed rx v = leave-Watches v
    on_output-Watches c w empty rx v = Watches-refl v

    on_client-Watches :
        (msg : Message) (v : Viewer vt bc)
        → v.read_only ≡ true
        → Watches v (on_client vt bc base64 parse msg v)
    unfolding on_client
    on_client-Watches (binary b) v ro =
        if_elim (Watches v) (not v.read_only) _ _ (λ e. absurd (cc (rw ro at e)))
          (λ _. Watches-refl v)
    on_client-Watches (text t) v ro =
        if_elim (Watches v) (not v.read_only) _ _ (λ e. absurd (cc (rw ro at e)))
          (λ _. Watches-refl v)
    on_client-Watches close_frame v ro = leave-Watches v
    on_client-Watches failure v ro = leave-Watches v
    on_client-Watches other v ro = Watches-refl v

    on_wake-Watches :
        (c : Clock) (w : Wake) (v : Viewer vt bc)
        → Own w
        → v.read_only ≡ true
        → Watches v (on_wake vt bc base64 parse c w v)
    unfolding on_wake
    on_wake-Watches c expiry v own ro = close-Watches v
    on_wake-Watches c revocation v own ro = close-Watches v
    on_wake-Watches c audit v own ro =
        if_elim (Watches v) (is_leased v.lease && not (valid v.lease c)) _ _ (λ _. close-Watches v)
          (λ _. Watches-refl v)
    on_wake-Watches c (redraw_tick front ws w) v own ro = on_redraw-Watches c front ws w v
    on_wake-Watches c shutdown v own ro =
        if_elim (Watches v) v.shell.shutdown_tx _ _ (λ _. close-Watches v) (λ _. Watches-refl v)
    on_wake-Watches c (output w) v own ro = on_output-Watches c w _ _ v
    on_wake-Watches c (client msg) v own ro = on_client-Watches msg v ro
    on_wake-Watches c stream_end v own ro = leave-Watches v
    on_wake-Watches c (elsewhere t) v own ro = absurd own

    -- Whatever a viewer sends over a read-only bridge, in any order among the bridge's other events,
    -- nothing is queued for the shell, and its input, sizes, marks and the whole ring stay as they
    -- are, but for the emulator's screen and its stale mark, and those only if the screen was stale.
    pub run-Watches :
        (turns : List (Clock × Wake)) (v : Viewer vt bc)
        → v.read_only ≡ true
        → All (λ t. Own t.1) turns
        → Watches v (run vt bc base64 parse turns v)
    unfolding run step
    run-Watches [] v ro own = Watches-refl v
    run-Watches ((c, w) ∷ more) v ro own =
        if_elim (λ x. Watches v (run vt bc base64 parse more x)) v.live _ _
          (λ _.
            let k = on_wake-Watches c w v own.0 ro in
            Watches-trans v _ _ k (run-Watches more _ (k.still_reads ∙ ro) own.1))
          (λ _. run-Watches more v ro own.1)
