-- ===== src/Shell/Screen.antt =====
-- `ScreenHandle::redraw` of src/terminals.rs: the output that a client has not taken yet, and the
-- screen after it, under the lock by which the reader thread appends and broadcasts.
use webshell.Base.{
  ℕ, zero, suc, ◌+◌, ◌≤◌, ◌<◌, ◌≡◌, refl, ap, Bool, true, false, List, [], ◌∷◌, ◌++◌, arith, length,
  length-append, Text, append-nil, append_assoc, subst,
}
use webshell.Scrollback.{Vt100, screen_snapshot}
use webshell.Shell.{
  Broadcast, TryRecv, ok, lagged, empty, closed, Shell, output_capacity, read_output,
}

-- `Redraw`
pub record Redraw : Type 0 where
  pub pending : List Text
  pub lagged : Bool
  pub cols : ℕ
  pub rows : ℕ
  pub screen : Text

-- The documentation of `tokio::sync::broadcast`: a receiver gets every value sent after its
-- subscription, in order, as long as no more wait than the channel keeps. `Queued c r q` says that
-- `q` waits for the receiver `r`.
pub record IsBroadcast (bc : Broadcast) : Type 1 where
  pub capacity : bc.Channel → ℕ
  pub Queued : bc.Channel → bc.Receiver → List Text → Type 0
  pub capacity-channel : (n : ℕ) → capacity (bc.channel n) ≡ n
  pub capacity-send : (b : Text) (c : bc.Channel) → capacity (bc.send b c) ≡ capacity c
  pub subscribe-Queued : (c : bc.Channel) → Queued c (bc.subscribe c) []
  pub send-Queued :
      (c : bc.Channel) (r : bc.Receiver) (q : List Text) (b : Text)
      → Queued c r q
      → length q < capacity c
      → Queued (bc.send b c) r (q ++ b ∷ [])
  pub try_recv-nil :
      (c : bc.Channel) (r : bc.Receiver)
      → Queued c r []
      → ((bc.try_recv c r).0 ≡ empty) × Queued c (bc.try_recv c r).1 []
  pub try_recv-cons :
      (c : bc.Channel) (r : bc.Receiver) (b : Text) (q : List Text)
      → Queued c r (b ∷ q)
      → ((bc.try_recv c r).0 ≡ ok b) × Queued c (bc.try_recv c r).1 q

-- The fuel: no more values wait than the channel keeps, and the last turn finds none.
abbrev pub drain_fuel : ℕ
drain_fuel = suc output_capacity

module _ (bc : Broadcast) where
  -- What one `try_recv` of the loop leads to.
  drain_step :
      TryRecv → bc.Receiver → List Text × Bool × bc.Receiver → List Text × Bool × bc.Receiver
  drain_step (ok bytes) rx (pending, lag, rest) = (bytes ∷ pending, lag, rest)
  drain_step lagged rx more = ([], true, rx)
  drain_step empty rx more = ([], false, rx)
  drain_step closed rx more = ([], false, rx)

  -- The loop of `redraw`, on fuel.
  unfoldable pub drain : ℕ → bc.Channel → bc.Receiver → List Text × Bool × bc.Receiver
  unfolding drain_step
  drain zero c rx = ([], false, rx)
  drain (suc n) c rx = let (got, rest) = bc.try_recv c rx in drain_step got rest (drain n c rest)

module _ (vt : Vt100) (bc : Broadcast) where
  -- `redraw`; `front` is how many bytes of the ring its first slice holds.
  unfoldable pub redraw : ℕ → Shell vt bc → bc.Receiver → Shell vt bc × bc.Receiver × Redraw
  redraw front t rx =
      let (pending, lag, rest) = drain bc drain_fuel t.output_tx rx in
      let (sb, screen) = screen_snapshot vt front t.scrollback in
      (
        record t { scrollback = sb },
        rest,
        record {
          pending = pending;
          lagged = lag;
          cols = t.scrollback.size.0;
          rows = t.scrollback.size.1;
          screen = screen;
        },
      )

  -- The reader thread's loop over some chunks.
  unfoldable pub read_all : Shell vt bc → List Text → Shell vt bc
  read_all t [] = t
  read_all t (c ∷ cs) = read_all (read_output vt bc c t) cs

  module _ (laws : IsBroadcast bc) where
    open laws use {capacity, Queued, capacity-send, send-Queued, try_recv-nil, try_recv-cons}

    drain_lem :
        (n : ℕ) (c : bc.Channel) (rx : bc.Receiver) (q : List Text)
        → Queued c rx q
        → length q < n
        → ((drain bc n c rx).0 ≡ q)
          × ((drain bc n c rx).1 ≡ false)
          × Queued c (drain bc n c rx).2 []
    unfolding drain drain_step
    drain_lem zero c rx q h b = absurd (omega arith)
    drain_lem (suc n) c rx [] h b = let (e, after) = try_recv-nil c rx h in rw e (refl, refl, after)
    drain_lem (suc n) c rx (x ∷ q) h b =
        let (e, after) = try_recv-cons c rx x q h in
        let (all, lag, left) = drain_lem n c (bc.try_recv c rx).1 q after (omega arith) in
        rw e (ap (◌∷◌ x) all, lag, left)

    -- A redraw hands out everything that was broadcast and not yet taken, in order, and then shows the
    -- screen at the present size; the receiver is left with nothing to take, and so no byte of the
    -- screen is sent to the client again.
    pub redraw_lem :
        (front : ℕ) (t : Shell vt bc) (rx : bc.Receiver) (q : List Text)
        → Queued t.output_tx rx q
        → length q ≤ output_capacity
        → let (after, rest, r) = redraw front t rx in
          (r.pending ≡ q)
          × (r.lagged ≡ false)
          × ((r.cols, r.rows) ≡ t.scrollback.size)
          × (r.screen ≡ (screen_snapshot vt front t.scrollback).1)
          × (after ≡ record t { scrollback = (screen_snapshot vt front t.scrollback).0 })
          × Queued after.output_tx rest []
    unfolding redraw
    redraw_lem front t rx q h b =
        let (all, lag, left) = drain_lem drain_fuel t.output_tx rx q h (omega (arith, b)) in
        (all, lag, refl, refl, refl, left)

    -- The chunks that the shell prints wait for the client, as long as the channel keeps them.
    pub read_all-Queued :
        (chunks : List Text) (t : Shell vt bc) (rx : bc.Receiver) (q : List Text)
        → Queued t.output_tx rx q
        → length q + length chunks ≤ capacity t.output_tx
        → Queued (read_all t chunks).output_tx rx (q ++ chunks)
    unfolding read_all read_output
    read_all-Queued [] t rx q h b = rw append-nil h
    read_all-Queued (c ∷ cs) t rx q h b =
        subst (Queued (read_all t (c ∷ cs)).output_tx rx) (append_assoc q (c ∷ []) cs) (
          read_all-Queued cs (read_output vt bc c t) rx (q ++ c ∷ [])
            (send-Queued t.output_tx rx q c h (omega arith))
            (omega (arith, length-append q (c ∷ []), capacity-send c t.output_tx)))
