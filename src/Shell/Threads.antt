-- ===== src/Shell/Threads.antt =====
-- The two threads of a shell and the calls that its clients make on it, in any order.
use webshell.Base.{
  ℕ, ◌≤◌, ◌≡◌, refl, ap, Bool, true, false, ◌&&◌, List, [], ◌∷◌, ◌++◌, arith, if◌then◌else◌, ltb,
  length, length-append, Text, if_elim,
}
use webshell.Scrollback.{Vt100, Scrollback}
use webshell.Scrollback
use webshell.Shell.{
  PtyCmd, input, resize, kill, Broadcast, Shell, input_capacity, try_send, offer, stop,
  finish_output, run_command, read_output, or_same, take_command, unwind,
}

-- What can happen to a shell: a client offers a command or stops it, the command thread takes its
-- next one, the reader thread reads a chunk or the end of the output.
pub data Turn : Type 0 where
  offers : PtyCmd → Turn
  stops : Turn
  commands : Bool → Turn
  reads : Text → Turn
  exits : Turn

module _ (vt : Vt100) (bc : Broadcast) where
  unfoldable pub turn : Turn → Shell vt bc → Shell vt bc
  turn (offers cmd) t = offer cmd t
  turn stops t = stop t
  turn (commands write_ok) t = run_command write_ok t
  turn (reads chunk) t = read_output vt bc chunk t
  turn exits t = finish_output t

  -- What holds of a shell at any time. The child is signalled only before it is reaped; who waits
  -- for the shell's end is told of it; the server's screen has the size of the PTY.
  pub record IsSound (t : Shell vt bc) : Type 0 where
    pub bounded : length t.input_tx ≤ input_capacity
    pub unreaped : t.killer ≡ t.receiving
    pub ended : t.receiving ≡ false → (t.hung_up ≡ true) × (t.input_tx ≡ [])
    pub told : t.alive ≡ false → t.shutdown_tx ≡ true
    pub sized : (t.grid ≡ t.size) × (t.scrollback.size ≡ t.size)

  -- What holds if the queue takes the command, and if it does not, holds of the offer.
  pub offer_elim {κ} :
      (P : Shell vt bc → Type κ) (cmd : PtyCmd) (t : Shell vt bc)
      → (t.receiving && ltb (length t.input_tx) input_capacity ≡ true
          → P (record t { input_tx = t.input_tx ++ cmd ∷ [] }))
      → (t.receiving && ltb (length t.input_tx) input_capacity ≡ false → P t)
      → P (offer cmd t)
  unfolding offer try_send or_same
  offer_elim P cmd t taken refused =
      if_elim (λ o. P (or_same t o)) (t.receiving && ltb (length t.input_tx) input_capacity) _ _
        taken refused

  offer-IsSound : (cmd : PtyCmd) (t : Shell vt bc) → IsSound t → IsSound (offer cmd t)
  offer-IsSound cmd t s =
      offer_elim IsSound cmd t
        (λ e. record {
          bounded = ground (arith, length-append t.input_tx (cmd ∷ []));
          unreaped = s.unreaped;
          ended = λ r. absurd (cc (rw r at e));
          told = s.told;
          sized = s.sized;
        })
        (λ e. s)

  resize-size :
      (sb : Scrollback vt.Screen) (cols rows : ℕ)
      → (Scrollback.resize sb cols rows).size ≡ (cols, rows)
  unfolding Scrollback.resize
  resize-size sb cols rows = ground arith

  unwind-IsSound : (t : Shell vt bc) → IsSound t → IsSound (unwind t)
  unfolding unwind
  unwind-IsSound t s = record {
    bounded = omega arith;
    unreaped = refl;
    ended = λ r. (refl, refl);
    told = s.told;
    sized = s.sized;
  }

  take_command-IsSound :
      (write_ok : Bool) (t : Shell vt bc) (queue : List PtyCmd)
      → IsSound t
      → t.input_tx ≡ queue
      → t.receiving ≡ true
      → IsSound (take_command write_ok t queue)
  unfolding take_command
  take_command-IsSound write_ok t [] s e r = s
  take_command-IsSound false t (input b ∷ rest) s e r = unwind-IsSound t s
  take_command-IsSound true t (input b ∷ rest) s e r = record {
    bounded = omega (arith, s.bounded, ap length e);
    unreaped = s.unreaped;
    ended = λ q. absurd (cc (q, r));
    told = s.told;
    sized = s.sized;
  }
  take_command-IsSound write_ok t (resize cols rows ∷ rest) s e r = record {
    bounded = omega (arith, s.bounded, ap length e);
    unreaped = s.unreaped;
    ended = λ q. absurd (cc (q, r));
    told = s.told;
    sized = (refl, resize-size t.scrollback cols rows);
  }
  take_command-IsSound write_ok t (kill ∷ rest) s e r = unwind-IsSound t s

  read_output-IsSound :
      (chunk : Text) (t : Shell vt bc) → IsSound t → IsSound (read_output vt bc chunk t)
  unfolding read_output Scrollback.push
  read_output-IsSound chunk t s = record {
    bounded = s.bounded;
    unreaped = s.unreaped;
    ended = s.ended;
    told = s.told;
    sized = s.sized;
  }

  -- A stopped shell that is not reaped yet has been signalled.
  stopped : Shell vt bc → Shell vt bc
  stopped t = record t { shutdown_tx = true; hung_up = if t.killer then true else t.hung_up }

  stopped-IsSound : (t : Shell vt bc) → IsSound t → IsSound (stopped t)
  unfolding stopped
  stopped-IsSound t s = record {
    bounded = s.bounded;
    unreaped = s.unreaped;
    ended = λ r. (ground (arith, s.ended r), (s.ended r).1);
    told = λ a. refl;
    sized = s.sized;
  }

  pub stop-IsSound : (t : Shell vt bc) → IsSound t → IsSound (stop t)
  unfolding stop stopped
  stop-IsSound t s = offer-IsSound kill (stopped t) (stopped-IsSound t s)

  -- Every turn keeps a shell sound, in whatever order the threads and the clients take theirs.
  pub turn-IsSound : (e : Turn) (t : Shell vt bc) → IsSound t → IsSound (turn e t)
  unfolding turn run_command finish_output
  turn-IsSound (offers cmd) t s = offer-IsSound cmd t s
  turn-IsSound stops t s = stop-IsSound t s
  turn-IsSound (commands write_ok) t s =
      if_elim IsSound t.receiving _ _ (take_command-IsSound write_ok t t.input_tx s refl) (λ r. s)
  turn-IsSound (reads chunk) t s = read_output-IsSound chunk t s
  turn-IsSound exits t s =
      offer-IsSound kill (record t { alive = false; shutdown_tx = true })
        (record {
          bounded = s.bounded;
          unreaped = s.unreaped;
          ended = s.ended;
          told = λ a. refl;
          sized = s.sized;
        })

  -- Some turns, in this order.
  unfoldable pub turns : List Turn → Shell vt bc → Shell vt bc
  turns [] t = t
  turns (e ∷ es) t = turns es (turn e t)

  pub turns-IsSound : (es : List Turn) (t : Shell vt bc) → IsSound t → IsSound (turns es t)
  unfolding turns
  turns-IsSound [] t s = s
  turns-IsSound (e ∷ es) t s = turns-IsSound es (turn e t) (turn-IsSound e t s)
