-- ===== src/Shell/Commands.antt =====
-- The command thread: what it writes to the PTY, and when it ends.
use webshell.Base.{
  ℕ, zero, suc, ◌≤◌, ◌<◌, ◌≡◌, ◌⊎◌, refl, ap, sym, ◌∙◌, inl, inr, Bool, true, false, not, ◌&&◌,
  ◌||◌, Bool-cases, List, [], ◌∷◌, ◌++◌, arith, if◌then◌else◌, ltb, length, Text, append_assoc,
  append-nil, replicate, if_elim, All, subst, some, some_inj,
}
use webshell.Scrollback.{Vt100}
use webshell.Shell.{
  PtyCmd, input, resize, kill, Broadcast, Shell, input_capacity, try_send, stop, run_command,
  take_command, unwind,
}
use webshell.Shell.Threads.{IsSound, offer_elim}

-- A kill waits in the queue before its place `n`.
abbrev KillWithin : ℕ → List PtyCmd → Type 0
KillWithin zero q = ⊥
KillWithin (suc n) [] = ⊥
KillWithin (suc n) (kill ∷ q) = Unit
KillWithin (suc n) (input b ∷ q) = KillWithin n q
KillWithin (suc n) (resize cols rows ∷ q) = KillWithin n q

KillWithin-append : (q : List PtyCmd) (n : ℕ) → length q < n → KillWithin n (q ++ kill ∷ [])
KillWithin-append q zero h = absurd (omega arith)
KillWithin-append [] (suc n) h = tt
KillWithin-append (kill ∷ q) (suc n) h = tt
KillWithin-append (input b ∷ q) (suc n) h = KillWithin-append q n (omega arith)
KillWithin-append (resize cols rows ∷ q) (suc n) h = KillWithin-append q n (omega arith)

-- The input in a queue, up to the first kill.
unfoldable pub typed : List PtyCmd → Text
typed [] = []
typed (input b ∷ q) = b ++ typed q
typed (resize cols rows ∷ q) = typed q
typed (kill ∷ q) = []

abbrev pub NotKill : PtyCmd → Type 0
NotKill kill = ⊥
NotKill (input b) = Unit
NotKill (resize cols rows) = Unit

empty-of_length : (q : List PtyCmd) → length q ≤ 0 → q ≡ []
empty-of_length [] h = refl
empty-of_length (c ∷ q) h = absurd (omega arith)

module _ (vt : Vt100) (bc : Broadcast) where
  -- Some turns of the command thread, with what the PTY says to each write.
  unfoldable pub run_commands : List Bool → Shell vt bc → Shell vt bc
  run_commands [] t = t
  run_commands (ok ∷ oks) t = run_commands oks (run_command ok t)

  done-stays :
      (oks : List Bool) (t : Shell vt bc)
      → t.receiving ≡ false
      → (run_commands oks t).receiving ≡ false
  unfolding run_commands run_command
  done-stays [] t r = r
  done-stays (ok ∷ oks) t r =
      if_elim (λ x. (run_commands oks x).receiving ≡ false) t.receiving _ _
        (λ q. absurd (cc (q, r))) (λ q. done-stays oks t r)

  take_kill :
      (ok : Bool) (n : ℕ) (t : Shell vt bc) (q : List PtyCmd)
      → KillWithin (suc n) q
      → ((take_command ok t q).receiving ≡ false) ⊎ KillWithin n (take_command ok t q).input_tx
  unfolding take_command unwind
  take_kill ok n t [] k = absurd k
  take_kill ok n t (kill ∷ q) k = inl refl
  take_kill false n t (input b ∷ q) k = inl refl
  take_kill true n t (input b ∷ q) k = inr k
  take_kill ok n t (resize cols rows ∷ q) k = inr k

  kill-ends :
      (oks : List Bool) (t : Shell vt bc)
      → KillWithin (length oks) t.input_tx
      → (run_commands oks t).receiving ≡ false
  unfolding run_commands run_command
  kill-ends [] t k = absurd k
  kill-ends (ok ∷ oks) t k =
      if_elim (λ x. (run_commands oks x).receiving ≡ false) t.receiving _ _
        (λ r. elim (take_kill ok (length oks) t t.input_tx k) [
          | inl done ↦ done-stays oks (take_command ok t t.input_tx) done
          | inr later ↦ kill-ends oks (take_command ok t t.input_tx) later
        ])
        (λ r. done-stays oks t r)

  -- Stopping a sound shell tells its clients and signals its child, whether or not its queue takes
  -- the kill. If the queue has room, or its thread has ended already, the command thread has ended
  -- after as many turns as the queue is long at most, whatever the PTY says to the writes; if it is
  -- full, what waits in it stays as it is.
  pub stop-ends :
      (t : Shell vt bc) (oks : List Bool)
      → IsSound vt bc t
      → length oks ≡ input_capacity
      → ((stop t).shutdown_tx ≡ true)
        × ((stop t).hung_up ≡ true)
        × (if not t.receiving || ltb (length t.input_tx) input_capacity
            then (run_commands oks (stop t)).receiving ≡ false
            else (stop t).input_tx ≡ t.input_tx)
  unfolding stop
  stop-ends t oks s n =
      let marked = record t {
        shutdown_tx = true;
        hung_up = if t.killer then true else t.hung_up;
      } in
      let signalled : marked.hung_up ≡ true =
        if_elim (λ b. b ≡ true) t.killer true t.hung_up (λ k. refl)
          (λ k. (s.ended (sym s.unreaped ∙ k)).0) in
      offer_elim vt bc
        (λ u.
          (u.shutdown_tx ≡ true)
          × (u.hung_up ≡ true)
          × (if not t.receiving || ltb (length t.input_tx) input_capacity
              then (run_commands oks u).receiving ≡ false
              else u.input_tx ≡ t.input_tx))
        kill marked
        (λ e.
          let taken : (not t.receiving || ltb (length t.input_tx) input_capacity) ≡ true =
            ground arith in
          (
            refl,
            signalled,
            rw taken (
                kill-ends oks (record marked { input_tx = t.input_tx ++ kill ∷ [] })
                  (subst (λ k. KillWithin k (t.input_tx ++ kill ∷ [])) (sym n)
                    (KillWithin-append t.input_tx input_capacity (ground arith)))),
          ))
        (λ e. (
          refl,
          signalled,
          elim (Bool-cases t.receiving) [
            | inl going ↦
                let full : (not t.receiving || ltb (length t.input_tx) input_capacity) ≡ false =
                  ground arith in
                rw full refl
            | inr ended ↦
                let over : (not t.receiving || ltb (length t.input_tx) input_capacity) ≡ true =
                  ground arith in
                rw over (done-stays oks marked ended)
          ],
        ))

  take_command-order :
      (t : Shell vt bc) (q : List PtyCmd)
      → t.input_tx ≡ q
      → (take_command true t q).written ++ typed (take_command true t q).input_tx
        ≡ t.written ++ typed q
  unfolding take_command unwind typed
  take_command-order t [] e = rw e refl
  take_command-order t (input b ∷ q) e = append_assoc t.written b (typed q)
  take_command-order t (resize cols rows ∷ q) e = refl
  take_command-order t (kill ∷ q) e = refl

  -- What is written and what still waits is always the same, while the PTY takes the writes.
  run_commands-typed :
      (n : ℕ) (t : Shell vt bc)
      → (run_commands (replicate n true) t).written
          ++ typed (run_commands (replicate n true) t).input_tx
        ≡ t.written ++ typed t.input_tx
  unfolding run_commands run_command
  run_commands-typed zero t = refl
  run_commands-typed (suc n) t =
      run_commands-typed n (run_command true t)
      ∙ if_elim (λ (u : Shell vt bc). u.written ++ typed u.input_tx ≡ t.written ++ typed t.input_tx)
          t.receiving _ _ (λ r. take_command-order t t.input_tx refl) (λ r. refl)

  take_command-shorter :
      (n : ℕ) (t : Shell vt bc) (q : List PtyCmd)
      → t.input_tx ≡ q
      → length q ≤ suc n
      → length (take_command true t q).input_tx ≤ n
  unfolding take_command unwind
  take_command-shorter n t [] e h = rw e (omega arith)
  take_command-shorter n t (input b ∷ q) e h = omega arith
  take_command-shorter n t (resize cols rows ∷ q) e h = omega arith
  take_command-shorter n t (kill ∷ q) e h = omega arith

  -- A thread that has ended has emptied its queue.
  abbrev Ended : Shell vt bc → Type 0
  Ended t = t.receiving ≡ false → t.input_tx ≡ []

  take_command-Ended :
      (t : Shell vt bc) (q : List PtyCmd) → t.receiving ≡ true → Ended (take_command true t q)
  unfolding take_command unwind
  take_command-Ended t [] r = λ f. absurd (cc (r, f))
  take_command-Ended t (input b ∷ q) r = λ f. absurd (cc (r, f))
  take_command-Ended t (resize cols rows ∷ q) r = λ f. absurd (cc (r, f))
  take_command-Ended t (kill ∷ q) r = λ f. refl

  drained :
      (n : ℕ) (t : Shell vt bc)
      → Ended t
      → length t.input_tx ≤ n
      → (run_commands (replicate n true) t).input_tx ≡ []
  unfolding run_commands run_command
  drained zero t e h = empty-of_length t.input_tx (omega arith)
  drained (suc n) t e h =
      if_elim (λ u. (run_commands (replicate n true) u).input_tx ≡ []) t.receiving _ _
        (λ r.
          drained n (take_command true t t.input_tx) (take_command-Ended t t.input_tx r)
            (take_command-shorter n t t.input_tx refl h))
        (λ r. drained n t e (rw (e r) (omega arith)))

  typed-append :
      (q : List PtyCmd) (b : Text) → All NotKill q → typed (q ++ input b ∷ []) ≡ typed q ++ b
  unfolding typed
  typed-append [] b h = append-nil b
  typed-append (kill ∷ q) b h = absurd h.0
  typed-append (input c ∷ q) b h =
      ap (◌++◌ c) (typed-append q b h.1) ∙ sym (append_assoc c (typed q) b)
  typed-append (resize cols rows ∷ q) b h = typed-append q b h.1

  try_send-some :
      (t u : Shell vt bc) (bytes : Text)
      → try_send (input bytes) t ≡ some u
      → (u.written ≡ t.written)
        × (u.input_tx ≡ t.input_tx ++ input bytes ∷ [])
        × (u.receiving ≡ true)
  unfolding try_send
  try_send-some t u bytes e =
      if_elim
        (λ o.
          o ≡ some u
          → (u.written ≡ t.written)
            × (u.input_tx ≡ t.input_tx ++ input bytes ∷ [])
            × (u.receiving ≡ true))
        (t.receiving && ltb (length t.input_tx) input_capacity) _ _
        (λ c q.
          let same = some_inj q in
          (
            sym (ap (λ (x : Shell vt bc). x.written) same),
            sym (ap (λ (x : Shell vt bc). x.input_tx) same),
            sym (ap (λ (x : Shell vt bc). x.receiving) same) ∙ ground arith,
          ))
        (λ c q. absurd (cc q)) e

  -- Input that the queue accepts reaches the PTY: while its writes succeed and no kill waits before
  -- it, as many turns of the command thread as commands wait write all the input accepted before it,
  -- in order, and then these bytes, and nothing is left in the queue.
  pub try_send-written :
      (t u : Shell vt bc) (bytes : Text)
      → All NotKill t.input_tx
      → try_send (input bytes) t ≡ some u
      → let after = run_commands (replicate (length u.input_tx) true) u in
        (after.input_tx ≡ []) × (after.written ≡ t.written ++ (typed t.input_tx ++ bytes))
  unfolding typed
  try_send-written t u bytes live e =
      let after = run_commands (replicate (length u.input_tx) true) u in
      let parts = try_send-some t u bytes e in
      let none_left : after.input_tx ≡ [] =
        drained (length u.input_tx) u (λ f. absurd (cc (f, parts.2))) (omega arith) in
      (
        none_left,
        sym (append-nil after.written)
            ∙ ap (λ q. after.written ++ typed q) (sym none_left)
            ∙ run_commands-typed (length u.input_tx) u
            ∙ rw (parts.0, parts.1, typed-append t.input_tx bytes live) refl,
      )
