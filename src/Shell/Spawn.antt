-- ===== src/Shell/Spawn.antt =====
-- How a shell starts, or fails to.
use webshell.Base.{
  ℕ, ◌^◌, ◌%◌, ◌<◌, ◌≡◌, ◌⊎◌, refl, inl, inr, List, [], ◌∷◌, Option, none, some, arith, Text, true,
  not, ◌==◌, Bool-cases, any_of, if_elim, ◌&&◌,
}
use webshell.HashMap.{HashMap}
use webshell.Command.{CommandBuilder, build_command}
use webshell.Scrollback.{Vt100}
use webshell.Scrollback
use webshell.Shell.{
  Broadcast, Shell, Os, killed, waited, Child, no_child, spawned, spawn_terminal, next_epoch,
  launch, start_child, fresh_terminal,
}
use webshell.Shell.Threads.{Turn, IsSound, turns, turns-IsSound}

-- An epoch is drawn as soon as a number comes up whose low 53 bits are not all zero, and then it is
-- positive and an exact integer of JavaScript.
pub next_epoch_lem :
    (draws : List ℕ)
    → (any_of (λ draw. not (draw % 2 ^ 53 == 0)) draws ≡ true)
    → (epoch : ℕ) × (next_epoch draws ≡ some epoch) × (0 < epoch) × (epoch < 2 ^ 53)
unfolding next_epoch
next_epoch_lem [] h = absurd (cc h)
next_epoch_lem (draw ∷ draws) h = elim (Bool-cases (draw % 2 ^ 53 == 0)) [
  | inl e ↦ rw e (next_epoch_lem draws (rw e at h))
  | inr e ↦ rw e (draw % 2 ^ 53, refl, ground arith, omega arith)
]

module _ (vt : Vt100) (bc : Broadcast) (cb : CommandBuilder) where
  -- A start that fails leaves no child, or one that was killed and waited for. The shell of one that
  -- succeeds is alive, at the size asked for, has its child running, and is sound from then on,
  -- whatever its clients and its two threads do.
  abbrev pub Outcome : ℕ → ℕ → Option (Shell vt bc) × Child → Type 0
  Outcome cols rows (none, child) = (child ≡ no_child) ⊎ (child ≡ spawned (killed ∷ waited ∷ []))
  Outcome cols rows (some t, child) =
      (child ≡ spawned [])
      × (t.alive ≡ true)
      × (t.size ≡ (cols, rows))
      × ((es : List Turn) → IsSound vt bc (turns vt bc es t))

  fresh_terminal-IsSound :
      (os : Os) (cols rows capacity : ℕ)
      → IsSound vt bc (fresh_terminal vt bc cb os cols rows capacity)
  unfolding fresh_terminal Scrollback.new
  fresh_terminal-IsSound os cols rows capacity = record {
    bounded = omega arith;
    unreaped = refl;
    ended = λ e. absurd (cc e);
    told = λ e. absurd (cc e);
    sized = (refl, refl);
  }

  start_child-Outcome :
      (os : Os) (cols rows capacity : ℕ)
      → Outcome cols rows (start_child vt bc cb os cols rows capacity)
  unfolding start_child fresh_terminal
  start_child-Outcome os cols rows capacity =
      if_elim (Outcome cols rows) (os.has_reader && os.has_writer) _ _
        (λ e. (
          refl,
          refl,
          refl,
          λ es.
              turns-IsSound vt bc es (fresh_terminal vt bc cb os cols rows capacity)
                (fresh_terminal-IsSound os cols rows capacity),
        ))
        (λ e. inr refl)

  launch-Outcome :
      (os : Os) (cols rows capacity : ℕ) (cmd : Option cb.Builder)
      → Outcome cols rows (launch vt bc cb os cols rows capacity cmd)
  unfolding launch
  launch-Outcome os cols rows capacity none = inl refl
  launch-Outcome os cols rows capacity (some cmd) =
      if_elim (Outcome cols rows) os.starts _ _ (λ e. start_child-Outcome os cols rows capacity)
        (λ e. inl refl)

  -- However far a start comes, it leaves no child behind that no terminal owns: there is none, or it
  -- has been killed and then waited for. A terminal that it returns is alive, at the size asked for,
  -- with its child untouched, and stays sound through any turns of its clients and its threads.
  pub spawn_terminal-Outcome :
      (os : Os) (login_cmd : List Text) (user owner owner_home : Text)
      (envs inherited : HashMap Text Text) (cols rows capacity : ℕ)
      → Outcome cols rows (
          spawn_terminal vt bc cb os login_cmd user owner owner_home envs inherited cols rows
            capacity)
  unfolding spawn_terminal
  spawn_terminal-Outcome os login_cmd user owner owner_home envs inherited cols rows capacity =
      if_elim (Outcome cols rows) os.opens _ _
        (λ e.
          launch-Outcome os cols rows capacity
            (build_command cb login_cmd user owner owner_home envs inherited))
        (λ e. inl refl)
