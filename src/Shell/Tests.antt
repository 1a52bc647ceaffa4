-- ===== src/Shell/Tests.antt =====
-- A shell on the sample channel, with two commands waiting.
use webshell.Base.{
  ◌≡◌, ◌++◌, ◌||◌, not, ltb, length, if◌then◌else◌, refl, true, false, some, [], ◌∷◌, arith,
  replicate, codes,
}
use webshell.Command.{build_command}
use webshell.Scrollback
use webshell.Samples.{tape, bus, builder, inherited}
use webshell.Shell.{
  PtyCmd, Shell, Os, killed, waited, spawned, output_capacity, input_capacity, stop, try_send,
  spawn_terminal,
}
use webshell.Shell.Spawn.{Outcome, spawn_terminal-Outcome}
use webshell.Shell.Threads.{IsSound, Turn, turn, turn-IsSound}
use webshell.Shell.Commands.{run_commands, stop-ends, try_send-written, typed}

abbrev good_os : Os
good_os = record { opens = true; starts = true; has_reader = true; has_writer = true; epoch = 7 }

abbrev no_writer : Os
no_writer = record good_os { has_writer = false }

abbrev busy : Shell tape bus
busy = record {
  input_tx = PtyCmd.input (codes "ls") ∷ PtyCmd.resize 100 30 ∷ [];
  receiving = true;
  output_tx = (output_capacity, []);
  scrollback = Scrollback.new tape 8 80 24;
  alive = true;
  size = (80, 24);
  shutdown_tx = false;
  killer = true;
  epoch = 7;
  hung_up = false;
  written = codes "cd ";
  grid = (80, 24);
}

busy-IsSound : IsSound tape bus busy
unfolding Scrollback.new
busy-IsSound = record {
  bounded = omega arith;
  unreaped = refl;
  ended = λ e. absurd (cc e);
  told = λ e. absurd (cc e);
  sized = (refl, refl);
}

-- A start whose writer is missing kills the child and waits for it.
test_no_writer :
    (spawn_terminal tape bus builder no_writer (codes "sh" ∷ []) [] [] [] [] inherited 80 24 8).1
    ≡ spawned (killed ∷ waited ∷ [])
unfolding spawn_terminal build_command
test_no_writer = refl

spawn_terminal-Outcome_example :
    Outcome tape bus builder 80 24
      (spawn_terminal tape bus builder good_os (codes "sh" ∷ []) [] [] [] [] inherited 80 24 8)
spawn_terminal-Outcome_example =
    spawn_terminal-Outcome tape bus builder good_os (codes "sh" ∷ []) [] [] [] [] inherited 80 24 8

turn-IsSound_example : IsSound tape bus (turn tape bus (Turn.commands false) busy)
turn-IsSound_example = turn-IsSound tape bus (Turn.commands false) busy busy-IsSound

stop-ends_example :
    ((stop busy).shutdown_tx ≡ true)
    × ((stop busy).hung_up ≡ true)
    × (if not busy.receiving || ltb (length busy.input_tx) input_capacity
        then (run_commands tape bus (replicate 128 true) (stop busy)).receiving ≡ false
        else (stop busy).input_tx ≡ busy.input_tx)
stop-ends_example = stop-ends tape bus busy (replicate 128 true) busy-IsSound refl

abbrev typing : Shell tape bus
typing = record busy { input_tx = busy.input_tx ++ PtyCmd.input (codes "\n") ∷ [] }

test_accepted : try_send (PtyCmd.input (codes "\n")) busy ≡ some typing
unfolding try_send
test_accepted = refl

try_send-written_example :
    ((run_commands tape bus (replicate 3 true) typing).input_tx ≡ [])
    × ((run_commands tape bus (replicate 3 true) typing).written ≡ codes "cd ls\n")
unfolding typed
try_send-written_example =
    try_send-written tape bus busy typing (codes "\n") (tt, (tt, tt)) test_accepted
