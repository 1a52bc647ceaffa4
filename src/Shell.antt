-- ===== src/Shell.antt =====
-- One running shell of src/terminals.rs: `Terminal`, the two threads that serve it, and its start.
-- The channels of tokio, the PTY and the emulator are parameters. The standard library's bounded
-- queue is the list of what waits in it; of a watch channel only the last value counts.
pub mod Spawn
pub mod Threads
pub mod Commands
pub mod Screen
mod Tests
use webshell.Base.{
  ℕ, suc, ◌^◌, ◌%◌, ◌≡◌, Bool, true, false, not, ◌&&◌, Option, none, some, List, [], ◌∷◌, ◌++◌, ltb,
  ◌==◌, if◌then◌else◌, length, Text,
}
use webshell.HashMap.{HashMap}
use webshell.Command.{CommandBuilder, build_command}
use webshell.Scrollback
use webshell.Scrollback.{Vt100, Scrollback}

-- `PtyCmd`
pub data PtyCmd : Type 0 where
  input : Text → PtyCmd
  resize : ℕ → ℕ → PtyCmd
  kill : PtyCmd

-- What a receiver finds.
pub data TryRecv : Type 0 where
  ok : Text → TryRecv
  lagged empty closed : TryRecv

-- What the program uses of `tokio::sync::broadcast`.
pub record Broadcast : Type 1 where
  pub Channel : Type 0
  pub Receiver : Type 0
  pub channel : ℕ → Channel
  pub send : Text → Channel → Channel
  pub subscribe : Channel → Receiver
  pub try_recv : Channel → Receiver → TryRecv × Receiver

-- `Terminal`. `input_tx` is what waits in its queue, and `receiving` whether the command thread
-- still takes from it; `killer` is whether the child can still be signalled. `hung_up`, `written`
-- and `grid` are what has happened to the child and its PTY: a hangup, the input, and the size.
pub record Terminal (Screen Channel : Type 0) : Type 0 where
  pub input_tx : List PtyCmd
  pub receiving : Bool
  pub output_tx : Channel
  pub scrollback : Scrollback Screen
  pub alive : Bool
  pub size : ℕ × ℕ
  pub shutdown_tx : Bool
  pub killer : Bool
  pub epoch : ℕ
  pub hung_up : Bool
  pub written : Text
  pub grid : ℕ × ℕ

-- `sync_channel(128)` and `broadcast::channel(64)`
abbrev pub input_capacity : ℕ
input_capacity = 128

abbrev pub output_capacity : ℕ
output_capacity = 64

-- The loop of `next_epoch` over the numbers that it draws.
unfoldable pub next_epoch : List ℕ → Option ℕ
next_epoch [] = none
next_epoch (draw ∷ draws) =
    let epoch = draw % 2 ^ 53 in
    let rest = next_epoch draws in if not (epoch == 0) then some epoch else rest

-- What the system answers while a shell is started, and the number that `next_epoch` returns.
pub record Os : Type 0 where
  pub opens : Bool
  pub starts : Bool
  pub has_reader : Bool
  pub has_writer : Bool
  pub epoch : ℕ

-- `child.kill()` and `child.wait()`, whose results a start ignores.
pub data ChildCall : Type 0 where
  killed waited : ChildCall

-- The child process of a start, with the calls made on it, the first in front.
pub data Child : Type 0 where
  no_child : Child
  spawned : List ChildCall → Child

module _ {S C : Type 0} where
  -- `input_tx.try_send(cmd)`: none if the queue is full or its receiver is gone.
  unfoldable pub try_send : PtyCmd → Terminal S C → Option (Terminal S C)
  try_send cmd t =
      if t.receiving && ltb (length t.input_tx) input_capacity
      then some (record t { input_tx = t.input_tx ++ cmd ∷ [] })
      else none

  or_same : Terminal S C → Option (Terminal S C) → Terminal S C
  or_same t none = t
  or_same t (some sent) = sent

  -- `let _ = input_tx.try_send(cmd)`
  unfoldable pub offer : PtyCmd → Terminal S C → Terminal S C
  unfolding or_same
  offer cmd t = or_same t (try_send cmd t)

  -- `stop`
  unfoldable pub stop : Terminal S C → Terminal S C
  stop t =
      offer PtyCmd.kill
        (record t { shutdown_tx = true; hung_up = if t.killer then true else t.hung_up })

  -- The end of the reader thread, when the shell has exited.
  unfoldable pub finish_output : Terminal S C → Terminal S C
  finish_output t = offer PtyCmd.kill (record t { alive = false; shutdown_tx = true })

  -- The end of the command thread: the killer is retired before the child is reaped.
  unwind : Terminal S C → Terminal S C
  unwind t = record t { receiving = false; input_tx = []; killer = false; hung_up = true }

  take_command : Bool → Terminal S C → List PtyCmd → Terminal S C
  unfolding unwind
  take_command write_ok t [] = t
  take_command write_ok t (PtyCmd.input b ∷ rest) =
      if write_ok then record t { input_tx = rest; written = t.written ++ b } else unwind t
  take_command write_ok t (PtyCmd.resize cols rows ∷ rest) = record t {
    input_tx = rest;
    size = (cols, rows);
    scrollback = Scrollback.resize t.scrollback cols rows;
    grid = (cols, rows);
  }
  take_command write_ok t (PtyCmd.kill ∷ rest) = unwind t

  -- One turn of the command thread; `write_ok` says whether the PTY takes the input.
  unfoldable pub run_command : Bool → Terminal S C → Terminal S C
  unfolding take_command
  run_command write_ok t = if t.receiving then take_command write_ok t t.input_tx else t

module _ (vt : Vt100) (bc : Broadcast) where
  abbrev pub Shell : Type 0
  Shell = Terminal vt.Screen bc.Channel

  -- One turn of the reader thread: append and broadcast under one lock.
  unfoldable pub read_output : Text → Shell → Shell
  read_output chunk t = record t {
    scrollback = Scrollback.push vt t.scrollback chunk;
    output_tx = bc.send chunk t.output_tx;
  }

  module _ (cb : CommandBuilder) where
    fresh_terminal : Os → ℕ → ℕ → ℕ → Shell
    fresh_terminal os cols rows cap = record {
      input_tx = [];
      receiving = true;
      output_tx = bc.channel output_capacity;
      scrollback = Scrollback.new vt cap cols rows;
      alive = true;
      size = (cols, rows);
      shutdown_tx = false;
      killer = true;
      epoch = os.epoch;
      hung_up = false;
      written = [];
      grid = (cols, rows);
    }

    -- The child runs: its PTY handles decide.
    start_child : Os → ℕ → ℕ → ℕ → Option Shell × Child
    unfolding fresh_terminal
    start_child os cols rows cap =
        if os.has_reader && os.has_writer
        then (some (fresh_terminal os cols rows cap), spawned [])
        else (none, spawned (killed ∷ waited ∷ []))

    launch : Os → ℕ → ℕ → ℕ → Option cb.Builder → Option Shell × Child
    unfolding start_child
    launch os cols rows cap none = (none, no_child)
    launch os cols rows cap (some cmd) =
        if os.starts then start_child os cols rows cap else (none, no_child)

    -- `spawn_terminal`
    unfoldable pub spawn_terminal :
        Os
        → List Text
        → Text
        → Text
        → Text
        → HashMap Text Text
        → HashMap Text Text
        → ℕ
        → ℕ
        → ℕ
        → Option Shell × Child
    unfolding launch
    spawn_terminal os login_cmd user owner owner_home envs inherited cols rows cap =
        if os.opens
        then launch os cols rows cap
            (build_command cb login_cmd user owner owner_home envs inherited)
        else (none, no_child)
