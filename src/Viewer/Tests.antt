-- ===== src/Viewer/Tests.antt =====
-- A viewer of a shell, before and after its lease ends.
use webshell.Base.{ℕ, ◌≡◌, refl, true, false, some, Option, List, [], ◌∷◌, arith, Text, codes, ◌≤◌}
use webshell.Samples.{tape, bus}
use webshell.Scrollback
use webshell.Shell.{Shell, output_capacity}
use webshell.Shell.Threads.{Turn}
use webshell.Forward.{text, binary}
use webshell.Share.{Lease}
use webshell.Viewer.{
  Clock, valid, lease_valid, expired, ClientControl, Wake, output, client, redraw_tick, elsewhere,
  written, Viewer, run,
}
use webshell.Viewer.Guard.{Later, Silent}
use webshell.Viewer.Watching.{run-Silent}
use webshell.Viewer.Inert.{Watches, run-Watches}

abbrev watched : Shell tape bus
watched = record {
  input_tx = [];
  receiving = true;
  output_tx = (output_capacity, codes "abc" ∷ []);
  scrollback = Scrollback.new tape 4 80 24;
  alive = true;
  size = (80, 24);
  shutdown_tx = false;
  killer = true;
  epoch = 9;
  hung_up = false;
  written = [];
  grid = (80, 24);
}

abbrev lease : Lease
lease = record { username = codes "ann"; index = 0; expires_at = 10; channel = 0 }

abbrev viewer : Viewer tape bus
viewer = record {
  shell = watched;
  output_rx = 0;
  lease = some lease;
  read_only = true;
  sent = [];
  live = true;
}

abbrev clock : ℕ → Clock
clock now = record { now = now; revoked = false; sender_there = true }

abbrev parse : Text → Option ClientControl
parse t = some (ClientControl.resize 10 10)

-- The lease ends with its ten thousandth millisecond.
test_ends : valid (some lease) (clock 10000) ≡ false
unfolding valid lease_valid expired
test_ends = refl

abbrev late : List (Clock × Wake)
late =
    (clock 10001, client (binary (codes "rm")))
    ∷ (clock 10002, output written)
    ∷ (clock 10003, redraw_tick 0 (written ∷ []) written)
    ∷ (clock 10004, elsewhere Turn.stops)
    ∷ []

later : (now : ℕ) → 10000 ≤ now → Later (clock 10000) (clock now)
later now h = record { later = h; revoked_stays = λ e. e }

run-Silent_example : Silent tape bus viewer (run tape bus (λ s. s) parse late viewer)
run-Silent_example =
    run-Silent tape bus (λ s. s) parse (clock 10000) late viewer test_ends
      (
        later 10001 (omega arith),
        (later 10002 (omega arith), (later 10003 (omega arith), (later 10004 (omega arith), tt))),
      )

abbrev early : List (Clock × Wake)
early =
    (clock 1, client (binary (codes "rm")))
    ∷ (clock 2, client (text []))
    ∷ (clock 3, output written)
    ∷ (clock 4, redraw_tick 0 [] written)
    ∷ []

run-Watches_example : Watches tape bus viewer (run tape bus (λ s. s) parse early viewer)
run-Watches_example =
    run-Watches tape bus (λ s. s) parse early viewer refl (tt, (tt, (tt, (tt, tt))))
