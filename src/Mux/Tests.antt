-- ===== src/Mux/Tests.antt =====
-- A browser that opens a slot, types into it and is then cut off.
use webshell.Base.{refl, true, false, none, some, Option, List, [], ◌∷◌, Text, codes}
use webshell.HashMap
use webshell.Frames.{valid_size}
use webshell.Samples.{tape, bus, builder, inherited}
use webshell.Shell.{Os}
use webshell.Terminals.{World, new, held, spawn_for}
use webshell.Terminals.Slots.{WellPlaced, new-WellPlaced}
use webshell.Terminals.Operations.{attached}
use webshell.Terminals.Refinement.{chosen}
use webshell.Forward.{text, binary, Event, message, deadline, output, redraw_tick, Mux}
use webshell.Forward.Ownership.{Owned, Keeps}
use webshell.Mux.{MuxControl, open_slot, on_open}
use webshell.Mux.Isolation.{run, run-Keeps}
use webshell.Mux.Hello.{Opens, on_open_lem}

abbrev os : Os
os = record { opens = true; starts = true; has_reader = true; has_writer = true; epoch = 9 }

abbrev ann : Text
ann = codes "ann"

abbrev empty_world : World tape bus
empty_world = new 2 (codes "sh" ∷ []) [] [] [] 8 inherited

empty_world-WellPlaced : WellPlaced empty_world
empty_world-WellPlaced = new-WellPlaced 2 (codes "sh" ∷ []) [] inherited [] [] 8

abbrev connection : Mux tape bus
connection = record {
  world = empty_world;
  channels = [];
  sent = [];
  running = true;
  connected = true;
}

connection-Owned : Owned tape bus ann connection
unfolding HashMap.get
connection-Owned = record { placed = empty_world-WellPlaced; own = λ term ch e. absurd (cc e) }

-- Every text frame opens the first slot.
abbrev parse : Text → Option MuxControl
parse t = some (open_slot 0 80 24 none none false)

abbrev events : List Event
events =
    message os (text [])
    ∷ message os (binary (0 ∷ codes "ls"))
    ∷ redraw_tick 0 0
    ∷ output 0
    ∷ deadline
    ∷ []

run-Keeps_example :
    Keeps tape bus ann connection (run tape bus ann builder (λ s. s) parse events connection)
run-Keeps_example = run-Keeps tape bus ann builder (λ s. s) parse events connection connection-Owned

on_open_lem_example :
    Opens tape bus ann 1 none true connection
      (on_open tape bus builder ann os 1 80 24 none true connection)
      (attached tape bus 80 24 (
        chosen tape bus
          (held ann 1 empty_world)
          (spawn_for tape bus builder os ann 80 24 empty_world)))
unfolding valid_size
on_open_lem_example =
    on_open_lem tape bus builder ann os 1 80 24 none true connection empty_world-WellPlaced refl
