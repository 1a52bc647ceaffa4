-- ===== src/Terminals/Tests.antt =====
-- Two users with two slots each.
use webshell.Base.{
  ℕ, ◌≡◌, ◌++◌, true, false, inl, none, some, List, [], ◌∷◌, arith, take, Text, codes, ltb,
  if◌then◌else◌,
}
use webshell.Samples.{tape, bus, bus-IsBroadcast, capacity-bus, builder, inherited}
use webshell.Scrollback
use webshell.Scrollback.{screen_snapshot}
use webshell.Scrollback.History.{Holds, new-Holds}
use webshell.Scrollback.Reconnect.{concat}
use webshell.Shell.{Shell, Os, output_capacity}
use webshell.Shell.Screen.{redraw, read_all}
use webshell.Terminals.{
  World, out_of_range, new, held, attach, attach_view, reset, spawn_for, attachment_to,
}
use webshell.Terminals.Slots.{WellPlaced, new-WellPlaced}
use webshell.Terminals.Operations.{Only, attached}
use webshell.Terminals.Refinement.{chosen, attach-Only}
use webshell.Terminals.Resetting.{IsReset, reset_lem}
use webshell.Terminals.Viewing.{Viewed, attach_view_lem}
use webshell.Terminals.Attach.{attach-redraw}

abbrev os : Os
os = record { opens = true; starts = true; has_reader = true; has_writer = true; epoch = 9 }

abbrev ann : Text
ann = codes "ann"

abbrev bob : Text
bob = codes "bob"

abbrev empty_world : World tape bus
empty_world = new 2 (codes "sh" ∷ []) [] [] [] 8 inherited

empty_world-WellPlaced : WellPlaced empty_world
empty_world-WellPlaced = new-WellPlaced 2 (codes "sh" ∷ []) [] inherited [] [] 8

attach-Only_example :
    Only tape bus ann 1 none
      (attached tape bus 80 24 (
        chosen tape bus
          (held ann 1 empty_world)
          (spawn_for tape bus builder os ann 80 24 empty_world)))
      empty_world
      (attach tape bus builder os ann 1 80 24 none empty_world)
attach-Only_example =
    attach-Only tape bus builder os ann 1 80 24 none empty_world empty_world-WellPlaced
      (omega arith)

abbrev one_shell : World tape bus
one_shell = (attach tape bus builder os ann 1 80 24 none empty_world).0

one_shell-WellPlaced : WellPlaced one_shell
one_shell-WellPlaced = attach-Only_example.placed

reset_lem_example :
    if ltb 1 one_shell.slots_per_user
    then IsReset tape bus ann 1 one_shell (reset tape bus ann 1 one_shell)
    else reset tape bus ann 1 one_shell ≡ one_shell
reset_lem_example = reset_lem tape bus ann 1 one_shell one_shell-WellPlaced

attach_view_lem_example :
    let (after, answer) = attach_view tape bus ann 1 none one_shell in
    (after.shells ≡ one_shell.shells)
    × ((v : Text) (j : ℕ) → held v j after ≡ held v j one_shell)
    × (if ltb 1 one_shell.slots_per_user
        then Viewed tape bus ann 1 none one_shell (held ann 1 one_shell) answer
        else answer ≡ inl out_of_range)
attach_view_lem_example = attach_view_lem tape bus ann 1 none one_shell one_shell-WellPlaced

abbrev quiet : Shell tape bus
quiet = record {
  input_tx = [];
  receiving = true;
  output_tx = (output_capacity, []);
  scrollback = Scrollback.new tape 4 80 24;
  alive = true;
  size = (80, 24);
  shutdown_tx = false;
  killer = true;
  epoch = 9;
  hung_up = false;
  written = [];
  grid = (80, 24);
}

abbrev chunks : List Text
chunks = codes "abc" ∷ codes "def" ∷ []

attach-redraw_example :
    let a = attachment_to tape bus 0 quiet (some (9, 0)) in
    let now = read_all tape bus quiet chunks in
    let r = (redraw tape bus 0 now a.output_rx).2 in
    (r.lagged ≡ false)
    × (take a.base_offset (codes "abcdef") ++ (a.replay ++ concat r.pending) ≡ codes "abcdef")
    × (r.screen ≡ (screen_snapshot tape 0 now.scrollback).1)
    × Holds tape now.scrollback (codes "abcdef")
attach-redraw_example =
    attach-redraw tape bus bus-IsBroadcast 0 0 quiet [] (some (9, 0)) chunks
      (new-Holds tape 4 80 24) (capacity-bus quiet.output_tx) (omega arith) (omega arith)
