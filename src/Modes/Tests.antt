-- ===== src/Modes/Tests.antt =====
-- Streams as programs write them.
use webshell.Base.{◌≡◌, refl, ◌++◌, some, [], ◌∷◌, Text, codes}
use webshell.Base.Strings.{split, parse_uint}
use webshell.Modes.{
  is_alt_mode, is_mouse_mode, Scan, new, feed, scan, dispatch, dispatch_params, set_params,
  set_mode, set_insert, set_remove, synth,
}
use webshell.Modes.Synth.{feed-synth-feed}

-- A full screen program with the mouse and without the cursor; the last sequence is cut off.
abbrev stream : Text
stream =
    27 ∷ codes "[?1049h" ++ 27 ∷ codes "[?1000;1006h" ++ 27 ∷ codes "[?25l" ++ 27 ∷ codes "[?20"

test_feed :
    ((feed new stream).alt_screen ≡ some 1049) × ((feed new stream).mouse ≡ 1000 ∷ 1006 ∷ [])
unfolding feed scan dispatch dispatch_params set_params set_mode set_insert set_remove split
    parse_uint is_alt_mode is_mouse_mode
test_feed = (refl, refl)

feed-synth-feed_example :
    feed new (synth (feed new stream)) ≡ record (feed new stream) { st = Scan.ground }
feed-synth-feed_example = feed-synth-feed stream
