-- ===== src/Frames/Tests.antt =====
-- Frames as a browser gets them.
use webshell.Base.{◌≡◌, refl, codes}
use webshell.Base.Replace.{replace, starts_with}
use webshell.Frames.{init_json}

test_init : init_json (codes "\u{1b}[?1049h") ≡ codes ",\"init\":\"\\u001b[?1049h\""
unfolding init_json replace starts_with
test_init = refl
