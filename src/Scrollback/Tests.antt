-- ===== src/Scrollback/Tests.antt =====
-- A ring of four bytes and its clients.
use webshell.Base.{◌≡◌, refl, ◌++◌, false, some, List, [], ◌∷◌, arith, Text, codes}
use webshell.Modes
use webshell.Modes.{feed, scan, synth}
use webshell.Scrollback.{
  Vt100, Scrollback, resume, replay, cut, push, new, evict, resize, screen_snapshot, refresh,
  rebuild, front_init, screen_model,
}
use webshell.Scrollback.History.{Holds, new-Holds, push-Holds}
use webshell.Scrollback.Reconnect.{push_all, push_all-Holds, reconnect}
use webshell.Scrollback.Screen.{IsStream, screen_snapshot-replay}

-- A screen that shows all it was sent.
abbrev tape : Vt100
tape = record {
  Screen = Text;
  parser = λ rows cols. [];
  process = λ s bytes. s ++ bytes;
  contents_formatted = λ s. s;
}

tape_append : (s xs ys : Text) → s ++ (xs ++ ys) ≡ (s ++ xs) ++ ys
tape_append [] xs ys = refl
tape_append (c ∷ s) xs ys = cc (tape_append s xs ys)

tape-IsStream : IsStream tape
tape-IsStream = record { process-append = tape_append }

abbrev chunks : List Text
chunks = codes "abc" ∷ codes "def" ∷ []

abbrev ring : Scrollback Text
ring = push_all tape (new tape 4 80 24) chunks

ring-Holds : Holds tape ring (codes "abcdef")
ring-Holds = push_all-Holds tape (new tape 4 80 24) [] chunks (omega arith) (new-Holds tape 4 80 24)

test_ring : ring.buf ≡ codes "cdef"
unfolding push_all push new evict
test_ring = refl

test_too_old : (cut ring (some 1)).0 ≡ replay
unfolding push_all push new evict cut
test_too_old = refl

test_future : (cut ring (some 7)).0 ≡ replay
unfolding push_all push new evict cut
test_future = refl

reconnect_example :
    cut (push_all tape ring (codes "gh" ∷ codes "ijk" ∷ [])) (some 8) ≡ (resume, 8, codes "ijk")
unfolding push_all push new evict cut
reconnect_example =
    reconnect tape ring (codes "abcdef") (some 3) (codes "gh" ∷ []) (codes "ijk" ∷ []) ring-Holds
      (omega arith) (omega arith)

push-Holds_example : Holds tape (push tape ring (codes "gh")) (codes "abcdefgh")
push-Holds_example = push-Holds tape ring (codes "abcdef") (codes "gh") (omega arith) ring-Holds

abbrev narrow : Scrollback Text
narrow = resize ring 40 24

screen_snapshot-replay_example :
    ((screen_snapshot tape 2 narrow).1 ≡ codes "cdef")
    × ((screen_snapshot tape 2 narrow).0 ≡ record narrow { screen = codes "cdef"; stale = false })
unfolding push_all push new evict cut resize screen_snapshot refresh rebuild front_init screen_model
    synth feed scan Modes.decset_alt Modes.decset_if Modes.decsets Modes.decrst_if
screen_snapshot-replay_example = screen_snapshot-replay tape tape-IsStream 2 narrow refl
