-- ===== src/Modes/Synth.antt =====
-- The round trip of `synth` and `feed`.
use webshell.Base.{ℕ, ◌≡◌, refl, ◌∙◌, ap, Option, none, some, true, [], append-nil, Text, sym}
use webshell.Modes.{Scan, ModeTracker, new, is_alt_mode, feed, decrst_if, synth}
use webshell.Modes.Feed.{feed-nil}
use webshell.Modes.Invariant.{IsValid, Alt, new-IsValid, feed-IsValid}
use webshell.Modes.Reads.{
  at_ground, feed-decset_alt, feed-decset_if-app, feed-decset_if-paste, feed-decrst_if-hidden,
  feed-decsets,
}

Alt-known : (a : Option ℕ) → Alt a → (n : ℕ) → a ≡ some n → is_alt_mode n ≡ true
Alt-known none v n e = cc
Alt-known (some m) v n e = cc

-- A fresh tracker that reads what a valid one writes comes to the same modes.
feed-synth : (t : ModeTracker) → IsValid t → feed new (synth t) ≡ at_ground t
unfolding synth
feed-synth t v =
    let t1 : ModeTracker = record new { alt_screen = t.alt_screen } in
    let t2 : ModeTracker = record t1 { app_cursor = t.app_cursor } in
    let t3 : ModeTracker = record t2 { bracketed_paste = t.bracketed_paste } in
    let t4 : ModeTracker = record t3 { mouse = t.mouse } in
    feed-decset_alt new _ refl t.alt_screen (Alt-known t.alt_screen v.alt)
    ∙ feed-decset_if-app t1 _ t.app_cursor refl
    ∙ feed-decset_if-paste t2 _ t.bracketed_paste refl
    ∙ feed-decsets t3 _ 0 t.mouse tt v.order v.known
    ∙ ap (feed t4) (sym (append-nil (decrst_if t.cursor_hidden 25)))
    ∙ feed-decrst_if-hidden t4 [] t.cursor_hidden refl
    ∙ feed-nil (at_ground t)

-- Whatever bytes have left the ring, the sequences that `synth` writes for them put a terminal that
-- has just been reset into the very modes those bytes left enabled, with its scanner at rest.
pub feed-synth-feed :
    (evicted : Text)
    → feed new (synth (feed new evicted)) ≡ record (feed new evicted) { st = Scan.ground }
feed-synth-feed evicted = feed-synth (feed new evicted) (feed-IsValid new evicted new-IsValid)
