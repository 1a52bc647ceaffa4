-- ===== src/Scrollback/Screen.antt =====
-- The server's own model of the screen.
use webshell.Base.{
  ℕ, ◌≡◌, ap, sym, ◌∙◌, ◌++◌, true, false, none, take, drop, Text, take-append-drop, arith,
}
use webshell.Scrollback.{
  Vt100, Scrollback, screen_model, front_init, rebuild, refresh, push, screen_snapshot, cut,
}

-- An emulator that reads a stream: a chunk boundary changes nothing.
pub record IsStream (vt : Vt100) : Type 0 where
  pub process-append :
      (s : vt.Screen) (xs ys : Text) → vt.process s (xs ++ ys) ≡ vt.process (vt.process s xs) ys

module _ (vt : Vt100) (stream : IsStream vt) where
  open vt use {Screen, process, contents_formatted}
  open stream use {process-append}

  -- After a resize the snapshot shows what a client shows that attaches without an offset and
  -- replays the ring at the new size; the ring, the count and the modes stay as they are.
  pub screen_snapshot-replay :
      (front : ℕ) (sb : Scrollback Screen)
      → sb.stale ≡ true
      → let (after, bytes) = screen_snapshot vt front sb in
        let replayed =
          process (process (screen_model vt sb.size.0 sb.size.1) (front_init sb)) (cut sb none).2 in
        (bytes ≡ contents_formatted replayed)
        × (after ≡ record sb { screen = replayed; stale = false })
  unfolding screen_snapshot refresh rebuild cut
  screen_snapshot-replay front sb stale =
      let joined =
        process-append (process (screen_model vt sb.size.0 sb.size.1) (front_init sb))
          (take front sb.buf) (drop front sb.buf) in
      let whole =
        ap (process (process (screen_model vt sb.size.0 sb.size.1) (front_init sb)))
          (sym (take-append-drop front sb.buf))
        ∙ joined in
      ground (arith, whole)

  -- The model of a ring that has never been resized: the emulator fed the whole output.
  abbrev pub Mirrors : ℕ → ℕ → Scrollback Screen → Text → Type 0
  Mirrors cols rows sb h = (sb.stale ≡ false) × (sb.screen ≡ process (screen_model vt cols rows) h)

  -- Without a resize the snapshot is what the whole output shows, also of bytes that have long left
  -- the ring, and every push keeps that.
  pub push-Mirrors :
      (cols rows : ℕ) (sb : Scrollback Screen) (h bytes : Text)
      → Mirrors cols rows sb h
      → Mirrors cols rows (push vt sb bytes) (h ++ bytes)
  unfolding push
  push-Mirrors cols rows sb h bytes m = (
    m.0,
    ap (λ s. process s bytes) m.1 ∙ sym (process-append (screen_model vt cols rows) h bytes),
  )
