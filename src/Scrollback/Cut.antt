-- ===== src/Scrollback/Cut.antt =====
-- What a client may rely on when it attaches: the cut against the whole output of the shell.
use webshell.Base.{
  ℕ, ◌-◌, ◌≤◌, ◌≡◌, refl, ap, ◌∙◌, ◌++◌, inl, inr, Bool, true, Option, none, some, ◌↔◌, ◌⊎◌, ◌&&◌,
  arith, leb, length, take, drop, Text, length-append, length-drop, drop-drop, take-append-drop,
  Bool-cases, drop-append_length,
}
use webshell.Scrollback.{Vt100, Scrollback, AttachMode, resume, replay, cut, sub_u64, full_replay}
use webshell.Scrollback.History.{Holds}

module _ (vt : Vt100) where
  open vt use {Screen}

  -- The attachment sends the rest of the output `h` from its base on, and unless it replays it starts
  -- at the offset that the client gave.
  pub record Continues (h : Text) (offset : Option ℕ) (r : AttachMode × ℕ × Text) : Type 0 where
    pub within : r.1 ≤ length h
    pub rest : take r.1 h ++ r.2 ≡ h
    pub honest : (r.0 ≡ replay) ⊎ (offset ≡ some r.1)

  length-buf :
      (sb : Scrollback Screen) (h : Text)
      → Holds vt sb h
      → length sb.buf ≡ length h - (length h - sb.cap)
  length-buf sb h v = ap length v.ring ∙ length-drop (length h - sb.cap) h

  replay-Continues :
      (sb : Scrollback Screen) (h : Text) (offset : Option ℕ)
      → Holds vt sb h
      → Continues h offset (full_replay sb)
  replay-Continues sb h offset v =
      let base : sub_u64 sb.total (length sb.buf) ≡ length h - sb.cap =
        omega (arith, length-buf sb h v, v.total, v.bound) in
      record {
        within = omega (arith, base);
        rest = rw (base, v.ring) (take-append-drop (length h - sb.cap) h);
        honest = inl refl;
      }

  -- The offset names a position that the ring still covers.
  abbrev covers : Scrollback Screen → ℕ → Bool
  covers sb off = leb off sb.total && leb (sb.total - off) (length sb.buf)

  tail_lem :
      (sb : Scrollback Screen) (h : Text) (off : ℕ)
      → Holds vt sb h
      → covers sb off ≡ true
      → drop (length sb.buf - (sb.total - off)) sb.buf ≡ drop off h
  tail_lem sb h off v c =
      ap (drop (length sb.buf - (sb.total - off))) v.ring
      ∙ drop-drop (length sb.buf - (sb.total - off)) (length h - sb.cap) h
      ∙ ap (λ n. drop n h) (ground (arith, length-buf sb h v, v.total))

  -- An attachment never skips and never repeats a byte, whatever offset the client sends.
  pub cut-Continues :
      (sb : Scrollback Screen) (h : Text) (offset : Option ℕ)
      → Holds vt sb h
      → Continues h offset (cut sb offset)
  unfolding cut
  cut-Continues sb h none v = replay-Continues sb h none v
  cut-Continues sb h (some off) v = elim (Bool-cases (covers sb off)) [
    | inl c ↦ rw c (record {
      within = ground (arith, v.total);
      rest = rw (tail_lem sb h off v c) (take-append-drop off h);
      honest = inr refl;
    })
    | inr c ↦ rw c (replay-Continues sb h (some off) v)
  ]

  -- The cut resumes exactly when the offset is no later than the output's end and no more than the
  -- ring's capacity before it.
  pub cut-resume_iff :
      (sb : Scrollback Screen) (h : Text) (off : ℕ)
      → Holds vt sb h
      → ((cut sb (some off)).0 ≡ resume) ↔ ((off ≤ length h) × (length h - off ≤ sb.cap))
  unfolding cut
  cut-resume_iff sb h off v = (
    λ e. ground (arith, length-buf sb h v, v.total),
    λ p. ground (arith, length-buf sb h v, v.total),
  )

  -- A client that has the bytes `seen` and asks to go on from there is sent exactly the ones it has
  -- missed, if the ring still holds them.
  pub cut_missed :
      (sb : Scrollback Screen) (seen missed : Text)
      → Holds vt sb (seen ++ missed)
      → length missed ≤ sb.cap
      → cut sb (some (length seen)) ≡ (resume, length seen, missed)
  unfolding cut
  cut_missed sb seen missed v small =
      let c : covers sb (length seen) ≡ true =
        ground (arith, length-buf sb (seen ++ missed) v, v.total, length-append seen missed) in
      let tail = tail_lem sb (seen ++ missed) (length seen) v c in
      rw (c, tail, drop-append_length seen missed)
