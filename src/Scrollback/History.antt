-- ===== src/Scrollback/History.antt =====
-- The ring against the whole output of its shell.
use webshell.Base.{
  ℕ, suc, ◌-◌, ◌^◌, ◌<◌, ◌≡◌, refl, ap, sym, ◌∙◌, ◌++◌, inl, inr, [], ◌∷◌, arith, ltb, length, take,
  drop, Text, length-append, length-drop, drop-drop, drop-append_le, Bool-cases, drop-nil, take-nil,
  take-append_le, take-add,
}
use webshell.Modes
use webshell.Modes.{feed}
use webshell.Modes.Feed.{feed-append, feed-nil}
use webshell.Scrollback.{Vt100, Scrollback, evict, new, push, resize}

evict_lem : (cap : ℕ) (l : Text) → evict cap l ≡ (take (length l - cap) l, drop (length l - cap) l)
unfolding evict
evict_lem cap [] = rw (take-nil (0 - cap), drop-nil (0 - cap))
evict_lem cap (b ∷ bs) = elim (Bool-cases (ltb cap (suc (length bs)))) [
  | inl over ↦
      let e : suc (length bs) - cap ≡ suc (length bs - cap) = ground arith in
      rw (over, e, evict_lem cap bs)
  | inr fits ↦ let e : suc (length bs) - cap ≡ 0 = ground arith in rw (fits, e)
]

-- Evicting from what two pieces of the output leave together.
ring-step :
    (cap : ℕ) (h bytes : Text)
    → drop (length (drop (length h - cap) h ++ bytes) - cap) (drop (length h - cap) h ++ bytes)
      ≡ drop (length (h ++ bytes) - cap) (h ++ bytes)
ring-step cap h bytes =
    let k = length h - cap in
    rw (← drop-append_le k h bytes (omega arith)) (
      drop-drop (length (drop k (h ++ bytes)) - cap) k (h ++ bytes)
      ∙ ap (λ n. drop n (h ++ bytes))
          (omega (arith, length-drop k (h ++ bytes), length-append h bytes)))

front-step :
    (cap : ℕ) (h bytes : Text)
    → take (length h - cap) h
        ++ take (length (drop (length h - cap) h ++ bytes) - cap) (drop (length h - cap) h ++ bytes)
      ≡ take (length (h ++ bytes) - cap) (h ++ bytes)
front-step cap h bytes =
    let k = length h - cap in
    rw (← drop-append_le k h bytes (omega arith), ← take-append_le k h bytes (omega arith))
      (take-add k (length (drop k (h ++ bytes)) - cap) (h ++ bytes)
        ∙ ap (λ n. take n (h ++ bytes))
            (omega (arith, length-drop k (h ++ bytes), length-append h bytes)))

module _ (vt : Vt100) where
  open vt use {Screen}

  -- The ring `sb` of a shell that has written `h` so far: the last `cap` bytes, their number, and
  -- the modes that the bytes before them have set.
  pub record Holds (sb : Scrollback Screen) (h : Text) : Type 0 where
    pub bound : length h < 2 ^ 64
    pub total : sb.total ≡ length h
    pub ring : sb.buf ≡ drop (length h - sb.cap) h
    pub front : sb.front_state ≡ feed Modes.new (take (length h - sb.cap) h)

  -- A new ring holds the empty output.
  pub new-Holds : (cap cols rows : ℕ) → Holds (new vt cap cols rows) []
  unfolding new
  new-Holds cap cols rows = record {
    bound = omega arith;
    total = refl;
    ring = sym (drop-nil (0 - cap));
    front = rw (take-nil (0 - cap)) (sym (feed-nil Modes.new));
  }

  -- `push` keeps the ring in step with the output, as long as that is shorter than 2^64 bytes.
  pub push-Holds :
      (sb : Scrollback Screen) (h bytes : Text)
      → length (h ++ bytes) < 2 ^ 64
      → Holds sb h
      → Holds (push vt sb bytes) (h ++ bytes)
  unfolding push
  push-Holds sb h bytes b v = record {
    bound = b;
    total = omega (arith, v.total, length-append h bytes);
    ring = rw (evict_lem sb.cap (sb.buf ++ bytes), v.ring) (ring-step sb.cap h bytes);
    front =
        rw (evict_lem sb.cap (sb.buf ++ bytes), v.front, v.ring)
          (sym (feed-append Modes.new _ _) ∙ ap (feed Modes.new) (front-step sb.cap h bytes));
  }

  pub resize-Holds :
      (sb : Scrollback Screen) (h : Text) (cols rows : ℕ)
      → Holds sb h
      → Holds (resize sb cols rows) h
  unfolding resize
  resize-Holds sb h cols rows v = ground arith
