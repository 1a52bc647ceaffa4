-- ===== src/Share/Note.antt =====
-- `sanitize_note` of src/share.rs, over the code points of a note. It also cleans the display texts
-- of src/devices.rs.
use webshell.Base.{
  ℕ, suc, ◌≤◌, ◌≡◌, refl, ◌++◌, Bool, false, ◌&&◌, ◌||◌, List, [], ◌∷◌, map, arith, leb, ltb,
  if◌then◌else◌, length, take, Text, All, length-take, inl, inr, Bool-cases, ◌⊎◌, zero,
}
use webshell.Base.Strings.{is_whitespace}

-- `char::is_control`
unfoldable pub is_control : ℕ → Bool
is_control c = ltb c 0x20 || (leb 0x7F c && leb c 0x9F)

abbrev pub max_note_len : ℕ
max_note_len = 120

-- `split_whitespace`: the word under construction and the words after it
begin_word : ℕ → List Text → List Text
begin_word c [] = (c ∷ []) ∷ []
begin_word c (w ∷ ws) = (c ∷ w) ∷ ws

-- Pieces between white space characters, empty ones too.
unfoldable pub pieces : Text → List Text
unfolding begin_word
pieces [] = [] ∷ []
pieces (c ∷ cs) = let rest = pieces cs in if is_whitespace c then [] ∷ rest else begin_word c rest

-- The words, each after a space.
join_words : List Text → Text
join_words [] = []
join_words ([] ∷ ws) = join_words ws
join_words ((c ∷ w) ∷ ws) = b' ' ∷ (c ∷ w) ++ join_words ws

drop_space : Text → Text
drop_space [] = []
drop_space (c ∷ cs) = cs

unfoldable pub collapse : Text → Text
unfolding pieces join_words drop_space
collapse s = drop_space (join_words (pieces s))

abbrev pub clean : ℕ → ℕ
clean c = if is_control c then b' ' else c

-- `sanitize_note`
unfoldable pub sanitize_note : Text → Text
unfolding collapse
sanitize_note note = take max_note_len (collapse (map clean note))

-- No control characters, and no white space other than the space.
abbrev pub IsClean : ℕ → Type 0
IsClean c = (c ≡ b' ') ⊎ ((is_control c ≡ false) × (is_whitespace c ≡ false))

abbrev IsWord : Text → Type 0
IsWord w = All IsClean w

clean-IsClean : (c : ℕ) → is_whitespace (clean c) ≡ false → IsClean (clean c)
unfolding is_control is_whitespace
clean-IsClean c h = elim (Bool-cases (is_control c)) [
  | inl control ↦ rw control (inl refl)
  | inr fine ↦ inr (rw fine fine, h)
]

begin_word-clean :
    (c : ℕ) (ws : List Text) → IsClean c → All IsWord ws → All IsWord (begin_word c ws)
unfolding begin_word
begin_word-clean c [] h hs = ((h, tt), tt)
begin_word-clean c (w ∷ ws) h hs = ((h, hs.0), hs.1)

pieces-clean : (s : Text) → All IsWord (pieces (map clean s))
unfolding pieces
pieces-clean [] = (tt, tt)
pieces-clean (c ∷ s) = elim (Bool-cases (is_whitespace (clean c))) [
  | inl white ↦ rw white (tt, pieces-clean s)
  | inr black ↦
      rw black
        (begin_word-clean (clean c) (pieces (map clean s)) (clean-IsClean c black) (pieces-clean s))
]

append-IsClean : (xs ys : Text) → All IsClean xs → All IsClean ys → All IsClean (xs ++ ys)
append-IsClean [] ys h hs = hs
append-IsClean (x ∷ xs) ys h hs = (h.0, append-IsClean xs ys h.1 hs)

join_words-IsClean : (ws : List Text) → All IsWord ws → All IsClean (join_words ws)
unfolding join_words
join_words-IsClean [] h = tt
join_words-IsClean ([] ∷ ws) h = join_words-IsClean ws h.1
join_words-IsClean ((c ∷ w) ∷ ws) h =
    (inl refl, append-IsClean (c ∷ w) (join_words ws) h.0 (join_words-IsClean ws h.1))

drop_space-IsClean : (s : Text) → All IsClean s → All IsClean (drop_space s)
unfolding drop_space
drop_space-IsClean [] h = tt
drop_space-IsClean (c ∷ s) h = h.1

take-IsClean : (n : ℕ) (s : Text) → All IsClean s → All IsClean (take n s)
take-IsClean zero s h = tt
take-IsClean (suc n) [] h = tt
take-IsClean (suc n) (c ∷ s) h = (h.0, take-IsClean n s h.1)

-- What is shown of a note or a device is harmless: whatever was sent, what is kept is at most 120
-- characters, each a space or neither a control character nor white space.
pub sanitize_note-IsClean :
    (note : Text) → (length (sanitize_note note) ≤ 120) × All IsClean (sanitize_note note)
unfolding sanitize_note collapse
sanitize_note-IsClean note =
    let text = drop_space (join_words (pieces (map clean note))) in
    (
      omega (arith, length-take 120 text),
      take-IsClean 120 text (drop_space-IsClean _ (join_words-IsClean _ (pieces-clean note))),
    )
