-- ===== src/Frames/Tagging.antt =====
-- What a client reads back from a frame, and the sizes that reach a PTY.
use webshell.Base.{ℕ, ◌%◌, ◌≤◌, ◌<◌, ◌≡◌, arith, Text}
use webshell.Frames.{tagged, valid_size}

-- Slots below 256 are told apart by their frames: two frames are the same only if they carry the same
-- bytes for the same slot.
pub tagged_inj :
    (s t : ℕ) (xs ys : Text) → s < 256 → t < 256 → tagged s xs ≡ tagged t ys → (s ≡ t) × (xs ≡ ys)
unfolding tagged
tagged_inj s t xs ys hs ht e = let heads : s % 256 ≡ t % 256 = cc e in (omega (arith, heads), cc e)

-- A size that is passed on is within bounds, and one that was within bounds is passed on as it is.
pub valid_size_lem :
    (cols rows : ℕ) → let (c, r) = valid_size cols rows in (2 ≤ c) × (c ≤ 500) × (2 ≤ r) × (r ≤ 300)
unfolding valid_size
valid_size_lem cols rows = (omega arith, omega arith, omega arith, omega arith)
