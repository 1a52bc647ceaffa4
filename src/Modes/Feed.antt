-- ===== src/Modes/Feed.antt =====
-- `ModeTracker::feed` over pieces of a stream.
use webshell.Base.{◌≡◌, refl, ◌++◌, [], ◌∷◌, Text}
use webshell.Modes.{ModeTracker, scan, feed}

-- The tracker reads a stream: fed two pieces one after the other it ends where it ends fed both at
-- once, wherever the cut is, also inside a sequence.
pub feed-append : (t : ModeTracker) (xs ys : Text) → feed t (xs ++ ys) ≡ feed (feed t xs) ys
unfolding feed
feed-append t [] ys = refl
feed-append t (x ∷ xs) ys = feed-append (scan t.st t x) xs ys

pub feed-nil : (t : ModeTracker) → feed t [] ≡ t
unfolding feed
feed-nil t = refl
