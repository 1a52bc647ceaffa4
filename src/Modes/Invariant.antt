-- ===== src/Modes/Invariant.antt =====
-- What the modes of a tracker look like, whatever the stream.

use webshell.Base.{
  ℕ, ◌≡◌, ◌++◌, Bool, true, false, Option, none, some, List, [], ◌∷◌, arith, All, Text, ltb,
  Option-cases, inl, inr, length, if◌then◌else◌,
}
use webshell.Modes.{
  Scan, ModeTracker, new, set_insert, set_remove, is_mouse_mode, is_alt_mode, set_mode, set_params,
  dispatch_params, dispatch, scan, feed,
}
use webshell.Base.Strings.{parse_uint, split}
use webshell.Modes.Ordered.{Ascending, Ascending-insert, Ascending-remove}

abbrev pub Alt : Option ℕ → Type 0
Alt none = Unit
Alt (some n) = is_alt_mode n ≡ true

-- Only known modes are remembered, and the set is in order.
pub record IsValid (t : ModeTracker) : Type 0 where
  pub alt : Alt t.alt_screen
  pub order : Ascending 0 t.mouse
  pub known : All (λ n. is_mouse_mode n ≡ true) t.mouse

known-insert :
    (n : ℕ) (ms : List ℕ)
    → is_mouse_mode n ≡ true
    → All (λ m. is_mouse_mode m ≡ true) ms
    → All (λ m. is_mouse_mode m ≡ true) (set_insert n ms)
unfolding set_insert
known-insert n [] h a = (h, tt)
known-insert n (m ∷ ms) h a = ground (arith, known-insert n ms h a.1)

known-remove :
    (n : ℕ) (ms : List ℕ)
    → All (λ m. is_mouse_mode m ≡ true) ms
    → All (λ m. is_mouse_mode m ≡ true) (set_remove n ms)
unfolding set_remove
known-remove n [] a = tt
known-remove n (m ∷ ms) a = ground (arith, known-remove n ms a.1)

pub new-IsValid : IsValid new
new-IsValid = record { alt = tt; order = tt; known = tt }

set_mode-IsValid : (on : Bool) (t : ModeTracker) (n : ℕ) → IsValid t → IsValid (set_mode on t n)
unfolding set_mode
set_mode-IsValid on t n v = ground (
  arith,
  v.alt,
  Ascending-insert 0 n t.mouse,
  Ascending-remove 0 n t.mouse,
  known-insert n t.mouse,
  known-remove n t.mouse,
)

set_params-IsValid :
    (on : Bool) (t : ModeTracker) (ps : List Text) → IsValid t → IsValid (set_params on t ps)
unfolding set_params
set_params-IsValid on t [] v = v
set_params-IsValid on t (p ∷ ps) v = elim (Option-cases (parse_uint 65536 p)) [
  | inl e ↦ rw e (set_params-IsValid on t ps v)
  | inr (n, e) ↦ rw e (set_params-IsValid on (set_mode on t n) ps (set_mode-IsValid on t n v))
]

dispatch_params-IsValid :
    (on : Bool) (t : ModeTracker) (buf : Text) → IsValid t → IsValid (dispatch_params on t buf)
unfolding dispatch_params
dispatch_params-IsValid on t [] v = v
dispatch_params-IsValid on t (c ∷ cs) v = ground (arith, set_params-IsValid on t (split b';' cs) v)

dispatch-IsValid : (t : ModeTracker) (buf : Text) (b : ℕ) → IsValid t → IsValid (dispatch t buf b)
unfolding dispatch
dispatch-IsValid t buf b v =
    ground (arith, dispatch_params-IsValid true t buf v, dispatch_params-IsValid false t buf v)

-- The scanner's position is no part of the invariant.
at-IsValid : (t : ModeTracker) (s : Scan) → IsValid t → IsValid (record t { st = s })
at-IsValid t s v = record { alt = v.alt; order = v.order; known = v.known }

scan-IsValid : (s : Scan) (t : ModeTracker) (b : ℕ) → IsValid t → IsValid (scan s t b)
unfolding scan
scan-IsValid Scan.ground t b v = at-IsValid t _ v
scan-IsValid Scan.esc t b v = at-IsValid t _ v
scan-IsValid (Scan.csi buf) t b v = ground (
  arith,
  at-IsValid t (Scan.csi (if ltb (length buf) 32 then buf ++ (b ∷ []) else buf)) v,
  at-IsValid t Scan.esc v,
  at-IsValid (dispatch t buf b) Scan.ground (dispatch-IsValid t buf b v),
)

-- Every byte keeps the set of mouse modes in order and holding only modes that are tracked.
pub feed-IsValid : (t : ModeTracker) (bs : Text) → IsValid t → IsValid (feed t bs)
unfolding feed
feed-IsValid t [] v = v
feed-IsValid t (b ∷ bs) v = feed-IsValid (scan t.st t b) bs (scan-IsValid t.st t b v)
