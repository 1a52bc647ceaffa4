-- ===== src/Modes.antt =====
-- `ModeTracker` of src/terminals.rs: the scanner of the bytes that leave the scrollback ring, and
-- the sequences that reinstate the modes they left enabled.
pub mod Ordered
pub mod Invariant
pub mod Feed
pub mod Synth
mod Tests
pub mod Reads
use webshell.Base.{
  ℕ, ◌≡◌, ◌++◌, Bool, true, false, not, ◌&&◌, ◌||◌, Option, none, some, List, [], ◌∷◌, ltb, leb,
  ◌==◌, if◌then◌else◌, length, Text, codes,
}
use webshell.Base.Strings.{split, parse_uint, to_decimal}

-- `Scan`
pub data Scan : Type 0 where
  ground : Scan
  esc : Scan
  csi : Text → Scan

-- `ModeTracker`; `mouse` is the ordered set.
pub record ModeTracker : Type 0 where
  pub st : Scan
  pub app_cursor : Bool
  pub cursor_hidden : Bool
  pub alt_screen : Option ℕ
  pub bracketed_paste : Bool
  pub mouse : List ℕ

abbrev pub new : ModeTracker
new = record {
  st = ground;
  app_cursor = false;
  cursor_hidden = false;
  alt_screen = none;
  bracketed_paste = false;
  mouse = [];
}

-- `BTreeSet::insert`
unfoldable pub set_insert : ℕ → List ℕ → List ℕ
set_insert n [] = n ∷ []
set_insert n (m ∷ ms) =
    let rest = set_insert n ms in
    if ltb n m then n ∷ m ∷ ms else if n == m then m ∷ ms else m ∷ rest

-- `BTreeSet::remove`
unfoldable pub set_remove : ℕ → List ℕ → List ℕ
set_remove n [] = []
set_remove n (m ∷ ms) = let rest = set_remove n ms in if n == m then rest else m ∷ rest

-- The mouse tracking and encoding modes that are remembered.
unfoldable pub is_mouse_mode : ℕ → Bool
is_mouse_mode n =
    n == 9 || (leb 1000 n && leb n 1003) || n == 1005 || n == 1006 || n == 1015 || n == 1016

unfoldable pub is_alt_mode : ℕ → Bool
is_alt_mode n = n == 47 || n == 1047 || n == 1049

-- One parameter of a DECSET or DECRST.
unfoldable pub set_mode : Bool → ModeTracker → ℕ → ModeTracker
set_mode on t n =
    if n == 1
    then record t { app_cursor = on }
    else if n == 25
    then record t { cursor_hidden = not on }
    else if is_alt_mode n
    then record t { alt_screen = if on then some n else none }
    else if n == 2004
    then record t { bracketed_paste = on }
    else if is_mouse_mode n
    then record t { mouse = if on then set_insert n t.mouse else set_remove n t.mouse }
    else t

-- The loop of `dispatch` over the parameters; one that is no `u16` is skipped.
unfoldable pub set_params : Bool → ModeTracker → List Text → ModeTracker
set_params on t [] = t
set_params on t (p ∷ ps) =
    set_params on (elim (parse_uint 65536 p) [ none ↦ t | some n ↦ set_mode on t n ]) ps

unfoldable pub dispatch_params : Bool → ModeTracker → Text → ModeTracker
dispatch_params on t [] = t
dispatch_params on t (c ∷ cs) = if c == b'?' then set_params on t (split b';' cs) else t

-- `ModeTracker::dispatch`
unfoldable pub dispatch : ModeTracker → Text → ℕ → ModeTracker
dispatch t buf final =
    if final == b'h'
    then dispatch_params true t buf
    else if final == b'l'
    then dispatch_params false t buf
    else t

-- One byte of `feed`.
unfoldable pub scan : Scan → ModeTracker → ℕ → ModeTracker
scan ground t b = record t { st = if b == 0x1b then esc else ground }
scan esc t b = record t { st = if b == b'[' then csi [] else if b == 0x1b then esc else ground }
scan (csi buf) t b =
    if leb 0x20 b && leb b 0x3f
    then record t { st = csi (if ltb (length buf) 32 then buf ++ (b ∷ []) else buf) }
    else if leb 0x40 b && leb b 0x7e
    then record (dispatch t buf b) { st = ground }
    else if b == 0x1b
    then record t { st = esc }
    else t

-- `ModeTracker::feed`
unfoldable pub feed : ModeTracker → Text → ModeTracker
feed t [] = t
feed t (b ∷ bs) = feed (scan t.st t b) bs

-- `format!("\x1b[?{n}h")`
unfoldable pub decset : ℕ → Text
decset n = 0x1b ∷ b'[' ∷ b'?' ∷ (to_decimal n ++ (b'h' ∷ []))

-- `b"\x1b[?25l"`
unfoldable pub decrst : ℕ → Text
decrst n = 0x1b ∷ b'[' ∷ b'?' ∷ (to_decimal n ++ (b'l' ∷ []))

unfoldable pub decsets : List ℕ → Text
decsets [] = []
decsets (n ∷ ns) = decset n ++ decsets ns

unfoldable pub decset_if : Bool → ℕ → Text
decset_if on n = if on then decset n else []

unfoldable pub decrst_if : Bool → ℕ → Text
decrst_if on n = if on then decrst n else []

unfoldable pub decset_alt : Option ℕ → Text
decset_alt none = []
decset_alt (some n) = decset n

-- `ModeTracker::synth`
unfoldable pub synth : ModeTracker → Text
synth t =
    decset_alt t.alt_screen
    ++ (decset_if t.app_cursor 1
        ++ (decset_if t.bracketed_paste 2004 ++ (decsets t.mouse ++ decrst_if t.cursor_hidden 25)))
