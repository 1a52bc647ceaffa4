-- ===== src/Scrollback.antt =====
-- `Scrollback` of src/terminals.rs: the capped ring of recent output, the cut that a new attachment
-- starts from, and the server's own model of the screen. The screen emulator is the crate vt100,
-- which is a parameter. Counts are `u64`; a ring index is a `usize` of 64 bits.
pub mod History
pub mod Cut
pub mod Reconnect
pub mod Screen
mod Tests
use webshell.Base.{
  ℕ, ◌+◌, ◌-◌, ◌%◌, ◌^◌, ◌≡◌, ◌++◌, Bool, true, false, not, ◌&&◌, Option, none, some, List, [], ◌∷◌,
  ltb, leb, ◌==◌, if◌then◌else◌, length, take, drop, Text, max,
}
use webshell.Modes
use webshell.Modes.{ModeTracker, feed, synth}

-- `AttachMode`
pub data AttachMode : Type 0 where
  resume replay : AttachMode

-- What the program uses of `vt100::Parser`.
pub record Vt100 : Type 1 where
  pub Screen : Type 0
  pub parser : ℕ → ℕ → Screen
  pub process : Screen → Text → Screen
  pub contents_formatted : Screen → Text

-- `Scrollback`
pub record Scrollback (Screen : Type 0) : Type 0 where
  pub buf : Text
  pub cap : ℕ
  pub total : ℕ
  pub front_state : ModeTracker
  pub screen : Screen
  pub size : ℕ × ℕ
  pub stale : Bool

-- `self.total += n` and `self.total - n` on `u64`
abbrev pub add_u64 : ℕ → ℕ → ℕ
add_u64 a b = (a + b) % 2 ^ 64

abbrev pub sub_u64 : ℕ → ℕ → ℕ
sub_u64 a b = (a + 2 ^ 64 - b) % 2 ^ 64

-- The loop of `push`: what leaves the front while the ring is over its capacity, and what stays.
unfoldable pub evict : ℕ → Text → Text × Text
evict cap [] = ([], [])
evict cap (b ∷ bs) =
    let (evicted, kept) = evict cap bs in
    if ltb cap (length (b ∷ bs)) then (b ∷ evicted, kept) else ([], b ∷ bs)

module _ {S : Type 0} where
  -- `front_init`
  unfoldable pub front_init : Scrollback S → Text
  front_init sb = synth sb.front_state

  -- `snapshot`
  abbrev pub snapshot : Scrollback S → Text
  snapshot sb = sb.buf

  -- `resize`
  unfoldable pub resize : Scrollback S → ℕ → ℕ → Scrollback S
  resize sb cols rows =
      if sb.size.0 == cols && sb.size.1 == rows
      then sb
      else record sb { size = (cols, rows); stale = true }

  -- The full ring, at the position where it starts.
  abbrev pub full_replay : Scrollback S → AttachMode × ℕ × Text
  full_replay sb = (replay, sub_u64 sb.total (length (snapshot sb)), snapshot sb)

  -- `cut`
  unfoldable pub cut : Scrollback S → Option ℕ → AttachMode × ℕ × Text
  cut sb none = full_replay sb
  cut sb (some off) =
      if leb off sb.total && leb (sb.total - off) (length sb.buf)
      then (resume, off, drop (length sb.buf - (sb.total - off)) sb.buf)
      else full_replay sb

module _ (vt : Vt100) where
  open vt use {Screen, parser, process, contents_formatted}

  -- `screen_model`: a zero dimension becomes one cell.
  unfoldable pub screen_model : ℕ → ℕ → Screen
  screen_model cols rows = parser (max rows 1) (max cols 1)

  -- `Scrollback::new`
  unfoldable pub new : ℕ → ℕ → ℕ → Scrollback Screen
  new cap cols rows = record {
    buf = [];
    cap = cap;
    total = 0;
    front_state = Modes.new;
    screen = screen_model cols rows;
    size = (cols, rows);
    stale = false;
  }

  -- `push`
  unfoldable pub push : Scrollback Screen → Text → Scrollback Screen
  push sb bytes =
      let (evicted, kept) = evict sb.cap (sb.buf ++ bytes) in
      record sb {
        buf = kept;
        total = add_u64 sb.total (length bytes);
        front_state = feed sb.front_state evicted;
        screen = process sb.screen bytes;
      }

  -- The rebuilt screen of `screen_snapshot`. `front` is how many bytes the first of the two slices
  -- of the ring holds.
  unfoldable pub rebuild : ℕ → Scrollback Screen → Screen
  rebuild front sb =
      process
        (process (process (screen_model sb.size.0 sb.size.1) (front_init sb)) (take front sb.buf))
        (drop front sb.buf)

  unfoldable pub refresh : ℕ → Scrollback Screen → Scrollback Screen
  refresh front sb = if sb.stale then record sb { screen = rebuild front sb; stale = false } else sb

  -- `screen_snapshot`
  unfoldable pub screen_snapshot : ℕ → Scrollback Screen → Scrollback Screen × Text
  screen_snapshot front sb =
      let fresh = refresh front sb in (fresh, contents_formatted fresh.screen)
