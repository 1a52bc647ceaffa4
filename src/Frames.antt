-- ===== src/Frames.antt =====
-- The frames of src/pty.rs: control frames in JSON, and data frames that carry their slot in front.
-- The base64 encoder is a parameter.
pub mod Tagging
mod Tests
use webshell.Base.{
  ℕ, ◌%◌, ◌≡◌, Bool, true, false, Option, none, some, List, [], ◌∷◌, ◌++◌, Text, codes, min, max,
}
use webshell.Base.Replace.{replace}
use webshell.Base.Strings.{to_decimal}
use webshell.Scrollback.{AttachMode, resume, replay}
use webshell.Shell.Screen.{Redraw}
use webshell.Terminals.{Attachment}

-- `mode_str`
unfoldable pub mode_str : AttachMode → Text
mode_str resume = codes "resume"
mode_str replay = codes "replay"

-- `init_json`
unfoldable pub init_json : Text → Text
init_json [] = []
init_json (b ∷ bs) =
    codes ",\"init\":\"" ++ replace (0x1B ∷ []) (codes "\\u001b") (b ∷ bs) ++ codes "\""

-- The member that names the slot, on the mux socket only.
unfoldable pub term_json : Option ℕ → Text
term_json none = []
term_json (some t) = codes ",\"term\":" ++ to_decimal t

-- `hello_json`
unfoldable pub hello_json : {Rx : Type 0} → Option ℕ → Attachment Rx → Text
unfolding term_json
hello_json term a =
    codes "{\"type\":\"hello\""
    ++ term_json term
    ++ codes ",\"mode\":\""
    ++ mode_str a.mode
    ++ codes "\",\"epoch\":"
    ++ to_decimal a.epoch
    ++ codes ",\"offset\":"
    ++ to_decimal a.base_offset
    ++ init_json a.init
    ++ codes "}"

-- `redraw_json`
unfoldable pub redraw_json : (Text → Text) → Option ℕ → Redraw → Text
unfolding term_json
redraw_json base64 term r =
    codes "{\"type\":\"redraw\""
    ++ term_json term
    ++ codes ",\"cols\":"
    ++ to_decimal r.cols
    ++ codes ",\"rows\":"
    ++ to_decimal r.rows
    ++ codes ",\"screen\":\""
    ++ base64 r.screen
    ++ codes "\"}"

-- `closed_json`
unfoldable pub closed_json : ℕ → Text → Text
closed_json term reason =
    codes "{\"type\":\"closed\",\"term\":"
    ++ to_decimal term
    ++ codes ",\"reason\":\""
    ++ reason
    ++ codes "\"}"

-- `tagged`: `term as u8` keeps the low eight bits.
unfoldable pub tagged : ℕ → Text → Text
tagged term bytes = term % 256 ∷ bytes

-- `valid_size`
unfoldable pub valid_size : ℕ → ℕ → ℕ × ℕ
valid_size cols rows = (max 2 (min cols 500), max 2 (min rows 300))
