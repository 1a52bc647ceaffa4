-- ===== src/Terminals.antt =====
-- `Terminals` of src/terminals.rs: each user's slots, and how a client attaches to the shell in one.
-- A shell stays where it is when its slot is emptied, since clients may still be attached to it: the
-- slots hold places in the list of all shells ever started. A locked section is one operation.
pub mod Slots
pub mod Attach
pub mod Isolation
pub mod Operations
pub mod Refinement
pub mod Resetting
pub mod Stops
pub mod Viewing
mod Tests
use webshell.Base.{
  ℕ, suc, ◌≡◌, Bool, true, false, not, ◌&&◌, Option, none, some, List, [], ◌∷◌, ◌++◌, ◌⊎◌, inl, inr,
  ◌>>=◌, leb, ◌==◌, if◌then◌else◌, length, replicate, get_elem?, set, Text, text_eq,
}
use webshell.HashMap
use webshell.HashMap.{HashMap}
use webshell.Command.{CommandBuilder}
use webshell.Scrollback
use webshell.Scrollback.{Vt100, Scrollback, AttachMode, replay, resume, cut, front_init}
use webshell.Shell
use webshell.Shell.{
  PtyCmd, TryRecv, ok, lagged, empty, closed, Broadcast, Terminal, Shell, Os, Child, offer, stop,
  spawn_terminal,
}

-- `Terminals`. `inherited` is the server's environment, `shells` every terminal started so far.
pub record Terminals (Sh : Type 0) : Type 0 where
  pub pools : HashMap Text (List (Option ℕ))
  pub shells : List Sh
  pub slots_per_user : ℕ
  pub login_cmd : List Text
  pub envs : HashMap Text Text
  pub owner : Text
  pub owner_home : Text
  pub scrollback_cap : ℕ
  pub inherited : HashMap Text Text

-- `SlotStatus`
pub record SlotStatus : Type 0 where
  pub index : ℕ
  pub running : Bool

-- `Attachment`: `shell` is the place of the terminal whose queue, screen and end it shares.
pub record Attachment (Receiver : Type 0) : Type 0 where
  pub shell : ℕ
  pub output_rx : Receiver
  pub replay : Text
  pub mode : AttachMode
  pub epoch : ℕ
  pub base_offset : ℕ
  pub init : Text

-- The errors of `attach` and `attach_view`.
pub data AttachError : Type 0 where
  out_of_range not_running spawn_failed : AttachError

-- `UserPool::new`, for a user who has no pool
slots_or_new : ℕ → Option (List (Option ℕ)) → List (Option ℕ)
slots_or_new n none = replicate n none
slots_or_new n (some slots) = slots

module _ {Sh : Type 0} where
  -- `Terminals::new`
  abbrev pub new :
      ℕ → List Text → HashMap Text Text → Text → Text → ℕ → HashMap Text Text → Terminals Sh
  new slots_per_user login_cmd envs owner owner_home scrollback_cap inherited = record {
    pools = [];
    shells = [];
    slots_per_user = slots_per_user;
    login_cmd = login_cmd;
    envs = envs;
    owner = owner;
    owner_home = owner_home;
    scrollback_cap = scrollback_cap;
    inherited = inherited;
  }

  -- The slots of a user; one who has none yet gets empty ones.
  unfoldable pub slots_of : Text → Terminals Sh → List (Option ℕ)
  unfolding slots_or_new
  slots_of user ts = slots_or_new ts.slots_per_user (HashMap.get user ts.pools)

  -- Store the slots of a user.
  unfoldable pub put_slots : Text → List (Option ℕ) → Terminals Sh → Terminals Sh
  put_slots user slots ts = record ts { pools = HashMap.insert user slots ts.pools }

  -- `pool`: the entry is there afterwards.
  unfoldable pub pool : Text → Terminals Sh → Terminals Sh
  pool user ts = put_slots user (slots_of user ts) ts

  -- What is in a slot, and the place it names.
  abbrev pub slot_of : Text → ℕ → Terminals Sh → Option ℕ
  slot_of user index ts = get_elem? (slots_of user ts) index >>= λ o. o

  abbrev pub held : Text → ℕ → Terminals Sh → Option Sh
  held user index ts = slot_of user index ts >>= λ id. get_elem? ts.shells id

  abbrev pub put_slot : Text → ℕ → Option ℕ → Terminals Sh → Terminals Sh
  put_slot user index o ts = put_slots user (set (slots_of user ts) index o) ts

  abbrev pub put_shell : ℕ → Sh → Terminals Sh → Terminals Sh
  put_shell id t ts = record ts { shells = set ts.shells id t }

-- The offset that a client may resume from: its own, if it counts this shell's output.
unfoldable pub client_offset : Option (ℕ × ℕ) → ℕ → Option ℕ
client_offset none epoch = none
client_offset (some (e, off)) epoch = if e == epoch then some off else none

module _ (vt : Vt100) (bc : Broadcast) where
  abbrev pub World : Type 0
  World = Terminals (Shell vt bc)

  pub is_alive : Option (Shell vt bc) → Bool
  is_alive none = false
  is_alive (some t) = t.alive

  -- The slot holds a shell that has not exited.
  unfoldable pub is_running : Text → ℕ → World → Bool
  unfolding is_alive
  is_running user index ts = is_alive (held user index ts)

  statuses : Text → ℕ → List (Option ℕ) → World → List SlotStatus
  unfolding is_alive
  statuses user i [] ts = []
  statuses user i (o ∷ slots) ts =
      record { index = i; running = is_alive (o >>= λ id. get_elem? ts.shells id) }
      ∷ statuses user (suc i) slots ts

  -- `list`
  unfoldable pub list : Text → World → World × List SlotStatus
  unfolding statuses
  list user ts = (pool user ts, statuses user 0 (slots_of user ts) ts)

  stop_found : ℕ → Option (Shell vt bc) → World → World
  stop_found id none ts = ts
  stop_found id (some t) ts = put_shell id (stop t) ts

  stop_at : Option ℕ → World → World
  unfolding stop_found
  stop_at none ts = ts
  stop_at (some id) ts = stop_found id (get_elem? ts.shells id) ts

  -- Take what is in a slot and stop it.
  unfoldable pub take_and_stop : Text → ℕ → World → World
  unfolding stop_at
  take_and_stop user index ts = stop_at (slot_of user index ts) (put_slot user index none ts)

  -- `reset`
  unfoldable pub reset : Text → ℕ → World → World
  reset user index ts =
      if leb ts.slots_per_user index then ts else take_and_stop user index (pool user ts)

  size_if_alive : Option (Shell vt bc) → Option (ℕ × ℕ)
  size_if_alive none = none
  size_if_alive (some t) = if t.alive then some t.size else none

  -- `current_size`
  unfoldable pub current_size : Text → ℕ → World → World × Option (ℕ × ℕ)
  unfolding size_if_alive
  current_size user index ts =
      if leb ts.slots_per_user index
      then (ts, none)
      else (pool user ts, size_if_alive (held user index ts))

  init_for : AttachMode → Scrollback vt.Screen → Text
  init_for replay sb = front_init sb
  init_for resume sb = []

  -- The end of `attach` and `attach_view`: the cut and the subscription under one lock.
  unfoldable pub attachment_to : ℕ → Shell vt bc → Option (ℕ × ℕ) → Attachment bc.Receiver
  unfolding init_for
  attachment_to id t asked =
      let (mode, base_offset, bytes) = cut t.scrollback (client_offset asked t.epoch) in
      record {
        shell = id;
        output_rx = bc.subscribe t.output_tx;
        replay = bytes;
        mode = mode;
        epoch = t.epoch;
        base_offset = base_offset;
        init = init_for mode t.scrollback;
      }

  view_found : ℕ → Option (Shell vt bc) → Option (ℕ × ℕ) → AttachError ⊎ Attachment bc.Receiver
  view_found id none asked = inl not_running
  view_found id (some t) asked = if t.alive then inr (attachment_to id t asked) else inl not_running

  view_held : Option ℕ → Option (ℕ × ℕ) → World → AttachError ⊎ Attachment bc.Receiver
  unfolding view_found
  view_held none asked ts = inl not_running
  view_held (some id) asked ts = view_found id (get_elem? ts.shells id) asked

  -- `attach_view`
  unfoldable pub attach_view :
      Text → ℕ → Option (ℕ × ℕ) → World → World × (AttachError ⊎ Attachment bc.Receiver)
  unfolding view_held
  attach_view user index asked ts =
      if leb ts.slots_per_user index
      then (ts, inl out_of_range)
      else (pool user ts, view_held (slot_of user index ts) asked ts)

  -- Offer the new size to the shell at a place, and attach to it.
  join_found :
      ℕ
      → ℕ
      → Option (ℕ × ℕ)
      → ℕ
      → Option (Shell vt bc)
      → World
      → World × (AttachError ⊎ Attachment bc.Receiver)
  join_found cols rows asked id none ts = (ts, inl not_running)
  join_found cols rows asked id (some t) ts =
      let resized = offer (PtyCmd.resize cols rows) t in
      (put_shell id resized ts, inr (attachment_to id resized asked))

  join : ℕ → ℕ → Option (ℕ × ℕ) → ℕ → World → World × (AttachError ⊎ Attachment bc.Receiver)
  unfolding join_found
  join cols rows asked id ts = join_found cols rows asked id (get_elem? ts.shells id) ts

  pub join_held :
      ℕ → ℕ → Option (ℕ × ℕ) → Option ℕ → World → World × (AttachError ⊎ Attachment bc.Receiver)
  unfolding join
  join_held cols rows asked none ts = (ts, inl not_running)
  join_held cols rows asked (some id) ts = join cols rows asked id ts

  -- Put a started shell into its slot.
  install : Text → ℕ → Shell vt bc → World → World
  install user index t ts =
      put_slot user index (some (length ts.shells)) (record ts { shells = ts.shells ++ t ∷ [] })

  pub join_started :
      Text
      → ℕ
      → ℕ
      → ℕ
      → Option (ℕ × ℕ)
      → Option (Shell vt bc)
      → World
      → World × (AttachError ⊎ Attachment bc.Receiver)
  unfolding install join
  join_started user index cols rows asked none ts = (ts, inl spawn_failed)
  join_started user index cols rows asked (some t) ts =
      join cols rows asked (length ts.shells) (install user index t ts)

  module _ (cb : CommandBuilder) where
    abbrev pub spawn_for : Os → Text → ℕ → ℕ → World → Option (Shell vt bc)
    spawn_for os user cols rows ts =
        (spawn_terminal vt bc cb os ts.login_cmd user ts.owner ts.owner_home ts.envs ts.inherited
          cols rows ts.scrollback_cap).0

    pub attach_slot :
        Os
        → Text
        → ℕ
        → ℕ
        → ℕ
        → Option (ℕ × ℕ)
        → World
        → World × (AttachError ⊎ Attachment bc.Receiver)
    unfolding join_started join_held
    attach_slot os user index cols rows asked ts =
        if not (is_running user index ts)
        then join_started user index cols rows asked (spawn_for os user cols rows ts)
            (take_and_stop user index ts)
        else join_held cols rows asked (slot_of user index ts) ts

    -- `attach`
    unfoldable pub attach :
        Os
        → Text
        → ℕ
        → ℕ
        → ℕ
        → Option (ℕ × ℕ)
        → World
        → World × (AttachError ⊎ Attachment bc.Receiver)
    unfolding attach_slot
    attach os user index cols rows asked ts =
        if leb ts.slots_per_user index
        then (ts, inl out_of_range)
        else attach_slot os user index cols rows asked (pool user ts)
