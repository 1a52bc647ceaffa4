-- ===== src/Viewer.antt =====
-- `bridge` of src/pty.rs, the socket of a share link's viewer, with the guard `ViewerOutput` over its
-- write half and the predicates of `Lease` in src/share.rs that the guard asks. Wall-clock times are
-- milliseconds. The JSON parser and the base64 encoder are parameters.
pub mod Guard
pub mod Watching
pub mod Inert
mod Tests
use webshell.Base.{
  ℕ, ◌+◌, ◌*◌, ◌-◌, Bool, true, false, not, ◌&&◌, ◌||◌, Option, none, some, List, [], ◌∷◌, ◌++◌,
  leb, if◌then◌else◌, Text,
}
use webshell.Frames.{hello_json, redraw_json, valid_size}
use webshell.Scrollback.{Vt100}
use webshell.Shell.{PtyCmd, TryRecv, ok, lagged, empty, closed, Broadcast, Terminal, Shell, offer}
use webshell.Shell.Screen.{Redraw, redraw}
use webshell.Shell.Threads.{Turn, turn}
use webshell.Terminals.{Attachment}
use webshell.Forward.{Message, text, binary, close_frame, failure, other}
use webshell.Share.{Lease}

-- The wall clock, and what the revocation channel of a lease says: the value last sent, and whether
-- its sender is still there.
pub record Clock : Type 0 where
  pub now : ℕ
  pub revoked : Bool
  pub sender_there : Bool

-- `expires_at_time`
abbrev pub expires_at_time : Lease → ℕ
expires_at_time l = l.expires_at * 1000

-- `expired`
unfoldable pub expired : Lease → Clock → Bool
expired l c = leb (expires_at_time l) c.now

-- `revoked`
abbrev pub revoked : Clock → Bool
revoked c = c.revoked || not c.sender_there

-- `Lease::valid`
unfoldable pub lease_valid : Lease → Clock → Bool
unfolding expired
lease_valid l c = not (expired l c) && not (revoked c)

-- `deadline`: how long the force-close timer of a lease runs.
unfoldable pub deadline : Lease → Clock → ℕ
deadline l c = expires_at_time l - c.now

-- `valid` of `ViewerOutput`
unfoldable pub valid : Option Lease → Clock → Bool
valid none c = true
valid (some l) c = lease_valid l c

-- What becomes of a write: the socket takes it, it fails or stalls, or the lease ends first.
pub data Write : Type 0 where
  written broken ended : Write

-- `ClientControl`
pub data ClientControl : Type 0 where
  resize : ℕ → ℕ → ClientControl

-- What wakes the loop of `bridge`, with the fate of the writes that follow; and a turn that the shell's
-- own threads or its other clients take meanwhile.
pub data Wake : Type 0 where
  expiry revocation audit shutdown stream_end : Wake
  redraw_tick : ℕ → List Write → Write → Wake
  output : Write → Wake
  client : Message → Wake
  elsewhere : Turn → Wake

is_leased : Option Lease → Bool
is_leased none = false
is_leased (some l) = true

module _ (vt : Vt100) (bc : Broadcast) where
  -- The bridge: the shell it shares, its receiver, the lease, what has reached the socket, and
  -- whether the loop still runs.
  pub record Viewer : Type 0 where
    pub shell : Shell vt bc
    pub output_rx : bc.Receiver
    pub lease : Option Lease
    pub read_only : Bool
    pub sent : List Message
    pub live : Bool

  -- The guard is dropped, and the sink with it.
  pub leave : Viewer → Viewer
  leave v = record v { live = false }

  -- `close`
  unfoldable pub close : Viewer → Viewer
  unfolding leave
  close v = leave (record v { sent = v.sent ++ close_frame ∷ [] })

  after_write : Message → Write → Viewer → Viewer
  unfolding leave
  after_write msg written v = record v { sent = v.sent ++ msg ∷ [] }
  after_write msg broken v = leave v
  after_write msg ended v = leave v

  -- `send`; a caller returns on an error, and the guard goes with it.
  unfoldable pub send : Clock → Write → Message → Viewer → Viewer
  unfolding after_write
  send c w msg v = if valid v.lease c then after_write msg w v else close v

  -- Send unless the bridge has returned.
  pub send_next : Clock → Write → Message → Viewer → Viewer
  send_next c w msg v = if v.live then send c w msg v else v

  -- The start of `bridge`: the hello and the replay go through the guard as well.
  unfoldable pub start :
      Clock → Write → Write → Shell vt bc → Attachment bc.Receiver → Bool → Option Lease → Viewer
  unfolding send_next
  start c w1 w2 t a read_only lease = send_next c w2 (binary a.replay) (
      send_next c w1 (text (hello_json none a)) (record {
        shell = t;
        output_rx = a.output_rx;
        lease = lease;
        read_only = read_only;
        sent = [];
        live = true;
      }))

  pub send_pending : Clock → List Text → List Write → Viewer → Viewer
  unfolding send_next
  send_pending c [] ws v = v
  send_pending c (bytes ∷ more) [] v = leave v
  send_pending c (bytes ∷ more) (w ∷ ws) v = send_pending c more ws (send_next c w (binary bytes) v)

  pub resize_client : Option ClientControl → Viewer → Viewer
  resize_client none v = v
  resize_client (some (resize cols rows)) v =
      let (c, r) = valid_size cols rows in record v { shell = offer (PtyCmd.resize c r) v.shell }

  module _ (base64 : Text → Text) (parse : Text → Option ClientControl) where
    -- The arm of `next_redraw`; the last write is the redraw's own.
    on_redraw : Clock → ℕ → List Write → Write → Viewer → Viewer
    unfolding send_pending send_next
    on_redraw c front ws w v =
        let (after, rest, r) = redraw vt bc front v.shell v.output_rx in
        let sent_all = send_pending c r.pending ws (record v { shell = after; output_rx = rest }) in
        if r.lagged
        then (if sent_all.live then close sent_all else sent_all)
        else send_next c w (text (redraw_json base64 none r)) sent_all

    -- The arm of `recv`
    on_output : Clock → Write → TryRecv → bc.Receiver → Viewer → Viewer
    on_output c w (ok bytes) rx v = send c w (binary bytes) (record v { output_rx = rx })
    on_output c w lagged rx v = close v
    on_output c w closed rx v = leave v
    on_output c w empty rx v = v

    -- The arm of a client's message.
    on_client : Message → Viewer → Viewer
    unfolding resize_client leave
    on_client (binary b) v =
        if not v.read_only then record v { shell = offer (PtyCmd.input b) v.shell } else v
    on_client (text t) v = if not v.read_only then resize_client (parse t) v else v
    on_client close_frame v = leave v
    on_client failure v = leave v
    on_client other v = v

    on_wake : Clock → Wake → Viewer → Viewer
    unfolding on_redraw on_output on_client leave is_leased
    on_wake c expiry v = close v
    on_wake c revocation v = close v
    on_wake c audit v = if is_leased v.lease && not (valid v.lease c) then close v else v
    on_wake c (redraw_tick front ws w) v = on_redraw c front ws w v
    on_wake c shutdown v = if v.shell.shutdown_tx then close v else v
    on_wake c (output w) v =
        let (got, rest) = bc.try_recv v.shell.output_tx v.output_rx in on_output c w got rest v
    on_wake c (client msg) v = on_client msg v
    on_wake c stream_end v = leave v
    on_wake c (elsewhere t) v = record v { shell = turn vt bc t v.shell }

    -- One turn of the loop, which has returned for good once the guard is gone.
    unfoldable pub step : Clock → Wake → Viewer → Viewer
    unfolding on_wake
    step c w v = if v.live then on_wake c w v else v

    pub run : List (Clock × Wake) → Viewer → Viewer
    unfolding step
    run [] v = v
    run ((c, w) ∷ more) v = run more (step c w v)
