-- ===== src/Lib.antt =====
-- webshell is a server that gives a browser a shell: it signs people in (a local password or
-- Google, then a one-time code), keeps a pool of terminals for each, streams their output over a
-- WebSocket, and shares one terminal read-only by a link. This library models the parts that decide
-- who gets in and what a client is sent.
--
-- How the parts fit together. A login checks the first factor (Oidc for Google), then the second
-- (Totp, slowed down and locked by LoginGuard) unless the browser is a trusted device (Devices), and
-- turns an anonymous session into an authenticated one (Session); Auth is the handlers that do so.
-- Identity says who may log in, Enrollment what is remembered of them. A terminal's output runs
-- through a ring (Scrollback), whose evicted bytes leave their modes in a tracker (Modes); an
-- attachment is cut from that ring. Share
-- hands out signed links to one terminal. A shell (Shell) is started with a command (Command) and
-- served by two threads; Terminals keeps the slots of every user. A user's browser has one connection
-- to all its slots (Mux, with a Forward task for each), a guest's a read-only one to a shared slot
-- (Viewer); both send the frames of Frames.
--
-- The files and the code:
--   Base           shared names, lists over the native numbers, texts, UTF-8, stable sorting
--   HashMap        std::collections::HashMap as an association list, and its laws
--   Identity       src/identity.rs: Provider, Identity, from_str, to_string (Display), validate
--   Oidc           src/oidc.rs: Flow, Claims, validate, and the end of exchange (accept)
--   Session        src/session.rs: SessionStore (create, get, remove, login, begin_mfa, sweep,
--                  set_oauth, persist for persist_locked); Session/Load is SessionStore::load
--   Share          src/share.rs: ShareStore (create, resolve, remaining_secs, lease, list, revoke,
--                  sweep), encode_token for encode, verify; Share/Note is sanitize_note
--   Devices        src/devices.rs: DeviceStore, every operation
--   Enrollment     src/enrollment.rs: EnrollmentStore, every operation
--   Totp           src/totp.rs: base32, code_at, verify, ReplayGuard::accept_at
--   LoginGuard     src/main.rs: LoginGuard, Attempt, MfaStrikes
--   Modes          src/terminals.rs: ModeTracker (feed, dispatch, synth)
--   Scrollback     src/terminals.rs: Scrollback (push, resize, cut, screen_snapshot)
--   Auth           src/main.rs: current_session, trusted_device, forget_stale_device, login_error;
--                  Auth/LocalLogin is local_login, Auth/MfaSubmit is mfa_submit and mfa_locked_out,
--                  Auth/Callback is oauth_callback (with exchange of src/oidc.rs, and google_usable and
--                  redirect_uri of src/config.rs), Auth/Logout is logout and mfa_cancel
--   Command        src/terminals.rs: build_command, is_server_secret_env
--   Shell          src/terminals.rs: PtyCmd, Terminal (stop), next_epoch, spawn_terminal, and the loops of
--                  its threads (read_output and finish_output, run_command); Shell/Screen is
--                  ScreenHandle::redraw
--   Terminals      src/terminals.rs: Terminals (new, pool, list, attach, attach_view, current_size, reset)
--   Frames         src/pty.rs: mode_str, init_json, hello_json, redraw_json, closed_json, tagged,
--                  valid_size
--   Forward        src/pty.rs: Channel, the state of a connection, and spawn_forward (on_forward)
--   Mux            src/pty.rs: MuxControl, mux_bridge (step: on_message, on_binary, on_control, on_open)
--   Viewer         src/pty.rs: ViewerOutput (valid, send, close), bridge (start, step); src/share.rs: Lease
--                  (expired, revoked, valid, deadline)
--   Samples        instances of the parameters for the tests
-- The children of a file hold its theorems, and its Tests the runs on concrete data.
--
-- Conventions. A method on shared state takes the state and returns it; the lock that the source
-- holds makes each call one step. A handler reads the clocks when its request arrives and once more
-- after its tarpit delay, and its page is told only by its kind. A text is a list of code points, a byte string a list of bytes. An
-- Instant is a number of nanoseconds, Unix time a number of seconds. Clocks, random tokens and
-- whether a file could be written are arguments of the calls that use them. A watch channel is a
-- number, and a store keeps the list of the channels it has signalled. A semaphore is the number of
-- its free permits. The order in which the source iterates over a HashMap is not specified; here it
-- is the order of the association list, and no theorem depends on it but for ties.
--
-- A task or a thread is a function for each of its turns, and what happens to a connection a list of
-- events, in any order: which timer, message or channel wakes a select is not decided by the model. A
-- shell stays at its place in the list of all shells when its slot is emptied, as in the source the
-- handles that clients have keep it. What the operating system answers to a start (Os), whether a write
-- succeeds, and the numbers that an epoch is drawn from are arguments. The lock of a slot, held through
-- an attachment, makes that one step. A mux connection sends its two opening frames in one step, and
-- all sends of one wake of a viewer's bridge see one clock. An epoch is an answer of Os to a start;
-- next_epoch is modelled by itself.
--
-- Parameters. Argon2, the terminal emulator (crate vt100), tokio's broadcast channel, the command
-- builder of portable_pty, the JSON parser, base64 with HMAC-SHA256 (Codec), HMAC-SHA1 and
-- the SHA-256 of a cookie are parameters, and so are the claims that Google's token endpoint answers
-- with; what a theorem needs of them is a hypothesis: IsStream
-- (a chunk boundary changes nothing), IsBroadcast (a receiver gets what is sent after its subscription,
-- in order, as long as the channel can keep it), IsCommandBuilder (each call changes the one thing it is
-- named for; the environment it starts with is a parameter too), IsBase64 (decoding undoes encoding,
-- no dot in the alphabet) and IsSha1 (a digest of HMAC-SHA1 is twenty bytes).
--
-- Bounds and fuel. Counters of the ring are u64 and wrap; its theorems take an output of fewer than
-- 2^64 bytes. Slots and expiries are read back below 2^64, failures and strikes counted below 2^32.
-- The inner loop of base32's encoder has fuel for two rounds of three, the most it takes; the loop that
-- drains a receiver has one turn more than the channel keeps values, and drain_lem shows that enough.
-- Lowercasing is that of ASCII: other letters are left as they are.
--
-- Not modelled: sockets, timers and the PTY itself, the other request
-- handlers of src/main.rs, the configuration file, certificates, Argon2, the HTTP exchange with Google, the web
-- pages. They are I/O, calls of libraries, or parts that this library does not reach yet.
pub mod Base
pub mod HashMap
pub mod Auth
pub mod Command
pub mod Devices
pub mod Enrollment
pub mod Forward
pub mod Frames
pub mod Identity
pub mod LoginGuard
pub mod Modes
pub mod Mux
pub mod Oidc
pub mod Samples
pub mod Scrollback
pub mod Session
pub mod Share
pub mod Shell
pub mod Terminals
pub mod Totp
pub mod Viewer
