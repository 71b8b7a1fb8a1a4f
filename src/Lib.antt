-- ===== src/Lib.antt =====
-- A model of silicon-office: a daemon that follows Claude Code sessions by their hook events, and a
-- window that shows each as a figure at a desk. The emitter (src/silicon_office/emitter) sends an
-- event for every hook over UDP. The daemon (src/silicon_office/daemon) keeps a record for each
-- session, changes it by a state machine, and pushes snapshots and diffs over TCP to the frontends
-- (src/silicon_office/frontend), which keep a copy of the records, give each session a desk, and
-- draw. The installer (src/silicon_office/installer) puts the emitter into Claude Code's settings.
--
-- Files, with the code each is about:
-- Schema - common/schema.py and the states of common/constants.py: records, events, messages.
-- StateMachine - daemon/state_machine.py: `transition` holds the branches of `apply_event`; Names is
--   `project_name_from_cwd`, Steps and Subagents are about one event and about many.
-- Sessions, Registry - daemon/registry.py: what is read from the machine, and the dict of records;
--   Events and Keyed are about `apply_event`, Broken is about unreadable files, Sweeps and Machine
--   about `reap_dead` and `resolve_pending_identities`; Sessions.Described tells apart from the code
--   which files and processes count.
-- Ipc - common/ipc.py: encoding, decoding, and the buffer that cuts a stream into lines; Scan is the
--   same reading byte by byte, Stream is about whole messages,
--   Fuel about the end of the buffer's loop.
-- NetClient - frontend/net_client.py: the read loop; Delivery is about what reaches the queue,
--   Reconnect is the outer loop with its waits.
-- Broadcaster - daemon/broadcaster.py. Daemon - daemon/main.py, daemon/udp_listener.py and
--   daemon/reaper.py; Start and Live are the cold start, Rounds are the rounds of the reaper, Announced and
--   Crashes are about the removals that it announces; Objects is the registry with its records as
--   shared objects, Grown, Stored and Contents are about it.
-- System - the event loop of daemon/main.py with daemon/reaper.py, daemon/broadcaster.py and any number
--   of frontends: Shows is what they show, Settling what holds between the steps, Steps and Rounds are
--   about single steps, Run is about whole runs,
--   Healing about runs in which events raise.
-- Layout - frontend/layout.py: Slots, Sync and Growth are about the slots, Desk and Column are
--   `desk_rect`, by rows and from left to right.
-- Office - frontend/main.py: the state of the window; Replica and Mirror are about the records that
--   it shows against the daemon's, Run about a whole run of both, Consistent and Frame about its
--   own parts; Picture is the list of calls that `_draw` makes, Painted is about it; Loop is `App.run`
--   with its frames, Unchanged, Turns and Whole are about it.
-- Display - the choice of the display and the place of the window in frontend/main.py.
-- Usage, Pricing - frontend/usage.py and common/pricing.py: Scan is `_scan_file`, Week the start of
--   the week, Cache, Totals and Stuck are about the rescans. Sprites - frontend/sprites.py.
-- Render - frontend/render.py and frontend/theme.py: the text cache and the colours; Figure is the
--   drawing of a desk, and Inside about it, Floor is the background, Texts are the places of texts, Cached is
--   what the caches give for them.
-- Emitter - emitter/hook_emitter.py; Wire is an event as a dict, Main is `main` and its datagram.
-- FakeSession - tools/fake_session.py; Shows, Steps, Lifecycle and Crash are about what the daemon
--   makes of it.
-- Json, Installer - installer/install_hooks.py and the values it works on, with Python's == in
--   Json.Equal; Groups and Events hold the lemmas, Laws and Undo the results on settings; Files is
--   the command, Paths and Actions hold lemmas on it, WellFormed and Merged on keys that are named
--   once, Crash and Again are about its runs.
-- Prelude - shared notation, lists, integers, Python's dict, and outcomes that may be an exception.
-- Tests - runs at concrete inputs.
--
-- Where the program changes an object in place, a function returns the new contents. An exception
-- that reaches the caller is the value `raised`. Floats that are only stored or compared (time
-- stamps, costs of the tracker) are a parameter type; those that are computed with are whole numbers
-- in a unit in which the code's results are exact, which the file names.
--
-- Parameters stand for code outside the repository: Python's json with its UTF-8 coding, `str` of a
-- JSON value, the answers of the operating system (session files, `kill`, `stat`, the contents of
-- files, the sockets' reads and writes), the order in which a set is iterated over,
-- `random.uniform`, pygame's surfaces and SDL's display bounds, and the clock.
--
-- The one loop on fuel is that of the line buffer: each round takes a newline out of the buffer, so
-- the number of bytes and one is fuel enough (`feed-scan` of Ipc.Scan compares it with a reading byte
-- by byte, which has no fuel, and `drain_ends` of Ipc.Fuel with more fuel). All other loops are
-- recursions on lists or on a number of rows.
--
-- Not modelled: what pygame does with a drawing call, fading, the pulse of the ring and the rounding
-- of the figures on the usage bar, which are floats; from and to the epoch, which the start of the
-- week leaves to `datetime`; directories and failing calls when the settings are written; command
-- lines, processes, sockets, threads and timers, and the repository's tests; what the window does with
-- a message whose agent is no object, on which `_upsert_agent` raises half way; and a write to a
-- client that never returns.
pub mod Prelude
pub mod Schema
pub mod StateMachine
pub mod Ipc
pub mod NetClient
pub mod Sessions
pub mod Registry
pub mod Layout
pub mod Broadcaster
pub mod Daemon
pub mod System
pub mod Json
pub mod Installer
pub mod Emitter
pub mod FakeSession
pub mod Sprites
pub mod Render
pub mod Display
pub mod Office
pub mod Usage
pub mod Pricing
pub mod Tests
