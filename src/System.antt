-- ===== src/System.antt =====
-- The daemon's event loop with its frontends: daemon/main.py, daemon/reaper.py and
-- daemon/broadcaster.py together with frontend/main.py. `asyncio.ensure_future` puts a task at
-- the end of `tasks`; it runs later, and only then makes its message. A frontend stands in the
-- state that it has once it has handled what was written to it. No write waits: no socket is
-- full.
pub mod Shows
pub mod Settling
pub mod Steps
pub mod Rounds
pub mod Run
pub mod Healing
use silicon_office.Prelude.{ℕ, String, Option, none, some, List, [], ◌∷◌, ◌++◌, Outcome, ok, raised}
use silicon_office.Prelude.Dict.{Dict, lookup, insert, erase, map_option}
use silicon_office.Schema.{
  Op, upsert, remove, noop, HookEvent, AgentRecord, Message, make_diff_message,
  make_snapshot_message,
}
use silicon_office.Sessions.{World}
use silicon_office.Daemon.Objects
use silicon_office.Daemon.Objects.{Objects, Heap, contents, resolve_each, reap_objects}
use silicon_office.Office.{App, from_daemon, handle_message, update_ghosts, draw}

-- A call of `broadcast_diff` that is still to run, with the reference to the record it was given.
pub data Task : Type 0 where
  send_upsert : String → Option ℕ → Task
  send_remove : String → Task

pub record System (T M : Type 0) : Type 0 where
  pub objects : Objects T
  pub tasks : List Task
  pub frontends : Dict (App T M)

-- A frontend's readings of its clock while it handles a message.
abbrev pub Readings : Type 0 → Type 0
Readings M = String → M × (String → M)

-- `if op in ("upsert", "remove")`
unfoldable pub spawn : String → Outcome (Option ℕ × Op) → List Task
spawn sid raised = []
spawn sid (ok (ref, upsert)) = send_upsert sid ref ∷ []
spawn sid (ok (ref, remove)) = send_remove sid ∷ []
spawn sid (ok (ref, noop)) = []

module _ {T : Type 0} where
  unfoldable pub message_of : Heap T → Task → T → Message T
  message_of heap (send_upsert sid ref) ts = make_diff_message sid upsert (map_option heap ref) ts
  message_of heap (send_remove sid) ts = make_diff_message sid remove none ts

module _ {T M : Type 0} where
  -- `on_event`
  unfoldable pub hook : World → HookEvent T → T → System T M → System T M
  hook w event at s =
      let (result, objects) = Objects.apply_event w s.objects event at in
      record s { objects = objects; tasks = s.tasks ++ spawn event.session_id result }

  -- The end of `handle_client`, or a write that failed.
  unfoldable pub disconnect : String → System T M → System T M
  disconnect w s = record s { frontends = erase w s.frontends }

module _ {T M : Type 0} (order : List String → List String) where
  -- A message is written to every client.
  unfoldable pub write_all : Message T → Readings M → Dict (App T M) → Dict (App T M)
  write_all m reads [] = []
  write_all m reads ((w, app) ∷ rest) =
      let (now, clock) = reads w in
      (w, handle_message order app (from_daemon m) now clock) ∷ write_all m reads rest

  -- The task that is first in the queue runs.
  unfoldable pub run_task : T → Readings M → System T M → System T M
  run_task ts reads s = elim s.tasks [
    | [] ↦ s
    | task ∷ rest ↦ record s {
      tasks = rest;
      frontends = write_all (message_of s.objects.heap task ts) reads s.frontends;
    }
  ]

  -- The reaper waits for its broadcasts, which it makes one by one.
  unfoldable pub send_removed : List String → T → Readings M → Dict (App T M) → Dict (App T M)
  send_removed [] ts reads apps = apps
  send_removed (sid ∷ sids) ts reads apps =
      send_removed sids ts reads (write_all (make_diff_message sid remove none ts) reads apps)

  unfoldable pub end_round : World → T → Readings M → Outcome (Unit {0}) → System T M → System T M
  end_round w ts reads raised s = s
  end_round w ts reads (ok _) s =
      let (dead, left) = reap_objects w s.objects in
      record s { objects = left; frontends = send_removed dead ts reads s.frontends }

  unfoldable pub reap : World → T → Readings M → System T M → System T M
  reap w ts reads s =
      let (result, heap) = resolve_each w s.objects.heap s.objects.refs in
      end_round w ts reads result (record s { objects = record s.objects { heap = heap } })

  -- `broadcast_snapshot`
  unfoldable pub tick : T → Readings M → System T M → System T M
  tick ts reads s = record s {
    frontends = write_all (make_snapshot_message (contents s.objects) ts) reads s.frontends;
  }

  -- `handle_client`, for a frontend in any state: it connects, and is sent a snapshot.
  unfoldable pub connect : String → App T M → T → Readings M → System T M → System T M
  connect w app ts reads s =
      let (now, clock) = reads w in
      let greeted =
        handle_message order app (from_daemon (make_snapshot_message (contents s.objects) ts)) now
          clock in
      record s { frontends = insert w greeted s.frontends }
