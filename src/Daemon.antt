-- ===== src/Daemon.antt =====
-- daemon/main.py, daemon/udp_listener.py and daemon/reaper.py: the cold start, and what the
-- daemon does with a datagram and in a round of the reaper. A step returns the registry as it
-- leaves it and the messages it hands to the broadcaster, in order. The sockets and the timers
-- are not modelled.
pub mod Start
pub mod Live
pub mod Rounds
pub mod Announced
pub mod Crashes
pub mod Objects
pub mod Grown
pub mod Stored
pub mod Contents
use silicon_office.Prelude.{
  ℕ, String, ◌==◌, Bool, true, false, not, Option, none, some, List, [], ◌∷◌, get_or, or_else,
  Outcome, ok, raised, contains, keep, if◌then◌else◌,
}
use silicon_office.Schema.{
  idle, Op, upsert, remove, noop, HookEvent, AgentRecord, Message, make_diff_message,
  make_snapshot_message,
}
use silicon_office.StateMachine.{project_name_from_cwd}
use silicon_office.Ipc.{Loaded, decode_message, rstrip_newlines}
use silicon_office.Sessions.{World, SessionInfo, list_live_sessions}
use silicon_office.Registry
use silicon_office.Registry.{Agents, seed, resolve_pending_identities, reap_dead}

module _ {T : Type 0} where
  unfoldable pub cold_record : String → SessionInfo → T → AgentRecord T
  unfolding project_name_from_cwd
  cold_record sid info now =
      let cwd = get_or info.cwd "" in
      record {
        session_id = sid;
        project_name = or_else info.name (project_name_from_cwd cwd);
        cwd = cwd;
        pid = info.pid;
        entrypoint = get_or info.entrypoint "unknown";
        state = idle;
        action_label = "Idle";
        state_since = now;
        agent_kind = "main";
        parent_session_id = none;
        label_stack = [];
      }

  -- One round of the loop of `_cold_start`; `not session_id` holds for None and for "".
  unfoldable pub seed_info : Agents T → SessionInfo → Option String → T → Agents T
  seed_info agents info none now = agents
  seed_info agents info (some sid) now =
      if sid == "" then agents else seed agents (cold_record sid info now)

  unfoldable pub seed_all : Agents T → List SessionInfo → T → Agents T
  seed_all agents [] now = agents
  seed_all agents (info ∷ infos) now =
      seed_all (seed_info agents info info.session_id now) infos now

  -- `_cold_start` on the empty registry. An exception here ends the daemon.
  unfoldable pub cold_start : World → T → Outcome (Agents T)
  cold_start w now = elim (list_live_sessions w) [
    | raised ↦ raised
    | ok infos ↦ ok (seed_all [] infos now)
  ]

  -- `if op in ("upsert", "remove")`: the diff that is broadcast. The task that sends it may run
  -- after the next event; the record in it is taken as this event left it. Its time stamp `ts` is
  -- read later than the event's.
  unfoldable pub announce : String → Outcome (Option (AgentRecord T) × Op) → T → List (Message T)
  announce sid raised ts = []
  announce sid (ok (r, upsert)) ts = make_diff_message sid upsert r ts ∷ []
  announce sid (ok (r, remove)) ts = make_diff_message sid remove r ts ∷ []
  announce sid (ok (r, noop)) ts = []

  -- `on_event`: `event` is what `HookEvent.from_dict` comes to. What `apply_event` raises is
  -- caught by the listener.
  unfoldable pub on_event :
      World → Agents T → Outcome (HookEvent T) → T → T → Agents T × List (Message T)
  on_event w agents raised now ts = (agents, [])
  on_event w agents (ok event) now ts =
      let (result, agents') = Registry.apply_event w agents event now in
      (agents', announce event.session_id result ts)

  -- `datagram_received`; `from_dict` is `HookEvent.from_dict`. `decode_message` stands outside the
  -- try.
  unfoldable pub datagram_received :
      {J : Type 0}
      → (List ℕ → Loaded J)
      → (J → Outcome (HookEvent T))
      → World
      → Agents T
      → List ℕ
      → T
      → T
      → Outcome (Agents T × List (Message T))
  datagram_received loads from_dict w agents datagram now ts =
      elim (decode_message loads (rstrip_newlines datagram)) [
        | raised ↦ raised
        | ok none ↦ ok (agents, [])
        | ok (some obj) ↦ ok (on_event w agents (from_dict obj) now ts)
      ]

  unfoldable pub announce_removed : List String → T → List (Message T)
  announce_removed [] ts = []
  announce_removed (sid ∷ sids) ts = make_diff_message sid remove none ts ∷ announce_removed sids ts

  -- What follows the call of `resolve_pending_identities` in a round of `reaper_loop`: an
  -- exception of that call skips the rest of the round.
  unfoldable pub finish_round :
      World → T → Outcome (Unit {0}) × Agents T → Agents T × List (Message T)
  finish_round w ts (raised, agents) = (agents, [])
  finish_round w ts (ok _, agents) =
      let (dead, left) = reap_dead w agents in (left, announce_removed dead ts)

  unfoldable pub reaper_round : World → Agents T → T → Agents T × List (Message T)
  reaper_round w agents ts = finish_round w ts (resolve_pending_identities w agents)
