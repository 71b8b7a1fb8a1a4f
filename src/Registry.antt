-- ===== src/Registry.antt =====
-- daemon/registry.py: the sessions that the daemon tracks. A method returns its result, or that
-- it raised, beside the dict as it then is. The records in the dict are shared with the state
-- machine, which changes them in place, so such a change shows in the dict whatever follows.
pub mod Events
pub mod Keyed
pub mod Broken
pub mod Sweeps
pub mod Machine
use silicon_office.Prelude.{
  ℕ, String, Bool, true, false, not, ◌&&◌, Option, none, some, List, [], ◌∷◌, Outcome, ok, raised,
}
use silicon_office.Prelude.Dict.{Dict, lookup, insert, erase, keys}
use silicon_office.Schema.{Op, upsert, remove, noop, HookEvent, AgentRecord}
use silicon_office.StateMachine
use silicon_office.Sessions.{World, is_pid_alive, resolve_identity}

abbrev pub Agents : Type 0 → Type 0
Agents T = Dict (AgentRecord T)

module _ {T : Type 0} where
  unfoldable pub seed : Agents T → AgentRecord T → Agents T
  seed agents r = insert r.session_id r agents

  -- The dict after the state machine changed the record of a known session in place.
  unfoldable pub changed_in_place :
      Agents T → String → Option (AgentRecord T) → AgentRecord T → Agents T
  changed_in_place agents sid none r = agents
  changed_in_place agents sid (some _) r = insert sid r agents

  -- The tests on `op` in `apply_event`.
  unfoldable pub store :
      World
      → Agents T
      → String
      → AgentRecord T
      → Op
      → Outcome (Option (AgentRecord T) × Op) × Agents T
  store w agents sid r remove = (ok (none, remove), erase sid agents)
  store w agents sid r upsert = elim (resolve_identity w r) [
    | raised ↦ (raised, agents)
    | ok r' ↦ (ok (some r', upsert), insert sid r' agents)
  ]
  store w agents sid r noop = (ok (some r, noop), agents)

  unfoldable pub apply_event :
      World → Agents T → HookEvent T → T → Outcome (Option (AgentRecord T) × Op) × Agents T
  apply_event w agents event now =
      let existing = lookup event.session_id agents in
      let (r, op) = StateMachine.apply_event existing event now in
      store w (changed_in_place agents event.session_id existing r) event.session_id r op

  -- The loop stops where a look-up raises; the records before that one keep what they got.
  unfoldable pub resolve_pending_identities : World → Agents T → Outcome (Unit {0}) × Agents T
  resolve_pending_identities w [] = (ok tt, [])
  resolve_pending_identities w ((sid, r) ∷ rest) =
      let later = resolve_pending_identities w rest in
      elim (resolve_identity w r) [
        | raised ↦ (raised, (sid, r) ∷ rest)
        | ok r' ↦ (later.0, (sid, r') ∷ later.1)
      ]

  -- `rec.pid is not None and not is_pid_alive(rec.pid)`
  unfoldable pub is_dead : World → AgentRecord T → Bool
  is_dead w r = elim r.pid [ none ↦ false | some p ↦ not (is_pid_alive w (some p)) ]

  unfoldable pub dead_sessions : World → Agents T → List String
  dead_sessions w [] = []
  dead_sessions w ((sid, r) ∷ rest) =
      let later = dead_sessions w rest in elim (is_dead w r) [ true ↦ sid ∷ later | false ↦ later ]

  unfoldable pub erase_all : List String → Agents T → Agents T
  erase_all [] agents = agents
  erase_all (sid ∷ sids) agents = erase_all sids (erase sid agents)

  unfoldable pub reap_dead : World → Agents T → List String × Agents T
  reap_dead w agents = let dead = dead_sessions w agents in (dead, erase_all dead agents)
