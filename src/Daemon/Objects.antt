-- ===== src/Daemon/Objects.antt =====
-- daemon/registry.py with its records as objects: the dict holds references, and whoever got a
-- record from it sees what is changed in place later. An object's contents are at its number.
use silicon_office.Prelude.{
  ℕ, ◌+◌, String, Option, none, some, List, [], ◌∷◌, Outcome, ok, raised, eqb, if◌then◌else◌,
}
use silicon_office.Prelude.Dict.{Dict, lookup, insert, erase, map_values}
use silicon_office.Schema.{Op, upsert, remove, noop, HookEvent, AgentRecord}
use silicon_office.StateMachine
use silicon_office.Sessions.{World, resolve_identity}
use silicon_office.Registry.{Agents, dead_sessions}

abbrev pub Heap : Type 0 → Type 0
Heap T = ℕ → AgentRecord T

-- `refs` is `_agents`. The numbers from `fresh` on are those of objects still to be made.
pub record Objects (T : Type 0) : Type 0 where
  pub heap : Heap T
  pub fresh : ℕ
  pub refs : Dict ℕ

-- `self._agents.pop(sid, None)`, for each
unfoldable pub pop_each : List String → Dict ℕ → Dict ℕ
pop_each [] refs = refs
pop_each (sid ∷ sids) refs = pop_each sids (erase sid refs)

module _ {T : Type 0} where
  abbrev pub write : Heap T → ℕ → AgentRecord T → Heap T
  write heap p r q = if eqb q p then r else heap q

  -- The dict with the contents of the objects.
  unfoldable pub contents : Objects T → Agents T
  contents o = map_values o.heap o.refs

  -- The call of the state machine in `apply_event`: on the session's own object, or on one that it
  -- makes.
  unfoldable pub run_machine : Objects T → HookEvent T → T → Objects T × ℕ × Op
  run_machine o event now = elim (lookup event.session_id o.refs) [
    | none ↦
        let (r, op) = StateMachine.apply_event none event now in
        (record o { heap = write o.heap o.fresh r; fresh = o.fresh + 1 }, o.fresh, op)
    | some p ↦
        let (r, op) = StateMachine.apply_event (some (o.heap p)) event now in
        (record o { heap = write o.heap p r }, p, op)
  ]

  unfoldable pub store_object :
      World → Objects T → String → ℕ → Op → Outcome (Option ℕ × Op) × Objects T
  store_object w o sid p remove = (ok (none, remove), record o { refs = erase sid o.refs })
  store_object w o sid p upsert = elim (resolve_identity w (o.heap p)) [
    | raised ↦ (raised, o)
    | ok r ↦ (ok (some p, upsert), record o { heap = write o.heap p r; refs = insert sid p o.refs })
  ]
  store_object w o sid p noop = (ok (some p, noop), o)

  unfoldable pub apply_event :
      World → Objects T → HookEvent T → T → Outcome (Option ℕ × Op) × Objects T
  apply_event w o event now =
      let (o', p, op) = run_machine o event now in store_object w o' event.session_id p op

  -- The loop of `resolve_pending_identities`.
  unfoldable pub resolve_each : World → Heap T → Dict ℕ → Outcome (Unit {0}) × Heap T
  resolve_each w heap [] = (ok tt, heap)
  resolve_each w heap ((sid, p) ∷ rest) = elim (resolve_identity w (heap p)) [
    | raised ↦ (raised, heap)
    | ok r ↦ resolve_each w (write heap p r) rest
  ]

  unfoldable pub reap_objects : World → Objects T → List String × Objects T
  unfolding contents
  reap_objects w o =
      let dead = dead_sessions w (contents o) in (dead, record o { refs = pop_each dead o.refs })
