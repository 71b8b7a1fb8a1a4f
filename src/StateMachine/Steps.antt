-- ===== src/StateMachine/Steps.antt =====
-- What one event does to the record of daemon/state_machine.py, over all its branches.
use silicon_office.Prelude.{
  ◌≡◌, ◌≢◌, ◌↔◌, ◌⊎◌, Option, none, some, arith, is_some, true, if◌then◌else◌, ◌==◌,
}
use silicon_office.Schema.{working, asking, remove, noop, HookEvent, AgentRecord}
use silicon_office.StateMachine.{
  HookKind, post_tool_use, permission_request, session_end, unknown, classify, new_record,
  refresh_cwd, transition, apply_event,
}

module _ {T : Type 0} where
  abbrev pub kind_of : HookEvent T → HookKind
  kind_of event = classify event.hook_event_name

  -- The op is "remove" exactly for SessionEnd, and "noop" exactly for an unknown event of a
  -- session that has a record.
  pub apply_event_op :
      (existing : Option (AgentRecord T)) (event : HookEvent T) (now : T)
      → (((apply_event existing event now).1 ≡ remove) ↔ (kind_of event ≡ session_end))
        × (((apply_event existing event now).1 ≡ noop)
            ↔ ((is_some existing ≡ true) × (kind_of event ≡ unknown)))
  unfolding apply_event transition
  apply_event_op none event now = ground arith
  apply_event_op (some r) event now = ground arith

  -- Identity, project name, pid, entry point and lineage of a known record stay, and its directory
  -- changes to the event's unless that is empty.
  pub apply_event_frame :
      (r : AgentRecord T) (event : HookEvent T) (now : T)
      → let r' = (apply_event (some r) event now).0 in
        (r'.session_id ≡ r.session_id)
        × (r'.project_name ≡ r.project_name)
        × (r'.pid ≡ r.pid)
        × (r'.entrypoint ≡ r.entrypoint)
        × (r'.agent_kind ≡ r.agent_kind)
        × (r'.parent_session_id ≡ r.parent_session_id)
        × (r'.cwd ≡ (if event.cwd == "" then r.cwd else event.cwd))
  unfolding apply_event transition refresh_cwd
  apply_event_frame r event now = ground arith

  -- A change of a known record's state is stamped: either neither state nor time stamp changed, or
  -- the time stamp is the time `now` at which the event is applied.
  pub apply_event_since :
      (r : AgentRecord T) (event : HookEvent T) (now : T)
      → let r' = (apply_event (some r) event now).0 in
        ((r'.state ≡ r.state) × (r'.state_since ≡ r.state_since)) ⊎ (r'.state_since ≡ now)
  unfolding apply_event transition refresh_cwd
  apply_event_since r event now = ground arith

  -- PostToolUse in the middle of a turn changes nothing but the directory, the time stamp
  -- included.
  pub post_tool_use_mid_turn :
      (r : AgentRecord T) (event : HookEvent T) (now : T)
      → kind_of event ≡ post_tool_use
      → r.state ≡ working
      → (apply_event (some r) event now).0 ≡ refresh_cwd r event
  unfolding apply_event transition refresh_cwd
  post_tool_use_mid_turn r event now k w = ground arith

  -- A session that is not asking, new or known, is asking after an event exactly if that event is
  -- a PermissionRequest.
  pub asking_entered :
      (existing : Option (AgentRecord T)) (event : HookEvent T) (now : T)
      → ((r : AgentRecord T) → existing ≡ some r → r.state ≢ asking)
      → ((apply_event existing event now).0.state ≡ asking) ↔ (kind_of event ≡ permission_request)
  unfolding apply_event transition new_record refresh_cwd
  asking_entered none event now h = ground arith
  asking_entered (some r) event now h = ground (arith, h r)
