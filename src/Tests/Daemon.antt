-- ===== src/Tests/Daemon.antt =====
-- Tests of the state machine, the registry and the wire format.
use silicon_office.Prelude.{ℕ, String, ◌≡◌, refl, none, some, [], ◌∷◌, ◌++◌, str_dec}
use silicon_office.Prelude.Dict.{lookup, insert, erase, keys}
use silicon_office.Schema.{idle, working, upsert, HookEvent, AgentRecord}
use silicon_office.StateMachine
use silicon_office.StateMachine.{
  subagent_start, subagent_stop, post_tool_use, permission_request, stop, session_end, unknown,
  classify, new_record, refresh_cwd, project_name_from_cwd, project_name_lem, all_slashes,
  has_slash, is_empty,
}
use silicon_office.StateMachine.Steps.{apply_event_frame}
use silicon_office.StateMachine.Subagents.{Trace, run, subagent_restores}

abbrev pub event : String → String → HookEvent ℕ
event sid name = record {
  session_id = sid;
  hook_event_name = name;
  cwd = "/tmp/proj/";
  tool_name = some "Bash";
  tool_input_summary = none;
  tool_error = none;
  agent_id = none;
  agent_type = some "Explore";
  ts = 0;
  v = 1;
}

program : Unit {0}
unfolding StateMachine.apply_event StateMachine.transition classify new_record refresh_cwd
    project_name_from_cwd lookup insert erase keys str_dec
program = tt

abbrev pub started : AgentRecord ℕ
started = record {
  session_id = "s1";
  project_name = "proj";
  cwd = "/tmp/proj/";
  pid = none;
  entrypoint = "unknown";
  state = idle;
  action_label = "Idle";
  state_since = 1;
  agent_kind = "main";
  parent_session_id = none;
  label_stack = [];
}

session_start_run : StateMachine.apply_event none (event "s1" "SessionStart") 1 ≡ (started, upsert)
unfolding program
session_start_run = refl

abbrev pub busy : AgentRecord ℕ
busy = record started { state = working; action_label = "Bash Execution"; state_since = 2 }

pre_tool_use_run :
    StateMachine.apply_event (some started) (event "s1" "PreToolUse") 2 ≡ (busy, upsert)
unfolding program
pre_tool_use_run = refl

apply_event_frame_example :
    let r' = (StateMachine.apply_event (some busy) (event "s1" "Stop") 3).0 in
    (r'.session_id ≡ "s1")
    × (r'.project_name ≡ "proj")
    × (r'.pid ≡ none)
    × (r'.entrypoint ≡ "unknown")
    × (r'.agent_kind ≡ "main")
    × (r'.parent_session_id ≡ none)
    × (r'.cwd ≡ "/tmp/proj/")
unfolding str_dec
apply_event_frame_example = apply_event_frame busy (event "s1" "Stop") 3

abbrev inner : Trace ℕ
inner =
    (event "s1" "PreToolUse", 4)
    ∷ (event "s1" "SubagentStart", 5)
    ∷ (event "s1" "Stop", 6)
    ∷ (event "s1" "SubagentStop", 7)
    ∷ []

subagent_restores_example :
    let r' =
      run busy ((event "s1" "SubagentStart", 3) ∷ (inner ++ (event "s1" "SubagentStop", 8) ∷ [])) in
    (r'.action_label ≡ "Bash Execution") × (r'.label_stack ≡ [])
unfolding program StateMachine.Subagents.running_after StateMachine.Subagents.running
subagent_restores_example =
    subagent_restores busy (event "s1" "SubagentStart") 3 inner (event "s1" "SubagentStop") 8 refl
      refl refl
