-- ===== src/StateMachine.antt =====
-- daemon/state_machine.py: labels, project names, and the transition that a hook event makes on an
-- agent record. The chain of tests on the event's name is `classify`, and its branches are
-- `transition`. The program's `record` is changed in place: the result holds its new contents.
mod Names
pub mod Steps
pub mod Subagents
use silicon_office.Prelude.{
  String, ◌<>◌, Bool, true, false, Option, none, some, List, [], ◌∷◌, ◌==◌, if◌then◌else◌, or_else,
  get_or,
}
use silicon_office.Prelude.Dict.{Dict, lookup}
use silicon_office.Schema.{
  State, idle, working, asking, error, Op, upsert, remove, noop, HookEvent, AgentRecord,
}
pub use Names.{project_name_lem}
unfoldable pub use Names.{project_name_from_cwd, has_slash, all_slashes, is_empty}

abbrev tool_labels : Dict String
tool_labels =
    ("Bash", "Bash Execution")
    ∷ ("Read", "Reading File")
    ∷ ("Write", "Editing File")
    ∷ ("Edit", "Editing File")
    ∷ ("Grep", "Searching")
    ∷ ("Glob", "Searching")
    ∷ ("WebFetch", "Web Research")
    ∷ ("WebSearch", "Web Research")
    ∷ ("Task", "Delegating to subagent")
    ∷ []

label_for_tool : Option String → String
unfolding lookup
label_for_tool none = "Working"
label_for_tool (some name) =
    if name == "" then "Working" else get_or (lookup name tool_labels) ("Using " <> name)

-- The names that `apply_event` tests for, in its order; any other name is `unknown`.
pub data HookKind : Type 0 where
  session_start user_prompt_submit pre_tool_use post_tool_use : HookKind
  post_tool_use_failure permission_request stop stop_failure : HookKind
  subagent_start subagent_stop session_end unknown : HookKind

abbrev kinds : Dict HookKind
kinds =
    ("SessionStart", session_start)
    ∷ ("UserPromptSubmit", user_prompt_submit)
    ∷ ("PreToolUse", pre_tool_use)
    ∷ ("PostToolUse", post_tool_use)
    ∷ ("PostToolUseFailure", post_tool_use_failure)
    ∷ ("PermissionRequest", permission_request)
    ∷ ("Stop", stop)
    ∷ ("StopFailure", stop_failure)
    ∷ ("SubagentStart", subagent_start)
    ∷ ("SubagentStop", subagent_stop)
    ∷ ("SessionEnd", session_end)
    ∷ []

unfoldable pub classify : String → HookKind
unfolding lookup
classify name = get_or (lookup name kinds) unknown

module _ {T : Type 0} where
  -- The record of a session that is met for the first time.
  unfoldable pub new_record : HookEvent T → T → AgentRecord T
  unfolding project_name_from_cwd
  new_record event now = record {
    session_id = event.session_id;
    project_name = project_name_from_cwd event.cwd;
    cwd = event.cwd;
    pid = none;
    entrypoint = "unknown";
    state = idle;
    action_label = "Idle";
    state_since = now;
    agent_kind = "main";
    parent_session_id = none;
    label_stack = [];
  }

  -- `elif event.cwd: record.cwd = event.cwd`
  unfoldable pub refresh_cwd : AgentRecord T → HookEvent T → AgentRecord T
  refresh_cwd r event = if event.cwd == "" then r else record r { cwd = event.cwd }

  enter : State → String → T → AgentRecord T → AgentRecord T
  enter s label now r = record r { state = s; action_label = label; state_since = now }

  -- `self.label_stack.pop() if self.label_stack else "Working"`, with the assignments around it.
  pop_label : T → List String → AgentRecord T → AgentRecord T
  pop_label now [] r = record r { action_label = "Working"; state_since = now }
  pop_label now (label ∷ rest) r = record r {
    action_label = label;
    state_since = now;
    label_stack = rest;
  }

  -- `if record.state != STATE_WORKING`
  resume : State → T → AgentRecord T → AgentRecord T
  resume working now r = r
  resume _ now r = record r { state = working; state_since = now }

  -- The branches: the record as the event leaves it, and the op. `fresh` is `is_new`.
  unfoldable pub transition : HookKind → Bool → HookEvent T → T → AgentRecord T → AgentRecord T × Op
  unfolding label_for_tool enter pop_label resume
  transition session_start fresh event now r = (enter idle "Idle" now r, upsert)
  transition user_prompt_submit fresh event now r =
      (enter working "Processing prompt" now r, upsert)
  transition pre_tool_use fresh event now r =
      (enter working (label_for_tool event.tool_name) now r, upsert)
  transition post_tool_use fresh event now r = (resume r.state now r, upsert)
  transition post_tool_use_failure fresh event now r =
      (enter error ("Tool error: " <> or_else event.tool_name "unknown") now r, upsert)
  transition permission_request fresh event now r =
      (enter asking ("Awaiting approval: " <> or_else event.tool_name "tool") now r, upsert)
  transition stop fresh event now r = (enter idle "Idle" now r, upsert)
  transition stop_failure fresh event now r =
      (enter error "Session error (API failure)" now r, upsert)
  transition subagent_start fresh event now r =
      let label = "Working: subagent (" <> or_else event.agent_type "agent" <> ")" in
      let pushed = record r { label_stack = r.action_label ∷ r.label_stack } in
      (enter working label now pushed, upsert)
  transition subagent_stop fresh event now r = (pop_label now r.label_stack r, upsert)
  transition session_end fresh event now r = (r, remove)
  transition unknown fresh event now r = (r, if fresh then upsert else noop)

  -- `apply_event`: the record's new contents, also where the program returns `None` for it (on
  -- "remove"), and the op.
  unfoldable pub apply_event : Option (AgentRecord T) → HookEvent T → T → AgentRecord T × Op
  apply_event none event now =
      transition (classify event.hook_event_name) true event now (new_record event now)
  apply_event (some r) event now =
      transition (classify event.hook_event_name) false event now (refresh_cwd r event)
