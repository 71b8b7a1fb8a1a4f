-- ===== src/Schema.antt =====
-- common/schema.py and the states of common/constants.py: hook events, agent records, and the
-- messages between daemon and frontend. The type of time stamps (Python floats) is a parameter.
use silicon_office.Prelude.{ℕ, String, Option, List}
use silicon_office.Prelude.Dict.{Dict, map_values, map_option}

-- The four values that the daemon gives to `state`.
pub data State : Type 0 where
  idle working asking error : State

-- The texts that stand for them: STATE_IDLE, STATE_WORKING, STATE_ASKING, STATE_ERROR.
unfoldable pub state_text : State → String
state_text idle = "idle"
state_text working = "working"
state_text asking = "asking"
state_text error = "error"

-- The second result of `apply_event`, and the "op" of a diff.
pub data Op : Type 0 where
  upsert remove noop : Op

abbrev pub wire_version : ℕ
wire_version = 1

pub record HookEvent (T : Type 0) : Type 0 where
  pub session_id : String
  pub hook_event_name : String
  pub cwd : String
  pub tool_name : Option String
  pub tool_input_summary : Option String
  pub tool_error : Option String
  pub agent_id : Option String
  pub agent_type : Option String
  pub ts : T
  pub v : ℕ

-- The head of `label_stack` is the end of Python's list, where `append` and `pop` work.
pub record AgentRecord (T : Type 0) : Type 0 where
  pub session_id : String
  pub project_name : String
  pub cwd : String
  pub pid : Option ℕ
  pub entrypoint : String
  pub state : State
  pub action_label : String
  pub state_since : T
  pub agent_kind : String
  pub parent_session_id : Option String
  pub label_stack : List String

-- `to_wire_dict`: the record without its label stack. The state goes as its text.
pub record WireAgent (T : Type 0) : Type 0 where
  pub session_id : String
  pub project_name : String
  pub cwd : String
  pub pid : Option ℕ
  pub entrypoint : String
  pub state : String
  pub action_label : String
  pub state_since : T
  pub agent_kind : String
  pub parent_session_id : Option String

unfoldable pub to_wire_dict : {T : Type 0} → AgentRecord T → WireAgent T
unfolding state_text
to_wire_dict r = record {
  session_id = r.session_id;
  project_name = r.project_name;
  cwd = r.cwd;
  pid = r.pid;
  entrypoint = r.entrypoint;
  state = state_text r.state;
  action_label = r.action_label;
  state_since = r.state_since;
  agent_kind = r.agent_kind;
  parent_session_id = r.parent_session_id;
}

-- What the daemon sends, with its "v" and "ts" fields.
pub data Message (T : Type 0) : Type 0 where
  snapshot : ℕ → T → Dict (WireAgent T) → Message T
  diff : ℕ → T → String → Op → Option (WireAgent T) → Message T

unfoldable pub make_snapshot_message : {T : Type 0} → Dict (AgentRecord T) → T → Message T
make_snapshot_message agents ts = snapshot wire_version ts (map_values to_wire_dict agents)

unfoldable pub make_diff_message :
    {T : Type 0} → String → Op → Option (AgentRecord T) → T → Message T
make_diff_message session_id op agent ts =
    diff wire_version ts session_id op (map_option to_wire_dict agent)
