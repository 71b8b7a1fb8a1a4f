-- ===== src/FakeSession/Steps.antt =====
-- The payloads of tools/fake_session.py as events: the steps of the full lifecycle.
use silicon_office.Prelude.{
  String, ◌==◌, ◌≡◌, refl, false, Option, none, some, get_or, List, [], ◌∷◌, All, str_dec,
}
use mathlib.Core.List.{zip}
use silicon_office.Prelude.Dict.{Dict, lookup, insert}
use silicon_office.Json.{Json, null, str, object}
use silicon_office.Schema.{State, idle, working, asking, error}
use silicon_office.StateMachine.{classify}
use silicon_office.Emitter.Wire.{text_or_null}
use silicon_office.FakeSession.Shows.{told}
use silicon_office.FakeSession.{tool, tool_named, make_payload, full_lifecycle, update}

-- A payload of a session, whose event has a name and, if any, a tool that is a text.
pub record IsStep (sid name : String) (payload : Dict Json) : Type 0 where
  pub tool : Option String
  pub own_id : lookup "session_id" payload ≡ some (str sid)
  pub own_name : lookup "hook_event_name" payload ≡ some (str name)
  pub named : (name == "") ≡ false
  pub tool_name : get_or (lookup "tool_name" payload) null ≡ text_or_null tool
  pub agent_id : get_or (lookup "agent_id" payload) null ≡ null
  pub agent_type : get_or (lookup "agent_type" payload) null ≡ null

-- Each payload is a step of the session, and its event leaves the session in the state beside it.
abbrev pub IsTold : String → (Dict Json × State) → Type 0
IsTold sid (payload, s) =
    (name : String) × IsStep sid name payload × (told (classify name) ≡ some s)

-- A step with one of the tools or none.
step :
    (sid cwd name : String) (extra : Dict Json) (s : State) (tool : Option String)
    → (name == "") ≡ false
    → get_or (lookup "tool_name" (make_payload sid name cwd extra)) null ≡ text_or_null tool
    → lookup "session_id" (make_payload sid name cwd extra) ≡ some (str sid)
    → lookup "hook_event_name" (make_payload sid name cwd extra) ≡ some (str name)
    → get_or (lookup "agent_id" (make_payload sid name cwd extra)) null ≡ null
    → get_or (lookup "agent_type" (make_payload sid name cwd extra)) null ≡ null
    → told (classify name) ≡ some s
    → IsTold sid (make_payload sid name cwd extra, s)
step sid cwd name extra s tool e t i n a k h = (
  name,
  record {
    tool = tool;
    own_id = i;
    own_name = n;
    named = e;
    tool_name = t;
    agent_id = a;
    agent_type = k;
  },
  h,
)

-- The steps of `run_full_lifecycle` but the last, with the states.
abbrev pub told_steps : String → String → List (Dict Json × State)
told_steps sid cwd =
    zip (full_lifecycle sid cwd)
      (idle ∷ working ∷ working ∷ working ∷ working ∷ working ∷ asking ∷ error ∷ idle ∷ [])

pub told_steps-IsTold : (sid cwd : String) → All (IsTold sid) (told_steps sid cwd)
unfolding make_payload update lookup insert str_dec classify told zip
told_steps-IsTold sid cwd = (
  step sid cwd "SessionStart" [] idle none refl refl refl refl refl refl refl,
  (
    step sid cwd "UserPromptSubmit" [] working none refl refl refl refl refl refl refl,
    (
      step sid cwd "PreToolUse" (tool "Bash" (object (("command", str "npm test") ∷ []))) working
          (some "Bash") refl refl refl refl refl refl refl,
      (
        step sid cwd "PostToolUse" (tool_named "Bash") working (some "Bash") refl refl refl refl
            refl refl refl,
        (
          step sid cwd "PreToolUse" (tool "Read" (object (("file_path", str "/tmp/foo.txt") ∷ [])))
              working (some "Read") refl refl refl refl refl refl refl,
          (
            step sid cwd "PostToolUse" (tool_named "Read") working (some "Read") refl refl refl refl
                refl refl refl,
            (
              step sid cwd "PermissionRequest"
                  (tool "Bash" (object (("command", str "rm -rf build") ∷ []))) asking (some "Bash")
                  refl refl refl refl refl refl refl,
              (
                step sid cwd "PostToolUseFailure"
                    (("tool_name", str "Bash")
                      ∷ ("tool_error", str "Command exited with code 1")
                      ∷ [])
                    error (some "Bash") refl refl refl refl refl refl refl,
                (step sid cwd "Stop" [] idle none refl refl refl refl refl refl refl, tt),
              ),
            ),
          ),
        ),
      ),
    ),
  ),
)

pub last-IsStep :
    (sid cwd : String) → IsStep sid "SessionEnd" (make_payload sid "SessionEnd" cwd [])
unfolding make_payload update lookup str_dec
last-IsStep sid cwd = record {
  tool = none;
  own_id = refl;
  own_name = refl;
  named = refl;
  tool_name = refl;
  agent_id = refl;
  agent_type = refl;
}
