-- ===== src/FakeSession.antt =====
-- tools/fake_session.py: made-up hook payloads, driven through the emitter's and the daemon's
-- code. Keyword arguments are a dict; `time.sleep` and the prints are left out, and so is the
-- choice of a session id where none is given.
pub mod Shows
pub mod Steps
pub mod Lifecycle
pub mod Crash
use silicon_office.Prelude.{
  ℕ, ap, false, String, ◌==◌, ◌≡◌, Bool, Option, none, some, List, [], ◌∷◌, ◌++◌, Outcome, ok, map,
  ◌||◌, if◌then◌else◌,
}
use silicon_office.Prelude.Dict.{Dict, insert}
use silicon_office.Json.{Json, null, str, object}
use silicon_office.Schema.{HookEvent, Message}
use silicon_office.Sessions.{World}
use silicon_office.Registry.{Agents}
use silicon_office.Daemon.{on_event}
use silicon_office.Emitter.{build_hook_event, Built}
use silicon_office.Emitter.Wire.{event_dict, RawEvent, received_event}
use silicon_office.Emitter.Main.{Stdin, text, main, send_event, read_payload-text}
use silicon_office.Usage.Scan.{is_blank}

-- `payload.update({k: v for k, v in extra.items() if v is not None})`
unfoldable pub update : Dict Json → Dict Json → Dict Json
update payload [] = payload
update payload ((k, null) ∷ extra) = update payload extra
update payload ((k, v) ∷ extra) = update (insert k v payload) extra

unfoldable pub make_payload : String → String → String → Dict Json → Dict Json
make_payload session_id hook_event_name cwd extra =
    update
      (("session_id", str session_id)
        ∷ ("hook_event_name", str hook_event_name)
        ∷ ("cwd", str cwd)
        ∷ [])
      extra

pub data Mode : Type 0 where
  via_emitter direct_udp : Mode

module _ {T : Type 0} (dumps : Json → List ℕ) (stamp : T → Json) (repr : Json → String)
    (is_zero : String → Bool) (print : Json → String) (parse : String → Outcome Json) where
  -- `fire`: the datagram that it sends; `print` is `json.dumps`, for the emitter's stdin.
  unfoldable pub fire : Mode → Dict Json → T → Option (List ℕ)
  fire via_emitter payload now =
      main dumps stamp repr is_zero parse (text (print (object payload))) now
  fire direct_udp payload now = send_event dumps stamp (build_hook_event repr is_zero payload now)

  -- Both ways of delivering a payload send the same, if `json.loads` reads back what `json.dumps`
  -- wrote of it.
  pub fire_modes :
      (payload : Dict Json) (now : T)
      → is_blank (print (object payload)) ≡ false
      → parse (print (object payload)) ≡ ok (object payload)
      → fire via_emitter payload now ≡ fire direct_udp payload now
  unfolding fire main
  fire_modes payload now b p =
      ap (λ d. send_event dumps stamp (build_hook_event repr is_zero d now))
        (read_payload-text parse (print (object payload)) payload b p)

abbrev pub tool : String → Json → Dict Json
tool name input = ("tool_name", str name) ∷ ("tool_input", input) ∷ []

abbrev pub tool_named : String → Dict Json
tool_named name = ("tool_name", str name) ∷ []

-- The steps of `run_full_lifecycle`: the event's name and the rest of the payload.
abbrev pub lifecycle_steps : List (String × Dict Json)
lifecycle_steps =
    ("SessionStart", [])
    ∷ ("UserPromptSubmit", [])
    ∷ ("PreToolUse", tool "Bash" (object (("command", str "npm test") ∷ [])))
    ∷ ("PostToolUse", tool_named "Bash")
    ∷ ("PreToolUse", tool "Read" (object (("file_path", str "/tmp/foo.txt") ∷ [])))
    ∷ ("PostToolUse", tool_named "Read")
    ∷ ("PermissionRequest", tool "Bash" (object (("command", str "rm -rf build") ∷ [])))
    ∷ (
      "PostToolUseFailure",
      ("tool_name", str "Bash") ∷ ("tool_error", str "Command exited with code 1") ∷ [],
    )
    ∷ ("Stop", [])
    ∷ ("SessionEnd", [])
    ∷ []

-- The payloads of `run_full_lifecycle`, in order.
abbrev pub full_lifecycle : String → String → List (Dict Json)
full_lifecycle session_id cwd = map (λ s. make_payload session_id s.0 cwd s.1) lifecycle_steps

-- `run_multi`: a session and its directory.
abbrev pub Fake : Type 0
Fake = String × String

unfoldable pub spawned : List Fake → List (Dict Json)
spawned [] = []
spawned ((sid, cwd) ∷ sessions) =
    make_payload sid "SessionStart" cwd []
    ∷ make_payload sid "UserPromptSubmit" cwd []
    ∷ spawned sessions

unfoldable pub ended : List Fake → List (Dict Json)
ended [] = []
ended ((sid, cwd) ∷ sessions) = make_payload sid "SessionEnd" cwd [] ∷ ended sessions

-- `name in ("PreToolUse", "PostToolUseFailure")`
unfoldable pub extra_for : String → String → Dict Json
extra_for name tool_name =
    if name == "PreToolUse" || name == "PostToolUseFailure"
    then ("tool_name", str tool_name) ∷ []
    else []

-- The rounds of the loop until the interrupt, each with the session, the name and the tool that
-- the random choices give.
unfoldable pub chosen : List (Fake × String × String) → List (Dict Json)
chosen [] = []
chosen (((sid, cwd), name, tool_name) ∷ rounds) =
    make_payload sid name cwd (extra_for name tool_name) ∷ chosen rounds

-- `run_multi`, stopped by an interrupt between two rounds.
unfoldable pub run_multi : List Fake → List (Fake × String × String) → List (Dict Json)
run_multi sessions rounds = spawned sessions ++ chosen rounds ++ ended sessions
