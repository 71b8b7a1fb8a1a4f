-- ===== src/Emitter/Wire.antt =====
-- The way of an event from emitter/hook_emitter.py to the daemon: `HookEvent.to_dict` and
-- `from_dict` of common/schema.py, `send_udp_fire_and_forget` of common/ipc.py, and `main`. A
-- time stamp goes as the JSON number that `stamp` gives.
use silicon_office.Prelude.{
  ℕ, String, ◌≡◌, refl, Option, none, some, get_or, [], ◌∷◌, Outcome, ok, raised, ◌>>=◌, str_dec,
}
use silicon_office.Prelude.Dict.{Dict, lookup}
use silicon_office.Json.{as_dict-object, Json, null, num, str, object, as_dict}
use silicon_office.Schema.{HookEvent, wire_version}
use silicon_office.Emitter.{Built}

-- A text, or None.
abbrev pub text_or_null : Option String → Json
text_or_null none = null
text_or_null (some s) = str s

-- `asdict`
unfoldable pub event_dict : {T : Type 0} → (T → Json) → Built T → Dict Json
event_dict stamp e =
    ("session_id", str e.session_id)
    ∷ ("hook_event_name", str e.hook_event_name)
    ∷ ("cwd", str e.cwd)
    ∷ ("tool_name", e.tool_name)
    ∷ ("tool_input_summary", text_or_null e.tool_input_summary)
    ∷ ("tool_error", text_or_null e.tool_error)
    ∷ ("agent_id", e.agent_id)
    ∷ ("agent_type", e.agent_type)
    ∷ ("ts", stamp e.ts)
    ∷ ("v", num "1")
    ∷ []

-- An event as `from_dict` makes it: dataclasses do not look at the types of their fields.
pub record RawEvent : Type 0 where
  pub session_id : Json
  pub hook_event_name : Json
  pub cwd : Json
  pub tool_name : Json
  pub tool_input_summary : Json
  pub tool_error : Json
  pub agent_id : Json
  pub agent_type : Json
  pub ts : Json
  pub v : ℕ

abbrev optional : String → Dict Json → Json
optional key d = get_or (lookup key d) null

unfoldable pub event_from : Json → Json → Dict Json → RawEvent
event_from sid name d = record {
  session_id = sid;
  hook_event_name = name;
  cwd = get_or (lookup "cwd" d) (str "");
  tool_name = optional "tool_name" d;
  tool_input_summary = optional "tool_input_summary" d;
  tool_error = optional "tool_error" d;
  agent_id = optional "agent_id" d;
  agent_type = optional "agent_type" d;
  ts = get_or (lookup "ts" d) (num "0.0");
  v = wire_version;
}

-- `HookEvent.from_dict`: other keys and "v" are dropped, and a missing argument is a `TypeError`.
unfoldable pub event_from_dict : Dict Json → Outcome RawEvent
event_from_dict d = elim (lookup "session_id" d) [
  | none ↦ raised
  | some sid ↦ elim (lookup "hook_event_name" d) [
    | none ↦ raised
    | some name ↦ ok (event_from sid name d)
  ]
]

and_then : {A B : Type 0} → Option A → (A → Option B) → Option B
and_then none f = none
and_then (some a) f = f a

text : Json → Option String
text (str s) = some s
text _ = none

optional_text : Json → Option (Option String)
optional_text null = some none
optional_text (str s) = some (some s)
optional_text _ = none

-- The state machine's view of an event that is sent.
unfoldable pub sent_event :
    {T : Type 0} → Built T → Option String → Option String → Option String → HookEvent T
sent_event e tool agent kind = record {
  session_id = e.session_id;
  hook_event_name = e.hook_event_name;
  cwd = e.cwd;
  tool_name = tool;
  tool_input_summary = e.tool_input_summary;
  tool_error = e.tool_error;
  agent_id = agent;
  agent_type = kind;
  ts = e.ts;
  v = wire_version;
}

module _ {T : Type 0} (of_stamp : Json → Option T) where
  -- An event whose fields hold what their annotations say, as the state machine reads it.
  unfoldable pub typed : RawEvent → Option (HookEvent T)
  unfolding and_then text optional_text
  typed raw = and_then (text raw.session_id) λ sid. and_then (text raw.hook_event_name) λ name.
      and_then (text raw.cwd) λ cwd. and_then (optional_text raw.tool_name) λ tool.
        and_then (optional_text raw.tool_input_summary) λ summary.
          and_then (optional_text raw.tool_error) λ failure.
            and_then (optional_text raw.agent_id) λ agent.
              and_then (optional_text raw.agent_type) λ kind. and_then (of_stamp raw.ts) λ ts.
                some (record {
                  session_id = sid;
                  hook_event_name = name;
                  cwd = cwd;
                  tool_name = tool;
                  tool_input_summary = summary;
                  tool_error = failure;
                  agent_id = agent;
                  agent_type = kind;
                  ts = ts;
                  v = raw.v;
                })

  -- What the listener makes of a message; `odd` stands for its handling of an event with a field
  -- of another type, for which there is no record of the state machine.
  unfoldable pub received_event : (RawEvent → Outcome (HookEvent T)) → Json → Outcome (HookEvent T)
  received_event odd j = as_dict j >>= λ d.
      event_from_dict d >>= λ raw. elim (typed raw) [ none ↦ odd raw | some e ↦ ok e ]

  optional_text-text_or_null : (o : Option String) → optional_text (text_or_null o) ≡ some o
  unfolding optional_text
  optional_text-text_or_null none = refl
  optional_text-text_or_null (some s) = refl

  -- An event whose tool and agent are texts or null comes through `to_dict` and `from_dict` as it
  -- is.
  pub event_roundtrip :
      (stamp : T → Json) (odd : RawEvent → Outcome (HookEvent T)) (e : Built T)
      (tool agent kind : Option String)
      → of_stamp (stamp e.ts) ≡ some e.ts
      → e.tool_name ≡ text_or_null tool
      → e.agent_id ≡ text_or_null agent
      → e.agent_type ≡ text_or_null kind
      → received_event odd (object (event_dict stamp e)) ≡ ok (sent_event e tool agent kind)
  unfolding received_event sent_event event_from_dict event_from event_dict typed lookup str_dec
      and_then text
  event_roundtrip stamp odd e tool agent kind s t a k =
      rw (as_dict-object (event_dict stamp e), received_event)
        (rw
          (
            t,
            a,
            k,
            optional_text-text_or_null tool,
            optional_text-text_or_null e.tool_input_summary,
            optional_text-text_or_null e.tool_error,
            optional_text-text_or_null agent,
            optional_text-text_or_null kind,
            s,
            and_then,
          )
          refl)
