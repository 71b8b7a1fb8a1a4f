-- ===== src/Emitter.antt =====
-- emitter/hook_emitter.py: the event that a hook invocation sends, from the payload it gets.
-- Python's `str` of a value that is no text, and whether a number's literal stands for zero, are
-- parameters. The fields that the program hands on unread keep their JSON value.
pub mod Wire
pub mod Main
use silicon_office.Prelude.{
  ℕ, zero, suc, ◌≤◌, String, ◌==◌, ◌≡◌, Bool, true, false, not, ◌&&◌, Option, none, some, is_some,
  get_or, List, [], ◌∷◌, eqb, if◌then◌else◌, arith, ◌<>◌, Bool-cases, Option-cases, inl, inr,
}
use silicon_office.Prelude.Dict.{Dict, lookup}
use silicon_office.Json.{Json, to_dict, null, bool, num, str, arr, obj, nil, cons, end, field}
use silicon_office.Sprites.{columns}
use Prim.Native.Char.{code}

abbrev pub summary_max_len : ℕ
summary_max_len = 2000

abbrev summary_keys : List String
summary_keys = "command" ∷ "file_path" ∷ "pattern" ∷ "url" ∷ "prompt" ∷ "query" ∷ []

-- `s[:n]`
unfoldable pub prefix : ℕ → String → String
prefix zero s = String.[]
prefix (suc n) String.[] = String.[]
prefix (suc n) (String.◌∷◌ c s) = String.◌∷◌ c (prefix n s)

-- `text.replace("\n", " ")`
unfoldable pub spaced : String → String
spaced String.[] = String.[]
spaced (String.◌∷◌ c s) =
    let rest = spaced s in if eqb (code c) 10 then " " <> rest else String.◌∷◌ c rest

-- The truth value of what `get` returns; `none` is a missing key.
unfoldable pub truthy : (String → Bool) → Option Json → Bool
truthy is_zero none = false
truthy is_zero (some null) = false
truthy is_zero (some (bool b)) = b
truthy is_zero (some (num n)) = not (is_zero n)
truthy is_zero (some (str s)) = not (s == "")
truthy is_zero (some (arr nil)) = false
truthy is_zero (some (arr (cons _ _))) = true
truthy is_zero (some (obj end)) = false
truthy is_zero (some (obj (field _ _ _))) = true

-- The `HookEvent` that is built, with the defaults that it has for the rest.
pub record Built (T : Type 0) : Type 0 where
  pub session_id : String
  pub hook_event_name : String
  pub cwd : String
  pub tool_name : Json
  pub tool_input_summary : Option String
  pub tool_error : Option String
  pub agent_id : Json
  pub agent_type : Json
  pub ts : T

-- A text that is there is no longer than the limit.
abbrev pub IsShort : Option String → Type 0
IsShort none = Unit
IsShort (some s) = columns s ≤ summary_max_len

-- The texts of an event that is built are no longer than the limit.
abbrev pub IsWithinLimits : {T : Type 0} → Option (Built T) → Type 0
IsWithinLimits none = Unit
IsWithinLimits (some e) = IsShort e.tool_input_summary × IsShort e.tool_error

module _ (repr : Json → String) (is_zero : String → Bool) where
  -- `str(v)`
  unfoldable pub text_of : Json → String
  text_of (str s) = s
  text_of v = repr v

  -- The loop over `_SUMMARY_KEYS`: the first of them that has a text.
  unfoldable pub first_text : List String → Dict Json → Option String
  first_text [] d = none
  first_text (key ∷ keys) d =
      let later = first_text keys d in elim (lookup key d) [ some (str s) ↦ some s | _ ↦ later ]

  unfoldable pub summarize_dict : Dict Json → Json → String
  summarize_dict d v = elim (first_text summary_keys d) [
    | some s ↦ prefix summary_max_len s
    | none ↦ prefix summary_max_len (spaced (text_of v))
  ]

  -- `_summarize_tool_input`; a missing "tool_input" is null.
  unfoldable pub summarize_tool_input : Json → Option String
  summarize_tool_input null = none
  summarize_tool_input (obj fs) = some (summarize_dict (to_dict fs) (obj fs))
  summarize_tool_input v = some (prefix summary_max_len (spaced (text_of v)))

  -- `str(tool_error)[:_SUMMARY_MAX_LEN]`, of an error that is not null.
  unfoldable pub cut_error : Json → Option String
  cut_error null = none
  cut_error v = some (prefix summary_max_len (text_of v))

  -- `str(payload.get("cwd") or "")`
  unfoldable pub cwd_text : Option Json → String
  cwd_text o = if truthy is_zero o then text_of (get_or o null) else ""

  unfoldable pub event_of : {T : Type 0} → Dict Json → T → Built T
  event_of payload now = record {
    session_id = text_of (get_or (lookup "session_id" payload) null);
    hook_event_name = text_of (get_or (lookup "hook_event_name" payload) null);
    cwd = cwd_text (lookup "cwd" payload);
    tool_name = get_or (lookup "tool_name" payload) null;
    tool_input_summary = summarize_tool_input (get_or (lookup "tool_input" payload) null);
    tool_error = cut_error (get_or (lookup "tool_error" payload) null);
    agent_id = get_or (lookup "agent_id" payload) null;
    agent_type = get_or (lookup "agent_type" payload) null;
    ts = now;
  }

  unfoldable pub build_hook_event : {T : Type 0} → Dict Json → T → Option (Built T)
  build_hook_event payload now =
      if truthy is_zero (lookup "session_id" payload)
        && truthy is_zero (lookup "hook_event_name" payload)
      then some (event_of payload now)
      else none

  columns-prefix : (n : ℕ) (s : String) → columns (prefix n s) ≤ n
  unfolding columns prefix
  columns-prefix zero s = omega arith
  columns-prefix (suc n) String.[] = omega arith
  columns-prefix (suc n) (String.◌∷◌ c s) = omega (arith, columns-prefix n s)

  summarize-IsShort : (v : Json) → IsShort (summarize_tool_input v)
  unfolding summarize_tool_input summarize_dict
  summarize-IsShort null = tt
  summarize-IsShort (obj fs) = elim (Option-cases (first_text summary_keys (to_dict fs))) [
    | inl e ↦ rw (e, summarize_dict) (columns-prefix summary_max_len _)
    | inr (s, e) ↦ rw (e, summarize_dict) (columns-prefix summary_max_len s)
  ]
  summarize-IsShort (bool b) = columns-prefix summary_max_len _
  summarize-IsShort (num n) = columns-prefix summary_max_len _
  summarize-IsShort (str s) = columns-prefix summary_max_len _
  summarize-IsShort (arr xs) = columns-prefix summary_max_len _

  cut_error-IsShort : (v : Json) → IsShort (cut_error v)
  unfolding cut_error
  cut_error-IsShort null = tt
  cut_error-IsShort (obj fs) = columns-prefix summary_max_len _
  cut_error-IsShort (bool b) = columns-prefix summary_max_len _
  cut_error-IsShort (num n) = columns-prefix summary_max_len _
  cut_error-IsShort (str s) = columns-prefix summary_max_len _
  cut_error-IsShort (arr xs) = columns-prefix summary_max_len _

  -- An event is built exactly if the session id and the event's name are there and not empty,
  -- null, zero or false, whatever else the payload holds; its summary and its error are then no
  -- longer than the limit.
  pub build_hook_event_lem :
      {T : Type 0} (payload : Dict Json) (now : T)
      → (is_some (build_hook_event payload now) ≡ (
          truthy is_zero (lookup "session_id" payload)
          && truthy is_zero (lookup "hook_event_name" payload)))
        × IsWithinLimits (build_hook_event payload now)
  unfolding build_hook_event event_of
  build_hook_event_lem payload now = (
    ground arith,
    elim (Bool-cases (
        truthy is_zero (lookup "session_id" payload)
        && truthy is_zero (lookup "hook_event_name" payload))) [
          | inl q ↦ rw (q, build_hook_event) (summarize-IsShort _, cut_error-IsShort _)
          | inr q ↦ rw (q, build_hook_event) tt
        ],
  )
