-- ===== src/Installer.antt =====
-- installer/install_hooks.py: the merge of the observer's hook into a settings object, and its
-- removal; the command on files is in Installer/Files. Python's `str` of a value that is no text
-- is a parameter, `repr`.
pub mod Groups
pub mod Events
pub mod Laws
pub mod Undo
pub mod Files
pub mod Paths
pub mod Actions
pub mod Crash
pub mod WellFormed
pub mod Merged
pub mod Again
use silicon_office.Prelude.{
  String, Bool, true, false, ◌||◌, Option, none, some, is_some, get_or, List, [], ◌∷◌, ◌++◌,
  Outcome, ok, raised, ◌>>=◌, if◌then◌else◌, ◌==◌,
}
use silicon_office.Prelude.Dict.{Dict, lookup, insert, erase}
use silicon_office.Json.{Json, null, bool, num, str, arr, obj, list, object, iterate, as_dict}
use text.Mathlib.Text.{starts_with}

-- HOOK_MARKER
abbrev pub hook_marker : String
hook_marker = "claude-vo-emit"

-- TARGET_HOOK_EVENTS
abbrev pub target_hook_events : List String
target_hook_events =
    "SessionStart" ∷ "SessionEnd" ∷ "UserPromptSubmit" ∷ "PreToolUse" ∷ "PostToolUse"
    ∷ "PostToolUseFailure" ∷ "PermissionRequest" ∷ "Stop" ∷ "StopFailure" ∷ "SubagentStart"
    ∷ "SubagentStop" ∷ []

-- `needle in s`
unfoldable pub occurs : String → String → Bool
occurs needle String.[] = starts_with String.[] needle
occurs needle (String.◌∷◌ c s) = starts_with (String.◌∷◌ c s) needle || occurs needle s

unfoldable pub our_group : String → Json
our_group emitter_path = object (
    (
      "hooks",
      list (
          object
            (("type", str "command") ∷ ("command", str emitter_path) ∷ ("async", bool true) ∷ [])
          ∷ []),
    )
    ∷ [])

-- The body of the loop in `_strip_ours`: what a group leaves in `kept`, and the rest of it.
unfoldable pub keep_group : Dict Json → List Json → List Json → List Json
keep_group group [] kept = kept
keep_group group (h ∷ hs) kept = object (insert "hooks" (list (h ∷ hs)) group) ∷ kept

unfoldable pub put_groups : String → List Json → Dict Json → Dict Json
put_groups event [] hooks = erase event hooks
put_groups event (g ∷ gs) hooks = insert event (list (g ∷ gs)) hooks

-- `updated` with its "hooks" as the loop left them; `if not hooks: updated.pop("hooks", None)`.
unfoldable pub put_hooks : Dict Json → Dict Json → Dict Json
put_hooks settings [] = erase "hooks" settings
put_hooks settings (h ∷ hs) = insert "hooks" (object (h ∷ hs)) settings

module _ (repr : Json → String) where
  -- str(v)
  unfoldable pub text_of : Json → String
  text_of (str s) = s
  text_of v = repr v

  unfoldable pub is_ours : Json → Outcome Bool
  is_ours entry = as_dict entry >>= λ d.
      ok (occurs hook_marker (text_of (get_or (lookup "command" d) (str ""))))

  -- `[h for h in hooks if not _is_ours(h)]`
  unfoldable pub foreign : List Json → Outcome (List Json)
  foreign [] = ok []
  foreign (h ∷ hs) =
      let rest = foreign hs in
      is_ours h >>= λ ours. rest >>= λ kept. ok (if ours then kept else h ∷ kept)

  unfoldable pub strip_groups : List Json → Outcome (List Json)
  strip_groups [] = ok []
  strip_groups (g ∷ gs) =
      let later = strip_groups gs in
      as_dict g >>= λ group. iterate (get_or (lookup "hooks" group) (list [])) >>= λ hooks.
      foreign hooks >>= λ remaining. later >>= λ kept. ok (keep_group group remaining kept)

  unfoldable pub strip_ours : Json → Outcome (List Json)
  strip_ours groups = iterate groups >>= strip_groups

  -- The groups of an event after the merge, from what `hooks.get(event, [])` finds.
  unfoldable pub merged_groups : String → Bool → Option Json → Outcome (List Json)
  merged_groups emitter_path install found = strip_ours (get_or found (list [])) >>= λ groups.
      ok (if install then groups ++ our_group emitter_path ∷ [] else groups)

  -- The loop over the target events, on the dict `hooks`.
  unfoldable pub update_events : String → Bool → List String → Dict Json → Outcome (Dict Json)
  update_events emitter_path install [] hooks = ok hooks
  update_events emitter_path install (event ∷ events) hooks =
      merged_groups emitter_path install (lookup event hooks) >>= λ groups.
      update_events emitter_path install events (put_groups event groups hooks)

  unfoldable pub build_updated_settings : Dict Json → String → Bool → Outcome (Dict Json)
  build_updated_settings settings emitter_path install =
      as_dict (get_or (lookup "hooks" settings) (object [])) >>= λ hooks.
      update_events emitter_path install target_hook_events hooks >>= λ hooks'.
      ok (put_hooks settings hooks')
