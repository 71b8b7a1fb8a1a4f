-- ===== src/Sessions.antt =====
-- The part of daemon/registry.py that looks at the machine: the session files under
-- ~/.claude/sessions and the liveness of a pid. What the operating system answers is a `World`,
-- which stays the same during one call of the program's functions.
pub mod Described
use silicon_office.Prelude.{
  ℕ, zero, suc, String, ◌==◌, Bool, true, false, Option, none, some, List, [], ◌∷◌, keep, Outcome,
  ok, raised, if◌then◌else◌, or_else, get_or, ◌>>=◌,
}
use silicon_office.Schema.{AgentRecord}

-- The keys of a session file that the program reads; `none` where a key is missing. A null pid or
-- name is the same to the program as none; the other keys are taken to hold texts.
pub record SessionInfo : Type 0 where
  pub session_id : Option String
  pub cwd : Option String
  pub pid : Option ℕ
  pub entrypoint : Option String
  pub name : Option String

-- Reading and parsing a file: its data, an `OSError` or a `JSONDecodeError`, or another exception,
-- such as the `UnicodeDecodeError` of a file that is not UTF-8.
pub data FileRead : Type 0 where
  parsed : SessionInfo → FileRead
  skipped broken : FileRead

-- What `os.kill(pid, 0)` does.
pub data Kill : Type 0 where
  delivered process_lookup_error permission_error os_error : Kill

pub record World : Type 0 where
  pub sessions_dir_exists : Bool
  pub session_files : List FileRead
  pub kill : ℕ → Kill

unfoldable pub is_pid_alive : World → Option ℕ → Bool
is_pid_alive w none = false
is_pid_alive w (some zero) = false
is_pid_alive w (some (suc n)) = elim (w.kill (suc n)) [
  | delivered ↦ true
  | process_lookup_error ↦ false
  | permission_error ↦ true
  | os_error ↦ false
]

-- The loop of `_read_session_files`.
unfoldable pub parse_files : List FileRead → Outcome (List SessionInfo)
parse_files [] = ok []
parse_files (parsed info ∷ rest) = parse_files rest >>= λ infos. ok (info ∷ infos)
parse_files (skipped ∷ rest) = parse_files rest
parse_files (broken ∷ rest) = raised

unfoldable pub read_session_files : World → Outcome (List SessionInfo)
read_session_files w = if w.sessions_dir_exists then parse_files w.session_files else ok []

-- `data.get("sessionId") == session_id`
abbrev pub describes : String → SessionInfo → Bool
describes sid info = elim info.session_id [ none ↦ false | some s ↦ s == sid ]

unfoldable pub first_for : String → List SessionInfo → Option SessionInfo
first_for sid [] = none
first_for sid (info ∷ rest) = if describes sid info then some info else first_for sid rest

unfoldable pub find_session_file : World → String → Outcome (Option SessionInfo)
find_session_file w sid = read_session_files w >>= λ infos. ok (first_for sid infos)

unfoldable pub list_live_sessions : World → Outcome (List SessionInfo)
list_live_sessions w =
    read_session_files w >>= λ infos. ok (keep (λ info. is_pid_alive w info.pid) infos)

module _ {T : Type 0} where
  unfoldable pub identify : AgentRecord T → SessionInfo → AgentRecord T
  identify r info = record r {
    pid = info.pid;
    entrypoint = get_or info.entrypoint r.entrypoint;
    project_name = or_else info.name r.project_name;
  }

  -- The rest of `_resolve_identity`, from `info = find_session_file(record.session_id)` on. A file
  -- that describes the session is not an empty dict.
  unfoldable pub look_up_identity : World → AgentRecord T → Outcome (AgentRecord T)
  look_up_identity w r = find_session_file w r.session_id >>= λ found.
      ok (elim found [ none ↦ r | some info ↦ identify r info ])

  -- `_resolve_identity`: the record as it is changed in place.
  unfoldable pub resolve_identity : World → AgentRecord T → Outcome (AgentRecord T)
  resolve_identity w r = elim r.pid [ some _ ↦ ok r | none ↦ look_up_identity w r ]
