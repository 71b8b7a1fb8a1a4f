-- ===== src/Installer/Files.antt =====
-- The command of installer/install_hooks.py on the files: `_load`, `_backup`, `_atomic_write`,
-- `run` and the part of `main` that chooses the paths. A file system is a dict from paths to
-- contents, and a path is a text that does not end in a slash; directories are not modelled, nor
-- are failing calls, after which the files are as they are after the calls before. Parameters:
-- `loads` and `dumps` are `json.loads` and `json.dumps(..., indent=2)`, the two tests are those
-- of Json.Equal.
use silicon_office.Prelude.{
  String, ◌<>◌, ◌==◌, Bool, not, Option, none, some, or_else, List, [], ◌∷◌, ◌++◌, if◌then◌else◌,
  ok, raised,
}
use silicon_office.Prelude.Dict.{Dict, lookup, insert, erase}
use silicon_office.Json.{Json, object, as_dict}
use silicon_office.Json.Equal.{equal}
use silicon_office.Installer.{build_updated_settings}

abbrev pub FileSystem : Type 0
FileSystem = Dict String

-- `p / name`
abbrev slashed : String → String → String
slashed p name = p <> "/" <> name

-- `_settings_path`
unfoldable pub settings_path : String → String → String → String
settings_path home scope project_root =
    if scope == "global"
    then slashed (slashed home ".claude") "settings.json"
    else slashed (slashed project_root ".claude") "settings.json"

-- `_default_emitter_path`, in the directory of the interpreter.
abbrev pub default_emitter_path : String → String
default_emitter_path bin = slashed bin "claude-vo-emit"

-- `args.emitter_path or _default_emitter_path()`
abbrev pub chosen_emitter_path : String → Option String → String
chosen_emitter_path bin given = or_else given (default_emitter_path bin)

-- `path.with_name(path.name + ".tmp")`, and the name of the backup; `ts` is the formatted time.
abbrev pub tmp_path : String → String
tmp_path path = path <> ".tmp"

abbrev pub backup_path : String → String → String
backup_path path ts = path <> ".backup." <> ts

-- What reading and parsing a file gives: a value, a `JSONDecodeError`, or another exception.
pub data Loaded : Type 0 where
  value : Json → Loaded
  decode_error other_error : Loaded

-- A call that changes a file. Writing a text and copying each empty the file before they fill it.
pub data Action : Type 0 where
  truncate : String → Action
  fill : String → String → Action
  replace : String → String → Action

-- `os.replace` of a missing file raises and changes nothing.
unfoldable pub perform : Action → FileSystem → FileSystem
perform (truncate p) fs = insert p "" fs
perform (fill p text) fs = insert p text fs
perform (replace src dst) fs = elim (lookup src fs) [
  | none ↦ fs
  | some text ↦ erase src (insert dst text fs)
]

unfoldable pub perform_all : List Action → FileSystem → FileSystem
perform_all [] fs = fs
perform_all (a ∷ as') fs = perform_all as' (perform a fs)

-- `_backup`, of what is at the path.
unfoldable pub backup : String → String → Option String → List Action
backup path ts none = []
backup path ts (some text) = truncate (backup_path path ts) ∷ fill (backup_path path ts) text ∷ []

-- `_atomic_write`
unfoldable pub atomic_write : String → String → List Action
atomic_write path text =
    truncate (tmp_path path) ∷ fill (tmp_path path) text ∷ replace (tmp_path path) path ∷ []

-- How the command ends: what it prints, or `SystemExit` from `_load`, or another exception.
pub data Report : Type 0 where
  up_to_date would did refused crashed : Report

-- `_load`, of what is at the path.
unfoldable pub load : (String → Loaded) → Option String → Loaded
load loads none = value (object [])
load loads (some text) = loads text

module _ (same_num : String → String → Bool) (num_is : String → Bool → Bool)
    (dumps : Dict Json → String) where
  -- The rest of `run`, from `updated == existing` on. `found` is what is at the path.
  unfoldable pub finish :
      String → String → Bool → Option String → Dict Json → Dict Json → Report × List Action
  finish path ts dry_run found existing updated =
      if equal same_num num_is (object updated) (object existing)
      then (up_to_date, [])
      else if dry_run
      then (would, [])
      else (did, backup path ts found ++ atomic_write path (dumps updated <> "\n"))

  module _ (repr : Json → String) where
    -- `run` after `_load`. A value that is no object raises in `setdefault`.
    unfoldable pub run_on :
        String → String → String → Bool → Bool → Option String → Json → Report × List Action
    run_on path ts emitter_path dry_run uninstall found j = elim (as_dict j) [
      | raised ↦ (crashed, [])
      | ok existing ↦ elim (build_updated_settings repr existing emitter_path (not uninstall)) [
        | raised ↦ (crashed, [])
        | ok updated ↦ finish path ts dry_run found existing updated
      ]
    ]

    -- `run`: the report, and the calls that change files, in order. The program looks at the path
    -- twice, in `_load` and in `_backup`, and finds the same.
    unfoldable pub run :
        (String → Loaded)
        → String
        → String
        → String
        → Bool
        → Bool
        → FileSystem
        → Report × List Action
    run loads path ts emitter_path dry_run uninstall fs =
        let found = lookup path fs in
        elim (load loads found) [
          | decode_error ↦ (refused, [])
          | other_error ↦ (crashed, [])
          | value j ↦ run_on path ts emitter_path dry_run uninstall found j
        ]

    -- `main`, from what `parse_args` gives: the scope, the resolved project root, the emitter's
    -- path if one is given, and the two flags. `home` and `bin` are the user's and the
    -- interpreter's directory.
    unfoldable pub main :
        (String → Loaded)
        → String
        → String
        → String
        → String
        → String
        → Option String
        → Bool
        → Bool
        → FileSystem
        → Report × List Action
    unfolding settings_path run
    main loads home bin ts scope project_root given dry_run uninstall fs =
        run loads (settings_path home scope project_root) ts (chosen_emitter_path bin given) dry_run
          uninstall fs
