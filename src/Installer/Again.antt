-- ===== src/Installer/Again.antt =====
-- The command of installer/install_hooks.py, run a second time on the files that it left.
use silicon_office.Prelude.{
  arith, ap, refl, ◌∙◌, none, String, ◌<>◌, ◌≡◌, refl, Bool, true, false, some, [], ok,
}
use silicon_office.Prelude.Dict.{Dict, lookup}
use silicon_office.Json.{as_dict-object, Json, object}
use silicon_office.Json.Equal.{equal, IsWellFormed, equal_self}
use silicon_office.Installer.{hook_marker, occurs, build_updated_settings}
use silicon_office.Installer.Laws.{install_idempotent}
use silicon_office.Installer.WellFormed.{as_dict-IsDict, object-IsWellFormed}
use silicon_office.Installer.Merged.{build_updated_settings-IsDict}
use Prim.Native.String.append
use silicon_office.Installer.Files.{
  default_emitter_path, settings_path, main, FileSystem, Loaded, value, perform_all, up_to_date,
  load, finish, run_on, run,
}
use silicon_office.Installer.Crash.{IsWriting, result, done_at_path}

-- A run that reads settings which the installation leaves as they are.
run_current :
    (same_num : String → String → Bool) (num_is : String → Bool → Bool) (dumps : Dict Json → String)
    (repr : Json → String) (loads : String → Loaded) (path ts emitter_path text : String)
    (dry_run : Bool) (fs : FileSystem) (current : Dict Json)
    → lookup path fs ≡ some text
    → loads text ≡ value (object current)
    → build_updated_settings repr current emitter_path true ≡ ok current
    → equal same_num num_is (object current) (object current) ≡ true
    → run same_num num_is dumps repr loads path ts emitter_path dry_run false fs ≡ (up_to_date, [])
unfolding run run_on finish load
run_current same_num num_is dumps repr loads path ts emitter_path text dry_run fs current l r b s =
    rw (l, run)
      (rw (r, run) (rw (as_dict-object current, run_on) (rw (b, run_on) (rw (s, finish) refl))))

module _ (same_num : String → String → Bool) (num_is : String → Bool → Bool)
    (dumps : Dict Json → String) (repr : Json → String) (loads : String → Loaded)
    (path ts emitter_path : String) (fs : FileSystem)
    (w : IsWriting same_num num_is dumps repr loads path ts emitter_path false false fs) where
  -- If the emitter's path holds the marker, `json.loads` reads back what `json.dumps` and the
  -- final newline wrote, a number equals itself and the new settings name no key twice, then a
  -- second run finds the settings up to date.
  install_again :
      (later : String) (dry_run : Bool)
      → occurs hook_marker emitter_path ≡ true
      → loads (dumps w.updated <> "\n") ≡ value (object w.updated)
      → ((n : String) → same_num n n ≡ true)
      → IsWellFormed w.settings
      → run same_num num_is dumps repr loads path later emitter_path dry_run false (
          perform_all
            (result same_num num_is dumps repr loads path ts emitter_path false false fs).1
            fs)
        ≡ (up_to_date, [])
  install_again later dry_run m round s f =
      let before = as_dict-IsDict w.settings w.existing f w.is_dict in
      let after =
        build_updated_settings-IsDict repr w.existing emitter_path true w.updated before w.built in
      let (there, _, _) =
        done_at_path same_num num_is dumps repr loads path ts emitter_path false false fs w in
      run_current same_num num_is dumps repr loads path later emitter_path _ dry_run _ w.updated
        there round (install_idempotent repr w.existing emitter_path w.updated m w.built)
        (equal_self same_num num_is s (object w.updated) (object-IsWellFormed w.updated after))

-- The emitter's path that the command infers is always recognised as its own.
occurs-default : (bin : String) → occurs hook_marker (default_emitter_path bin) ≡ true
unfolding occurs
occurs-default String.[] = refl
occurs-default (String.◌∷◌ c bin) =
    ap (occurs hook_marker) (append.cons c bin "/claude-vo-emit")
    ∙ ground (arith, occurs-default bin)

module _ (same_num : String → String → Bool) (num_is : String → Bool → Bool)
    (dumps : Dict Json → String) (repr : Json → String) (loads : String → Loaded)
    (home bin ts scope project_root : String) (fs : FileSystem)
    (w : IsWriting same_num num_is dumps repr loads
      (settings_path home scope project_root)
      ts
      (default_emitter_path bin)
      false
      false
      fs) where
  -- Installing writes once: if `json.loads` reads back the new settings from what `json.dumps`
  -- and the final newline wrote, a number equals itself and the settings that were loaded name no
  -- key twice, then after a run that installs the inferred emitter, the command for the same
  -- settings file, at any time and dry or not, finds them up to date and touches no file.
  pub main_again :
      (later : String) (dry_run : Bool)
      → loads (dumps w.updated <> "\n") ≡ value (object w.updated)
      → ((n : String) → same_num n n ≡ true)
      → IsWellFormed w.settings
      → main same_num num_is dumps repr loads home bin later scope project_root none dry_run false (
          perform_all
            (result same_num num_is dumps repr loads
              (settings_path home scope project_root)
              ts
              (default_emitter_path bin)
              false
              false
              fs).1
            fs)
        ≡ (up_to_date, [])
  unfolding main
  main_again later dry_run round s f =
      install_again same_num num_is dumps repr loads (settings_path home scope project_root) ts
        (default_emitter_path bin) fs w later dry_run (occurs-default bin) round s f
