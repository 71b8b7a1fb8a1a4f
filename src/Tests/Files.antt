-- ===== src/Tests/Files.antt =====
-- Tests of the installer's command on files.
use silicon_office.Prelude.{
  String, ◌<>◌, ◌==◌, ==_refl, arith, ◌≡◌, ◌⊎◌, refl, true, false, none, some, List, [], ◌∷◌,
  Outcome, ok, str_dec, if◌then◌else◌,
}
use silicon_office.Prelude.Dict.{Dict, keys, lookup, insert, erase}
use silicon_office.Json.{
  Json, str, object, as_dict, to_dict, from_dict, iterate, to_list, from_list,
}
use silicon_office.Json.Equal.{equal, equal_items, fields_in, size, IsWellFormed}
use silicon_office.Installer.{
  occurs, our_group, keep_group, put_groups, put_hooks, text_of, is_ours, foreign, strip_groups,
  strip_ours, merged_groups, update_events, build_updated_settings,
}
use silicon_office.Installer.Files.{
  main, FileSystem, settings_path, tmp_path, backup_path, Loaded, value, decode_error, Action,
  truncate, fill, perform, perform_all, backup, atomic_write, Report, up_to_date, replace, load,
  finish, run_on, run,
}
use silicon_office.Installer.Crash.{IsWriting, result, run_atomic}
use silicon_office.Installer.Paths.{append-differs}
use silicon_office.Installer.Again.{main_again}

program : Unit {0}
unfolding lookup insert erase str_dec iterate as_dict to_list from_list to_dict from_dict occurs
    our_group keep_group put_groups put_hooks text_of is_ours foreign strip_groups strip_ours
    merged_groups update_events build_updated_settings equal equal_items fields_in size
    settings_path perform perform_all backup atomic_write load finish run_on run
program = tt

abbrev path : String
path = "./.claude/settings.json"

abbrev emitter : String
emitter = "bin/claude-vo-emit"

path_run : settings_path "home" "project" "." ≡ "./.claude/settings.json"
unfolding program
path_run = refl

abbrev repr : Json → String
repr v = ""

abbrev existing : Dict Json
existing = ("model", str "opus") ∷ []

abbrev result_of : Outcome (Dict Json) → Dict Json
result_of (ok d) = d
result_of _ = []

abbrev updated : Dict Json
updated = result_of (build_updated_settings repr existing emitter true)

-- Two texts stand for the settings before and after.
abbrev dumps : Dict Json → String
dumps d = "new"

abbrev loads : String → Loaded
loads text =
    if text == "old"
    then value (object existing)
    else if text == "new\n"
    then value (object updated)
    else decode_error

abbrev files : FileSystem
files = (path, "old") ∷ ("notes", "mine") ∷ []

abbrev ours : Report × List Action
ours = result ◌==◌ (λ n b. false) dumps repr loads path "then" emitter false false files

writing : IsWriting ◌==◌ (λ n b. false) dumps repr loads path "then" emitter false false files
unfolding program
writing = record {
  settings = object existing;
  existing = existing;
  updated = updated;
  loaded = refl;
  is_dict = refl;
  built = refl;
  changed = refl;
  real = refl;
  written = refl;
}

-- The copy is made, and the file beside the settings is still empty.
abbrev done : List Action
done =
    truncate "./.claude/settings.json.backup.then"
    ∷ fill "./.claude/settings.json.backup.then" "old"
    ∷ truncate "./.claude/settings.json.tmp"
    ∷ []

abbrev todo : List Action
todo = fill "./.claude/settings.json.tmp" "new\n" ∷ replace "./.claude/settings.json.tmp" path ∷ []

run_atomic_example :
    (lookup path (perform_all done files) ≡ some "old")
    ⊎ ((w : IsWriting ◌==◌ (λ n b. false) dumps repr loads path "then" emitter false false files)
        × (path ≡ path)
        × (todo ≡ [])
        × ((lookup path (perform_all done files) ≡ some (dumps w.updated <> "\n"))
            × (lookup (tmp_path path) (perform_all done files) ≡ none)
            × (lookup (backup_path path "then") (perform_all done files) ≡ some "old")))
unfolding program
run_atomic_example =
    run_atomic ◌==◌ (λ n b. false) dumps repr loads path "then" emitter false false files done todo
      path refl (append-differs path ".tmp" refl) (append-differs path ".backup.then" refl)

existing-IsWellFormed : IsWellFormed (object existing)
unfolding program IsWellFormed keys
existing-IsWellFormed = ground arith

main_again_example :
    main ◌==◌
      (λ n b. false)
      dumps
      repr
      loads
      "home"
      "bin"
      "later"
      "project"
      "."
      none
      true
      false
      (perform_all ours.1 files)
    ≡ (up_to_date, [])
unfolding program writing
main_again_example =
    main_again ◌==◌ (λ n b. false) dumps repr loads "home" "bin" "then" "project" "." files writing
      "later" true refl ==_refl existing-IsWellFormed
