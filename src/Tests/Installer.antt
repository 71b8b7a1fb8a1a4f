-- ===== src/Tests/Installer.antt =====
-- Tests of the installer, on settings with a foreign hook.
use silicon_office.Prelude.{
  String, ◌==◌, ==_iff, ◌≡◌, ◌≢◌, refl, true, false, [], ◌∷◌, Outcome, ok, str_dec,
}
use silicon_office.Prelude.Dict.{Dict, lookup, insert, erase}
use silicon_office.Json.{
  Json, str, list, object, iterate, as_dict, to_list, from_list, to_dict, from_dict,
}
use silicon_office.Installer.{
  occurs, our_group, keep_group, put_groups, put_hooks, text_of, is_ours, foreign, strip_groups,
  strip_ours, merged_groups, update_events, build_updated_settings,
}
use silicon_office.Installer.Laws.{hooks_of, build_elsewhere}
use silicon_office.Installer.Undo.{SameSettings, uninstall-install}

program : Unit {0}
unfolding lookup insert erase str_dec iterate as_dict to_list from_list to_dict from_dict occurs
    our_group keep_group put_groups put_hooks text_of is_ours foreign strip_groups strip_ours
    merged_groups update_events build_updated_settings hooks_of
program = tt

abbrev shown : Json → String
shown v = ""

abbrev path : String
path = "/usr/bin/claude-vo-emit"

abbrev lint : Json
lint = object (("hooks", list (object (("command", str "lint") ∷ []) ∷ [])) ∷ [])

-- A hook on Stop, and one on an event that the installer leaves alone.
abbrev settings : Dict Json
settings =
    ("model", str "opus")
    ∷ ("hooks", object (("Stop", list (lint ∷ [])) ∷ ("PreCompact", list (lint ∷ [])) ∷ []))
    ∷ []

abbrev result : Outcome (Dict Json) → Dict Json
result (ok d) = d
result _ = []

abbrev installed : Dict Json
installed = result (build_updated_settings shown settings path true)

install_run : build_updated_settings shown settings path true ≡ ok installed
unfolding program
install_run = refl

differ : ◌≢◌ {A = String} "model" "hooks"
differ e = let h : ("model" == "hooks") ≡ true = (==_iff _ _).1 e in unfold str_dec in cc (h)

build_elsewhere_example :
    (lookup "model" installed ≡ lookup "model" settings)
    × ((hooks : Dict Json) × (hooks' : Dict Json) × (hooks_of settings ≡ ok hooks)
        × (hooks_of installed ≡ ok hooks')
        × (lookup "PreCompact" hooks' ≡ lookup "PreCompact" hooks))
unfolding program
build_elsewhere_example =
    build_elsewhere shown settings path true installed "model" "PreCompact" install_run differ refl

uninstall-install_example :
    (undone : Dict Json) × (cleaned : Dict Json) × (build_updated_settings shown installed path
        false
      ≡ ok undone)
    × (build_updated_settings shown settings path false ≡ ok cleaned)
    × SameSettings undone cleaned
unfolding program
uninstall-install_example = uninstall-install shown settings path installed refl install_run
