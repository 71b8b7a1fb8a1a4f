-- ===== src/Installer/Events.antt =====
-- The loop over the target events in installer/install_hooks.py: what each event's groups become.
use silicon_office.Prelude.{
  String, ◌==◌, ◌≡◌, refl, sym, ap, ◌∙◌, Bool, true, false, Option, none, some, get_or, List, [],
  ◌∷◌, ◌++◌, ok, Outcome-cases, inl, inr, arith, if◌then◌else◌, contains, Distinct, str_dec,
}
use silicon_office.Prelude.Dict.{Dict, lookup, insert, lookup-insert, lookup-erase, insert_self}
use silicon_office.Json.{Json, list, iterate}
use silicon_office.Installer.{
  hook_marker, occurs, our_group, strip_groups, strip_ours, merged_groups, put_groups,
  update_events,
}
use silicon_office.Installer.Groups.{iterate-list, strip_groups_idem, strip_groups-append}

-- What is stored for an event with these groups: no empty list.
abbrev pub stored : List Json → Option Json
stored [] = none
stored (g ∷ gs) = some (list (g ∷ gs))

lookup-put_groups :
    (k event : String) (groups : List Json) (hooks : Dict Json)
    → lookup k (put_groups event groups hooks)
      ≡ (if k == event then stored groups else lookup k hooks)
unfolding put_groups
lookup-put_groups k event [] hooks = lookup-erase k event hooks
lookup-put_groups k event (g ∷ gs) hooks = lookup-insert k event (list (g ∷ gs)) hooks

pub same :
    (k event : String) (groups : List Json) (hooks : Dict Json)
    → ¬ (k ≡ event)
    → lookup k hooks ≡ lookup k (put_groups event groups hooks)
same k event groups hooks n = sym (lookup-put_groups k event groups hooks ∙ ground arith)

put_groups-append :
    (event : String) (gs : List Json) (g : Json) (hooks : Dict Json)
    → put_groups event (gs ++ g ∷ []) hooks ≡ insert event (list (gs ++ g ∷ [])) hooks
unfolding put_groups
put_groups-append event [] g hooks = refl
put_groups-append event (x ∷ gs) g hooks = refl

pub stored-append : (gs : List Json) (g : Json) → stored (gs ++ g ∷ []) ≡ some (list (gs ++ g ∷ []))
stored-append [] g = refl
stored-append (x ∷ gs) g = refl

module _ (repr : Json → String) (emitter_path : String) where
  -- An event that is not among those of the loop keeps its value, and one that is gets the groups
  -- that the merge makes of what it had.
  pub lookup-update_events :
      (install : Bool) (events : List String) (hooks hooks' : Dict Json)
      → Distinct events
      → update_events repr emitter_path install events hooks ≡ ok hooks'
      → (k : String)
      → (contains events k ≡ false → lookup k hooks' ≡ lookup k hooks)
        × (contains events k ≡ true
            → (groups : List Json) × (merged_groups repr emitter_path install (lookup k hooks)
                ≡ ok groups)
              × (lookup k hooks' ≡ stored groups))
  unfolding update_events
  lookup-update_events install [] hooks hooks' d e k =
      (λ h. ground arith, λ h. let impossible : ⊥ = cc in absurd impossible)
  lookup-update_events install (event ∷ events) hooks hooks' (fresh, d) e k =
      elim (Outcome-cases (merged_groups repr emitter_path install (lookup event hooks))) [
        | inl q ↦ let impossible : ⊥ = ground arith in absurd impossible
        | inr (groups, q) ↦
            let e' = (rw q at e) in
            let (out, inside) =
              lookup-update_events install events (put_groups event groups hooks) hooks' d e' k in
            (
              λ h. out (ground arith) ∙ lookup-put_groups k event groups hooks ∙ ground arith,
              λ h. elim (str_dec k event) [
                | yes p ↦ (
                  groups,
                  ap (λ j. merged_groups repr emitter_path install (lookup j hooks)) p ∙ q,
                  out (ap (contains events) p ∙ fresh)
                      ∙ lookup-put_groups k event groups hooks
                      ∙ ground arith,
                )
                | no n ↦
                    let (gs, m, s) = inside (ground arith) in
                    (
                      gs,
                      ap (merged_groups repr emitter_path install) (same k event groups hooks n)
                          ∙ m,
                      s,
                    )
              ],
            )
      ]

  -- What an installation makes of an event: foreign groups with nothing of ours in them, then our
  -- group.
  pub merged_installed :
      (found : Option Json) (groups : List Json)
      → merged_groups repr emitter_path true found ≡ ok groups
      → (gs : List Json) × (groups ≡ gs ++ our_group emitter_path ∷ [])
        × (strip_ours repr (get_or found (list [])) ≡ ok gs)
        × (strip_groups repr gs ≡ ok gs)
  unfolding merged_groups strip_ours
  merged_installed found groups e = elim (Outcome-cases (iterate (get_or found (list [])))) [
    | inl i ↦ let impossible : ⊥ = ground arith in absurd impossible
    | inr (xs, i) ↦ elim (Outcome-cases (strip_groups repr xs)) [
      | inl q ↦ let impossible : ⊥ = ground arith in absurd impossible
      | inr (gs, q) ↦ (gs, ground arith, rw i q, strip_groups_idem repr xs gs q)
    ]
  ]

  -- The state of an event that is installed.
  abbrev pub IsInstalled : Dict Json → String → Type 0
  IsInstalled hooks k =
      (gs : List Json) × (lookup k hooks ≡ some (list (gs ++ our_group emitter_path ∷ [])))
      × (strip_groups repr gs ≡ ok gs)

  merged_again :
      (gs : List Json)
      → occurs hook_marker emitter_path ≡ true
      → strip_groups repr gs ≡ ok gs
      → merged_groups repr emitter_path true (some (list (gs ++ our_group emitter_path ∷ [])))
        ≡ ok (gs ++ our_group emitter_path ∷ [])
  unfolding merged_groups strip_ours
  merged_again gs m e = rw (
    iterate-list (gs ++ our_group emitter_path ∷ []),
    strip_groups-append repr gs gs emitter_path m e,
  )

  -- Installing where every event is installed changes nothing.
  pub update_installed :
      (events : List String) (hooks : Dict Json)
      → occurs hook_marker emitter_path ≡ true
      → ((k : String) → contains events k ≡ true → IsInstalled hooks k)
      → update_events repr emitter_path true events hooks ≡ ok hooks
  unfolding update_events
  update_installed [] hooks m h = refl
  update_installed (event ∷ events) hooks m h =
      let (gs, found, stripped) = h event (ground arith) in
      rw (found, merged_again gs m stripped, put_groups-append, insert_self)
        (update_installed events hooks m (λ k c. h k (ground arith)))

  -- The loop returns if the merge of every event does.
  pub update_total :
      (install : Bool) (events : List String) (hooks : Dict Json)
      → Distinct events
      → ((k : String)
          → contains events k ≡ true
          → (gs : List Json) × (merged_groups repr emitter_path install (lookup k hooks) ≡ ok gs))
      → (hooks' : Dict Json) × (update_events repr emitter_path install events hooks ≡ ok hooks')
  unfolding update_events
  update_total install [] hooks d h = (hooks, refl)
  update_total install (event ∷ events) hooks (fresh, d) h =
      let (gs, q) = h event (ground arith) in
      let (hooks', e) = update_total install events (put_groups event gs hooks) d λ k c.
        let differ : ¬ (k ≡ event) = ground arith in
        let (ks, m) = h k (ground arith) in
        (
          ks,
          ap (merged_groups repr emitter_path install) (sym (same k event gs hooks differ)) ∙ m,
        ) in
      (hooks', rw q e)

  -- What an uninstallation makes of an event, before and after an installation.
  pub merged_uninstalled :
      (found : Option Json) (gs : List Json)
      → occurs hook_marker emitter_path ≡ true
      → strip_ours repr (get_or found (list [])) ≡ ok gs
      → strip_groups repr gs ≡ ok gs
      → (merged_groups repr emitter_path false found ≡ ok gs)
        × (merged_groups repr emitter_path false (some (list (gs ++ our_group emitter_path ∷ [])))
            ≡ ok gs)
  unfolding merged_groups strip_ours
  merged_uninstalled found gs m e f = (
    rw e,
    rw (
      iterate-list (gs ++ our_group emitter_path ∷ []),
      strip_groups-append repr gs gs emitter_path m f,
    ),
  )
