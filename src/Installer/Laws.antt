-- ===== src/Installer/Laws.antt =====
-- `build_updated_settings` of installer/install_hooks.py: what installing and uninstalling
-- promise.
use silicon_office.Prelude.{
  String, ==_refl, ◌≡◌, ◌≢◌, refl, sym, ap, ◌∙◌, Bool, true, false, some, get_or, [], ◌∷◌, Outcome,
  ok, Outcome-cases, inl, inr, arith, contains, Distinct, str_dec,
}
use silicon_office.Prelude.Dict.{Dict, lookup, lookup-insert, lookup-erase, insert-insert}
use silicon_office.Json.{as_dict-object, Json, object, as_dict}
use silicon_office.Installer.{
  hook_marker, occurs, our_group, put_hooks, update_events, target_hook_events,
  build_updated_settings,
}
use silicon_office.Installer.Events.{
  stored, stored-append, lookup-update_events, merged_installed, IsInstalled, update_installed,
}

pub targets-Distinct : Distinct target_hook_events
unfolding str_dec
targets-Distinct =
    (refl, (refl, (refl, (refl, (refl, (refl, (refl, (refl, (refl, (refl, (refl, tt)))))))))))

-- The "hooks" of a settings object, as a dict.
unfoldable pub hooks_of : Dict Json → Outcome (Dict Json)
hooks_of settings = as_dict (get_or (lookup "hooks" settings) (object []))

pub lookup-put_hooks :
    (k : String) (settings hooks : Dict Json)
    → k ≢ "hooks"
    → lookup k (put_hooks settings hooks) ≡ lookup k settings
unfolding put_hooks
lookup-put_hooks k settings [] n = lookup-erase k "hooks" settings ∙ ground arith
lookup-put_hooks k settings (h ∷ hs) n =
    lookup-insert k "hooks" (object (h ∷ hs)) settings ∙ ground arith

pub hooks_of-put_hooks :
    (settings hooks : Dict Json) → hooks_of (put_hooks settings hooks) ≡ ok hooks
unfolding put_hooks hooks_of
hooks_of-put_hooks settings [] = rw (lookup-erase, ==_refl) (as_dict-object [])
hooks_of-put_hooks settings (h ∷ hs) = rw (lookup-insert, ==_refl) (as_dict-object (h ∷ hs))

put_hooks-put_hooks :
    (settings hooks : Dict Json) (k : String) (v : Json)
    → lookup k hooks ≡ some v
    → put_hooks (put_hooks settings hooks) hooks ≡ put_hooks settings hooks
unfolding put_hooks lookup
put_hooks-put_hooks settings [] k v h = cc
put_hooks-put_hooks settings (x ∷ hs) k v h =
    insert-insert "hooks" (object (x ∷ hs)) (object (x ∷ hs)) settings

module _ (repr : Json → String) (settings : Dict Json) (emitter_path : String) where
  -- The parts of a build that returns.
  pub build_parts :
      (install : Bool) (updated : Dict Json)
      → build_updated_settings repr settings emitter_path install ≡ ok updated
      → (hooks hooks' : Dict Json) × (hooks_of settings ≡ ok hooks)
        × (update_events repr emitter_path install target_hook_events hooks ≡ ok hooks')
        × (updated ≡ put_hooks settings hooks')
  unfolding build_updated_settings hooks_of
  build_parts install updated e =
      elim (Outcome-cases (as_dict (get_or (lookup "hooks" settings) (object [])))) [
        | inl q ↦ let impossible : ⊥ = ground arith in absurd impossible
        | inr (hooks, q) ↦
            elim (Outcome-cases
              (update_events repr emitter_path install target_hook_events hooks)) [
                | inl u ↦ let impossible : ⊥ = ground arith in absurd impossible
                | inr (hooks', u) ↦ (hooks, hooks', q, u, ground arith)
              ]
      ]

  -- Neither installing nor uninstalling touches a setting other than "hooks" or an event that is
  -- not a target.
  pub build_elsewhere :
      (install : Bool) (updated : Dict Json) (k event : String)
      → build_updated_settings repr settings emitter_path install ≡ ok updated
      → k ≢ "hooks"
      → contains target_hook_events event ≡ false
      → (lookup k updated ≡ lookup k settings)
        × ((hooks : Dict Json) × (hooks' : Dict Json) × (hooks_of settings ≡ ok hooks)
            × (hooks_of updated ≡ ok hooks')
            × (lookup event hooks' ≡ lookup event hooks))
  build_elsewhere install updated k event e n c =
      let (hooks, hooks', from, made, shape) = build_parts install updated e in
      (
        ap (lookup k) shape ∙ lookup-put_hooks k settings hooks' n,
        (
          hooks,
          hooks',
          from,
          ap hooks_of shape ∙ hooks_of-put_hooks settings hooks',
          (lookup-update_events repr emitter_path install target_hook_events hooks hooks'
                targets-Distinct made event).0
              c,
        ),
      )

  pub update_events-IsInstalled :
      (hooks hooks' : Dict Json)
      → update_events repr emitter_path true target_hook_events hooks ≡ ok hooks'
      → (k : String) → contains target_hook_events k ≡ true
      → IsInstalled repr emitter_path hooks' k
  update_events-IsInstalled hooks hooks' made k c =
      let (groups, merged, there) =
        (lookup-update_events repr emitter_path true target_hook_events hooks hooks'
            targets-Distinct made k).1
          c in
      let (gs, shape, _, stripped) =
        merged_installed repr emitter_path (lookup k hooks) groups merged in
      (gs, there ∙ ap stored shape ∙ stored-append gs (our_group emitter_path), stripped)

  build_again :
      (updated hooks : Dict Json)
      → hooks_of updated ≡ ok hooks
      → update_events repr emitter_path true target_hook_events hooks ≡ ok hooks
      → put_hooks updated hooks ≡ updated
      → build_updated_settings repr updated emitter_path true ≡ ok updated
  unfolding build_updated_settings hooks_of
  build_again updated hooks p u s = rw (p, u) (ap ok s)

  -- Installing twice is installing once, if the emitter's path holds the marker.
  pub install_idempotent :
      (updated : Dict Json)
      → occurs hook_marker emitter_path ≡ true
      → build_updated_settings repr settings emitter_path true ≡ ok updated
      → build_updated_settings repr updated emitter_path true ≡ ok updated
  install_idempotent updated m e =
      let (hooks, hooks', from, made, shape) = build_parts true updated e in
      let (gs, there, _) =
        update_events-IsInstalled hooks hooks' made "SessionStart" (unfold str_dec in refl) in
      build_again updated hooks' (ap hooks_of shape ∙ hooks_of-put_hooks settings hooks')
        (update_installed repr emitter_path target_hook_events hooks' m
          (update_events-IsInstalled hooks hooks' made))
        (ap (λ s. put_hooks s hooks') shape
          ∙ put_hooks-put_hooks settings hooks' "SessionStart" _ there
          ∙ sym shape)
