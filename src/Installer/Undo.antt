-- ===== src/Installer/Undo.antt =====
-- `build_updated_settings` of installer/install_hooks.py: uninstalling after installing.
use silicon_office.Prelude.{
  String, ◌≡◌, ◌≢◌, sym, ap, ◌∙◌, true, false, List, ok, ok_injective, Bool-cases, inl, inr,
  contains,
}
use silicon_office.Prelude.Dict.{Dict, lookup}
use silicon_office.Json.{Json}
use silicon_office.Installer.{
  hook_marker, occurs, our_group, merged_groups, put_hooks, update_events, target_hook_events,
  build_updated_settings,
}
use silicon_office.Installer.Events.{
  stored, stored-append, lookup-update_events, merged_installed, update_total, merged_uninstalled,
}
use silicon_office.Installer.Laws.{
  hooks_of, hooks_of-put_hooks, lookup-put_hooks, targets-Distinct, build_parts,
}

-- Two settings objects that differ at most in the order of their keys and of their events.
pub record SameSettings (a b : Dict Json) : Type 0 where
  pub others : (k : String) → k ≢ "hooks" → lookup k a ≡ lookup k b
  pub hooks_a : Dict Json
  pub hooks_b : Dict Json
  pub from_a : hooks_of a ≡ ok hooks_a
  pub from_b : hooks_of b ≡ ok hooks_b
  pub events : (k : String) → lookup k hooks_a ≡ lookup k hooks_b

module _ (repr : Json → String) (settings : Dict Json) (emitter_path : String) where
  build_with :
      (start hooks hooks' : Dict Json)
      → hooks_of start ≡ ok hooks
      → update_events repr emitter_path false target_hook_events hooks ≡ ok hooks'
      → build_updated_settings repr start emitter_path false ≡ ok (put_hooks start hooks')
  unfolding build_updated_settings hooks_of
  build_with start hooks hooks' p u = rw (p, u)

  -- Uninstalling leaves an event the same groups before and after an installation.
  both_ways :
      (hooks hooks' : Dict Json)
      → occurs hook_marker emitter_path ≡ true
      → update_events repr emitter_path true target_hook_events hooks ≡ ok hooks'
      → (k : String) → contains target_hook_events k ≡ true
      → (gs : List Json) × (merged_groups repr emitter_path false (lookup k hooks) ≡ ok gs)
        × (merged_groups repr emitter_path false (lookup k hooks') ≡ ok gs)
  both_ways hooks hooks' m made k c =
      let (groups, merged, there) =
        (lookup-update_events repr emitter_path true target_hook_events hooks hooks'
            targets-Distinct made k).1
          c in
      let (gs, shape, clean, stripped) =
        merged_installed repr emitter_path (lookup k hooks) groups merged in
      let (before, after) =
        merged_uninstalled repr emitter_path (lookup k hooks) gs m clean stripped in
      (
        gs,
        before,
        ap (merged_groups repr emitter_path false)
              (there ∙ ap stored shape ∙ stored-append gs (our_group emitter_path))
            ∙ after,
      )

  same_events :
      (h₀ h₁ h₂ h₃ : Dict Json)
      → occurs hook_marker emitter_path ≡ true
      → update_events repr emitter_path true target_hook_events h₀ ≡ ok h₁
      → update_events repr emitter_path false target_hook_events h₁ ≡ ok h₂
      → update_events repr emitter_path false target_hook_events h₀ ≡ ok h₃
      → (k : String) → lookup k h₂ ≡ lookup k h₃
  same_events h₀ h₁ h₂ h₃ m made made₂ made₃ k =
      let first =
        lookup-update_events repr emitter_path true target_hook_events h₀ h₁ targets-Distinct made
          k in
      let second =
        lookup-update_events repr emitter_path false target_hook_events h₁ h₂ targets-Distinct made₂
          k in
      let direct =
        lookup-update_events repr emitter_path false target_hook_events h₀ h₃ targets-Distinct made₃
          k in
      elim (Bool-cases (contains target_hook_events k)) [
        | inl c ↦
            let (gs, before, after) = both_ways h₀ h₁ m made k c in
            let (xs, merged₂, there₂) = second.1 c in
            let (ys, merged₃, there₃) = direct.1 c in
            there₂
            ∙ ap stored (ok_injective (sym merged₂ ∙ after ∙ sym before ∙ merged₃))
            ∙ sym there₃
        | inr c ↦ second.0 c ∙ first.0 c ∙ sym (direct.0 c)
      ]

  -- If the emitter's path contains the marker and installing returns, uninstalling what it made
  -- returns, uninstalling from the original settings returns, and the two results are the same
  -- settings: an installation that is undone leaves nothing behind.
  pub uninstall-install :
      (installed : Dict Json)
      → occurs hook_marker emitter_path ≡ true
      → build_updated_settings repr settings emitter_path true ≡ ok installed
      → (undone : Dict Json) × (cleaned : Dict Json) × (build_updated_settings repr installed
            emitter_path false
          ≡ ok undone)
        × (build_updated_settings repr settings emitter_path false ≡ ok cleaned)
        × SameSettings undone cleaned
  uninstall-install installed m e =
      let (h₀, h₁, from, made, shape) = build_parts repr settings emitter_path true installed e in
      let (h₂, made₂) =
        update_total repr emitter_path false target_hook_events h₁ targets-Distinct
          λ k c. let (gs, _, after) = both_ways h₀ h₁ m made k c in (gs, after) in
      let (h₃, made₃) =
        update_total repr emitter_path false target_hook_events h₀ targets-Distinct
          λ k c. let (gs, before, _) = both_ways h₀ h₁ m made k c in (gs, before) in
      (
        put_hooks installed h₂,
        put_hooks settings h₃,
        build_with installed h₁ h₂ (ap hooks_of shape ∙ hooks_of-put_hooks settings h₁) made₂,
        build_with settings h₀ h₃ from made₃,
        record {
          others = λ k n.
              lookup-put_hooks k installed h₂ n
              ∙ ap (lookup k) shape
              ∙ lookup-put_hooks k settings h₁ n
              ∙ sym (lookup-put_hooks k settings h₃ n);
          hooks_a = h₂;
          hooks_b = h₃;
          from_a = hooks_of-put_hooks installed h₂;
          from_b = hooks_of-put_hooks settings h₃;
          events = same_events h₀ h₁ h₂ h₃ m made made₂ made₃;
        },
      )
