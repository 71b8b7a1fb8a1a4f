-- ===== src/Installer/Merged.antt =====
-- `build_updated_settings` of installer/install_hooks.py names no key twice where the settings do
-- not.
use silicon_office.Prelude.{
  String, ◌≡◌, sym, subst, Bool, true, false, get_or, List, [], ◌∷◌, ◌++◌, map, All, All-append, ok,
  ok_injective, Outcome-cases, inl, inr, arith, if◌then◌else◌, str_dec,
}
use silicon_office.Prelude.Dict.{Dict, lookup, keys}
use silicon_office.Json.{
  Json, null, bool, num, str, arr, obj, to_dict, from_dict, from_list, list, object, iterate,
  as_dict, characters,
}
use silicon_office.Json.Equal.{IsWellFormed}
use silicon_office.Installer.{
  our_group, keep_group, put_groups, put_hooks, is_ours, foreign, strip_groups, strip_ours,
  merged_groups, update_events, target_hook_events, build_updated_settings,
}
use silicon_office.Installer.Laws.{build_parts, hooks_of}
use silicon_office.Installer.WellFormed.{
  IsDict, empty-IsDict, to_list-IsWellFormed, list-IsWellFormed, object-IsWellFormed,
  as_dict-IsDict, get-IsWellFormed, insert-IsDict, erase-IsDict,
}

texts-IsWellFormed : (ks : List String) → All IsWellFormed (map str ks)
unfolding IsWellFormed
texts-IsWellFormed [] = tt
texts-IsWellFormed (k ∷ ks) = (tt, texts-IsWellFormed ks)

characters-IsWellFormed : (s : String) → All IsWellFormed (characters s)
unfolding characters IsWellFormed
characters-IsWellFormed String.[] = tt
characters-IsWellFormed (String.◌∷◌ c s) = (tt, characters-IsWellFormed s)

iterate-IsWellFormed :
    (j : Json) (xs : List Json) → IsWellFormed j → iterate j ≡ ok xs → All IsWellFormed xs
unfolding iterate IsWellFormed
iterate-IsWellFormed (arr is) xs w e =
    subst (All IsWellFormed) (ok_injective e) (to_list-IsWellFormed is w)
iterate-IsWellFormed (obj fs) xs w e =
    subst (All IsWellFormed) (ok_injective e) (texts-IsWellFormed (keys (to_dict fs)))
iterate-IsWellFormed (str s) xs w e =
    subst (All IsWellFormed) (ok_injective e) (characters-IsWellFormed s)
iterate-IsWellFormed null xs w e = cc
iterate-IsWellFormed (bool _) xs w e = cc
iterate-IsWellFormed (num _) xs w e = cc

keep_group-IsWellFormed :
    (group : Dict Json) (remaining kept : List Json)
    → IsDict group
    → All IsWellFormed remaining
    → All IsWellFormed kept
    → All IsWellFormed (keep_group group remaining kept)
unfolding keep_group
keep_group-IsWellFormed group [] kept g r k = k
keep_group-IsWellFormed group (h ∷ hs) kept g r k = (
  object-IsWellFormed _
      (insert-IsDict "hooks" (list (h ∷ hs)) group (list-IsWellFormed (h ∷ hs) r) g),
  k,
)

our_group-IsWellFormed : (emitter_path : String) → IsWellFormed (our_group emitter_path)
unfolding our_group IsWellFormed to_dict from_dict from_list keys str_dec
our_group-IsWellFormed emitter_path = ground arith

put_groups-IsDict :
    (event : String) (groups : List Json) (hooks : Dict Json)
    → All IsWellFormed groups
    → IsDict hooks
    → IsDict (put_groups event groups hooks)
unfolding put_groups
put_groups-IsDict event [] hooks g h = erase-IsDict event hooks h
put_groups-IsDict event (x ∷ xs) hooks g h =
    insert-IsDict event (list (x ∷ xs)) hooks (list-IsWellFormed (x ∷ xs) g) h

put_hooks-IsDict :
    (settings hooks : Dict Json)
    → IsDict settings
    → IsDict hooks
    → IsDict (put_hooks settings hooks)
unfolding put_hooks
put_hooks-IsDict settings [] s h = erase-IsDict "hooks" settings s
put_hooks-IsDict settings (x ∷ xs) s h =
    insert-IsDict "hooks" (object (x ∷ xs)) settings (object-IsWellFormed (x ∷ xs) h) s

module _ (repr : Json → String) where
  foreign-IsWellFormed :
      (hs ks : List Json) → All IsWellFormed hs → foreign repr hs ≡ ok ks → All IsWellFormed ks
  unfolding foreign
  foreign-IsWellFormed [] ks w e = subst (All IsWellFormed) (ok_injective e) tt
  foreign-IsWellFormed (h ∷ hs) ks (w, ws) e = elim (Outcome-cases (foreign repr hs)) [
    | inl r ↦ let impossible : ⊥ = ground arith in absurd impossible
    | inr (kept, r) ↦ elim (Outcome-cases (is_ours repr h)) [
      | inl q ↦ let impossible : ⊥ = ground arith in absurd impossible
      | inr (true, q) ↦ foreign-IsWellFormed hs ks ws (ground arith)
      | inr (false, q) ↦
          let shape : h ∷ kept ≡ ks = ground arith in
          subst (All IsWellFormed) shape (w, foreign-IsWellFormed hs kept ws r)
    ]
  ]

  strip_groups-IsWellFormed :
      (gs ks : List Json) → All IsWellFormed gs → strip_groups repr gs ≡ ok ks → All IsWellFormed ks
  unfolding strip_groups
  strip_groups-IsWellFormed [] ks w e = subst (All IsWellFormed) (ok_injective e) tt
  strip_groups-IsWellFormed (g ∷ gs) ks (w, ws) e = elim (Outcome-cases (strip_groups repr gs)) [
    | inl r ↦ let impossible : ⊥ = ground arith in absurd impossible
    | inr (kept, r) ↦ elim (Outcome-cases (as_dict g)) [
      | inl q ↦ let impossible : ⊥ = ground arith in absurd impossible
      | inr (group, q) ↦ elim (Outcome-cases (iterate (get_or (lookup "hooks" group) (list [])))) [
        | inl i ↦ let impossible : ⊥ = ground arith in absurd impossible
        | inr (hooks, i) ↦ elim (Outcome-cases (foreign repr hooks)) [
          | inl f ↦ let impossible : ⊥ = ground arith in absurd impossible
          | inr (remaining, f) ↦
              let shape : keep_group group remaining kept ≡ ks = ground arith in
              let own = as_dict-IsDict g group w q in
              let found =
                iterate-IsWellFormed _ hooks
                  (get-IsWellFormed "hooks" group (list []) own (list-IsWellFormed [] tt)) i in
              subst (All IsWellFormed) shape (
                keep_group-IsWellFormed group remaining kept own
                  (foreign-IsWellFormed hooks remaining found f)
                  (strip_groups-IsWellFormed gs kept ws r))
        ]
      ]
    ]
  ]

  strip_ours-IsWellFormed :
      (groups : Json) (ks : List Json)
      → IsWellFormed groups
      → strip_ours repr groups ≡ ok ks
      → All IsWellFormed ks
  unfolding strip_ours
  strip_ours-IsWellFormed groups ks w e = elim (Outcome-cases (iterate groups)) [
    | inl i ↦ let impossible : ⊥ = ground arith in absurd impossible
    | inr (gs, i) ↦
        strip_groups-IsWellFormed gs ks (iterate-IsWellFormed groups gs w i) (ground arith)
  ]

  merged_groups-IsWellFormed :
      (emitter_path : String) (install : Bool) (event : String) (hooks : Dict Json)
      (groups : List Json)
      → IsDict hooks
      → merged_groups repr emitter_path install (lookup event hooks) ≡ ok groups
      → All IsWellFormed groups
  unfolding merged_groups
  merged_groups-IsWellFormed emitter_path install event hooks groups h e =
      elim (Outcome-cases (strip_ours repr (get_or (lookup event hooks) (list [])))) [
        | inl s ↦ let impossible : ⊥ = ground arith in absurd impossible
        | inr (gs, s) ↦
            let found = get-IsWellFormed event hooks (list []) h (list-IsWellFormed [] tt) in
            let left = strip_ours-IsWellFormed _ gs found s in
            let shape : (if install then gs ++ our_group emitter_path ∷ [] else gs) ≡ groups =
              ground arith in
            subst (All IsWellFormed) shape
              (elim install
                as (λ b. All IsWellFormed (if b then gs ++ our_group emitter_path ∷ [] else gs)) [
                  | true ↦
                      All-append IsWellFormed gs (our_group emitter_path ∷ []) left
                        (our_group-IsWellFormed emitter_path, tt)
                  | false ↦ left
                ])
      ]

  update_events-IsDict :
      (emitter_path : String) (install : Bool) (events : List String) (hooks hooks' : Dict Json)
      → IsDict hooks
      → update_events repr emitter_path install events hooks ≡ ok hooks'
      → IsDict hooks'
  unfolding update_events
  update_events-IsDict emitter_path install [] hooks hooks' h e = subst IsDict (ok_injective e) h
  update_events-IsDict emitter_path install (event ∷ events) hooks hooks' h e =
      elim (Outcome-cases (merged_groups repr emitter_path install (lookup event hooks))) [
        | inl m ↦ let impossible : ⊥ = ground arith in absurd impossible
        | inr (groups, m) ↦
            let merged = merged_groups-IsWellFormed emitter_path install event hooks groups h m in
            update_events-IsDict emitter_path install events (put_groups event groups hooks) hooks'
              (put_groups-IsDict event groups hooks merged h) (ground arith)
      ]

  -- Installing and uninstalling keep a dict that names no key twice.
  pub build_updated_settings-IsDict :
      (settings : Dict Json) (emitter_path : String) (install : Bool) (updated : Dict Json)
      → IsDict settings
      → build_updated_settings repr settings emitter_path install ≡ ok updated
      → IsDict updated
  unfolding hooks_of
  build_updated_settings-IsDict settings emitter_path install updated s e =
      let (hooks, hooks', from, made, shape) =
        build_parts repr settings emitter_path install updated e in
      let none_yet = object-IsWellFormed [] (empty-IsDict) in
      let own =
        as_dict-IsDict _ hooks (get-IsWellFormed "hooks" settings (object []) s none_yet) from in
      subst IsDict (sym shape) (
        put_hooks-IsDict settings hooks' s
          (update_events-IsDict emitter_path install target_hook_events hooks hooks' own made))
