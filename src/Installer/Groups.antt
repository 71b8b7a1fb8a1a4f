-- ===== src/Installer/Groups.antt =====
-- `_strip_ours` of installer/install_hooks.py: what is stripped once has nothing left to strip.
use silicon_office.Prelude.{
  String, ◌≡◌, refl, ap, ◌∙◌, Bool, true, false, get_or, List, [], ◌∷◌, ◌++◌, ok, Outcome-cases,
  inl, inr, arith, ==_iff, if◌then◌else◌, str_dec,
}
use silicon_office.Prelude.Dict.{Dict, lookup, insert, lookup-insert, insert-insert}
use silicon_office.Json.{
  as_dict-object, to_dict, from_dict, to_list, from_list, Json, list, object, iterate, as_dict,
  to_list-from_list,
}
use silicon_office.Installer.{
  hook_marker, occurs, our_group, text_of, is_ours, foreign, keep_group, strip_groups,
}

pub iterate-list : (xs : List Json) → iterate (list xs) ≡ ok xs
unfolding iterate
iterate-list xs = ap ok (to_list-from_list xs)

module _ (repr : Json → String) where
  foreign_cons :
      (h : Json) (hs kept : List Json) (ours : Bool)
      → is_ours repr h ≡ ok ours
      → foreign repr hs ≡ ok kept
      → foreign repr (h ∷ hs) ≡ ok (if ours then kept else h ∷ kept)
  unfolding foreign
  foreign_cons h hs kept ours e f = rw (e, f)

  foreign_idem : (hs ks : List Json) → foreign repr hs ≡ ok ks → foreign repr ks ≡ ok ks
  unfolding foreign
  foreign_idem [] ks e = let q : ks ≡ [] = ground arith in rw q
  foreign_idem (h ∷ hs) ks e = elim (Outcome-cases (foreign repr hs)) [
    | inl r ↦ let impossible : ⊥ = ground arith in absurd impossible
    | inr (kept, r) ↦ elim (Outcome-cases (is_ours repr h)) [
      | inl q ↦ let impossible : ⊥ = ground arith in absurd impossible
      | inr (true, q) ↦ foreign_idem hs ks (ground arith)
      | inr (false, q) ↦
          let shape : ks ≡ h ∷ kept = ground arith in
          rw shape (foreign_cons h kept kept false q (foreign_idem hs kept r))
    ]
  ]

  -- Groups that come out of stripping: each has a list of hooks, not empty and none of them ours.
  strip_cons :
      (group : Dict Json) (hooks remaining : List Json) (gs kept : List Json)
      → iterate (get_or (lookup "hooks" group) (list [])) ≡ ok hooks
      → foreign repr hooks ≡ ok remaining
      → strip_groups repr gs ≡ ok kept
      → strip_groups repr (object group ∷ gs) ≡ ok (keep_group group remaining kept)
  unfolding strip_groups
  strip_cons group hooks remaining gs kept i f l = rw (as_dict-object group, i, f, l)

  keep_group_idem :
      (group : Dict Json) (remaining kept : List Json)
      → foreign repr remaining ≡ ok remaining
      → strip_groups repr kept ≡ ok kept
      → strip_groups repr (keep_group group remaining kept) ≡ ok (keep_group group remaining kept)
  unfolding keep_group
  keep_group_idem group [] kept f l = l
  keep_group_idem group (h ∷ hs) kept f l =
      let new_group = insert "hooks" (list (h ∷ hs)) group in
      strip_cons new_group (h ∷ hs) (h ∷ hs) kept kept
        (rw (lookup-insert, (==_iff "hooks" "hooks").1 refl) (iterate-list (h ∷ hs))) f l
      ∙ rw insert-insert

  -- Stripping what was stripped changes nothing.
  pub strip_groups_idem :
      (gs ks : List Json) → strip_groups repr gs ≡ ok ks → strip_groups repr ks ≡ ok ks
  unfolding strip_groups
  strip_groups_idem [] ks e = let q : ks ≡ [] = ground arith in rw q
  strip_groups_idem (g ∷ gs) ks e = elim (Outcome-cases (as_dict g)) [
    | inl q ↦ let impossible : ⊥ = ground arith in absurd impossible
    | inr (group, q) ↦ elim (Outcome-cases (iterate (get_or (lookup "hooks" group) (list [])))) [
      | inl i ↦ let impossible : ⊥ = ground arith in absurd impossible
      | inr (hooks, i) ↦ elim (Outcome-cases (foreign repr hooks)) [
        | inl f ↦ let impossible : ⊥ = ground arith in absurd impossible
        | inr (remaining, f) ↦ elim (Outcome-cases (strip_groups repr gs)) [
          | inl l ↦ let impossible : ⊥ = ground arith in absurd impossible
          | inr (kept, l) ↦
              let shape : ks ≡ keep_group group remaining kept = ground arith in
              rw shape (
                keep_group_idem group remaining kept (foreign_idem hooks remaining f)
                  (strip_groups_idem gs kept l))
        ]
      ]
    ]
  ]

  strip_our_group :
      (emitter_path : String)
      → occurs hook_marker emitter_path ≡ true
      → strip_groups repr (our_group emitter_path ∷ []) ≡ ok []
  unfolding strip_groups our_group as_dict to_dict from_dict iterate to_list from_list lookup
      str_dec foreign is_ours text_of keep_group
  strip_our_group emitter_path m = rw m

  -- A group of ours behind others is all that stripping takes from them.
  pub strip_groups-append :
      (gs ks : List Json) (emitter_path : String)
      → occurs hook_marker emitter_path ≡ true
      → strip_groups repr gs ≡ ok ks
      → strip_groups repr (gs ++ our_group emitter_path ∷ []) ≡ ok ks
  unfolding strip_groups
  strip_groups-append [] ks emitter_path m e = strip_our_group emitter_path m ∙ e
  strip_groups-append (g ∷ gs) ks emitter_path m e = elim (Outcome-cases (strip_groups repr gs)) [
    | inl l ↦ let impossible : ⊥ = ground arith in absurd impossible
    | inr (kept, l) ↦ rw (strip_groups-append gs kept emitter_path m l) (rw l at e)
  ]
