-- ===== src/Layout/Sync.antt =====
-- `sync` of frontend/layout.py: who has a slot afterwards, who keeps it, and how far the grid
-- grows.
use silicon_office.Prelude.{
  ℕ, String, ◌==◌, ◌≡◌, refl, ◌∙◌, inl, inr, true, not, ◌||◌, ◌&&◌, List, [], ◌∷◌, contains,
  Distinct, none, some, is_some, Option-cases, arith, contains-keep, if◌then◌else◌,
}
use silicon_office.Prelude.Dict.{lookup, keys, lookup-insert, lookup-erase, contains-keys}
use silicon_office.Layout.{
  Layout, place, assign_slot, release_slot, release_all, assign_all, difference, recompute_grid,
  sync,
}
use silicon_office.Layout.Slots.{IsValid, assign_slot-IsValid, release_slot-IsValid}

-- What is known of the order in which Python iterates over a set: every element once.
pub record IsSetOrder (order : List String → List String) : Type 0 where
  pub members : (xs : List String) (a : String) → contains (order xs) a ≡ contains xs a
  pub once : (xs : List String) → Distinct xs → Distinct (order xs)

lookup-release_slot :
    (l : Layout) (sid k : String)
    → lookup k (release_slot l sid).slot_of_session
      ≡ (if k == sid then none else lookup k l.slot_of_session)
unfolding release_slot
lookup-release_slot l sid k = elim (Option-cases (lookup sid l.slot_of_session)) [
  | inl e ↦ rw (e, release_slot) (ground arith)
  | inr (s, e) ↦ rw (e, release_slot) (lookup-erase k sid l.slot_of_session)
]

lookup-release_all :
    (l : Layout) (sids : List String) (k : String)
    → lookup k (release_all l sids).slot_of_session
      ≡ (if contains sids k then none else lookup k l.slot_of_session)
unfolding release_all
lookup-release_all l [] k = refl
lookup-release_all l (sid ∷ sids) k =
    ground (arith, lookup-release_all (release_slot l sid) sids k, lookup-release_slot l sid k)

-- The slot that a newcomer gets.
abbrev next_place : Layout → List ℕ → ℕ
next_place l [] = l.next_slot
next_place l (slot ∷ _) = slot

lookup-place :
    (l : Layout) (sid : String) (free : List ℕ) (k : String)
    → lookup k (place l sid free).slot_of_session
      ≡ (if k == sid then some (next_place l free) else lookup k l.slot_of_session)
unfolding place
lookup-place l sid [] k = lookup-insert k sid l.next_slot l.slot_of_session
lookup-place l sid (slot ∷ rest) k = lookup-insert k sid slot l.slot_of_session

-- A session that has a slot keeps it when others get theirs.
assign_slot_keeps :
    (l : Layout) (sid k : String) (s : ℕ)
    → lookup k l.slot_of_session ≡ some s
    → lookup k (assign_slot l sid).slot_of_session ≡ some s
unfolding assign_slot
assign_slot_keeps l sid k s h = elim (Option-cases (lookup sid l.slot_of_session)) [
  | inl e ↦ rw (e, assign_slot) (rw lookup-place (ground arith))
  | inr (t, e) ↦ rw (e, assign_slot) h
]

assign_all_keeps :
    (l : Layout) (sids : List String) (k : String) (s : ℕ)
    → lookup k l.slot_of_session ≡ some s
    → lookup k (assign_all l sids).slot_of_session ≡ some s
unfolding assign_all
assign_all_keeps l [] k s h = h
assign_all_keeps l (sid ∷ sids) k s h =
    assign_all_keeps (assign_slot l sid) sids k s (assign_slot_keeps l sid k s h)

assign_slot_has :
    (l : Layout) (sid k : String)
    → is_some (lookup k (assign_slot l sid).slot_of_session)
      ≡ (k == sid || is_some (lookup k l.slot_of_session))
unfolding assign_slot
assign_slot_has l sid k = elim (Option-cases (lookup sid l.slot_of_session)) [
  | inl e ↦ rw (e, assign_slot) (rw lookup-place (ground arith))
  | inr (t, e) ↦ rw (e, assign_slot) (ground arith)
]

assign_all_has :
    (l : Layout) (sids : List String) (k : String)
    → is_some (lookup k (assign_all l sids).slot_of_session)
      ≡ (contains sids k || is_some (lookup k l.slot_of_session))
unfolding assign_all
assign_all_has l [] k = refl
assign_all_has l (sid ∷ sids) k =
    ground (arith, assign_all_has (assign_slot l sid) sids k, assign_slot_has l sid k)

release_all-IsValid : (l : Layout) (sids : List String) → IsValid l → IsValid (release_all l sids)
unfolding release_all
release_all-IsValid l [] v = v
release_all-IsValid l (sid ∷ sids) v =
    release_all-IsValid (release_slot l sid) sids (release_slot-IsValid l sid v)

assign_all-IsValid : (l : Layout) (sids : List String) → IsValid l → IsValid (assign_all l sids)
unfolding assign_all
assign_all-IsValid l [] v = v
assign_all-IsValid l (sid ∷ sids) v =
    assign_all-IsValid (assign_slot l sid) sids (assign_slot-IsValid l sid v)

module _ (order : List String → List String) (o : IsSetOrder order) (l : Layout)
    (ids : List String) where
  -- The sessions that leave, those that come, and the layout between the two loops.
  abbrev pub gone : List String
  gone = order (difference (keys l.slot_of_session) ids)

  abbrev pub arrived : List String
  arrived = order (difference ids (keys l.slot_of_session))

  abbrev pub released : Layout
  released = release_all l gone

  contains-gone :
      (k : String)
      → contains gone k ≡ (is_some (lookup k l.slot_of_session) && not (contains ids k))
  contains-gone k =
      o.members _ k
      ∙ contains-keep (λ s. not (contains ids s)) (keys l.slot_of_session) k
      ∙ ground (arith, contains-keys l.slot_of_session k)

  contains-arrived :
      (k : String)
      → contains arrived k ≡ (contains ids k && not (is_some (lookup k l.slot_of_session)))
  contains-arrived k =
      o.members _ k
      ∙ contains-keep (λ s. not (contains (keys l.slot_of_session) s)) ids k
      ∙ ground (arith, contains-keys l.slot_of_session k)

  -- A valid layout stays valid, whatever the order in which the sets are iterated over.
  pub sync-IsValid : IsValid l → IsValid (sync order l ids)
  unfolding sync recompute_grid
  sync-IsValid v =
      let w = assign_all-IsValid released arrived (release_all-IsValid l gone v) in
      record { once = w.once; size = w.size; distinct = w.distinct }

  -- Afterwards exactly the given sessions have a slot.
  pub sync_sessions :
      (k : String) → is_some (lookup k (sync order l ids).slot_of_session) ≡ contains ids k
  unfolding sync recompute_grid
  sync_sessions k =
      assign_all_has released arrived k
      ∙ ground (arith, contains-arrived k, contains-gone k, lookup-release_all l gone k)

  -- A session that stays keeps its slot, whoever comes or goes with it.
  pub sync_keeps :
      (k : String) (s : ℕ)
      → lookup k l.slot_of_session ≡ some s
      → contains ids k ≡ true
      → lookup k (sync order l ids).slot_of_session ≡ some s
  unfolding sync recompute_grid
  sync_keeps k s h m =
      assign_all_keeps released arrived k s
        (lookup-release_all l gone k ∙ ground (arith, contains-gone k))
