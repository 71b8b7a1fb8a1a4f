-- ===== src/Layout/Growth.antt =====
-- frontend/layout.py: no two sessions share a desk, and the grid is as large as the largest
-- number of sessions seen so far, never larger.
use silicon_office.Prelude.{
  ℕ, suc, ◌≤◌, ◌<◌, max, String, str_dec, same_length, ◌≡◌, refl, sym, ap, ◌∙◌, ◌≢◌, ◌⊎◌, inl, inr,
  List, [], ◌∷◌, Distinct, length, some, Option-cases, arith,
}
use silicon_office.Prelude.Dict.{Dict, lookup, keys, contains-keys}
use silicon_office.Layout.{
  Layout, place, assign_slot, release_slot, release_all, assign_all, recompute_grid, sync,
}
use silicon_office.Layout.Slots.{IsValid, held, count}
use silicon_office.Layout.Sync.{IsSetOrder, sync-IsValid, sync_sessions, arrived, released, gone}

held_pos : (k : String) (s : ℕ) (d : Dict ℕ) → lookup k d ≡ some s → 1 ≤ held s d
unfolding held lookup
held_pos k s [] h = cc
held_pos k s ((j, t) ∷ d) h = ground (arith, held_pos k s d)

held_two :
    (j k : String) (s : ℕ) (d : Dict ℕ)
    → j ≢ k
    → lookup j d ≡ some s
    → lookup k d ≡ some s
    → 2 ≤ held s d
unfolding held lookup
held_two j k s [] n h g = cc
held_two j k s ((i, t) ∷ d) n h g =
    ground (arith, held_two j k s d n, held_pos j s d, held_pos k s d)

-- In a valid layout a slot in use is a row of the grid that no other session and no free slot has.
pub slot_own :
    (l : Layout) (k j : String) (s : ℕ)
    → IsValid l
    → lookup k l.slot_of_session ≡ some s
    → lookup j l.slot_of_session ≡ some s
    → (s < l.next_slot) × (count s l.free_slots ≡ 0) × (j ≡ k)
slot_own l k j s v h g = (
  ground (arith, v.once s, held_pos k s l.slot_of_session h),
  ground (arith, v.once s, held_pos k s l.slot_of_session h),
  elim (str_dec j k) [
    | yes e ↦ e
    | no n ↦
        let impossible : ⊥ = ground (arith, v.once s, held_two j k s l.slot_of_session n g h) in
        absurd impossible
  ],
)

-- A layout on the way from `l₀`: the grid grew only while no slot was free.
abbrev IsGrown : Layout → Layout → Type 0
IsGrown l₀ l = (l₀.next_slot ≤ l.next_slot) × ((l.next_slot ≡ l₀.next_slot) ⊎ (l.free_slots ≡ []))

place-IsGrown :
    (l₀ l : Layout) (sid : String) (free : List ℕ)
    → l.free_slots ≡ free
    → IsGrown l₀ l
    → IsGrown l₀ (place l sid free)
unfolding place
place-IsGrown l₀ l sid [] e (le, g) = (omega arith, inr e)
place-IsGrown l₀ l sid (slot ∷ rest) e (le, g) = (le, inl (ground arith))

assign_all-IsGrown :
    (l₀ l : Layout) (sids : List String) → IsGrown l₀ l → IsGrown l₀ (assign_all l sids)
unfolding assign_all assign_slot
assign_all-IsGrown l₀ l [] g = g
assign_all-IsGrown l₀ l (sid ∷ sids) g =
    assign_all-IsGrown l₀ (assign_slot l sid) sids
      (elim (Option-cases (lookup sid l.slot_of_session)) [
        | inl e ↦ rw (e, assign_slot) (place-IsGrown l₀ l sid l.free_slots refl g)
        | inr (s, e) ↦ rw (e, assign_slot) g
      ])

next_slot-release_all :
    (l : Layout) (sids : List String) → (release_all l sids).next_slot ≡ l.next_slot
unfolding release_all release_slot
next_slot-release_all l [] = refl
next_slot-release_all l (sid ∷ sids) =
    next_slot-release_all (release_slot l sid) sids
    ∙ elim (Option-cases (lookup sid l.slot_of_session)) [
      | inl e ↦ rw (e, release_slot)
      | inr (s, e) ↦ rw (e, release_slot)
    ]

length-keys : (d : Dict ℕ) → length (keys d) ≡ length d
unfolding keys
length-keys [] = refl
length-keys ((k, s) ∷ d) = ap suc (length-keys d)

-- The capacity after a reconciliation is the larger of the capacity before and the number of
-- sessions: it tracks the peak, and slots that are free are used before it grows. The rows of the
-- grid are that many, and one at least.
pub sync_capacity :
    (order : List String → List String) (l : Layout) (ids : List String)
    → IsSetOrder order
    → IsValid l
    → Distinct ids
    → ((sync order l ids).next_slot ≡ max l.next_slot (length ids))
      × ((sync order l ids).rows ≡ max 1 (max l.next_slot (length ids)))
sync_capacity order l ids o v d = (capacity, rows_next ∙ ap (max 1) capacity)
  where
    l' : Layout
    l' = sync order l ids

    v' : IsValid l'
    v' = sync-IsValid order o l ids v

    filled : length l'.slot_of_session ≡ length ids
    filled =
        sym (length-keys l'.slot_of_session)
        ∙ same_length (keys l'.slot_of_session) ids v'.distinct d
            λ k. contains-keys l'.slot_of_session k ∙ sync_sessions order o l ids k

    grown : IsGrown (released order o l ids) l'
    grown =
        unfold sync recompute_grid in
        assign_all-IsGrown (released order o l ids) (released order o l ids) (arrived order o l ids)
          (omega arith, inl refl)

    capacity : l'.next_slot ≡ max l.next_slot (length ids)
    capacity = ground (arith, filled, v'.size, grown, next_slot-release_all l (gone order o l ids))

    rows_next : l'.rows ≡ max 1 l'.next_slot
    rows_next = unfold sync recompute_grid in refl
