-- ===== src/Layout/Slots.antt =====
-- The slot bookkeeping of frontend/layout.py: each slot is held once, one step at a time.
use silicon_office.Prelude.{
  ℕ, suc, ◌+◌, String, ◌≡◌, refl, inl, inr, List, [], ◌∷◌, ◌++◌, Distinct, length, length-append,
  none, some, Option-cases, arith, eqb, ltb, if◌then◌else◌,
}
use silicon_office.Prelude.Dict.{
  Dict, lookup, insert, erase, keys, insert-Distinct, erase-Distinct, contains-keys, erase-fresh,
}
use silicon_office.Layout.{Layout, place, assign_slot, release_slot}

-- 1 for the slot that is asked about, 0 for another.
abbrev one_if : ℕ → ℕ → ℕ
one_if i s = if eqb i s then 1 else 0

-- How often a slot stands in the free list.
unfoldable pub count : ℕ → List ℕ → ℕ
count i [] = 0
count i (s ∷ slots) = one_if i s + count i slots

-- How many sessions hold a slot.
unfoldable pub held : ℕ → Dict ℕ → ℕ
held i [] = 0
held i ((_, s) ∷ d) = one_if i s + held i d

count-append : (i : ℕ) (xs ys : List ℕ) → count i (xs ++ ys) ≡ count i xs + count i ys
unfolding count
count-append i [] ys = omega arith
count-append i (x ∷ xs) ys = omega (arith, count-append i xs ys)

held-insert :
    (i s : ℕ) (k : String) (d : Dict ℕ)
    → lookup k d ≡ none
    → held i (insert k s d) ≡ one_if i s + held i d
unfolding held insert lookup
held-insert i s k [] h = refl
held-insert i s k ((j, t) ∷ d) h = ground (arith, held-insert i s k d)

held-erase :
    (i s : ℕ) (k : String) (d : Dict ℕ)
    → Distinct (keys d)
    → lookup k d ≡ some s
    → one_if i s + held i (erase k d) ≡ held i d
unfolding held erase lookup keys
held-erase i s k [] u h = cc
held-erase i s k ((j, t) ∷ d) (fresh, u) h =
    ground (arith, held-erase i s k d u, erase-fresh k d, contains-keys d j)

length-insert :
    (s : ℕ) (k : String) (d : Dict ℕ) → lookup k d ≡ none → length (insert k s d) ≡ suc (length d)
unfolding insert lookup
length-insert s k [] h = refl
length-insert s k ((j, t) ∷ d) h = ground (arith, length-insert s k d)

length-erase :
    (s : ℕ) (k : String) (d : Dict ℕ)
    → Distinct (keys d)
    → lookup k d ≡ some s
    → suc (length (erase k d)) ≡ length d
unfolding erase lookup keys
length-erase s k [] u h = cc
length-erase s k ((j, t) ∷ d) (fresh, u) h =
    ground (arith, length-erase s k d u, erase-fresh k d, contains-keys d j)

-- Every slot below `next_slot` is held by one session or stands once in the free list, no other
-- slot is in use, and no session has two entries.
pub record IsValid (l : Layout) : Type 0 where
  pub once :
      (i : ℕ)
      → held i l.slot_of_session + count i l.free_slots ≡ (if ltb i l.next_slot then 1 else 0)
  pub size : length l.slot_of_session + length l.free_slots ≡ l.next_slot
  pub distinct : Distinct (keys l.slot_of_session)

place-IsValid :
    (l : Layout) (sid : String) (free : List ℕ)
    → l.free_slots ≡ free
    → lookup sid l.slot_of_session ≡ none
    → IsValid l
    → IsValid (place l sid free)
unfolding place count
place-IsValid l sid [] e h v = record {
  once = λ i. ground (arith, v.once i, held-insert i l.next_slot sid l.slot_of_session h);
  size = ground (arith, v.size, length-insert l.next_slot sid l.slot_of_session h);
  distinct = insert-Distinct sid l.next_slot l.slot_of_session v.distinct;
}
place-IsValid l sid (slot ∷ rest) e h v = record {
  once = λ i. ground (arith, v.once i, held-insert i slot sid l.slot_of_session h);
  size = ground (arith, v.size, length-insert slot sid l.slot_of_session h);
  distinct = insert-Distinct sid slot l.slot_of_session v.distinct;
}

pub assign_slot-IsValid : (l : Layout) (sid : String) → IsValid l → IsValid (assign_slot l sid)
unfolding assign_slot
assign_slot-IsValid l sid v = elim (Option-cases (lookup sid l.slot_of_session)) [
  | inl e ↦ rw (e, assign_slot) (place-IsValid l sid l.free_slots refl e v)
  | inr (s, e) ↦ rw (e, assign_slot) v
]

pub release_slot-IsValid : (l : Layout) (sid : String) → IsValid l → IsValid (release_slot l sid)
unfolding release_slot count
release_slot-IsValid l sid v = elim (Option-cases (lookup sid l.slot_of_session)) [
  | inl e ↦ rw (e, release_slot) v
  | inr (s, e) ↦
      rw (e, release_slot)
        (record {
          once = λ i. omega (
            arith,
            v.once i,
            held-erase i s sid l.slot_of_session v.distinct e,
            count-append i l.free_slots (s ∷ []),
          );
          size = omega (
            arith,
            v.size,
            length-erase s sid l.slot_of_session v.distinct e,
            length-append {0} l.free_slots (s ∷ []),
          );
          distinct = erase-Distinct sid l.slot_of_session v.distinct;
        })
]
