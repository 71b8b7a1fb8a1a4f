-- ===== src/Layout.antt =====
-- frontend/layout.py: which desk slot each session has. Slots are numbers from 0; the free list is
-- in the order of Python's list, where `pop(0)` takes the first and `append` adds at the end.
-- `desk_rect`, which turns a slot into pixels, is in Layout/Desk.
pub mod Column
pub mod Slots
pub mod Sync
pub mod Growth
pub mod Desk
use silicon_office.Prelude.{
  ℕ, suc, max, String, not, List, [], ◌∷◌, ◌++◌, contains, keep, Option, none, some, is_some,
  if◌then◌else◌,
}
use silicon_office.Prelude.Dict.{Dict, lookup, insert, erase, keys}

pub record Layout : Type 0 where
  pub slot_of_session : Dict ℕ
  pub free_slots : List ℕ
  pub next_slot : ℕ
  pub rows : ℕ

abbrev pub init : Layout
init = record { slot_of_session = []; free_slots = []; next_slot = 0; rows = 1 }

-- A session without a slot takes the slot that has been free longest, or a new one.
unfoldable pub place : Layout → String → List ℕ → Layout
place l sid (slot ∷ rest) = record l {
  slot_of_session = insert sid slot l.slot_of_session;
  free_slots = rest;
}
place l sid [] = record l {
  slot_of_session = insert sid l.next_slot l.slot_of_session;
  next_slot = suc l.next_slot;
}

unfoldable pub assign_slot : Layout → String → Layout
assign_slot l sid = if is_some (lookup sid l.slot_of_session) then l else place l sid l.free_slots

unfoldable pub release_slot : Layout → String → Layout
release_slot l sid = elim (lookup sid l.slot_of_session) [
  | none ↦ l
  | some slot ↦ record l {
    slot_of_session = erase sid l.slot_of_session;
    free_slots = l.free_slots ++ slot ∷ [];
  }
]

unfoldable pub release_all : Layout → List String → Layout
release_all l [] = l
release_all l (sid ∷ sids) = release_all (release_slot l sid) sids

unfoldable pub assign_all : Layout → List String → Layout
assign_all l [] = l
assign_all l (sid ∷ sids) = assign_all (assign_slot l sid) sids

-- `a - b` on sets, which are lists without repetition here.
abbrev pub difference : List String → List String → List String
difference a b = keep (λ s. not (contains b s)) a

unfoldable pub recompute_grid : Layout → Layout
recompute_grid l = record l { rows = max 1 l.next_slot }

-- `order` is the order in which Python iterates over a set, which is not specified.
unfoldable pub sync : (List String → List String) → Layout → List String → Layout
sync order l session_ids =
    let current = keys l.slot_of_session in
    let released = release_all l (order (difference current session_ids)) in
    recompute_grid (assign_all released (order (difference session_ids current)))
