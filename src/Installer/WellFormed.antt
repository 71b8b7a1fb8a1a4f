-- ===== src/Installer/WellFormed.antt =====
-- The merge of installer/install_hooks.py names no key twice where the settings do not.
use silicon_office.Prelude.{
  String, ◌==◌, ◌≡◌, sym, subst, some, get_or, List, [], ◌∷◌, All, Distinct, ok, Option-cases,
  Bool-cases, inl, inr, arith,
}
use silicon_office.Prelude.Dict.{Dict, lookup, insert, erase, keys, insert-Distinct, erase-Distinct}
use silicon_office.Json.{
  Json, null, bool, num, str, arr, obj, Items, nil, cons, Fields, end, field, to_list, from_list,
  to_dict, from_dict, list, object, as_dict, to_dict-from_dict,
}
use silicon_office.Json.Equal.{IsWellFormed, AreWellFormed, FieldsWellFormed}

-- A dict whose values are well-formed and which has no key twice.
unfoldable pub IsDict : Dict Json → Type 0
IsDict d = Distinct (keys d) × All (λ x. IsWellFormed x.1) d

pub empty-IsDict : IsDict []
unfolding IsDict keys
empty-IsDict = (tt, tt)

pub to_list-IsWellFormed : (xs : Items) → AreWellFormed xs → All IsWellFormed (to_list xs)
unfolding to_list AreWellFormed
to_list-IsWellFormed nil w = tt
to_list-IsWellFormed (cons x xs) (w, ws) = (w, to_list-IsWellFormed xs ws)

pub list-IsWellFormed : (xs : List Json) → All IsWellFormed xs → IsWellFormed (list xs)
unfolding from_list IsWellFormed
list-IsWellFormed [] w = tt
list-IsWellFormed (x ∷ xs) (w, ws) = (w, list-IsWellFormed xs ws)

to_dict-All : (fs : Fields) → FieldsWellFormed fs → All (λ x. IsWellFormed x.1) (to_dict fs)
unfolding to_dict FieldsWellFormed
to_dict-All end w = tt
to_dict-All (field k v fs) (w, ws) = (w, to_dict-All fs ws)

from_dict-All : (d : Dict Json) → All (λ x. IsWellFormed x.1) d → FieldsWellFormed (from_dict d)
unfolding from_dict FieldsWellFormed
from_dict-All [] w = tt
from_dict-All ((k, v) ∷ d) (w, ws) = (w, from_dict-All d ws)

pub object-IsWellFormed : (d : Dict Json) → IsDict d → IsWellFormed (object d)
unfolding IsDict IsWellFormed
object-IsWellFormed d (u, w) =
    (subst (λ e. Distinct (keys e)) (sym (to_dict-from_dict d)) u, from_dict-All d w)

pub as_dict-IsDict : (j : Json) (d : Dict Json) → IsWellFormed j → as_dict j ≡ ok d → IsDict d
unfolding as_dict IsDict IsWellFormed
as_dict-IsDict (obj fs) d (u, w) e =
    let same : to_dict fs ≡ d = ground arith in subst IsDict same (u, to_dict-All fs w)
as_dict-IsDict null d w e = cc
as_dict-IsDict (bool _) d w e = cc
as_dict-IsDict (num _) d w e = cc
as_dict-IsDict (str _) d w e = cc
as_dict-IsDict (arr _) d w e = cc

lookup-IsWellFormed :
    (k : String) (d : Dict Json) (v : Json)
    → All (λ x. IsWellFormed x.1) d
    → lookup k d ≡ some v
    → IsWellFormed v
unfolding lookup
lookup-IsWellFormed k [] v w e = let impossible : ⊥ = ground arith in absurd impossible
lookup-IsWellFormed k ((j, x) ∷ d) v (w, ws) e = elim (Bool-cases (k == j)) [
  | inl q ↦ let same : x ≡ v = ground arith in subst IsWellFormed same w
  | inr q ↦ lookup-IsWellFormed k d v ws (ground arith)
]

-- What `get` gives, with a default.
pub get-IsWellFormed :
    (k : String) (d : Dict Json) (other : Json)
    → IsDict d
    → IsWellFormed other
    → IsWellFormed (get_or (lookup k d) other)
unfolding IsDict
get-IsWellFormed k d other (u, w) o = elim (Option-cases (lookup k d)) [
  | inl e ↦ rw e o
  | inr (v, e) ↦ rw e (lookup-IsWellFormed k d v w e)
]

insert-All :
    (k : String) (v : Json) (d : Dict Json)
    → IsWellFormed v
    → All (λ x. IsWellFormed x.1) d
    → All (λ x. IsWellFormed x.1) (insert k v d)
unfolding insert
insert-All k v [] w ws = (w, tt)
insert-All k v ((j, x) ∷ d) w (y, ws) = elim (Bool-cases (k == j)) [
  | inl q ↦ rw q (w, ws)
  | inr q ↦ rw q (y, insert-All k v d w ws)
]

pub insert-IsDict :
    (k : String) (v : Json) (d : Dict Json) → IsWellFormed v → IsDict d → IsDict (insert k v d)
unfolding IsDict
insert-IsDict k v d w (u, ws) = (insert-Distinct k v d u, insert-All k v d w ws)

erase-All :
    (k : String) (d : Dict Json)
    → All (λ x. IsWellFormed x.1) d
    → All (λ x. IsWellFormed x.1) (erase k d)
unfolding erase
erase-All k [] w = tt
erase-All k ((j, x) ∷ d) (y, ws) = elim (Bool-cases (k == j)) [
  | inl q ↦ rw q (erase-All k d ws)
  | inr q ↦ rw q (y, erase-All k d ws)
]

pub erase-IsDict : (k : String) (d : Dict Json) → IsDict d → IsDict (erase k d)
unfolding IsDict
erase-IsDict k d (u, ws) = (erase-Distinct k d u, erase-All k d ws)
