-- ===== src/Json.antt =====
-- The values that Python's `json` reads and writes. Numbers are kept as their literals: the
-- program passes them on and never computes with them.
pub mod Equal
use silicon_office.Prelude.{String, ◌≡◌, refl, ap, Bool, List, [], ◌∷◌, map, Outcome, ok, raised}
use silicon_office.Prelude.Dict.{Dict, keys}

mutual
  pub data Json : Type 0 where
    null : Json
    bool : Bool → Json
    num : String → Json
    str : String → Json
    arr : Items → Json
    obj : Fields → Json

  pub data Items : Type 0 where
    nil : Items
    cons : Json → Items → Items

  pub data Fields : Type 0 where
    end : Fields
    field : String → Json → Fields → Fields

unfoldable pub to_list : Items → List Json
to_list nil = []
to_list (cons x xs) = x ∷ to_list xs

unfoldable pub from_list : List Json → Items
from_list [] = nil
from_list (x ∷ xs) = cons x (from_list xs)

unfoldable pub to_dict : Fields → Dict Json
to_dict end = []
to_dict (field k v fs) = (k, v) ∷ to_dict fs

unfoldable pub from_dict : Dict Json → Fields
from_dict [] = end
from_dict ((k, v) ∷ d) = field k v (from_dict d)

pub to_list-from_list : (xs : List Json) → to_list (from_list xs) ≡ xs
unfolding to_list from_list
to_list-from_list [] = refl
to_list-from_list (x ∷ xs) = ap (λ l. x ∷ l) (to_list-from_list xs)

pub to_dict-from_dict : (d : Dict Json) → to_dict (from_dict d) ≡ d
unfolding to_dict from_dict
to_dict-from_dict [] = refl
to_dict-from_dict ((k, v) ∷ d) = ap (λ l. (k, v) ∷ l) (to_dict-from_dict d)

-- A list, and a dict, as a value.
abbrev pub list : List Json → Json
list xs = arr (from_list xs)

abbrev pub object : Dict Json → Json
object d = obj (from_dict d)

-- The characters of a text, each as a text.
unfoldable pub characters : String → List Json
characters String.[] = []
characters (String.◌∷◌ c s) = str (String.◌∷◌ c String.[]) ∷ characters s

-- `for x in v`: a list gives its items, a dict its keys, a text its characters, and anything else
-- raises.
unfoldable pub iterate : Json → Outcome (List Json)
unfolding characters
iterate (arr xs) = ok (to_list xs)
iterate (obj fs) = ok (map str (keys (to_dict fs)))
iterate (str s) = ok (characters s)
iterate _ = raised

-- `v.get`: of a dict alone.
unfoldable pub as_dict : Json → Outcome (Dict Json)
as_dict (obj fs) = ok (to_dict fs)
as_dict _ = raised

pub as_dict-object : (d : Dict Json) → as_dict (object d) ≡ ok d
unfolding as_dict
as_dict-object d = ap ok (to_dict-from_dict d)
