-- ===== src/Json/Equal.antt =====
-- Python's `==` on JSON values: dicts by their keys, in any order. Numbers are compared by
-- parameters: two literals, and a literal with a Boolean, which counts as 0 or 1.
use silicon_office.Prelude.{
  ℕ, suc, String, ◌==◌, ==_refl, ◌≡◌, refl, Bool, true, false, ◌&&◌, none, some, contains, Distinct,
  eqb, arith,
}
use silicon_office.Prelude.Dict.{lookup, keys}
use silicon_office.Json.{
  Json, null, bool, num, str, arr, obj, Items, nil, cons, Fields, end, field, to_dict,
}

abbrev same_bool : Bool → Bool → Bool
same_bool true b = b
same_bool false true = false
same_bool false false = true

-- `len` of a dict
unfoldable pub size : Fields → ℕ
size end = 0
size (field _ _ fs) = suc (size fs)

module _ (same_num : String → String → Bool) (num_is : String → Bool → Bool) where
  unfoldable mutual
    unfolding to_dict lookup

    pub equal : Json → Json → Bool
    equal null null = true
    equal (bool a) (bool b) = same_bool a b
    equal (bool a) (num n) = num_is n a
    equal (num n) (bool b) = num_is n b
    equal (num m) (num n) = same_num m n
    equal (str s) (str t) = s == t
    equal (arr xs) (arr ys) = equal_items xs ys
    equal (obj fs) (obj gs) = eqb (size fs) (size gs) && fields_in fs gs
    equal _ _ = false

    pub equal_items : Items → Items → Bool
    equal_items nil nil = true
    equal_items (cons x xs) (cons y ys) = equal x y && equal_items xs ys
    equal_items _ _ = false

    pub fields_in : Fields → Fields → Bool
    fields_in end gs = true
    fields_in (field k v fs) gs =
        elim (lookup k (to_dict gs)) [ none ↦ false | some w ↦ equal v w ] && fields_in fs gs

-- No object names a key twice, at any depth, as in every value that Python holds.
unfoldable mutual
  unfolding to_dict keys

  pub IsWellFormed : Json → Type 0
  IsWellFormed null = Unit
  IsWellFormed (bool _) = Unit
  IsWellFormed (num _) = Unit
  IsWellFormed (str _) = Unit
  IsWellFormed (arr xs) = AreWellFormed xs
  IsWellFormed (obj fs) = Distinct (keys (to_dict fs)) × FieldsWellFormed fs

  pub AreWellFormed : Items → Type 0
  AreWellFormed nil = Unit
  AreWellFormed (cons x xs) = IsWellFormed x × AreWellFormed xs

  pub FieldsWellFormed : Fields → Type 0
  FieldsWellFormed end = Unit
  FieldsWellFormed (field k v fs) = IsWellFormed v × FieldsWellFormed fs

-- Each field of the first is found in the second.
HoldIn : Fields → Fields → Type 0
HoldIn end gs = Unit
HoldIn (field k v fs) gs = (lookup k (to_dict gs) ≡ some v) × HoldIn fs gs

HoldIn-later :
    (fs gs : Fields) (k : String) (v : Json)
    → contains (keys (to_dict fs)) k ≡ false
    → HoldIn fs gs
    → HoldIn fs (field k v gs)
unfolding HoldIn to_dict lookup keys
HoldIn-later end gs k v f h = tt
HoldIn-later (field j w fs) gs k v f (h, hs) =
    (ground arith, HoldIn-later fs gs k v (ground arith) hs)

HoldIn-self : (fs : Fields) → Distinct (keys (to_dict fs)) → HoldIn fs fs
unfolding HoldIn to_dict lookup keys
HoldIn-self end d = tt
HoldIn-self (field k v fs) (fresh, d) =
    (rw (==_refl k), HoldIn-later fs fs k v fresh (HoldIn-self fs d))

module _ (same_num : String → String → Bool) (num_is : String → Bool → Bool)
    (same_num_self : (n : String) → same_num n n ≡ true) where
  same_bool_self : (b : Bool) → same_bool b b ≡ true
  same_bool_self true = refl
  same_bool_self false = refl

  mutual
    unfolding equal IsWellFormed HoldIn

    pub equal_self : (j : Json) → IsWellFormed j → equal same_num num_is j j ≡ true
    equal_self null w = refl
    equal_self (bool b) w = same_bool_self b
    equal_self (num n) w = same_num_self n
    equal_self (str s) w = ==_refl s
    equal_self (arr xs) w = equal_items_self xs w
    equal_self (obj fs) (d, w) = ground (arith, fields_in_self fs fs w (HoldIn-self fs d))

    equal_items_self : (xs : Items) → AreWellFormed xs → equal_items same_num num_is xs xs ≡ true
    equal_items_self nil w = refl
    equal_items_self (cons x xs) (w, ws) = ground (arith, equal_self x w, equal_items_self xs ws)

    fields_in_self :
        (fs gs : Fields)
        → FieldsWellFormed fs
        → HoldIn fs gs
        → fields_in same_num num_is fs gs ≡ true
    fields_in_self end gs w h = refl
    fields_in_self (field k v fs) gs (w, ws) (h, hs) =
        ground (arith, equal_self v w, fields_in_self fs gs ws hs)
