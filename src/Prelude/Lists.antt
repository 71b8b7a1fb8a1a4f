-- ===== src/Prelude/Lists.antt =====
-- Lists measured by native numbers, membership and predicates by recursion.
use Prim.Native.Nat.{ℕ, suc, ◌+◌}
use Prim.Native.String.{String}
use mathlib.Core.Bool.{Bool, true, false, not, ◌||◌}
use mathlib.Core.List.{List, [], ◌∷◌, ◌++◌}
use mathlib.Core.Logic.{◌⊎◌}
use mathlib.Core.Path.{◌≡◌, refl, sym, ap, ◌∙◌}
use native.Mathlib.Omega.{arith}
use silicon_office.Prelude.Tests.{◌==◌, if◌then◌else◌}

module _ {ℓ} {A : Type ℓ} where
  abbrev pub length : List A → ℕ
  length [] = 0
  length (x ∷ xs) = suc (length xs)

  pub length-append : (xs ys : List A) → length (xs ++ ys) ≡ length xs + length ys
  length-append [] ys = omega arith
  length-append (x ∷ xs) ys = omega (arith, length-append xs ys)

  abbrev pub All {κ} : (A → Type κ) → List A → Type κ
  All P [] = Unit
  All P (x ∷ xs) = P x × All P xs

  abbrev pub Any : (A → Type 0) → List A → Type 0
  Any P [] = ⊥
  Any P (x ∷ xs) = P x ⊎ Any P xs

  -- `[x for x in xs if p(x)]`
  unfoldable pub keep : (A → Bool) → List A → List A
  keep p [] = []
  keep p (x ∷ xs) = let rest = keep p xs in if p x then x ∷ rest else rest

  pub All-append {κ} : (P : A → Type κ) (xs ys : List A) → All P xs → All P ys → All P (xs ++ ys)
  All-append P [] ys _ q = q
  All-append P (x ∷ xs) ys (p, ps) q = (p, All-append P xs ys ps q)

-- `x in xs`
abbrev pub contains : List String → String → Bool
contains [] a = false
contains (x ∷ xs) a = a == x || contains xs a

-- No text stands twice.
abbrev pub Distinct : List String → Type 0
Distinct [] = Unit
Distinct (x ∷ xs) = (contains xs x ≡ false) × Distinct xs

pub contains-append :
    (xs ys : List String) (a : String) → contains (xs ++ ys) a ≡ (contains xs a || contains ys a)
contains-append [] ys a = refl
contains-append (x ∷ xs) ys a = ground (arith, contains-append xs ys a)

pub contains-keep :
    (p : String → Bool) (xs : List String) (a : String)
    → contains (keep p xs) a ≡ (if p a then contains xs a else false)
unfolding keep
contains-keep p [] a = ground arith
contains-keep p (x ∷ xs) a = ground (arith, contains-keep p xs a)

pub keep-Distinct : (p : String → Bool) (xs : List String) → Distinct xs → Distinct (keep p xs)
unfolding keep
keep-Distinct p [] d = tt
keep-Distinct p (x ∷ xs) (fresh, d) = ground (arith, keep-Distinct p xs d, contains-keep p xs x)

without : String → List String → List String
without x = keep (λ y. not (y == x))

without_absent : (x : String) (ys : List String) → contains ys x ≡ false → without x ys ≡ ys
unfolding without keep
without_absent x [] h = refl
without_absent x (y ∷ ys) h = ground (arith, without_absent x ys)

length-without :
    (x : String) (ys : List String)
    → Distinct ys
    → contains ys x ≡ true
    → suc (length (without x ys)) ≡ length ys
unfolding without keep
length-without x [] d h = cc
length-without x (y ∷ ys) (fresh, d) h =
    ground (arith, length-without x ys d, without_absent y ys fresh)

-- Lists without repetition that have the same members are equally long.
pub same_length :
    (xs ys : List String)
    → Distinct xs
    → Distinct ys
    → ((k : String) → contains xs k ≡ contains ys k)
    → length xs ≡ length ys
unfolding without
same_length [] [] dx dy h = refl
same_length [] (y ∷ ys) dx dy h = ground (arith, h y)
same_length (x ∷ xs) ys (fresh, dx) dy h =
    ap suc (
      same_length xs (without x ys) dx (keep-Distinct _ ys dy)
        λ k. sym (contains-keep (λ y. not (y == x)) ys k ∙ ground (arith, h k)))
    ∙ length-without x ys dy (ground (arith, h x))
