-- ===== src/Prelude/Dict.antt =====
-- Python's `dict` with text keys: an association list in insertion order. Proofs elsewhere go by
-- the laws; tests unfold the operations.
use mathlib.Core.List.{List, [], ◌∷◌}
use mathlib.Core.Option.{Option, none, some}
use mathlib.Core.Path.{◌≡◌, refl}
use native.Mathlib.Omega.{arith}
use Prim.Native.String.{String}
use silicon_office.Prelude.Tests.{◌==◌, if◌then◌else◌, is_some}
use silicon_office.Prelude.Lists.{contains, Distinct}

abbrev pub Dict {ℓ} : Type ℓ → Type ℓ
Dict V = List (String × V)

module _ {ℓ} {V : Type ℓ} where
  -- `list(d)`
  unfoldable pub keys : Dict V → List String
  keys [] = []
  keys ((k, _) ∷ d) = k ∷ keys d

  -- `d.get(k)`
  unfoldable pub lookup : String → Dict V → Option V
  lookup k [] = none
  lookup k ((j, v) ∷ d) = if k == j then some v else lookup k d

  -- `d[k] = v`: a key that is there keeps its place.
  unfoldable pub insert : String → V → Dict V → Dict V
  insert k v [] = (k, v) ∷ []
  insert k v ((j, w) ∷ d) = if k == j then (k, v) ∷ d else (j, w) ∷ insert k v d

  -- `d.pop(k, None)` and `del d[k]`. Every entry of the key goes; a dict has at most one.
  unfoldable pub erase : String → Dict V → Dict V
  erase k [] = []
  erase k ((j, w) ∷ d) = let rest = erase k d in if k == j then rest else (j, w) ∷ rest

  pub lookup-nil : (k : String) → lookup k [] ≡ none
  unfolding lookup
  lookup-nil k = refl

  pub lookup-insert :
      (j k : String) (v : V) (d : Dict V)
      → lookup j (insert k v d) ≡ (if j == k then some v else lookup j d)
  unfolding insert lookup
  lookup-insert j k v [] = ground arith
  lookup-insert j k v (_ ∷ d) = ground (arith, lookup-insert j k v d)

  pub lookup-erase :
      (j k : String) (d : Dict V) → lookup j (erase k d) ≡ (if j == k then none else lookup j d)
  unfolding erase lookup
  lookup-erase j k [] = ground arith
  lookup-erase j k (_ ∷ d) = ground (arith, lookup-erase j k d)

  pub contains-keys : (d : Dict V) (k : String) → contains (keys d) k ≡ is_some (lookup k d)
  unfolding keys lookup
  contains-keys [] k = refl
  contains-keys ((j, w) ∷ d) k = ground (arith, contains-keys d k)

  pub insert-Distinct :
      (k : String) (v : V) (d : Dict V) → Distinct (keys d) → Distinct (keys (insert k v d))
  unfolding insert keys
  insert-Distinct k v [] _ = (refl, tt)
  insert-Distinct k v ((j, w) ∷ d) (fresh, u) = ground (
    arith,
    insert-Distinct k v d u,
    contains-keys (insert k v d) j,
    contains-keys d j,
    lookup-insert j k v d,
  )

  pub erase-Distinct : (k : String) (d : Dict V) → Distinct (keys d) → Distinct (keys (erase k d))
  unfolding erase keys
  erase-Distinct k [] _ = tt
  erase-Distinct k ((j, w) ∷ d) (fresh, u) = ground (
    arith,
    erase-Distinct k d u,
    contains-keys (erase k d) j,
    contains-keys d j,
    lookup-erase j k d,
  )

  -- Writing back what is stored changes nothing.
  pub insert_self : (k : String) (v : V) (d : Dict V) → lookup k d ≡ some v → insert k v d ≡ d
  unfolding insert lookup
  insert_self k v [] h = ground arith
  insert_self k v ((j, w) ∷ d) h = ground (arith, insert_self k v d)

  pub insert-insert : (k : String) (v w : V) (d : Dict V) → insert k v (insert k w d) ≡ insert k v d
  unfolding insert
  insert-insert k v w [] = ground arith
  insert-insert k v w ((j, x) ∷ d) = ground (arith, insert-insert k v w d)

  pub erase-fresh : (k : String) (d : Dict V) → lookup k d ≡ none → erase k d ≡ d
  unfolding erase lookup
  erase-fresh k [] h = refl
  erase-fresh k ((j, w) ∷ d) h = ground (arith, erase-fresh k d)

  pub erase-insert : (k : String) (v : V) (d : Dict V) → erase k (insert k v d) ≡ erase k d
  unfolding erase insert
  erase-insert k v [] = ground arith
  erase-insert k v ((j, w) ∷ d) = ground (arith, erase-insert k v d)

pub ruleset dict_laws = (lookup-nil, lookup-insert, lookup-erase)

-- `{k: f(v) for k, v in d.items()}`
unfoldable pub map_values {ℓ κ} : {V : Type ℓ} {W : Type κ} → (V → W) → Dict V → Dict W
map_values f [] = []
map_values f ((k, v) ∷ d) = (k, f v) ∷ map_values f d

abbrev pub map_option {ℓ κ} : {V : Type ℓ} {W : Type κ} → (V → W) → Option V → Option W
map_option f none = none
map_option f (some v) = some (f v)

pub lookup-map_values {ℓ κ} :
    {V : Type ℓ} {W : Type κ} (f : V → W) (k : String) (d : Dict V)
    → lookup k (map_values f d) ≡ map_option f (lookup k d)
unfolding map_values lookup
lookup-map_values f k [] = refl
lookup-map_values f k ((j, v) ∷ d) = ground (arith, lookup-map_values f k d)

pub keys-map_values {ℓ κ} :
    {V : Type ℓ} {W : Type κ} (f : V → W) (d : Dict V) → keys (map_values f d) ≡ keys d
unfolding map_values keys
keys-map_values f [] = refl
keys-map_values f ((k, v) ∷ d) = rw (keys-map_values f d)
