-- ===== src/Installer/Actions.antt =====
-- The calls of installer/install_hooks.py that change files: what each, and a part of them,
-- leaves.
use silicon_office.Prelude.{
  String, ◌&&◌, ◌==◌, ==_refl, ◌≡◌, ◌≢◌, refl, ◌∙◌, ◌⊎◌, Option, none, some, is_some, List, [], ◌∷◌,
  ◌++◌, All, Option-cases, inl, inr, arith, if◌then◌else◌,
}
use silicon_office.Prelude.Dict.{lookup, insert, lookup-insert, lookup-erase}
use silicon_office.Installer.Files.{
  FileSystem, tmp_path, backup_path, Action, truncate, fill, replace, perform, perform_all, backup,
  atomic_write,
}

-- A call that changes no file at the path.
unfoldable pub Spares : String → Action → Type 0
Spares path (truncate p) = path ≢ p
Spares path (fill p text) = path ≢ p
Spares path (replace src dst) = (path ≢ src) × (path ≢ dst)

lookup-perform :
    (path : String) (a : Action) (fs : FileSystem)
    → Spares path a
    → lookup path (perform a fs) ≡ lookup path fs
unfolding Spares perform
lookup-perform path (truncate p) fs n = ground (arith, lookup-insert path p "" fs)
lookup-perform path (fill p text) fs n = ground (arith, lookup-insert path p text fs)
lookup-perform path (replace src dst) fs (m, n) = elim (Option-cases (lookup src fs)) [
  | inl e ↦ rw (e, perform) refl
  | inr (text, e) ↦
      rw (e, perform)
        (ground (arith, lookup-erase path src (insert dst text fs), lookup-insert path dst text fs))
]

pub lookup-perform_all :
    (path : String) (as' : List Action) (fs : FileSystem)
    → All (Spares path) as'
    → lookup path (perform_all as' fs) ≡ lookup path fs
unfolding perform_all
lookup-perform_all path [] fs s = refl
lookup-perform_all path (a ∷ as') fs (s, ss) =
    lookup-perform_all path as' (perform a fs) ss ∙ lookup-perform path a fs s

pub perform_all-append :
    (xs ys : List Action) (fs : FileSystem)
    → perform_all (xs ++ ys) fs ≡ perform_all ys (perform_all xs fs)
unfolding perform_all
perform_all-append [] ys fs = refl
perform_all-append (a ∷ xs) ys fs = perform_all-append xs ys (perform a fs)

module _ {ℓ} {A : Type ℓ} where
  pub All-prefix {κ} : (P : A → Type κ) (xs ys : List A) → All P (xs ++ ys) → All P xs
  All-prefix P [] ys a = tt
  All-prefix P (x ∷ xs) ys (p, ps) = (p, All-prefix P xs ys ps)

  not_nil : (xs : List A) (y : A) (ys : List A) → [] ≢ xs ++ y ∷ ys
  not_nil [] y ys e = cc
  not_nil (x ∷ xs) y ys e = cc

  -- A part from the front of a list is the whole of it or a part of what is before its last item.
  pub prefix-cases :
      (done todo xs : List A) (z : A)
      → xs ++ z ∷ [] ≡ done ++ todo
      → (todo ≡ []) ⊎ ((rest : List A) × (xs ≡ done ++ rest))
  prefix-cases [] todo xs z e = inr (xs, refl)
  prefix-cases (d ∷ done) [] xs z e = inl refl
  prefix-cases (d ∷ done) (t ∷ todo) [] z e = absurd (not_nil done t todo (cc))
  prefix-cases (d ∷ done) (t ∷ todo) (x ∷ xs) z e = elim (prefix-cases done (t ∷ todo) xs z (cc)) [
    | inl none_left ↦ inl none_left
    | inr (rest, q) ↦ inr (rest, cc)
  ]

-- What the calls of `_backup` and of `_atomic_write` do to each path.
pub lookup-atomic_write :
    (path text other : String) (fs : FileSystem)
    → lookup other (perform_all (atomic_write path text) fs) ≡ (
        if other == tmp_path path
        then none
        else if other == path
        then some text
        else lookup other fs)
unfolding perform_all perform atomic_write
lookup-atomic_write path text other fs =
    let tmp = tmp_path path in
    let filled : lookup tmp (insert tmp text (insert tmp "" fs)) ≡ some text =
      lookup-insert tmp tmp text (insert tmp "" fs) ∙ rw (==_refl tmp) refl in
    rw (filled, perform)
      (ground (
        arith,
        lookup-erase other tmp (insert path text (insert tmp text (insert tmp "" fs))),
        lookup-insert other path text (insert tmp text (insert tmp "" fs)),
        lookup-insert other tmp text (insert tmp "" fs),
        lookup-insert other tmp "" fs,
      ))

pub lookup-backup :
    (path ts other : String) (found : Option String) (fs : FileSystem)
    → lookup other (perform_all (backup path ts found) fs)
      ≡ (if other == backup_path path ts && is_some found then found else lookup other fs)
unfolding perform_all perform backup
lookup-backup path ts other none fs = ground arith
lookup-backup path ts other (some text) fs =
    let copy = backup_path path ts in
    ground
      (arith, lookup-insert other copy text (insert copy "" fs), lookup-insert other copy "" fs)
