-- ===== src/StateMachine/Names.antt =====
-- `project_name_from_cwd` of daemon/state_machine.py, with the parts of `str.rstrip("/")` and
-- `os.path.basename` that it uses.
use Prim.Native.Char.{Char, code}
use silicon_office.Prelude.{
  ℕ, String, ◌≡◌, refl, ◌≢◌, ◌∙◌, ap, Bool, true, false, ◌&&◌, ◌||◌, eqb, arith, if◌then◌else◌,
  Bool-cases, inl, inr, ◌⊎◌,
}

-- ord("/")
abbrev slash : ℕ
slash = b'/'

abbrev pub is_empty : String → Bool
is_empty String.[] = true
is_empty (String.◌∷◌ _ _) = false

unfoldable pub has_slash : String → Bool
has_slash String.[] = false
has_slash (String.◌∷◌ c s) = eqb (code c) slash || has_slash s

unfoldable pub all_slashes : String → Bool
all_slashes String.[] = true
all_slashes (String.◌∷◌ c s) = eqb (code c) slash && all_slashes s

-- One character in front of a stripped text.
strip_cons : Char → String → String
strip_cons c String.[] = if eqb (code c) slash then String.[] else String.◌∷◌ c String.[]
strip_cons c (String.◌∷◌ d s) = String.◌∷◌ c (String.◌∷◌ d s)

-- s.rstrip("/")
rstrip_slashes : String → String
unfolding strip_cons
rstrip_slashes String.[] = String.[]
rstrip_slashes (String.◌∷◌ c s) = strip_cons c (rstrip_slashes s)

-- os.path.basename(s): what follows the last slash
basename : String → String
unfolding has_slash
basename String.[] = String.[]
basename (String.◌∷◌ c s) =
    let rest = basename s in
    if has_slash s then rest else if eqb (code c) slash then s else String.◌∷◌ c s

unfoldable pub project_name_from_cwd : String → String
unfolding rstrip_slashes basename has_slash
project_name_from_cwd cwd =
    if is_empty cwd
    then "unknown"
    else (let name = basename (rstrip_slashes cwd) in if is_empty name then cwd else name)

example_trailing : project_name_from_cwd "/tmp/proj//" ≡ "proj"
unfolding project_name_from_cwd
example_trailing = refl

example_root : project_name_from_cwd "/" ≡ "/"
unfolding project_name_from_cwd
example_root = refl

basename-has_slash : (s : String) → has_slash (basename s) ≡ false
unfolding basename has_slash
basename-has_slash String.[] = refl
basename-has_slash (String.◌∷◌ c s) = ground (arith, basename-has_slash s)

strip_cons_empty :
    (c : Char) (t : String) → is_empty (strip_cons c t) ≡ (eqb (code c) slash && is_empty t)
unfolding strip_cons
strip_cons_empty c String.[] = elim (Bool-cases (eqb (code c) slash)) [
  | inl e ↦ rw e
  | inr e ↦ rw e
]
strip_cons_empty c (String.◌∷◌ d t) = elim (Bool-cases (eqb (code c) slash)) [
  | inl e ↦ rw e
  | inr e ↦ rw e
]

strip_cons_name :
    (c : Char) (t : String)
    → is_empty (basename t) ≡ is_empty t
    → is_empty (basename (strip_cons c t)) ≡ is_empty (strip_cons c t)
unfolding strip_cons basename
strip_cons_name c String.[] h = elim (Bool-cases (eqb (code c) slash)) [
  | inl e ↦ rw e
  | inr e ↦ rw e (rw e)
]
strip_cons_name c (String.◌∷◌ d t) h = elim (Bool-cases (has_slash (String.◌∷◌ d t))) [
  | inl e ↦ rw e h
  | inr e ↦ rw e (elim (Bool-cases (eqb (code c) slash)) [ inl f ↦ rw f | inr f ↦ rw f ])
]

-- Stripping leaves nothing exactly where there is nothing but slashes.
rstrip-all_slashes : (s : String) → is_empty (rstrip_slashes s) ≡ all_slashes s
unfolding rstrip_slashes all_slashes
rstrip-all_slashes String.[] = refl
rstrip-all_slashes (String.◌∷◌ c s) =
    strip_cons_empty c (rstrip_slashes s) ∙ ap (◌&&◌ (eqb (code c) slash)) (rstrip-all_slashes s)

-- What is left after stripping has a last component exactly if it is not empty.
basename_rstrip :
    (s : String) → is_empty (basename (rstrip_slashes s)) ≡ is_empty (rstrip_slashes s)
unfolding rstrip_slashes basename
basename_rstrip String.[] = refl
basename_rstrip (String.◌∷◌ c s) = strip_cons_name c (rstrip_slashes s) (basename_rstrip s)

pub ne_of_nonempty : (s : String) → is_empty s ≡ false → s ≢ ""
ne_of_nonempty String.[] h e = cc
ne_of_nonempty (String.◌∷◌ c s) h e = cc

named : (cwd : String) → is_empty (project_name_from_cwd cwd) ≡ false
unfolding project_name_from_cwd
named cwd = elim (Bool-cases (is_empty cwd)) [
  | inl e ↦ rw e
  | inr e ↦ rw e (elim (Bool-cases (is_empty (basename (rstrip_slashes cwd)))) [
    | inl f ↦ rw f e
    | inr f ↦ rw f f
  ])
]

empty-all_slashes : (s : String) → is_empty s ≡ true → all_slashes s ≡ true
unfolding all_slashes
empty-all_slashes String.[] h = refl
empty-all_slashes (String.◌∷◌ c s) h = cc

name_no_slash :
    (cwd : String) → all_slashes cwd ≡ false → has_slash (project_name_from_cwd cwd) ≡ false
unfolding project_name_from_cwd
name_no_slash cwd h = elim (Bool-cases (is_empty cwd)) [
  | inl e ↦ cc (empty-all_slashes cwd e)
  | inr e ↦
      let f = basename_rstrip cwd ∙ rstrip-all_slashes cwd ∙ h in
      rw (e, f) (basename-has_slash (rstrip_slashes cwd))
]

name_slashes :
    (cwd : String)
    → all_slashes cwd ≡ true
    → project_name_from_cwd cwd ≡ (if is_empty cwd then "unknown" else cwd)
unfolding project_name_from_cwd
name_slashes cwd h = rw (basename_rstrip cwd ∙ rstrip-all_slashes cwd ∙ h)

-- The project name is never empty. If the directory consists of slashes alone, the name is the
-- directory, or "unknown" for the empty one; otherwise the name holds no slash.
pub project_name_lem :
    (cwd : String)
    → (project_name_from_cwd cwd ≢ "")
      × (((all_slashes cwd ≡ true)
            × (project_name_from_cwd cwd ≡ (if is_empty cwd then "unknown" else cwd)))
          ⊎ ((all_slashes cwd ≡ false) × (has_slash (project_name_from_cwd cwd) ≡ false)))
project_name_lem cwd = (
  λ e. ne_of_nonempty _ (named cwd) e,
  elim (Bool-cases (all_slashes cwd)) [
    | inl a ↦ inl (a, name_slashes cwd a)
    | inr a ↦ inr (a, name_no_slash cwd a)
  ],
)
