-- ===== src/Sessions/Described.antt =====
-- What daemon/registry.py reads from the machine, described apart from its code: the files that are
-- there, the processes that run, and the record that a file makes of a pending one.
use silicon_office.Prelude.{
  ℕ, zero, suc, String, ==_iff, ◌≡◌, ◌≢◌, refl, ap, ◌⊎◌, ◌↔◌, inl, inr, true, Option, none, some,
  List, [], ◌∷◌, ◌++◌, All, ok, Outcome-cases, Bool-cases, Option-cases, ok_injective, arith,
  if◌then◌else◌, or_else, get_or, subst,
}
use silicon_office.Schema.{AgentRecord}
use silicon_office.Sessions.{
  World, SessionInfo, FileRead, parsed, skipped, broken, delivered, permission_error, is_pid_alive,
  parse_files, read_session_files, describes, first_for, find_session_file, identify,
  look_up_identity, resolve_identity,
}

-- The session files that are there.
abbrev pub files : World → List FileRead
files w = if w.sessions_dir_exists then w.session_files else []

-- A process with this pid runs, be it another user's.
abbrev pub IsRunning : World → ℕ → Type 0
IsRunning w p = (p ≢ 0) × ((w.kill p ≡ delivered) ⊎ (w.kill p ≡ permission_error))

-- A file that was parsed and names the session.
abbrev pub IsFileOf : String → FileRead → Type 0
IsFileOf sid (parsed info) = info.session_id ≡ some sid
IsFileOf sid skipped = ⊥
IsFileOf sid broken = ⊥

pub is_pid_alive-IsRunning : (w : World) (p : ℕ) → (is_pid_alive w (some p) ≡ true) ↔ IsRunning w p
unfolding is_pid_alive
is_pid_alive-IsRunning w zero =
    (λ e. let impossible : ⊥ = ground arith in absurd impossible, λ r. absurd (r.0 refl))
is_pid_alive-IsRunning w (suc n) = ground arith

module _ {T : Type 0} where
  -- What becomes of a record when its identity is looked for: with a pid it stays; without one, the
  -- first file that names its session gives the pid, the entrypoint if it has one, and the project's
  -- name if it has one that is not empty.
  pub data IsResolved (w : World) (r : AgentRecord T) : AgentRecord T → Type 0 where
    has_pid : (p : ℕ) → r.pid ≡ some p → IsResolved w r r
    no_file : r.pid ≡ none → All (λ f. IsFileOf r.session_id f → ⊥) (files w) → IsResolved w r r
    from_file :
        (before after : List FileRead) (info : SessionInfo)
        → r.pid ≡ none
        → files w ≡ before ++ parsed info ∷ after
        → All (λ f. IsFileOf r.session_id f → ⊥) before
        → info.session_id ≡ some r.session_id
        → IsResolved w r (record r {
          pid = info.pid;
          entrypoint = get_or info.entrypoint r.entrypoint;
          project_name = or_else info.name r.project_name;
        })

describes-IsFileOf :
    (sid : String) (info : SessionInfo) → (describes sid info ≡ true) ↔ (info.session_id ≡ some sid)
describes-IsFileOf sid info = elim (Option-cases info.session_id) [
  | inl e ↦ ground arith
  | inr (s, e) ↦ ground (arith, ==_iff s sid)
]

-- The search over the files that were parsed, against the files.
pub data Found (sid : String) (fs : List FileRead) : Option SessionInfo → Type 0 where
  nowhere : All (λ f. IsFileOf sid f → ⊥) fs → Found sid fs none
  somewhere :
      (before after : List FileRead) (info : SessionInfo)
      → fs ≡ before ++ parsed info ∷ after
      → All (λ f. IsFileOf sid f → ⊥) before
      → info.session_id ≡ some sid
      → Found sid fs (some info)

Found-cons :
    (sid : String) (f : FileRead) (fs : List FileRead) (o : Option SessionInfo)
    → (IsFileOf sid f → ⊥)
    → Found sid fs o
    → Found sid (f ∷ fs) o
Found-cons sid f fs none n (nowhere all) = nowhere (n, all)
Found-cons sid f fs (some info) n (somewhere before after _ e all own) =
    somewhere (f ∷ before) after info (ap (λ l. f ∷ l) e) (n, all) own

first_for-Found :
    (sid : String) (fs : List FileRead) (infos : List SessionInfo)
    → parse_files fs ≡ ok infos
    → Found sid fs (first_for sid infos)
unfolding parse_files first_for
first_for-Found sid [] infos h =
    subst (λ l. Found sid [] (first_for sid l)) (ok_injective h) (nowhere tt)
first_for-Found sid (parsed info ∷ fs) infos h = elim (Outcome-cases (parse_files fs)) [
  | inl e ↦ let impossible : ⊥ = ground arith in absurd impossible
  | inr (rest, e) ↦
      let same : info ∷ rest ≡ infos = ok_injective (ground arith) in
      subst (λ l. Found sid (parsed info ∷ fs) (first_for sid l)) same
        (elim (Bool-cases (describes sid info)) [
          | inl d ↦
              rw (d, first_for) (somewhere [] fs info refl tt ((describes-IsFileOf sid info).0 d))
          | inr d ↦
              rw (d, first_for)
                (Found-cons sid (parsed info) fs _
                  (λ q. let d' = (describes-IsFileOf sid info).1 q in ground arith)
                  (first_for-Found sid fs rest e))
        ])
]
first_for-Found sid (skipped ∷ fs) infos h =
    Found-cons sid skipped fs _ (λ e. e) (first_for-Found sid fs infos h)
first_for-Found sid (broken ∷ fs) infos h = let impossible : ⊥ = ground arith in absurd impossible

pub read-files : (w : World) → read_session_files w ≡ parse_files (files w)
unfolding read_session_files parse_files
read-files w = ground arith

module _ {T : Type 0} where
  Found-IsResolved :
      (w : World) (r : AgentRecord T) (o : Option SessionInfo)
      → r.pid ≡ none
      → Found r.session_id (files w) o
      → IsResolved w r (elim o [ none ↦ r | some info ↦ identify r info ])
  unfolding identify
  Found-IsResolved w r none n (nowhere all) = no_file n all
  Found-IsResolved w r (some info) n (somewhere before after _ e all own) =
      from_file before after info n e all own

  pub resolve_identity-IsResolved :
      (w : World) (r r' : AgentRecord T) → resolve_identity w r ≡ ok r' → IsResolved w r r'
  unfolding resolve_identity look_up_identity find_session_file
  resolve_identity-IsResolved w r r' h = elim (Option-cases r.pid) [
    | inr (p, n) ↦ subst (IsResolved w r) (ok_injective (ground arith)) (has_pid p n)
    | inl n ↦ elim (Outcome-cases (parse_files (files w))) [
      | inl e ↦ let impossible : ⊥ = ground (arith, read-files w) in absurd impossible
      | inr (infos, e) ↦
          let found = first_for r.session_id infos in
          let same : ok (elim found [ none ↦ r | some info ↦ identify r info ]) ≡ ok r' =
            ground (arith, read-files w) in
          subst (IsResolved w r) (ok_injective same) (
            Found-IsResolved w r (first_for r.session_id infos) n
              (first_for-Found r.session_id (files w) infos e))
    ]
  ]
