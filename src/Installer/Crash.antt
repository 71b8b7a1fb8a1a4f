-- ===== src/Installer/Crash.antt =====
-- `run` of installer/install_hooks.py, cut short at any of its calls: what the files hold then.
use silicon_office.Prelude.{
  String, ◌<>◌, ◌&&◌, append-nil, subst, ◌==◌, ==_iff, ◌≡◌, ◌≢◌, refl, sym, ap, ◌∙◌, ◌⊎◌, Bool,
  false, not, Option, none, some, is_some, List, [], ◌∷◌, ◌++◌, All, All-append, append_assoc, ok,
  Outcome-cases, Bool-cases, inl, inr, arith, if◌then◌else◌,
}
use silicon_office.Prelude.Dict.{Dict, lookup}
use silicon_office.Json.{Json, object, as_dict}
use silicon_office.Json.Equal.{equal}
use silicon_office.Installer.{build_updated_settings}
use silicon_office.Installer.Files.{
  FileSystem, tmp_path, backup_path, Loaded, value, decode_error, other_error, Action, truncate,
  fill, replace, perform_all, backup, atomic_write, Report, did, load, finish, run_on, run,
}
use silicon_office.Installer.Paths.{append-differs, is_empty-backup, tmp_path-backup_path}
use silicon_office.Installer.Actions.{
  Spares, lookup-perform_all, perform_all-append, All-prefix, prefix-cases, lookup-atomic_write,
  lookup-backup,
}

Loaded-cases :
    (l : Loaded) → ((l ≡ decode_error) ⊎ (l ≡ other_error)) ⊎ ((j : Json) × (l ≡ value j))
Loaded-cases (value j) = inr (j, refl)
Loaded-cases decode_error = inl (inl refl)
Loaded-cases other_error = inl (inr refl)

copies-Spares :
    (path ts other : String) (found : Option String)
    → other ≢ backup_path path ts
    → All (Spares other) (backup path ts found)
unfolding backup Spares
copies-Spares path ts other none n = tt
copies-Spares path ts other (some old) n = (n, (n, tt))

-- `run` before its last call, if it writes.
before_replace : String → String → Option String → String → List Action
before_replace path ts found text =
    backup path ts found ++ truncate (tmp_path path) ∷ fill (tmp_path path) text ∷ []

before_replace-Spares :
    (path ts other text : String) (found : Option String)
    → other ≢ tmp_path path
    → other ≢ backup_path path ts
    → All (Spares other) (before_replace path ts found text)
unfolding Spares before_replace
before_replace-Spares path ts other text found m n =
    All-append (Spares other) (backup path ts found) _ (copies-Spares path ts other found n)
      (m, (m, tt))

module _ (same_num : String → String → Bool) (num_is : String → Bool → Bool)
    (dumps : Dict Json → String) (repr : Json → String) (loads : String → Loaded)
    (path ts emitter_path : String) (dry_run uninstall : Bool) (fs : FileSystem) where
  abbrev pub result : Report × List Action
  result = run same_num num_is dumps repr loads path ts emitter_path dry_run uninstall fs

  -- The run writes: what it found, and what it makes of that.
  pub record IsWriting : Type 0 where
    pub settings : Json
    pub existing : Dict Json
    pub updated : Dict Json
    pub loaded : load loads (lookup path fs) ≡ value settings
    pub is_dict : as_dict settings ≡ ok existing
    pub built : build_updated_settings repr existing emitter_path (not uninstall) ≡ ok updated
    pub changed : equal same_num num_is (object updated) (object existing) ≡ false
    pub real : dry_run ≡ false
    pub written :
        result ≡ (did, backup path ts (lookup path fs) ++ atomic_write path (dumps updated <> "\n"))

  pub run-cases : (result.1 ≡ []) ⊎ IsWriting
  unfolding run run_on finish
  run-cases = elim (Loaded-cases (load loads (lookup path fs))) [
    | inl (inl e) ↦ inl (rw (e, run) refl)
    | inl (inr e) ↦ inl (rw (e, run) refl)
    | inr (j, e) ↦ elim (Outcome-cases (as_dict j)) [
      | inl d ↦ inl (rw (e, run) (rw (d, run_on) refl))
      | inr (existing, d) ↦
          elim (Outcome-cases (build_updated_settings repr existing emitter_path (not uninstall))) [
            | inl b ↦ inl (rw (e, run) (rw (d, run_on) (rw (b, run_on) refl)))
            | inr (updated, b) ↦
                elim (Bool-cases (equal same_num num_is (object updated) (object existing))) [
                  | inl q ↦
                      inl (rw (e, run) (rw (d, run_on) (rw (b, run_on) (rw (q, finish) refl))))
                  | inr q ↦ elim (Bool-cases dry_run) [
                    | inl r ↦
                        inl
                          (rw (e, run) (rw (d, run_on) (rw (b, run_on) (rw (q, finish) rw r refl))))
                    | inr r ↦ inr (record {
                      settings = j;
                      existing = existing;
                      updated = updated;
                      loaded = e;
                      is_dict = d;
                      built = b;
                      changed = q;
                      real = r;
                      written =
                          (rw (e, run)
                            (rw (d, run_on) (rw (b, run_on) (rw (q, finish) rw r refl))));
                    })
                  ]
                ]
          ]
    ]
  ]

  -- The files when all calls are done.
  all_done :
      (w : IsWriting) (other : String)
      → lookup other (perform_all result.1 fs) ≡ (
          if other == tmp_path path
          then none
          else if other == path
          then some (dumps w.updated <> "\n")
          else if other == backup_path path ts && is_some (lookup path fs)
          then lookup path fs
          else lookup other fs)
  all_done w other =
      let found = lookup path fs in
      let text = dumps w.updated <> "\n" in
      ap (λ r. lookup other (perform_all r.1 fs)) w.written
      ∙ ap (lookup other) (perform_all-append (backup path ts found) (atomic_write path text) fs)
      ∙ rw (lookup-atomic_write path text other (perform_all (backup path ts found) fs))
          (rw (lookup-backup path ts other found fs) refl)

  split_last :
      (w : IsWriting)
      → result.1
        ≡ before_replace path ts (lookup path fs) (dumps w.updated <> "\n")
          ++ replace (tmp_path path) path ∷ []
  unfolding before_replace atomic_write
  split_last w = ap (λ r. r.1) w.written ∙ sym (append_assoc (backup path ts (lookup path fs)) _ _)

  pub done_at_path :
      (w : IsWriting)
      → (lookup path (perform_all result.1 fs) ≡ some (dumps w.updated <> "\n"))
        × (lookup (tmp_path path) (perform_all result.1 fs) ≡ none)
        × (lookup (backup_path path ts) (perform_all result.1 fs) ≡ (
            if is_some (lookup path fs) then lookup path fs else lookup (backup_path path ts) fs))
  done_at_path w =
      let beside : path ≢ tmp_path path = append-differs path ".tmp" refl in
      let copy : path ≢ backup_path path ts =
        append-differs path (".backup." <> ts) (is_empty-backup ts) in
      let apart = tmp_path-backup_path path ts in
      let at_path = all_done w path in
      let at_tmp = all_done w (tmp_path path) in
      let at_copy = all_done w (backup_path path ts) in
      (ground (arith, at_path), ground (arith, at_tmp), ground (arith, at_copy))

  done_elsewhere :
      (w : IsWriting) (other : String)
      → (other == path) ≡ false
      → other ≢ tmp_path path
      → other ≢ backup_path path ts
      → lookup other (perform_all result.1 fs) ≡ lookup other fs
  done_elsewhere w other d m n = ground (arith, all_done w other)

  part-Spares :
      (other : String) (all done rest : List Action)
      → All (Spares other) all
      → all ≡ done ++ rest
      → lookup other (perform_all done fs) ≡ lookup other fs
  part-Spares other all done rest a e =
      lookup-perform_all other done fs
        (All-prefix (Spares other) done rest (subst (All (Spares other)) e a))

  -- Wherever `run` is cut short, a file other than the one beside the settings and the backup
  -- either holds what it held, or it is the settings file, no call is left to do, and it holds
  -- the whole of the new settings; the file beside it is then gone, and the backup holds the old
  -- settings, if there were any.
  pub run_atomic :
      (done todo : List Action) (other : String)
      → result.1 ≡ done ++ todo
      → other ≢ tmp_path path
      → other ≢ backup_path path ts
      → (lookup other (perform_all done fs) ≡ lookup other fs)
        ⊎ ((w : IsWriting) × (other ≡ path)
            × (todo ≡ [])
            × ((lookup path (perform_all done fs) ≡ some (dumps w.updated <> "\n"))
                × (lookup (tmp_path path) (perform_all done fs) ≡ none)
                × (lookup (backup_path path ts) (perform_all done fs) ≡ (
                    if is_some (lookup path fs)
                    then lookup path fs
                    else lookup (backup_path path ts) fs))))
  run_atomic done todo other e m n = elim run-cases [
    | inl nothing ↦ inl (part-Spares other [] done todo tt (sym nothing ∙ e))
    | inr w ↦
        elim (prefix-cases done todo (before_replace path ts (lookup path fs) _)
          (replace (tmp_path path) path) (sym (split_last w) ∙ e)) [
            | inr (rest, q) ↦ inl (
                part-Spares other _ done rest
                  (before_replace-Spares path ts other _ (lookup path fs) m n) q)
            | inl nothing ↦
                let whole : done ≡ result.1 =
                  sym (append-nil done) ∙ ap (λ l. done ++ l) (sym nothing) ∙ sym e in
                elim (Bool-cases (other == path)) [
                  | inl same ↦
                      rw whole (inr (w, (==_iff other path).0 same, nothing, done_at_path w))
                  | inr differ ↦ rw whole (inl (done_elsewhere w other differ m n))
                ]
          ]
  ]
