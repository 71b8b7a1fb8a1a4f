-- ===== src/Usage/Cache.antt =====
-- The cache of frontend/usage.py: a rescan that uses it against one that reads every file.
use silicon_office.Prelude.{
  String, ◌==◌, ◌≡◌, refl, ap, sym, subst, ◌∙◌, Bool, true, Option, none, some, List, [], ◌∷◌,
  arith, Option-cases, Bool-cases, Outcome-cases, Outcome, ok, raised, inl, inr, ==_iff,
}
use silicon_office.Prelude.Dict.{Dict, lookup, insert, lookup-insert, lookup-nil}
use silicon_office.Usage.{
  FileUsage, UsageTracker, Disk, Stat, is_current, scanned, file_usage, scan_all, nothing_scanned,
  refresh,
}

module _ {T C : Type 0} where
  -- An entry whose modification time and size are the file's holds what the file holds.
  unfoldable pub IsSound : Disk T C → Dict (FileUsage T C) → Type 0
  IsSound disk cache =
      (path : String) (u : FileUsage T C) (st : Stat)
      → lookup path cache ≡ some u
      → disk.stat path ≡ some st
      → is_current u st ≡ true
      → disk.scan path ≡ ok u.entries

  nothing-IsSound : (disk : Disk T C) → IsSound disk []
  unfolding IsSound
  nothing-IsSound disk path u st h =
      let impossible : ⊥ = ground (arith, lookup-nil {V = FileUsage T C} path) in absurd impossible

  -- The same of the cache of a rescan that returned.
  unfoldable pub IsSoundAfter : Disk T C → Outcome (UsageTracker T C) → Type 0
  unfolding IsSound
  IsSoundAfter disk raised = Unit
  IsSoundAfter disk (ok tracker) = IsSound disk tracker.file_cache

  file_usage_lem :
      (disk : Disk T C) (path : String) (st : Stat) (o : Option (FileUsage T C))
      → ((u : FileUsage T C) → o ≡ some u → is_current u st ≡ true → disk.scan path ≡ ok u.entries)
      → file_usage disk path st o ≡ scanned disk path st
  unfolding file_usage scanned
  file_usage_lem disk path st none h = refl
  file_usage_lem disk path st (some u) h = ground (arith, h u refl)

  module _ (zero_cost : C) (plus : C → C → C) (at_least : T → T → Bool) where
    scan_all_uncached :
        (disk : Disk T C) (cache : Dict (FileUsage T C)) (week session : T) (paths : List String)
        (acc : UsageTracker T C)
        → IsSound disk cache
        → scan_all zero_cost plus at_least disk cache week session paths acc
          ≡ scan_all zero_cost plus at_least disk [] week session paths acc
    unfolding scan_all IsSound file_usage
    scan_all_uncached disk cache week session [] acc s = refl
    scan_all_uncached disk cache week session (path ∷ paths) acc s =
        elim (Option-cases (disk.stat path)) [
          | inl e ↦ rw (e, scan_all) (scan_all_uncached disk cache week session paths acc s)
          | inr (st, e) ↦
              rw
                (
                  e,
                  scan_all,
                  file_usage_lem disk path st (lookup path cache) (λ u f. s path u st f e),
                  lookup-nil,
                )
                (elim (Outcome-cases (scanned disk path st)) [
                  | inl q ↦ rw (q, scan_all) refl
                  | inr (u, q) ↦
                      rw (q, scan_all) (scan_all_uncached disk cache week session paths _ s)
                ])
        ]

    insert-IsSound :
        (disk : Disk T C) (cache : Dict (FileUsage T C)) (path : String) (st : Stat)
        (u : FileUsage T C)
        → scanned disk path st ≡ ok u
        → IsSound disk cache
        → IsSound disk (insert path u cache)
    unfolding IsSound scanned
    insert-IsSound disk cache path st u e s k v st' = elim (Outcome-cases (disk.scan path)) [
      | inl q ↦ let impossible : ⊥ = ground arith in absurd impossible
      | inr (es, q) ↦ rw lookup-insert (elim (Bool-cases (k == path)) [
        | inl own ↦ λ f g c.
            let same : k ≡ path = (==_iff k path).0 own in
            ap disk.scan same ∙ q ∙ ground (arith, own)
        | inr other ↦ λ f g c. s k v st' (ground arith) g c
      ])
    ]

    scan_all-IsSound :
        (disk : Disk T C) (week session : T) (paths : List String) (acc : UsageTracker T C)
        → IsSound disk acc.file_cache
        → IsSoundAfter disk (scan_all zero_cost plus at_least disk [] week session paths acc)
    unfolding scan_all IsSoundAfter file_usage
    scan_all-IsSound disk week session [] acc s = s
    scan_all-IsSound disk week session (path ∷ paths) acc s = elim (Option-cases (disk.stat path)) [
      | inl e ↦ rw (e, scan_all) (scan_all-IsSound disk week session paths acc s)
      | inr (st, e) ↦ elim (Outcome-cases (scanned disk path st)) [
        | inl q ↦ rw (e, scan_all, lookup-nil) (rw (q, scan_all) tt)
        | inr (u, q) ↦
            rw (e, scan_all, lookup-nil)
              (rw (q, scan_all)
                (scan_all-IsSound disk week session paths _
                  (insert-IsSound disk acc.file_cache path st u q s)))
      ]
    ]

    pub refresh_scans :
        (disk : Disk T C) (week session : T) (tracker : UsageTracker T C)
        → disk.projects_dir_exists ≡ true
        → refresh zero_cost plus at_least disk week session tracker
          ≡ scan_all zero_cost plus at_least disk tracker.file_cache week session disk.paths
              (nothing_scanned zero_cost plus at_least)
    unfolding refresh
    refresh_scans disk week session tracker d = ground arith

    -- Where the cache is sound, a rescan with it gives what one that reads every file gives, sums
    -- and cache or an exception, and a new cache is sound.
    pub refresh_lem :
        (disk : Disk T C) (week session : T) (tracker : UsageTracker T C)
        → disk.projects_dir_exists ≡ true
        → IsSound disk tracker.file_cache
        → let fresh = refresh zero_cost plus at_least disk week session in
          (fresh tracker ≡ fresh (nothing_scanned zero_cost plus at_least))
          × IsSoundAfter disk (fresh tracker)
    refresh_lem disk week session tracker d s =
        let start = nothing_scanned zero_cost plus at_least in
        let same =
          refresh_scans disk week session tracker d
          ∙ scan_all_uncached disk tracker.file_cache week session disk.paths start s in
        (
          same ∙ sym (refresh_scans disk week session start d),
          subst (IsSoundAfter disk) (sym same)
              (scan_all-IsSound disk week session disk.paths start (nothing-IsSound disk)),
        )
