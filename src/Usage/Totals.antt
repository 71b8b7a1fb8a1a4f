-- ===== src/Usage/Totals.antt =====
-- The sums of a rescan of frontend/usage.py, against one pass over all entries.
use silicon_office.Prelude.{
  ℕ, ◌+◌, String, ◌≡◌, refl, sym, ◌∙◌, Bool, true, none, some, List, [], ◌∷◌, ◌++◌, arith,
  Option-cases, Outcome-cases, Outcome, ok, ◌>>=◌, inl, inr, if◌then◌else◌,
}
use silicon_office.Prelude.Dict.{lookup-nil}
use silicon_office.Usage.{
  Entry, UsageSnapshot, FileUsage, UsageTracker, Disk, scanned, file_usage, scan_all,
  nothing_scanned, refresh, add_entries, add_week, add_session,
}
use silicon_office.Usage.Cache.{IsSound, refresh_scans, refresh_lem}

module _ {T C : Type 0} where
  -- All entries of the transcripts that `stat` finds, in order.
  unfoldable pub all_entries : Disk T C → List String → Outcome (List (Entry T C))
  all_entries disk [] = ok []
  all_entries disk (path ∷ paths) = elim (disk.stat path) [
    | none ↦ all_entries disk paths
    | some st ↦ disk.scan path >>= λ es. all_entries disk paths >>= λ rest. ok (es ++ rest)
  ]

  -- The tokens of the entries from a cutoff on.
  unfoldable pub tokens_since : (T → T → Bool) → T → List (Entry T C) → ℕ
  tokens_since at_least cutoff [] = 0
  tokens_since at_least cutoff (e ∷ es) =
      let rest = tokens_since at_least cutoff es in
      if at_least e.ts cutoff then e.tokens + rest else rest

  module _ (zero_cost : C) (plus : C → C → C) (at_least : T → T → Bool) where
    add_entries-append :
        (week session : T) (xs ys : List (Entry T C)) (u : UsageSnapshot C)
        → add_entries zero_cost plus at_least week session (xs ++ ys) u
          ≡ add_entries zero_cost plus at_least week session ys
              (add_entries zero_cost plus at_least week session xs u)
    unfolding add_entries
    add_entries-append week session [] ys u = refl
    add_entries-append week session (x ∷ xs) ys u = add_entries-append week session xs ys _

    scan_all_totals :
        (disk : Disk T C) (week session : T) (paths : List String) (acc t : UsageTracker T C)
        → scan_all zero_cost plus at_least disk [] week session paths acc ≡ ok t
        → (es : List (Entry T C)) × (all_entries disk paths ≡ ok es)
          × (t.totals ≡ add_entries zero_cost plus at_least week session es acc.totals)
    unfolding scan_all all_entries file_usage scanned
    scan_all_totals disk week session [] acc t h = ([], refl, unfold add_entries in ground arith)
    scan_all_totals disk week session (path ∷ paths) acc t h =
        elim (Option-cases (disk.stat path)) [
          | inl e ↦
              let (es, all, sums) =
                scan_all_totals disk week session paths acc t (rw (e, scan_all) at h) in
              (es, rw (e, all_entries) all, sums)
          | inr (st, e) ↦ elim (Outcome-cases (disk.scan path)) [
            | inl q ↦
                let impossible : ⊥ = ground (arith, lookup-nil {V = FileUsage T C} path) in
                absurd impossible
            | inr (own, q) ↦
                let (es, all, sums) =
                  scan_all_totals disk week session paths _ t
                    (rw (q, scan_all) at (rw (e, scan_all, lookup-nil) at h)) in
                (
                  own ++ es,
                  rw (e, all_entries) (rw (q, all, all_entries) refl),
                  sums ∙ sym (add_entries-append week session own es acc.totals),
                )
          ]
        ]

    add_entries_tokens :
        (week session : T) (es : List (Entry T C)) (u : UsageSnapshot C)
        → let v = add_entries zero_cost plus at_least week session es u in
          (v.week_tokens ≡ u.week_tokens + tokens_since at_least week es)
          × (v.session_tokens ≡ u.session_tokens + tokens_since at_least session es)
    unfolding add_entries tokens_since add_week add_session
    add_entries_tokens week session [] u = ground arith
    add_entries_tokens week session (e ∷ es) u = ground (
      arith,
      add_entries_tokens week session es (
          add_session zero_cost plus at_least session e
            (add_week zero_cost plus at_least week e u)),
    )

    -- The sums of a rescan that returns, where there are transcripts and the cache is sound, are
    -- those of all entries of the transcripts in one pass, and each token count is the sum of the
    -- tokens from its cutoff on.
    pub refresh_totals :
        (disk : Disk T C) (week session : T) (tracker fresh : UsageTracker T C)
        → disk.projects_dir_exists ≡ true
        → IsSound disk tracker.file_cache
        → refresh zero_cost plus at_least disk week session tracker ≡ ok fresh
        → (es : List (Entry T C)) × (all_entries disk disk.paths ≡ ok es)
          × (fresh.totals
              ≡ add_entries zero_cost plus at_least week session es
                  (nothing_scanned zero_cost plus at_least).totals)
          × (fresh.totals.week_tokens ≡ tokens_since at_least week es)
          × (fresh.totals.session_tokens ≡ tokens_since at_least session es)
    refresh_totals disk week session tracker fresh d s h =
        let start = nothing_scanned zero_cost plus at_least in
        let scan =
          sym (refresh_scans zero_cost plus at_least disk week session start d)
          ∙ sym (refresh_lem zero_cost plus at_least disk week session tracker d s).0
          ∙ h in
        let (es, all, sums) = scan_all_totals disk week session disk.paths start fresh scan in
        let counts = add_entries_tokens week session es start.totals in
        (es, all, sums, ground (arith, sums, counts), ground (arith, sums, counts))
