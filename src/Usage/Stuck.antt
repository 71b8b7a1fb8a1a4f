-- ===== src/Usage/Stuck.antt =====
-- A transcript that `_scan_file` of frontend/usage.py does not survive, and the rescans after it.
use silicon_office.Prelude.{
  ℕ, String, ◌==◌, ==_iff, ◌≡◌, refl, ap, ◌∙◌, Bool, true, false, Option, none, some, List, [], ◌∷◌,
  contains, arith, All, if◌then◌else◌, Outcome, ok, raised, Outcome-cases, Option-cases, Bool-cases,
  inl, inr,
}
use silicon_office.Prelude.Dict.{Dict, lookup}
use silicon_office.Json.{as_dict}
use silicon_office.Usage.{
  Entry, FileUsage, UsageTracker, Disk, Stat, scanned, file_usage, scan_all, refresh, round,
  nothing_scanned,
}
use silicon_office.Usage.Scan.{
  FileLine, line, read_error, undecodable, Parsed, value, value_error, other_error, is_blank,
  record_entry, scan_line, scan_file,
}

-- A line that is valid JSON but no object, or that is not UTF-8, before any read error.
module _ (loads : String → Parsed) where
  unfoldable pub is_bad_line : FileLine → Bool
  is_bad_line read_error = false
  is_bad_line undecodable = true
  is_bad_line (line text) = if is_blank text then false else elim (loads text) [
    | value_error ↦ false
    | other_error ↦ true
    | value j ↦ elim (as_dict j) [ raised ↦ true | ok _ ↦ false ]
  ]

  unfoldable pub has_bad_line : List FileLine → Bool
  unfolding is_bad_line
  has_bad_line [] = false
  has_bad_line (read_error ∷ rest) = false
  has_bad_line (l ∷ rest) = let later = has_bad_line rest in if is_bad_line l then true else later

module _ {T : Type 0} (number : String → ℕ) (iso : String → Option T) (zero_ts : T)
    (loads : String → Parsed) where
  scan_line_raised : (text : String) → scan_line number iso zero_ts loads text raised ≡ raised
  unfolding scan_line
  scan_line_raised text = ground arith

  scan_line_bad :
      (text : String) (later : Outcome (List (Entry T ℕ)))
      → is_bad_line loads (line text) ≡ true
      → scan_line number iso zero_ts loads text later ≡ raised
  unfolding scan_line is_bad_line record_entry
  scan_line_bad text later h = ground arith

  -- Whatever else the file holds, one bad line makes `_scan_file` raise.
  scan_file-has_bad_line :
      (lines : List FileLine)
      → has_bad_line loads lines ≡ true
      → scan_file number iso zero_ts loads lines ≡ raised
  unfolding scan_file has_bad_line
  scan_file-has_bad_line [] h = cc
  scan_file-has_bad_line (read_error ∷ rest) h = cc
  scan_file-has_bad_line (undecodable ∷ rest) h = refl
  scan_file-has_bad_line (line text ∷ rest) h = elim (Bool-cases (is_bad_line loads (line text))) [
    | inl e ↦ scan_line_bad text _ e
    | inr e ↦
        ap (scan_line number iso zero_ts loads text) (scan_file-has_bad_line rest (ground arith))
        ∙ scan_line_raised text
  ]

  -- A transcript with a bad line is there, and `stat` finds it.
  pub record IsBlocked (path : String) (disk : Disk T ℕ) : Type 0 where
    pub listed : contains disk.paths path ≡ true
    pub st : Stat
    pub found : disk.stat path ≡ some st
    pub lines : List FileLine
    pub scanned_lines : disk.scan path ≡ scan_file number iso zero_ts loads lines
    pub bad : has_bad_line loads lines ≡ true
    pub dir : disk.projects_dir_exists ≡ true

  file_usage_raised :
      (disk : Disk T ℕ) (path : String) (st : Stat)
      → disk.scan path ≡ raised
      → file_usage disk path st none ≡ raised
  unfolding file_usage scanned
  file_usage_raised disk path st s = rw s

  module _ (zero_cost : ℕ) (plus : ℕ → ℕ → ℕ) (at_least : T → T → Bool) where
    scan_all_raised :
        (disk : Disk T ℕ) (cache : Dict (FileUsage T ℕ)) (path : String) (st : Stat)
        (week session : T) (paths : List String) (acc : UsageTracker T ℕ)
        → contains paths path ≡ true
        → disk.stat path ≡ some st
        → disk.scan path ≡ raised
        → lookup path cache ≡ none
        → scan_all zero_cost plus at_least disk cache week session paths acc ≡ raised
    unfolding scan_all
    scan_all_raised disk cache path st week session [] acc c f s l = cc
    scan_all_raised disk cache path st week session (p ∷ paths) acc c f s l =
        elim (Bool-cases (path == p)) [
          | inl e ↦
              let own : path ≡ p = (==_iff path p).0 e in
              rw (← own)
                (rw (f, scan_all) (rw (l, file_usage_raised disk path st s, scan_all) refl))
          | inr e ↦ elim (Option-cases (disk.stat p)) [
            | inl q ↦
                rw (q, scan_all)
                  (scan_all_raised disk cache path st week session paths acc (ground arith) f s l)
            | inr (st', q) ↦ elim (Outcome-cases (file_usage disk p st' (lookup p cache))) [
              | inl r ↦ rw (q, scan_all) (rw (r, scan_all) refl)
              | inr (u, r) ↦
                  rw (q, scan_all)
                    (rw (r, scan_all)
                      (scan_all_raised disk cache path st week session paths _ (ground arith) f s
                        l))
            ]
          ]
        ]

    refresh_raised :
        (path : String) (disk : Disk T ℕ) (week session : T) (tracker : UsageTracker T ℕ)
        → IsBlocked path disk
        → lookup path tracker.file_cache ≡ none
        → refresh zero_cost plus at_least disk week session tracker ≡ raised
    unfolding refresh
    refresh_raised path disk week session tracker b l =
        let failed =
          scan_all_raised disk tracker.file_cache path b.st week session disk.paths
            (nothing_scanned zero_cost plus at_least) b.listed b.found
            (b.scanned_lines ∙ scan_file-has_bad_line b.lines b.bad) l in
        ground (arith, b.dir, failed)

    round_keeps :
        (path : String) (disk : Disk T ℕ) (week session : T) (tracker : UsageTracker T ℕ)
        → IsBlocked path disk
        → lookup path tracker.file_cache ≡ none
        → round zero_cost plus at_least disk week session tracker ≡ tracker
    unfolding round
    round_keeps path disk week session tracker b l =
        rw (refresh_raised path disk week session tracker b l, round) refl

    -- The rounds of `_run`, each with the disk and the cutoffs that it finds.
    unfoldable pub rounds : List (Disk T ℕ × T × T) → UsageTracker T ℕ → UsageTracker T ℕ
    rounds [] tracker = tracker
    rounds ((disk, week, session) ∷ rest) tracker =
        rounds rest (round zero_cost plus at_least disk week session tracker)

    -- One transcript with a bad line (valid JSON that is no object, or bytes that are not UTF-8)
    -- that the tracker has not cached stops it for good: however many rounds follow, whatever the
    -- other transcripts hold, the sums and the cache stay what they were.
    pub bad_line_stops_usage :
        (path : String) (found : List (Disk T ℕ × T × T)) (tracker : UsageTracker T ℕ)
        → All (λ r. IsBlocked path r.0) found
        → lookup path tracker.file_cache ≡ none
        → rounds found tracker ≡ tracker
    unfolding rounds
    bad_line_stops_usage path [] tracker b l = refl
    bad_line_stops_usage path ((disk, week, session) ∷ rest) tracker (b, bs) l =
        rw (round_keeps path disk week session tracker b l)
          (bad_line_stops_usage path rest tracker bs l)
