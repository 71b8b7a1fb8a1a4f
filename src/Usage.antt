-- ===== src/Usage.antt =====
-- frontend/usage.py: the rescan of the transcripts and its cache. Times and costs are parameters:
-- `T` with the test `ts >= cutoff`, and `C` with its zero and sum (Python floats). What a
-- transcript gives is a field of the disk (the code for it is Usage/Scan), and the start of the
-- week is an argument (Usage/Week). Modification times are whole numbers.
pub mod Cache
pub mod Totals
pub mod Week
pub mod Scan
pub mod Stuck
use silicon_office.Prelude.{
  ℕ, ◌+◌, String, Bool, true, false, ◌&&◌, Option, none, some, List, [], ◌∷◌, eqb, if◌then◌else◌,
  Outcome, ok, raised, ◌>>=◌,
}
use silicon_office.Prelude.Dict.{Dict, lookup, insert}

-- A line's (timestamp, cost, tokens).
pub record Entry (T C : Type 0) : Type 0 where
  pub ts : T
  pub cost : C
  pub tokens : ℕ

pub record FileUsage (T C : Type 0) : Type 0 where
  pub mtime : ℕ
  pub size : ℕ
  pub entries : List (Entry T C)

-- The fields of `UsageSnapshot`, and of the tracker beside its cache.
pub record UsageSnapshot (C : Type 0) : Type 0 where
  pub session_cost : C
  pub session_tokens : ℕ
  pub week_cost : C
  pub week_tokens : ℕ

pub record UsageTracker (T C : Type 0) : Type 0 where
  pub file_cache : Dict (FileUsage T C)
  pub totals : UsageSnapshot C

pub record Stat : Type 0 where
  pub st_mtime : ℕ
  pub st_size : ℕ

-- The disk during one rescan: the transcripts, `none` where `stat` fails, and what `_scan_file`
-- gives for each (Usage/Scan).
pub record Disk (T C : Type 0) : Type 0 where
  pub projects_dir_exists : Bool
  pub paths : List String
  pub stat : String → Option Stat
  pub scan : String → Outcome (List (Entry T C))

module _ {T C : Type 0} where
  abbrev pub snapshot : UsageTracker T C → UsageSnapshot C
  snapshot tracker = tracker.totals

  -- `cached is not None and cached.mtime == stat.st_mtime and cached.size == stat.st_size`
  abbrev pub is_current : FileUsage T C → Stat → Bool
  is_current cached st = eqb cached.mtime st.st_mtime && eqb cached.size st.st_size

  unfoldable pub scanned : Disk T C → String → Stat → Outcome (FileUsage T C)
  scanned disk path st = disk.scan path >>= λ entries.
      ok (record { mtime = st.st_mtime; size = st.st_size; entries = entries })

  -- What is taken from the cache, if anything, for a file, and otherwise read.
  unfoldable pub file_usage :
      Disk T C → String → Stat → Option (FileUsage T C) → Outcome (FileUsage T C)
  file_usage disk path st none = scanned disk path st
  file_usage disk path st (some cached) =
      if is_current cached st then ok cached else scanned disk path st

  module _ (zero_cost : C) (plus : C → C → C) (at_least : T → T → Bool) where
    unfoldable pub add_week : T → Entry T C → UsageSnapshot C → UsageSnapshot C
    add_week cutoff e u =
        if at_least e.ts cutoff
        then record u {
          week_cost = plus u.week_cost e.cost;
          week_tokens = u.week_tokens + e.tokens;
        }
        else u

    unfoldable pub add_session : T → Entry T C → UsageSnapshot C → UsageSnapshot C
    add_session cutoff e u =
        if at_least e.ts cutoff
        then record u {
          session_cost = plus u.session_cost e.cost;
          session_tokens = u.session_tokens + e.tokens;
        }
        else u

    unfoldable pub add_entries : T → T → List (Entry T C) → UsageSnapshot C → UsageSnapshot C
    add_entries week_cutoff session_cutoff [] u = u
    add_entries week_cutoff session_cutoff (e ∷ es) u =
        add_entries week_cutoff session_cutoff es
          (add_session session_cutoff e (add_week week_cutoff e u))

    -- The loop over the transcripts: the fresh cache and the sums, unless a scan raises.
    unfoldable pub scan_all :
        Disk T C
        → Dict (FileUsage T C)
        → T
        → T
        → List String
        → UsageTracker T C
        → Outcome (UsageTracker T C)
    scan_all disk cache week_cutoff session_cutoff [] acc = ok acc
    scan_all disk cache week_cutoff session_cutoff (path ∷ paths) acc = elim (disk.stat path) [
      | none ↦ scan_all disk cache week_cutoff session_cutoff paths acc
      | some st ↦ file_usage disk path st (lookup path cache) >>= λ usage.
          scan_all disk cache week_cutoff session_cutoff paths (record {
            file_cache = insert path usage acc.file_cache;
            totals = add_entries week_cutoff session_cutoff usage.entries acc.totals;
          })
    ]

    abbrev pub nothing_scanned : UsageTracker T C
    nothing_scanned = record {
      file_cache = [];
      totals = record {
        session_cost = zero_cost;
        session_tokens = 0;
        week_cost = zero_cost;
        week_tokens = 0;
      };
    }

    -- `_refresh`: the tracker as the lock lets go of it. An exception leaves the tracker alone.
    unfoldable pub refresh : Disk T C → T → T → UsageTracker T C → Outcome (UsageTracker T C)
    refresh disk week_cutoff session_cutoff tracker =
        if disk.projects_dir_exists
        then scan_all disk tracker.file_cache week_cutoff session_cutoff disk.paths nothing_scanned
        else ok tracker

    -- A round of `_run`, which swallows every exception.
    unfoldable pub round : Disk T C → T → T → UsageTracker T C → UsageTracker T C
    round disk week_cutoff session_cutoff tracker =
        elim (refresh disk week_cutoff session_cutoff tracker) [
          | raised ↦ tracker
          | ok fresh ↦ fresh
        ]
