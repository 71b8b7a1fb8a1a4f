-- ===== src/Tests/Usage.antt =====
-- Tests of the usage tracker: rescans, the start of the week, and transcripts.
use silicon_office.Prelude.{
  ℕ, ◌+◌, ◌*◌, String, ◌≡◌, refl, true, Bool, Option, none, some, List, [], ◌∷◌, arith, str_dec,
  leb, if◌then◌else◌, ◌==◌, ok, raised,
}
use silicon_office.Prelude.Dict.{lookup, insert}
use silicon_office.Json.{Json, null, str, num, object, to_dict, from_dict, as_dict}
use silicon_office.Pricing.{cost_at, rate_of}
use silicon_office.Usage.{
  Entry, UsageTracker, Disk, scanned, refresh, nothing_scanned, scan_all, file_usage, add_entries,
  add_week, add_session, round,
}
use silicon_office.Usage.Cache.{IsSound, IsSoundAfter, refresh_lem}
use silicon_office.Usage.Totals.{all_entries, tokens_since, refresh_totals}
use silicon_office.Usage.Week.{
  LocalTime, weekday, week_reset_weekday, week_reset_hour, hour, at_reset_hour, days_since_reset,
  week_window_start, IsBy, IsBefore, plus_days, week_window_start_lem,
}
use silicon_office.Usage.Scan.{
  FileLine, line, read_error, Parsed, value, is_white, is_blank, rate_for, count_of, token_usage,
  tokens_of, parse_ts, entry_of, message_entry, record_entry, scan_line, scan_file,
}
use silicon_office.Usage.Stuck.{is_bad_line, has_bad_line, IsBlocked, rounds, bad_line_stops_usage}

program : Unit {0}
unfolding lookup insert str_dec refresh round scan_all file_usage scanned add_entries add_week
    add_session to_dict from_dict as_dict cost_at rate_of at_reset_hour days_since_reset
    week_window_start is_white is_blank rate_for count_of token_usage tokens_of parse_ts entry_of
    message_entry record_entry scan_line scan_file is_bad_line has_bad_line rounds
program = tt

abbrev entry : ℕ → ℕ → Entry ℕ ℕ
entry ts tokens = record { ts = ts; cost = tokens; tokens = tokens }

abbrev disk : Disk ℕ ℕ
disk = record {
  projects_dir_exists = true;
  paths = "a.jsonl" ∷ "gone.jsonl" ∷ [];
  stat = λ path. if path == "a.jsonl" then some (record { st_mtime = 5; st_size = 20 }) else none;
  scan = λ path. if path == "a.jsonl" then ok (entry 3 10 ∷ entry 8 7 ∷ []) else raised;
}

abbrev tracker : UsageTracker ℕ ℕ
tracker = record {
  file_cache =
      ("a.jsonl", record { mtime = 5; size = 20; entries = entry 3 10 ∷ entry 8 7 ∷ [] })
      ∷ ("old.jsonl", record { mtime = 1; size = 1; entries = [] })
      ∷ [];
  totals = record { session_cost = 0; session_tokens = 0; week_cost = 0; week_tokens = 0 };
}

abbrev at_least : ℕ → ℕ → Bool
at_least ts cutoff = leb cutoff ts

abbrev fresh : UsageTracker ℕ ℕ
fresh = record {
  file_cache =
      ("a.jsonl", record { mtime = 5; size = 20; entries = entry 3 10 ∷ entry 8 7 ∷ [] }) ∷ [];
  totals = record { session_cost = 7; session_tokens = 7; week_cost = 17; week_tokens = 17 };
}

refresh_run : refresh 0 ◌+◌ at_least disk 2 6 tracker ≡ ok fresh
unfolding program
refresh_run = refl

tracker-IsSound : IsSound disk tracker.file_cache
unfolding program IsSound
tracker-IsSound path u st found there current = ground arith

refresh_lem_example :
    (refresh 0 ◌+◌ at_least disk 2 6 tracker
      ≡ refresh 0 ◌+◌ at_least disk 2 6 (nothing_scanned 0 ◌+◌ at_least))
    × IsSoundAfter disk (refresh 0 ◌+◌ at_least disk 2 6 tracker)
refresh_lem_example = refresh_lem 0 ◌+◌ at_least disk 2 6 tracker refl tracker-IsSound

refresh_totals_example :
    (es : List (Entry ℕ ℕ)) × (all_entries disk disk.paths ≡ ok es)
    × (fresh.totals ≡ add_entries 0 ◌+◌ at_least 2 6 es (nothing_scanned 0 ◌+◌ at_least).totals)
    × (fresh.totals.week_tokens ≡ tokens_since at_least 2 es)
    × (fresh.totals.session_tokens ≡ tokens_since at_least 6 es)
refresh_totals_example =
    refresh_totals 0 ◌+◌ at_least disk 2 6 tracker fresh refl tracker-IsSound refresh_run

-- A Thursday, an hour before the reset.
abbrev before_reset : LocalTime
before_reset = record { day = 17; micros = 18_000_000_000 }

week_run : week_window_start before_reset ≡ record { day = 10; micros = 21_600_000_000 }
unfolding program
week_run = refl

week_window_start_lem_example :
    (weekday (week_window_start before_reset) ≡ week_reset_weekday)
    × ((week_window_start before_reset).micros ≡ week_reset_hour * hour)
    × IsBy (week_window_start before_reset) before_reset
    × IsBefore before_reset (plus_days (week_window_start before_reset) 7)
week_window_start_lem_example = week_window_start_lem before_reset (omega arith)

abbrev number : String → ℕ
number n = 7

abbrev iso : String → Option ℕ
iso s = some 3

abbrev message : Json
message = object (
    ("message", object (("usage", object (("input_tokens", num "7") ∷ [])) ∷ []))
    ∷ ("timestamp", str "now")
    ∷ [])

-- A reader that knows two lines.
abbrev loads : String → Parsed
loads text = if text == "message" then value message else value null

abbrev lines : List FileLine
lines = line "message" ∷ line "  " ∷ line "null" ∷ line "message" ∷ []

scan_run :
    scan_file number iso 0 loads (line "message" ∷ read_error ∷ line "null" ∷ [])
    ≡ ok (record { ts = 3; cost = 420; tokens = 7 } ∷ [])
unfolding program
scan_run = refl

abbrev blocked : Disk ℕ ℕ
blocked = record disk { scan = λ path. scan_file number iso 0 loads lines }

blocked-IsBlocked : IsBlocked number iso 0 loads "a.jsonl" blocked
unfolding program
blocked-IsBlocked = record {
  listed = refl;
  st = record { st_mtime = 5; st_size = 20 };
  found = refl;
  lines = lines;
  scanned_lines = refl;
  bad = refl;
  dir = refl;
}

abbrev start : UsageTracker ℕ ℕ
start = nothing_scanned 0 ◌+◌ at_least

bad_line_stops_usage_example :
    rounds number iso 0 loads 0 ◌+◌ at_least ((blocked, 2, 6) ∷ (blocked, 4, 8) ∷ []) start ≡ start
unfolding program
bad_line_stops_usage_example =
    bad_line_stops_usage number iso 0 loads 0 ◌+◌ at_least "a.jsonl"
      ((blocked, 2, 6) ∷ (blocked, 4, 8) ∷ []) start (blocked-IsBlocked, (blocked-IsBlocked, tt))
      refl
