-- ===== src/Tests/Pipeline.antt =====
-- Tests of the way of an event from a hook to the daemon. Time stamps are JSON values here, and
-- the JSON coding knows one event.
use silicon_office.Prelude.{
  true, ℕ, String, ◌≡◌, refl, Bool, none, some, List, [], ◌∷◌, Outcome, ok, raised, str_dec, ◌==◌,
}
use silicon_office.Prelude.Dict.{Dict, lookup, insert, keys}
use silicon_office.Json.{Json, object, num, to_dict, from_dict}
use silicon_office.Schema.{HookEvent, upsert, remove}
use silicon_office.Ipc.{Loaded, value, is_blank}
use silicon_office.Ipc.Scan.{has_newline}
use silicon_office.Registry.{Agents}
use silicon_office.Registry.Broken.{has_broken}
use silicon_office.Daemon.{on_event, datagram_received}
use silicon_office.Emitter.{
  Built, build_hook_event, event_of, truthy, text_of, cwd_text, summarize_tool_input, cut_error,
}
use silicon_office.Emitter.Wire.{RawEvent, event_dict, received_event, sent_event}
use silicon_office.Emitter.Main.{text, read_payload, main, hook_reaches_daemon}
use silicon_office.FakeSession.{make_payload, update, full_lifecycle}
use silicon_office.FakeSession.Shows.{shows}
use silicon_office.FakeSession.Lifecycle.{deliver, drive, full_lifecycle_lem}
use silicon_office.Usage.Scan
use silicon_office.FakeSession.Crash.{fake_info, crash_payload, crash_is_removed}
use silicon_office.Daemon.Announced.{announces}
use silicon_office.Daemon.Crashes.{reaper_rounds, has_clean}
use silicon_office.Sessions.{
  World, parsed, delivered, process_lookup_error, is_pid_alive, find_session_file,
  read_session_files, parse_files, first_for,
}
use silicon_office.Tests.Registry.{world}

program : Unit {0}
unfolding lookup insert str_dec make_payload update read_payload build_hook_event event_of truthy
    text_of cwd_text summarize_tool_input cut_error is_blank has_newline has_broken Scan.is_blank
    Scan.is_white to_dict from_dict is_pid_alive find_session_file read_session_files parse_files
    first_for fake_info has_clean keys
program = tt

abbrev repr : Json → String
repr v = "?"

abbrev is_zero : String → Bool
is_zero n = n == "0"

abbrev as_is : Json → Json
as_is j = j

abbrev odd : RawEvent → Outcome (HookEvent Json)
odd raw = raised

abbrev payload : Dict Json
payload = make_payload "s1" "Stop" "/tmp" []

abbrev parse : String → Outcome Json
parse raw = ok (object payload)

abbrev built : Built Json
built = record {
  session_id = "s1";
  hook_event_name = "Stop";
  cwd = "/tmp";
  tool_name = Json.null;
  tool_input_summary = none;
  tool_error = none;
  agent_id = Json.null;
  agent_type = Json.null;
  ts = num "4";
}

abbrev dumps : Json → List ℕ
dumps j = b'1' ∷ []

abbrev loads : List ℕ → Loaded Json
loads line = value (object (event_dict as_is built))

abbrev nobody : Agents Json
nobody = []

build_run : build_hook_event repr is_zero (read_payload parse (text "{}")) (num "4") ≡ some built
unfolding program
build_run = refl

hook_reaches_daemon_example :
    (sent_bytes : List ℕ) × (main dumps as_is repr is_zero parse (text "{}") (num "4")
      ≡ some sent_bytes)
    × (datagram_received loads (received_event some odd) world nobody sent_bytes (num "5") (num "6")
        ≡ ok (on_event world nobody (ok (sent_event built none none none)) (num "5") (num "6")))
unfolding program
hook_reaches_daemon_example =
    hook_reaches_daemon dumps as_is loads some odd repr is_zero parse (text "{}") (num "4") built
      none none none world nobody (num "5") (num "6") build_run refl refl refl refl
      (record { one_line = refl; visible = refl; loaded = refl })

full_lifecycle_lem_example :
    let end =
      drive world as_is some odd repr is_zero
        (λ n. num "4")
        0
        nobody
        (full_lifecycle "s1" "/tmp") in
    (shows end.1
      ≡ ("s1", upsert, some "idle")
        ∷ ("s1", upsert, some "working")
        ∷ ("s1", upsert, some "working")
        ∷ ("s1", upsert, some "working")
        ∷ ("s1", upsert, some "working")
        ∷ ("s1", upsert, some "working")
        ∷ ("s1", upsert, some "asking")
        ∷ ("s1", upsert, some "error")
        ∷ ("s1", upsert, some "idle")
        ∷ ("s1", remove, none)
        ∷ [])
    × (lookup "s1" end.0 ≡ none)
unfolding program
full_lifecycle_lem_example =
    full_lifecycle_lem world as_is some odd repr is_zero (λ n. num "4") "s1" "/tmp" nobody refl refl
      (λ t. refl)

-- The process runs, and its session file is there; then it has exited.
abbrev running : World
running = record world {
  session_files = parsed (fake_info "s9" "/tmp" 42) ∷ [];
  kill = λ p. delivered;
}

abbrev exited : World
exited = record running { kill = λ p. process_lookup_error }

crash_is_removed_example :
    let first =
      deliver running as_is some odd repr is_zero nobody (crash_payload "s9" "/tmp") (num "4") in
    (lookup "s9" (reaper_rounds ((exited, num "6") ∷ []) first.0).0 ≡ none)
    × (announces "s9" (reaper_rounds ((exited, num "6") ∷ []) first.0).1 ≡ true)
unfolding program
crash_is_removed_example =
    crash_is_removed running as_is some odd repr is_zero "s9" "/tmp" 42 (num "4") nobody
      ((exited, num "6") ∷ []) refl refl tt refl refl (refl, tt) refl
