-- ===== src/Tests/System.antt =====
-- Tests of the daemon's event loop: events that are taken in, and one that raises, while a
-- frontend is connected.
use silicon_office.Prelude.{
  ℕ, String, ◌==◌, ==_iff, ◌≡◌, ◌≢◌, refl, true, keep, some, [], ok, raised, str_dec,
}
use silicon_office.Prelude.Dict.{lookup, insert, erase, keys}
use silicon_office.Schema.{upsert}
use silicon_office.StateMachine
use silicon_office.StateMachine.{
  classify, transition, new_record, refresh_cwd, project_name_from_cwd,
}
use silicon_office.Sessions.{
  resolve_identity, parse_files, read_session_files, find_session_file, first_for, identify,
  look_up_identity, is_pid_alive, list_live_sessions,
}
use silicon_office.Daemon.Objects
use silicon_office.Daemon.Objects.{Heap, Objects, contents, run_machine, store_object}
use silicon_office.Daemon.{cold_start, seed_all, seed_info}
use silicon_office.Registry.{seed}
use silicon_office.Office.{App}
use silicon_office.System.{System, Readings, hook, connect, tick}
use silicon_office.System.Shows.{known, shown}
use silicon_office.System.Run.{Reach, started, next, hooked, connected, start, allocate, run_tasks}
use silicon_office.System.Healing.{Disturbed, undisturbed, failed, healed}
use silicon_office.Tests.Registry.{world, broken_world}
use silicon_office.Tests.Daemon.{event, busy}
use silicon_office.Tests.Frontend.{as_is, clock, fresh}

program : Unit {0}
unfolding lookup insert erase keys str_dec StateMachine.apply_event classify transition new_record
    refresh_cwd project_name_from_cwd resolve_identity parse_files read_session_files
    find_session_file first_for identify look_up_identity is_pid_alive list_live_sessions cold_start
    seed_all seed_info seed keep Objects.apply_event run_machine store_object allocate start
program = tt

abbrev base : Heap ℕ
base p = busy

-- No process is alive when the daemon starts.
abbrev first : System ℕ ℕ
first = start base []

abbrev reads : Readings ℕ
reads w = (5, clock)

abbrev greeted : System ℕ ℕ
greeted = connect as_is "window" fresh 3 reads first

abbrev pending : System ℕ ℕ
pending = hook world (event "s1" "Stop") 4 greeted

named : ◌≢◌ {A = String} "s1" ""
named e = let h : ("s1" == "") ≡ true = (==_iff _ _).1 e in unfold str_dec in cc

taken_in : (Objects.apply_event world greeted.objects (event "s1" "Stop") 4).0 ≡ ok (some 0, upsert)
unfolding program connect
taken_in = refl

reached : Reach as_is pending
unfolding program
reached =
    next (next (started base world 1 [] [] refl refl) (connected "window" fresh 3 reads first))
      (hooked world (event "s1" "Stop") 4 greeted (some 0) upsert named taken_in)

-- A session file is broken when the next session starts.
abbrev lost : System ℕ ℕ
lost = hook broken_world (event "s3" "SessionStart") 5 pending

other : ◌≢◌ {A = String} "s3" ""
other e = let h : ("s3" == "") ≡ true = (==_iff _ _).1 e in unfold str_dec in cc

not_taken_in :
    (Objects.apply_event broken_world pending.objects (event "s3" "SessionStart") 5).0 ≡ raised
unfolding program connect hook
not_taken_in = refl

disturbed : Disturbed as_is lost
disturbed =
    failed broken_world (event "s3" "SessionStart") 5 pending (undisturbed pending reached) other
      not_taken_in

healed_example :
    let s' = run_tasks as_is lost.tasks 7 reads (tick as_is 6 reads lost) in
    (s'.tasks ≡ [])
    × (s'.objects ≡ lost.objects)
    × ((w : String) (app : App ℕ ℕ) (k : String)
        → lookup w s'.frontends ≡ some app
        → shown app k ≡ known s'.objects k)
healed_example = healed as_is lost 6 7 reads reads disturbed
