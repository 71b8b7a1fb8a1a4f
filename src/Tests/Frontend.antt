-- ===== src/Tests/Frontend.antt =====
-- Tests of the frontend's state against the daemon's.
use silicon_office.Prelude.{
  ℕ, String, ◌==◌, ==_iff, ◌≡◌, ◌≢◌, refl, true, false, none, some, List, [], arith, ok, str_dec,
  leb, Bool, ◌+◌,
}
use silicon_office.Prelude.Dict.{lookup, insert, erase, keys}
use silicon_office.Schema.{idle, upsert, make_snapshot_message}
use silicon_office.StateMachine
use silicon_office.StateMachine.{
  classify, transition, new_record, refresh_cwd, project_name_from_cwd,
}
use silicon_office.Sessions.{resolve_identity}
use silicon_office.Registry
use silicon_office.Registry.{Agents, store, changed_in_place}
use silicon_office.Registry.Keyed.{IsKeyed}
use silicon_office.Daemon.{on_event}
use silicon_office.Layout.{init}
use silicon_office.Layout.Slots.{count, held}
use silicon_office.Layout.Sync.{IsSetOrder}
use silicon_office.Office.{App, from_daemon, handle_message, drain_queue}
use silicon_office.Office.Mirror.{Mirrors, queued}
use silicon_office.Office.Run.{Reach, snapshot_sent, event_announced, Reach-Mirrors}
use silicon_office.Office.Consistent.{IsConsistent}
use silicon_office.Tests.Registry.{world, agents, agents-IsKeyed, known}
use silicon_office.Tests.Daemon.{event}

program : Unit {0}
unfolding lookup insert erase keys str_dec count held StateMachine.apply_event classify transition
    new_record refresh_cwd project_name_from_cwd resolve_identity Registry.apply_event store
    changed_in_place
program = tt

abbrev pub as_is : List String → List String
as_is xs = xs

pub as_is-IsSetOrder : IsSetOrder as_is
as_is-IsSetOrder = record { members = λ xs a. refl; once = λ xs d. d }

abbrev pub clock : String → ℕ
clock sid = 5

-- Gone after 4 units of time.
abbrev pub expired : ℕ → ℕ → Bool
expired now started = leb (4 + started) now

abbrev pub fresh : App ℕ ℕ
fresh = record {
  layout = init;
  agents = [];
  spawn_started = [];
  asking_since = [];
  ghosts = [];
  connected = false;
}

named : ◌≢◌ {A = String} "s1" ""
named e = let h : ("s1" == "") ≡ true = (==_iff _ _).1 e in unfold str_dec in cc

no_unnamed : lookup "" agents ≡ none
unfolding program
no_unnamed = refl

abbrev shown : App ℕ ℕ
shown = handle_message as_is fresh (from_daemon (make_snapshot_message agents 1)) 1 clock

abbrev after_stop : App ℕ ℕ
after_stop =
    drain_queue as_is shown (queued (on_event world agents (ok (event "s1" "Stop")) 3 4).1 5 clock)

-- A snapshot of two sessions, then an event of the first.
stop_result :
    (Registry.apply_event world agents (event "s1" "Stop") 3).0
    ≡ ok (some (record known { state = idle; action_label = "Idle"; state_since = 3 }), upsert)
unfolding program
stop_result = refl

stop_run : Reach as_is expired after_stop (on_event world agents (ok (event "s1" "Stop")) 3 4).0
stop_run =
    event_announced shown world agents (event "s1" "Stop") 3 4 5 clock _ upsert
      (snapshot_sent fresh agents 1 1 clock agents-IsKeyed no_unnamed) named stop_result (λ e. cc)

Reach-Mirrors_example :
    let agents' = (on_event world agents (ok (event "s1" "Stop")) 3 4).0 in
    Mirrors after_stop agents' × (IsKeyed agents' × (lookup "" agents' ≡ none))
Reach-Mirrors_example =
    Reach-Mirrors as_is expired after_stop (on_event world agents (ok (event "s1" "Stop")) 3 4).0
      stop_run

pub fresh-IsConsistent : IsConsistent fresh
unfolding program
fresh-IsConsistent = record {
  apart = λ k. refl;
  spawning = λ k h. h;
  asking = λ k h. h;
  seats = λ k. refl;
  valid = record { once = λ i. ground arith; size = refl; distinct = tt };
}
