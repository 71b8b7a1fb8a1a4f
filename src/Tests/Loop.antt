-- ===== src/Tests/Loop.antt =====
-- Tests of the window's loop: a message that is no object stands between two others.
use silicon_office.Prelude.{ℕ, ◌≡◌, refl, true, All, List, [], ◌∷◌, inl, arith}
use silicon_office.Schema.{make_snapshot_message}
use silicon_office.Office.{conn_status, from_daemon, drain_queue}
use silicon_office.Office.Loop.{video_resize, message, not_a_dict, Waiting, Window, Turn, run}
use silicon_office.Office.Turns.{
  IsQuiet, objects, malformed, frames_needed, has_quit, run_catches_up,
}
use silicon_office.Office.Whole.{IsSound, run-IsSound}
use silicon_office.Tests.Registry.{agents}
use silicon_office.Tests.Frontend.{
  as_is, as_is-IsSetOrder, fresh, fresh-IsConsistent, clock, expired,
}
use silicon_office.Tests.Drawing.{strengths}

abbrev queue : List (Waiting ℕ ℕ)
queue =
    (message (conn_status true), 1, clock)
    ∷ (not_a_dict, 1, clock)
    ∷ (message (from_daemon (make_snapshot_message agents 1)), 1, clock)
    ∷ []

abbrev window : Window ℕ ℕ ℕ
window = record { app = fresh; queue = queue; window_size = (360, 500); screen = [] }

abbrev quiet : Turn ℕ ℕ
quiet = record { events = video_resize 360 700 ∷ []; arrivals = []; now = 20; later = 21 }

two_quiet : All IsQuiet (quiet ∷ quiet ∷ [])
unfolding has_quit
two_quiet = ((refl, refl), ((refl, refl), tt))

run_catches_up_example :
    let (running, last) = run as_is expired expired expired strengths (quiet ∷ quiet ∷ []) window in
    (running ≡ true)
    × (last.queue ≡ [])
    × (last.app.agents ≡ (drain_queue as_is fresh (objects queue)).agents)
run_catches_up_example =
    run_catches_up as_is expired expired expired strengths (quiet ∷ quiet ∷ []) window two_quiet
      (unfold frames_needed malformed in omega arith)

run-IsSound_example :
    IsSound as_is as_is-IsSetOrder expired expired expired strengths
      (run as_is expired expired expired strengths (quiet ∷ []) window).1
run-IsSound_example =
    run-IsSound as_is as_is-IsSetOrder expired expired expired strengths (quiet ∷ []) window
      (record { consistent = fresh-IsConsistent; drawn = inl refl })
