-- ===== src/Office/Whole.antt =====
-- Whole runs of the window's loop: the state, what is on the screen, and the end.
use silicon_office.Prelude.{
  ℕ, ◌≡◌, ◌⊎◌, refl, Bool, true, false, String, List, [], ◌∷◌, ◌++◌, All, Outcome, ok, raised,
  Bool-cases, inl, inr,
}
use silicon_office.Layout.Sync.{IsSetOrder}
use silicon_office.Office.{App, handle_message, update_ghosts, draw}
use silicon_office.Office.Consistent.{IsConsistent, handle_message-IsConsistent}
use silicon_office.Office.Frame.{update_ghosts_at, draw_agents-IsConsistent}
use silicon_office.Office.Picture.{Strengths, picture}
use silicon_office.Office.Loop.{
  WindowEvent, quit, video_resize, other_event, message, not_a_dict, Waiting, Window, Turn,
  handle_events, drain_arrived, finish_frame, frame_body, turn_of_loop, run,
}
use silicon_office.Office.Turns.{has_quit, running_after}

stays_stopped :
    (events : List WindowEvent) (size : ℕ × ℕ) → (handle_events events (false, size)).0 ≡ false
unfolding handle_events
stays_stopped [] size = refl
stays_stopped (quit ∷ events) size = stays_stopped events size
stays_stopped (video_resize w k ∷ events) size = stays_stopped events (w, k)
stays_stopped (other_event ∷ events) size = stays_stopped events size

stopped_after :
    (events : List WindowEvent) (running : Bool) (size : ℕ × ℕ)
    → has_quit events ≡ true
    → (handle_events events (running, size)).0 ≡ false
unfolding handle_events has_quit
stopped_after [] running size h = cc
stopped_after (quit ∷ events) running size h = stays_stopped events size
stopped_after (video_resize w k ∷ events) running size h = stopped_after events running (w, k) h
stopped_after (other_event ∷ events) running size h = stopped_after events running size h

module _ {T M A : Type 0} (order : List String → List String) (o : IsSetOrder order)
    (expired spawn_over flash_over : M → M → Bool) (strengths : Strengths M A) where
  -- The state is consistent, and the screen is as it was at first, or it holds the picture of a
  -- consistent state.
  pub record IsSound (window : Window T M A) : Type 0 where
    pub consistent : IsConsistent window.app
    pub drawn :
        (window.screen ≡ [])
        ⊎ ((height : ℕ) × (app : App T M) × (now : M) × IsConsistent app
            × (window.screen ≡ picture spawn_over flash_over strengths height app now))

  drain_arrived-IsConsistent :
      (app : App T M) (queue : List (Waiting T M))
      → IsConsistent app
      → IsConsistent (drain_arrived order app queue).1
  unfolding drain_arrived
  drain_arrived-IsConsistent app [] c = c
  drain_arrived-IsConsistent app ((not_a_dict, now, clock) ∷ rest) c = c
  drain_arrived-IsConsistent app ((message m, now, clock) ∷ rest) c =
      drain_arrived-IsConsistent (handle_message order app m now clock) rest
        (handle_message-IsConsistent order o app m now clock c)

  finish_frame-IsSound :
      (turn : Turn T M) (result : Outcome (Unit {0})) (window : Window T M A)
      → IsSound window
      → IsSound (finish_frame order expired spawn_over flash_over strengths turn result window)
  unfolding finish_frame draw
  finish_frame-IsSound turn raised window s = s
  finish_frame-IsSound turn (ok _) window s =
      let faded = update_ghosts order expired window.app turn.now in
      let c = update_ghosts_at order o expired window.app turn.now _ refl s.consistent in
      record {
        consistent = draw_agents-IsConsistent spawn_over flash_over faded faded.agents turn.later c;
        drawn = inr (window.window_size.1, faded, turn.later, c, refl);
      }

  turn-IsSound :
      (turn : Turn T M) (window : Window T M A)
      → IsSound window
      → IsSound (turn_of_loop order expired spawn_over flash_over strengths turn window).1
  unfolding turn_of_loop frame_body
  turn-IsSound turn window s =
      let queue = window.queue ++ turn.arrivals in
      let size = (handle_events turn.events (true, window.window_size)).1 in
      let (result, app, rest) = drain_arrived order window.app queue in
      finish_frame-IsSound turn result
        (record window { app = app; queue = rest; window_size = size })
        (record {
          consistent = drain_arrived-IsConsistent window.app queue s.consistent;
          drawn = s.drawn;
        })

  -- Whatever messages of the daemon's form arrive, each agent in them an object, and whatever JSON
  -- that is no object arrives between them, and however the window is resized, the state stays
  -- consistent through the whole run of the loop, and what is on the screen is the picture of a
  -- consistent state, or the screen was not drawn on yet.
  pub run-IsSound :
      (turns : List (Turn T M)) (window : Window T M A)
      → IsSound window
      → IsSound (run order expired spawn_over flash_over strengths turns window).1
  unfolding run
  run-IsSound [] window s = s
  run-IsSound (turn ∷ turns) window s =
      let next = (turn_of_loop order expired spawn_over flash_over strengths turn window).1 in
      let s' = turn-IsSound turn window s in
      elim (Bool-cases (turn_of_loop order expired spawn_over flash_over strengths turn window).0) [
        | inl e ↦ rw (e, run) (run-IsSound turns next s')
        | inr e ↦ rw (e, run) s'
      ]

module _ {T M A : Type 0} (order : List String → List String)
    (expired spawn_over flash_over : M → M → Bool) (strengths : Strengths M A) where
  -- The loop ends with the frame in which the window is closed: that frame is still handled to its
  -- end, and no later one is begun.
  pub run_quits :
      (before later : List (Turn T M)) (turn : Turn T M) (window : Window T M A)
      → All (λ t. has_quit t.events ≡ false) before
      → has_quit turn.events ≡ true
      → run order expired spawn_over flash_over strengths (before ++ turn ∷ later) window ≡ (
        false,
        (turn_of_loop order expired spawn_over flash_over strengths turn
            (run order expired spawn_over flash_over strengths before window).1).1,
      )
  unfolding run turn_of_loop
  run_quits [] later turn window b q =
      let ends = stopped_after turn.events true window.window_size q in rw (ends, run) refl
  run_quits (t ∷ before) later turn window (b, bs) q =
      let next = (turn_of_loop order expired spawn_over flash_over strengths t window).1 in
      let goes = running_after t.events true window.window_size b in
      rw (goes, run) (run_quits before later turn next bs q)
