-- ===== src/Office/Turns.antt =====
-- Whole runs of the window's loop: what becomes of the messages, also of those that are no
-- objects, and of the state.
use silicon_office.Prelude.{
  ℕ, suc, ◌≤◌, String, ◌≡◌, refl, sym, ap, ◌∙◌, Bool, true, false, List, [], ◌∷◌, ◌++◌, All,
  append-nil, length, Outcome, ok, raised, arith,
}
use silicon_office.Office.{App, Incoming, handle_message, drain_queue}
use silicon_office.Office.Picture.{Strengths}
use silicon_office.Office.Unchanged.{agents-draw, drain_queue_alike}
use silicon_office.Office.Loop.{
  WindowEvent, quit, video_resize, other_event, message, not_a_dict, Waiting, Window, Turn,
  handle_events, drain_arrived, finish_frame, frame_body, turn_of_loop, run,
}

module _ {T M : Type 0} where
  -- The messages that are objects.
  unfoldable pub objects : List (Waiting T M) → List (Incoming T × M × (String → M))
  objects [] = []
  objects ((message m, now, clock) ∷ rest) = (m, now, clock) ∷ objects rest
  objects ((not_a_dict, now, clock) ∷ rest) = objects rest

  -- How many are not.
  unfoldable pub malformed : List (Waiting T M) → ℕ
  malformed [] = 0
  malformed ((message m, now, clock) ∷ rest) = malformed rest
  malformed ((not_a_dict, now, clock) ∷ rest) = suc (malformed rest)

  -- The frames that it takes to empty the queue.
  unfoldable pub frames_needed : List (Waiting T M) → ℕ
  frames_needed [] = 0
  frames_needed (q ∷ rest) = suc (malformed (q ∷ rest))

unfoldable pub has_quit : List WindowEvent → Bool
has_quit [] = false
has_quit (quit ∷ events) = true
has_quit (video_resize w h ∷ events) = has_quit events
has_quit (other_event ∷ events) = has_quit events

pub running_after :
    (events : List WindowEvent) (running : Bool) (size : ℕ × ℕ)
    → has_quit events ≡ false
    → (handle_events events (running, size)).0 ≡ running
unfolding handle_events has_quit
running_after [] running size h = refl
running_after (quit ∷ events) running size h = cc
running_after (video_resize w k ∷ events) running size h = running_after events running (w, k) h
running_after (other_event ∷ events) running size h = running_after events running size h

empty_queue : {T M : Type 0} (queue : List (Waiting T M)) → frames_needed queue ≤ 0 → queue ≡ []
unfolding frames_needed
empty_queue [] h = refl
empty_queue (q ∷ rest) h = absurd (omega arith)

fewer_frames :
    {T M : Type 0} (queue : List (Waiting T M)) (n k : ℕ)
    → frames_needed queue ≤ suc k
    → n ≤ malformed queue
    → (queue ≡ [] → n ≡ 0)
    → n ≤ k
unfolding frames_needed malformed
fewer_frames [] n k h m none_left = omega (arith, none_left refl)
fewer_frames (q ∷ rest) n k h m none_left = omega arith

-- A turn in which nothing arrives and nobody quits.
abbrev pub IsQuiet : {T M : Type 0} → Turn T M → Type 0
IsQuiet turn = (turn.arrivals ≡ []) × (has_quit turn.events ≡ false)

module _ {T M : Type 0} (order : List String → List String) where
  -- Draining takes the messages in order, up to the first that is no object, and that one.
  drained_rest :
      (app : App T M) (queue : List (Waiting T M))
      → let (result, app', rest) = drain_arrived order app queue in
        (drain_queue order app' (objects rest) ≡ drain_queue order app (objects queue))
        × (frames_needed rest ≤ malformed queue)
        × (queue ≡ [] → frames_needed rest ≡ 0)
  unfolding drain_arrived objects malformed frames_needed drain_queue
  drained_rest app [] = (refl, omega arith, λ e. refl)
  drained_rest app ((message m, now, clock) ∷ rest) =
      let (same, fewer, _) = drained_rest (handle_message order app m now clock) rest in
      (same, fewer, λ e. cc)
  drained_rest app ((not_a_dict, now, clock) ∷ []) = (refl, omega arith, λ e. cc)
  drained_rest app ((not_a_dict, now, clock) ∷ (q ∷ rest)) = (refl, omega arith, λ e. cc)

  nothing_left : (app : App T M) → (drain_queue order app (objects [])).agents ≡ app.agents
  unfolding drain_queue objects
  nothing_left app = refl

  module _ {A : Type 0} (expired spawn_over flash_over : M → M → Bool)
      (strengths : Strengths M A) where
    abbrev looped : List (Turn T M) → Window T M A → Bool × Window T M A
    looped = run order expired spawn_over flash_over strengths

    abbrev once : Turn T M → Window T M A → Bool × Window T M A
    once = turn_of_loop order expired spawn_over flash_over strengths

    finished_frame :
        (turn : Turn T M) (result : Outcome (Unit {0})) (window : Window T M A)
        → let next =
            finish_frame order expired spawn_over flash_over strengths turn result window in
          (next.queue ≡ window.queue) × (next.app.agents ≡ window.app.agents)
    unfolding finish_frame
    finished_frame turn raised window = (refl, refl)
    finished_frame turn (ok _) window =
        (refl, agents-draw order expired spawn_over flash_over window.app turn.now turn.later)

    quiet_turn :
        (turn : Turn T M) (window : Window T M A)
        → IsQuiet turn
        → let (running, next) = once turn window in
          let (_, app, rest) = drain_arrived order window.app window.queue in
          (running ≡ true) × ((next.queue ≡ rest) × (next.app.agents ≡ app.agents))
    unfolding turn_of_loop frame_body
    quiet_turn turn window (nothing, stays) =
        let size = (handle_events turn.events (true, window.window_size)).1 in
        let queue : window.queue ++ turn.arrivals ≡ window.queue =
          ap (λ q. window.queue ++ q) nothing ∙ append-nil window.queue in
        let (result, app, rest) = drain_arrived order window.app window.queue in
        (
          running_after turn.events true window.window_size stays,
          rw queue (
              finished_frame turn result
                (record window { window_size = size; app = app; queue = rest })),
        )

    -- The window catches up, and a message that is no object costs it no other one: once nothing
    -- arrives and nobody quits, then after as many frames as there are such messages on the
    -- queue, and one more, the loop is running, the queue is empty, and the agents are those of
    -- handling all other messages in order, once each.
    pub run_catches_up :
        (turns : List (Turn T M)) (window : Window T M A)
        → All IsQuiet turns
        → frames_needed window.queue ≤ length turns
        → let (running, last) = run order expired spawn_over flash_over strengths turns window in
          (running ≡ true)
          × (last.queue ≡ [])
          × (last.app.agents ≡ (drain_queue order window.app (objects window.queue)).agents)
    unfolding run
    run_catches_up [] window q h =
        let empty = empty_queue window.queue h in
        (
          refl,
          empty,
          sym (
              ap (λ q. (drain_queue order window.app (objects q)).agents) empty
              ∙ nothing_left window.app),
        )
    run_catches_up (turn ∷ turns) window (q, qs) h =
        let (stays, (queue, agents)) = quiet_turn turn window q in
        let (same, fewer, done) = drained_rest window.app window.queue in
        let next = (once turn window).1 in
        let left = (drain_arrived order window.app window.queue).2 in
        let app = (drain_arrived order window.app window.queue).1 in
        let (on, empty, shown) = run_catches_up turns next qs (
          fewer_frames window.queue (frames_needed next.queue) (length turns) h (rw queue fewer)
            (λ e. ap frames_needed queue ∙ done e)) in
        rw (stays, run)
          (
            on,
            empty,
            shown
                ∙ drain_queue_alike order next.app app (objects next.queue) agents
                ∙ ap (λ q. (drain_queue order app (objects q)).agents) queue
                ∙ ap (λ a. a.agents) same,
          )
