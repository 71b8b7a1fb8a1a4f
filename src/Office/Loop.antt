-- ===== src/Office/Loop.antt =====
-- `App.run` of frontend/main.py: the loop over the frames, with the events of the window, the
-- messages that arrive on the queue, and the try around a frame. What `_net.stop` and the other
-- calls after the loop do is not modelled.
use silicon_office.Prelude.{ℕ, String, Bool, true, false, List, [], ◌∷◌, ◌++◌, Outcome, ok, raised}
use silicon_office.Office.{App, Incoming, handle_message, update_ghosts, draw}
use silicon_office.Office.Picture.{Call, Strengths, picture}

-- What `pygame.event.get` gives.
pub data WindowEvent : Type 0 where
  quit : WindowEvent
  video_resize : ℕ → ℕ → WindowEvent
  other_event : WindowEvent

-- What comes off the queue: a message of the daemon's form, or JSON that is no object, on which
-- `message.get` raises. A snapshot whose "agents" is no object raises at `agents.items()` and
-- changes as little, so `not_a_dict` stands for it too. Left out are messages with an agent that is
-- no object, which `_upsert_agent` stores before it raises.
pub data Arrived (T : Type 0) : Type 0 where
  message : Incoming T → Arrived T
  not_a_dict : Arrived T

-- With the clock's readings while it is handled.
abbrev pub Waiting : Type 0 → Type 0 → Type 0
Waiting T M = Arrived T × M × (String → M)

-- `screen` holds the calls of the last drawing.
pub record Window (T M A : Type 0) : Type 0 where
  pub app : App T M
  pub queue : List (Waiting T M)
  pub window_size : ℕ × ℕ
  pub screen : List (Call T A)

-- What the world does in a frame: the events of the window, the messages that reach the queue
-- before it is found empty, and the clock at `_update_ghosts` and at `_draw`.
pub record Turn (T M : Type 0) : Type 0 where
  pub events : List WindowEvent
  pub arrivals : List (Waiting T M)
  pub now : M
  pub later : M

-- The loop over the events, on `running` and the size of the window.
unfoldable pub handle_events : List WindowEvent → Bool × (ℕ × ℕ) → Bool × (ℕ × ℕ)
handle_events [] state = state
handle_events (quit ∷ events) (running, size) = handle_events events (false, size)
handle_events (video_resize w h ∷ events) (running, size) = handle_events events (running, (w, h))
handle_events (other_event ∷ events) state = handle_events events state

module _ {T M : Type 0} (order : List String → List String) where
  -- `_drain_queue` as it may end: an exception leaves what is still on the queue there.
  unfoldable pub drain_arrived :
      App T M → List (Waiting T M) → Outcome (Unit {0}) × App T M × List (Waiting T M)
  drain_arrived app [] = (ok tt, app, [])
  drain_arrived app ((not_a_dict, now, clock) ∷ rest) = (raised, app, rest)
  drain_arrived app ((message m, now, clock) ∷ rest) =
      drain_arrived (handle_message order app m now clock) rest

module _ {T M A : Type 0} (order : List String → List String)
    (expired spawn_over flash_over : M → M → Bool) (strengths : Strengths M A) where
  -- The rest of the try: it is left out if the queue raised.
  unfoldable pub finish_frame : Turn T M → Outcome (Unit {0}) → Window T M A → Window T M A
  finish_frame turn raised window = window
  finish_frame turn (ok _) window =
      let app = update_ghosts order expired window.app turn.now in
      record window {
        app = draw spawn_over flash_over app turn.later;
        screen = picture spawn_over flash_over strengths window.window_size.1 app turn.later;
      }

  unfoldable pub frame_body : Turn T M → Window T M A → Window T M A
  frame_body turn window =
      let (result, app, rest) = drain_arrived order window.app (window.queue ++ turn.arrivals) in
      finish_frame turn result (record window { app = app; queue = rest })

  -- A round of the loop, with `running` after it.
  unfoldable pub turn_of_loop : Turn T M → Window T M A → Bool × Window T M A
  turn_of_loop turn window =
      let (running, size) = handle_events turn.events (true, window.window_size) in
      (running, frame_body turn (record window { window_size = size }))

  -- The loop, and whether it is still running after these rounds.
  unfoldable pub run : List (Turn T M) → Window T M A → Bool × Window T M A
  run [] window = (true, window)
  run (turn ∷ turns) window =
      let (running, next) = turn_of_loop turn window in
      elim running [ true ↦ run turns next | false ↦ (false, next) ]
