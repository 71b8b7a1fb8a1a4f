-- ===== src/Office.antt =====
-- frontend/main.py: the state of the window behind the drawing, and what a message and the
-- passing of time do to it. `T` is the type of the daemon's time stamps, `M` that of readings of
-- the frontend's clock. Here `draw` is what drawing changes in the state; what it shows is in
-- Office/Picture.
pub mod Replica
pub mod Mirror
pub mod Run
pub mod Consistent
pub mod Frame
pub mod Picture
pub mod Painted
pub mod Unchanged
pub mod Loop
pub mod Turns
pub mod Whole
use silicon_office.Prelude.{
  String, ◌==◌, Bool, true, false, not, ◌&&◌, ◌||◌, Option, none, some, is_some, List, [], ◌∷◌,
  ◌++◌, contains, keep, if◌then◌else◌,
}
use silicon_office.Prelude.Dict.{Dict, lookup, insert, erase, keys, map_option}
use silicon_office.Schema.{Op, upsert, remove, noop, WireAgent, Message, snapshot, diff}
use silicon_office.Layout
use silicon_office.Layout.{Layout}

-- What stands on the queue: the network thread's own status messages, and the daemon's messages.
pub data Incoming (T : Type 0) : Type 0 where
  conn_status : Bool → Incoming T
  from_daemon : Message T → Incoming T
  other : Incoming T

-- The dict of an agent as the frontend keeps it; `none` is the empty dict that stands for an agent
-- which a diff left out.
abbrev pub Shown : Type 0 → Type 0
Shown T = Option (WireAgent T)

pub record Ghost (T M : Type 0) : Type 0 where
  pub agent : Shown T
  pub despawn_started : M

pub record App (T M : Type 0) : Type 0 where
  pub layout : Layout
  pub agents : Dict (Shown T)
  pub spawn_started : Dict M
  pub asking_since : Dict M
  pub ghosts : Dict (Ghost T M)
  pub connected : Bool

-- `agent.get("state") == STATE_ASKING`
abbrev pub is_asking : {T : Type 0} → Shown T → Bool
is_asking none = false
is_asking (some a) = a.state == "asking"

-- The same of `self.agents.get(session_id, {})`.
abbrev pub was_asking : {T : Type 0} → Option (Shown T) → Bool
was_asking none = false
was_asking (some shown) = is_asking shown

module _ {T M : Type 0} where
  -- `session_id in self.agents` or `in self.ghosts`
  abbrev pub seated : App T M → String → Bool
  seated app k = is_some (lookup k app.agents) || is_some (lookup k app.ghosts)

  -- `set(self.agents) | set(self.ghosts)`
  unfoldable pub everyone : App T M → List String
  everyone app = keys app.agents ++ keep (λ k. not (contains (keys app.agents) k)) (keys app.ghosts)

  -- The sessions whose fading is over: `expired now started` is the test
  -- `now - started >= DESPAWN_ANIM_SECONDS`.
  unfoldable pub finished : (M → M → Bool) → M → Dict (Ghost T M) → List String
  finished expired now [] = []
  finished expired now ((sid, ghost) ∷ rest) =
      let later = finished expired now rest in
      if expired now ghost.despawn_started then sid ∷ later else later

  -- `self.ghosts.pop(sid, None)`, for each
  unfoldable pub pop_all : List String → Dict (Ghost T M) → Dict (Ghost T M)
  pop_all [] ghosts = ghosts
  pop_all (sid ∷ sids) ghosts = pop_all sids (erase sid ghosts)

  module _ (order : List String → List String) where
    unfoldable pub sync_layout : App T M → App T M
    sync_layout app = record app { layout = Layout.sync order app.layout (everyone app) }

    -- `_upsert_agent` for an agent that is an object, with the fields of the wire or with none.
    unfoldable pub upsert_agent : App T M → String → Shown T → M → App T M
    upsert_agent app sid agent now =
        let is_new = not (seated app sid) in
        let asks = is_asking agent && not (was_asking (lookup sid app.agents)) in
        sync_layout (record app {
          ghosts = erase sid app.ghosts;
          agents = insert sid agent app.agents;
          spawn_started = if is_new then insert sid now app.spawn_started else app.spawn_started;
          asking_since = if asks then insert sid now app.asking_since else app.asking_since;
        })

    unfoldable pub start_despawn : App T M → String → M → App T M
    start_despawn app sid now = elim (lookup sid app.agents) [
      | none ↦ app
      | some agent ↦ sync_layout (record app {
        agents = erase sid app.agents;
        ghosts = insert sid (record { agent = agent; despawn_started = now }) app.ghosts;
        spawn_started = erase sid app.spawn_started;
        asking_since = erase sid app.asking_since;
      })
    ]

    -- The two loops over a snapshot. `clock` gives the reading that is made when a session is
    -- found to be gone.
    unfoldable pub upsert_all : App T M → Dict (WireAgent T) → M → App T M
    upsert_all app [] now = app
    upsert_all app ((sid, agent) ∷ rest) now =
        upsert_all (upsert_agent app sid (some agent) now) rest now

    unfoldable pub despawn_missing :
        App T M → Dict (WireAgent T) → List String → (String → M) → App T M
    despawn_missing app agents [] clock = app
    despawn_missing app agents (sid ∷ sids) clock =
        let app' = if is_some (lookup sid agents) then app else start_despawn app sid (clock sid) in
        despawn_missing app' agents sids clock

    unfoldable pub show_snapshot : App T M → Dict (WireAgent T) → M → (String → M) → App T M
    show_snapshot app agents now clock =
        let shown = upsert_all app agents now in
        despawn_missing shown agents (keys shown.agents) clock

    unfoldable pub handle_diff : App T M → String → Op → Shown T → M → (String → M) → App T M
    handle_diff app sid upsert agent now clock =
        if sid == "" then app else upsert_agent app sid agent now
    handle_diff app sid remove agent now clock =
        if sid == "" then app else start_despawn app sid (clock sid)
    handle_diff app sid noop agent now clock = app

    unfoldable pub handle_message : App T M → Incoming T → M → (String → M) → App T M
    handle_message app (conn_status up) now clock = record app { connected = up }
    handle_message app (from_daemon (snapshot v ts agents)) now clock =
        show_snapshot app agents now clock
    handle_message app (from_daemon (diff v ts sid op agent)) now clock =
        handle_diff app sid op agent now clock
    handle_message app other now clock = app

    -- `_drain_queue`: each message with the clock's readings while it is handled.
    unfoldable pub drain_queue : App T M → List (Incoming T × M × (String → M)) → App T M
    drain_queue app [] = app
    drain_queue app ((message, now, clock) ∷ rest) =
        drain_queue (handle_message app message now clock) rest

    unfoldable pub update_ghosts : (M → M → Bool) → App T M → M → App T M
    update_ghosts expired app now = elim (finished expired now app.ghosts) [
      | [] ↦ app
      | sid ∷ sids ↦ sync_layout (record app { ghosts = pop_all (sid ∷ sids) app.ghosts })
    ]

  -- The part of `_draw` that changes the state: it drops the times of the animations that are
  -- over. `spawn_over now started` is `now - started >= SPAWN_ANIM_SECONDS`, and `flash_over` is
  -- the same for the flash of an asking session.
  unfoldable pub age_spawn : (M → M → Bool) → App T M → String → M → App T M
  age_spawn spawn_over app sid now = elim (lookup sid app.spawn_started) [
    | none ↦ app
    | some started ↦
        if spawn_over now started
        then record app { spawn_started = erase sid app.spawn_started }
        else app
  ]

  unfoldable pub age_asking : (M → M → Bool) → App T M → String → Shown T → M → App T M
  age_asking flash_over app sid agent now = elim (lookup sid app.asking_since) [
    | none ↦ app
    | some since ↦
        if is_asking agent && flash_over now since
        then record app { asking_since = erase sid app.asking_since }
        else app
  ]

  -- The loop over the agents; one without a desk is skipped.
  unfoldable pub draw_agents :
      (M → M → Bool) → (M → M → Bool) → App T M → Dict (Shown T) → M → App T M
  draw_agents spawn_over flash_over app [] now = app
  draw_agents spawn_over flash_over app ((sid, agent) ∷ rest) now =
      let aged = age_asking flash_over (age_spawn spawn_over app sid now) sid agent now in
      draw_agents spawn_over flash_over
        (if is_some (lookup sid app.layout.slot_of_session) then aged else app) rest now

  unfoldable pub draw : (M → M → Bool) → (M → M → Bool) → App T M → M → App T M
  draw spawn_over flash_over app now = draw_agents spawn_over flash_over app app.agents now
