-- ===== src/Office/Unchanged.antt =====
-- Which parts of a frame of frontend/main.py change the agents that are shown: the messages
-- alone, and by the agents alone.
use silicon_office.Prelude.{
  String, ◌==◌, ◌≡◌, refl, sym, ap, subst, ◌∙◌, Bool, true, false, none, some, is_some, List, [],
  ◌∷◌, arith, Option-cases, Bool-cases, inl, inr, if◌then◌else◌,
}
use silicon_office.Prelude.Dict.{Dict, lookup, insert, erase, keys}
use silicon_office.Schema.{upsert, remove, noop, WireAgent, snapshot, diff}
use silicon_office.Office.{
  App, Shown, Incoming, conn_status, from_daemon, other, sync_layout, upsert_agent, start_despawn,
  upsert_all, despawn_missing, show_snapshot, handle_diff, handle_message, drain_queue,
  update_ghosts, draw, draw_agents, age_spawn, age_asking,
}
use silicon_office.Office.Run.{agents-update_ghosts}

module _ {T M : Type 0} where
  agents-draw_agents :
      (spawn_over flash_over : M → M → Bool) (app : App T M) (agents : Dict (Shown T)) (now : M)
      → (draw_agents spawn_over flash_over app agents now).agents ≡ app.agents
  unfolding draw_agents age_spawn age_asking
  agents-draw_agents spawn_over flash_over app [] now = refl
  agents-draw_agents spawn_over flash_over app ((sid, a) ∷ rest) now =
      let aged = age_asking flash_over (age_spawn spawn_over app sid now) sid a now in
      agents-draw_agents spawn_over flash_over
        (if is_some (lookup sid app.layout.slot_of_session) then aged else app) rest now
      ∙ ground arith

  if_alike :
      (b : Bool) (app app' left left' : App T M)
      → app.agents ≡ app'.agents
      → left.agents ≡ left'.agents
      → (if b then app else left).agents ≡ (if b then app' else left').agents
  if_alike true app app' left left' e f = e
  if_alike false app app' left left' e f = f

  module _ (order : List String → List String) where
    -- Fading and drawing leave the agents.
    pub agents-draw :
        (expired spawn_over flash_over : M → M → Bool) (app : App T M) (now later : M)
        → (draw spawn_over flash_over (update_ghosts order expired app now) later).agents
          ≡ app.agents
    unfolding draw
    agents-draw expired spawn_over flash_over app now later =
        let faded = update_ghosts order expired app now in
        agents-draw_agents spawn_over flash_over faded faded.agents later
        ∙ agents-update_ghosts order expired app now

    -- What two states that show the same agents show after the same steps.
    start_despawn_alike :
        (app app' : App T M) (sid : String) (now : M)
        → app.agents ≡ app'.agents
        → (start_despawn order app sid now).agents ≡ (start_despawn order app' sid now).agents
    unfolding start_despawn sync_layout
    start_despawn_alike app app' sid now e = elim (Option-cases (lookup sid app.agents)) [
      | inl q ↦
          let q' : lookup sid app'.agents ≡ none = ap (lookup sid) (sym e) ∙ q in
          rw (q, start_despawn) (rw (q', start_despawn) e)
      | inr (a, q) ↦
          let q' : lookup sid app'.agents ≡ some a = ap (lookup sid) (sym e) ∙ q in
          rw (q, start_despawn) (rw (q', start_despawn) (ap (erase sid) e))
    ]

    upsert_agent_alike :
        (app app' : App T M) (sid : String) (agent : Shown T) (now : M)
        → app.agents ≡ app'.agents
        → (upsert_agent order app sid agent now).agents
          ≡ (upsert_agent order app' sid agent now).agents
    unfolding upsert_agent sync_layout
    upsert_agent_alike app app' sid agent now e = ap (insert sid agent) e

    upsert_all_alike :
        (app app' : App T M) (agents : Dict (WireAgent T)) (now : M)
        → app.agents ≡ app'.agents
        → (upsert_all order app agents now).agents ≡ (upsert_all order app' agents now).agents
    unfolding upsert_all
    upsert_all_alike app app' [] now e = e
    upsert_all_alike app app' ((sid, a) ∷ rest) now e =
        upsert_all_alike (upsert_agent order app sid (some a) now)
          (upsert_agent order app' sid (some a) now) rest now
          (upsert_agent_alike app app' sid (some a) now e)

    despawn_missing_alike :
        (app app' : App T M) (agents : Dict (WireAgent T)) (sids : List String) (clock : String → M)
        → app.agents ≡ app'.agents
        → (despawn_missing order app agents sids clock).agents
          ≡ (despawn_missing order app' agents sids clock).agents
    unfolding despawn_missing
    despawn_missing_alike app app' agents [] clock e = e
    despawn_missing_alike app app' agents (sid ∷ sids) clock e =
        let gone = is_some (lookup sid agents) in
        let left = start_despawn order app sid (clock sid) in
        let left' = start_despawn order app' sid (clock sid) in
        despawn_missing_alike (if gone then app else left) (if gone then app' else left') agents
          sids clock
          (if_alike gone app app' left left' e (start_despawn_alike app app' sid (clock sid) e))

    handle_message_alike :
        (app app' : App T M) (m : Incoming T) (now : M) (clock : String → M)
        → app.agents ≡ app'.agents
        → (handle_message order app m now clock).agents
          ≡ (handle_message order app' m now clock).agents
    unfolding handle_message show_snapshot handle_diff
    handle_message_alike app app' (conn_status up) now clock e = e
    handle_message_alike app app' (from_daemon (snapshot v ts agents)) now clock e =
        let q = upsert_all_alike app app' agents now e in
        let all = upsert_all order app agents now in
        let all' = upsert_all order app' agents now in
        subst
          (λ ks.
            (despawn_missing order all agents (keys all.agents) clock).agents
            ≡ (despawn_missing order all' agents ks clock).agents)
          (ap keys q) (despawn_missing_alike all all' agents (keys all.agents) clock q)
    handle_message_alike app app' (from_daemon (diff v ts sid upsert agent)) now clock e =
        elim (Bool-cases (sid == "")) [
          | inl q ↦ rw q e
          | inr q ↦ rw q (upsert_agent_alike app app' sid agent now e)
        ]
    handle_message_alike app app' (from_daemon (diff v ts sid remove agent)) now clock e =
        elim (Bool-cases (sid == "")) [
          | inl q ↦ rw q e
          | inr q ↦ rw q (start_despawn_alike app app' sid (clock sid) e)
        ]
    handle_message_alike app app' (from_daemon (diff v ts sid noop agent)) now clock e = e
    handle_message_alike app app' other now clock e = e

    pub drain_queue_alike :
        (app app' : App T M) (queue : List (Incoming T × M × (String → M)))
        → app.agents ≡ app'.agents
        → (drain_queue order app queue).agents ≡ (drain_queue order app' queue).agents
    unfolding drain_queue
    drain_queue_alike app app' [] e = e
    drain_queue_alike app app' ((m, now, clock) ∷ rest) e =
        drain_queue_alike (handle_message order app m now clock)
          (handle_message order app' m now clock) rest (handle_message_alike app app' m now clock e)
