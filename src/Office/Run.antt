-- ===== src/Office/Run.antt =====
-- Runs of a daemon with a frontend connected to it: what each does in turn, from the snapshot that
-- the frontend gets on connecting.
use silicon_office.Prelude.{
  String, ◌≡◌, ◌≢◌, refl, sym, ◌∙◌, subst, Bool, Option, none, List, ok, arith,
}
use silicon_office.Prelude.Dict.{lookup}
use silicon_office.Schema.{Op, noop, AgentRecord, HookEvent, make_snapshot_message}
use silicon_office.Sessions.{World}
use silicon_office.Registry
use silicon_office.Registry.{Agents, resolve_pending_identities, reap_dead}
use silicon_office.Registry.Events.{apply_event_other}
use silicon_office.Registry.Keyed.{IsKeyed, apply_event-IsKeyed}
use silicon_office.Registry.Sweeps.{reap_dead_split, reap_dead_twice}
use silicon_office.Daemon.{on_event, reaper_round}
use silicon_office.Office.{
  App, from_daemon, conn_status, handle_message, drain_queue, update_ghosts, sync_layout,
}
use silicon_office.Office.Mirror.{
  Mirrors, queued, settled_round, snapshot-Mirrors, event-Mirrors, round-Mirrors,
}

module _ {T M : Type 0} (order : List String → List String) (expired : M → M → Bool) where
  -- The states of frontend and registry that a run reaches: a snapshot (on connecting, or from the
  -- timer); a hook event that `apply_event` takes in, with a session id and, if it has no effect,
  -- without a directory; a round of the reaper with no identity to resolve; fading ghosts; a
  -- status message.
  -- The frontend has handled what a step sent before the next step begins.
  pub data Reach : App T M → Agents T → Type 0 where
    snapshot_sent :
        (app : App T M) (agents : Agents T) (ts : T) (now : M) (clock : String → M)
        → IsKeyed agents
        → lookup "" agents ≡ none
        → Reach
            (handle_message order app (from_daemon (make_snapshot_message agents ts)) now clock)
            agents
    event_announced :
        (app : App T M) (w : World) (agents : Agents T) (event : HookEvent T) (at ts : T) (now : M)
        (clock : String → M) (o : Option (AgentRecord T)) (op : Op)
        → Reach app agents
        → event.session_id ≢ ""
        → (Registry.apply_event w agents event at).0 ≡ ok (o, op)
        → (op ≡ noop → event.cwd ≡ "")
        → Reach
            (drain_queue order app (queued (on_event w agents (ok event) at ts).1 now clock))
            (on_event w agents (ok event) at ts).0
    reaped :
        (app : App T M) (w : World) (agents : Agents T) (ts : T) (now : M) (clock : String → M)
        → Reach app agents
        → resolve_pending_identities w agents ≡ (ok tt, agents)
        → Reach
            (drain_queue order app (queued (reaper_round w agents ts).1 now clock))
            (reaper_round w agents ts).0
    faded :
        (app : App T M) (agents : Agents T) (now : M)
        → Reach app agents
        → Reach (update_ghosts order expired app now) agents
    status :
        (app : App T M) (agents : Agents T) (up : Bool) (now : M) (clock : String → M)
        → Reach app agents
        → Reach (handle_message order app (conn_status up) now clock) agents

  pub agents-update_ghosts :
      (app : App T M) (now : M) → (update_ghosts order expired app now).agents ≡ app.agents
  unfolding update_ghosts sync_layout
  agents-update_ghosts app now = ground arith

  named_event :
      (w : World) (agents : Agents T) (event : HookEvent T) (at ts : T)
      → event.session_id ≢ ""
      → lookup "" agents ≡ none
      → IsKeyed agents
      → IsKeyed (on_event w agents (ok event) at ts).0
        × (lookup "" (on_event w agents (ok event) at ts).0 ≡ none)
  unfolding on_event
  named_event w agents event at ts h named v = (
    apply_event-IsKeyed w agents event at v,
    apply_event_other w agents event at "" (λ e. h (sym e)) ∙ named,
  )

  named_round :
      (w : World) (agents : Agents T) (ts : T)
      → resolve_pending_identities w agents ≡ (ok tt, agents)
      → lookup "" agents ≡ none
      → IsKeyed agents
      → IsKeyed (reaper_round w agents ts).0 × (lookup "" (reaper_round w agents ts).0 ≡ none)
  named_round w agents ts settled named v =
      subst (λ p. IsKeyed p.0 × (lookup "" p.0 ≡ none)) (settled_round w agents ts settled)
        ((reap_dead_twice w agents v).0, (reap_dead_split w agents "" v.distinct).1 ∙ rw named refl)

  -- In every state that a run in the sense of `Reach` reaches, the frontend shows the registry,
  -- and the registry is keyed by session ids, none of them empty.
  pub Reach-Mirrors :
      (app : App T M) (agents : Agents T)
      → Reach app agents
      → Mirrors app agents × (IsKeyed agents × (lookup "" agents ≡ none))
  unfolding Mirrors handle_message
  Reach-Mirrors _ _ (snapshot_sent app agents ts now clock v named) =
      (snapshot-Mirrors order app agents ts now clock v, (v, named))
  Reach-Mirrors _ _
        (event_announced app w agents event at ts now clock o op before h result quiet) =
      let (m, (v, named)) = Reach-Mirrors app agents before in
      (
        event-Mirrors order app w agents event at ts now clock o op m h result quiet,
        named_event w agents event at ts h named v,
      )
  Reach-Mirrors _ _ (reaped app w agents ts now clock before settled) =
      let (m, (v, named)) = Reach-Mirrors app agents before in
      (
        round-Mirrors order app w agents ts now clock m v named settled,
        named_round w agents ts settled named v,
      )
  Reach-Mirrors _ _ (faded app agents now before) =
      let (m, kept) = Reach-Mirrors app agents before in (λ k. rw agents-update_ghosts (m k), kept)
  Reach-Mirrors _ _ (status app agents up now clock before) =
      let (m, kept) = Reach-Mirrors app agents before in (m, kept)
