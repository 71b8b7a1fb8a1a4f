-- ===== src/Office/Mirror.antt =====
-- The frontend's view against the daemon's registry: frontend/main.py handling what daemon/main.py
-- and daemon/reaper.py announce.
use silicon_office.Prelude.{
  String, ◌==◌, ==_iff, ◌≡◌, ◌≢◌, refl, sym, ap, subst, ◌∙◌, false, Option, none, some, List, [],
  ◌∷◌, contains, arith, Bool-cases, inl, inr, if◌then◌else◌, ok, ◌↔◌,
}
use silicon_office.Prelude.Dict.{lookup, map_option, map_values, lookup-map_values, keys-map_values}
use silicon_office.Schema.{
  Op, upsert, remove, noop, AgentRecord, HookEvent, Message, to_wire_dict, make_diff_message,
  make_snapshot_message,
}
use silicon_office.StateMachine
use silicon_office.StateMachine.{transition, refresh_cwd}
use silicon_office.Sessions.{World}
use silicon_office.Registry
use silicon_office.Registry.{Agents, store, changed_in_place, resolve_pending_identities, reap_dead}
use silicon_office.Registry.Events.{apply_event_other, returned_is_stored}
use silicon_office.Registry.Keyed.{IsKeyed}
use silicon_office.Registry.Sweeps.{reap_dead_split}
use silicon_office.Daemon.{announce, announce_removed, on_event, finish_round, reaper_round}
use silicon_office.Office.{
  App, Shown, Incoming, from_daemon, handle_diff, handle_message, drain_queue,
}
use silicon_office.Office.Replica.{lookup-upsert_agent, lookup-start_despawn, show_snapshot_agents}

module _ {T : Type 0} where
  -- What a frontend shows of a record.
  abbrev pub shown_record : AgentRecord T → Shown T
  shown_record r = some (to_wire_dict r)

  -- The frontend shows the registry: the same sessions, each with its record as it goes on the
  -- wire.
  unfoldable pub Mirrors : {M : Type 0} → App T M → Agents T → Type 0
  Mirrors app agents =
      (k : String) → lookup k app.agents ≡ map_option shown_record (lookup k agents)

  -- What stands on the queue after the daemon announced these messages, all read at one moment.
  abbrev pub queued :
      {M : Type 0} → List (Message T) → M → (String → M) → List (Incoming T × M × (String → M))
  queued [] now clock = []
  queued (m ∷ ms) now clock = (from_daemon m, now, clock) ∷ queued ms now clock

  noop_unchanged :
      (o : Option (AgentRecord T)) (event : HookEvent T) (now : T)
      → event.cwd ≡ ""
      → (StateMachine.apply_event o event now).1 ≡ noop
      → o ≡ some (StateMachine.apply_event o event now).0
  unfolding StateMachine.apply_event transition refresh_cwd
  noop_unchanged none event now c h = let impossible : ⊥ = ground arith in absurd impossible
  noop_unchanged (some r) event now c h = ground (arith, (==_iff event.cwd "").1 c)

  store_noop :
      (w : World) (agents : Agents T) (sid : String) (r : AgentRecord T) (op : Op)
      (o : Option (AgentRecord T))
      → (store w agents sid r op).0 ≡ ok (o, noop)
      → (op ≡ noop) × (o ≡ some r)
  unfolding store
  store_noop w agents sid r op o h = ground arith

  registry_noop :
      (w : World) (agents : Agents T) (event : HookEvent T) (now : T) (o : Option (AgentRecord T))
      → event.cwd ≡ ""
      → (Registry.apply_event w agents event now).0 ≡ ok (o, noop)
      → lookup event.session_id agents ≡ o
  unfolding Registry.apply_event
  registry_noop w agents event now o c h =
      let existing = lookup event.session_id agents in
      let (r, op) = StateMachine.apply_event existing event now in
      let (is_noop, e) =
        store_noop w (changed_in_place agents event.session_id existing r) event.session_id r op o
          h in
      noop_unchanged existing event now c is_noop ∙ sym e

  pub settled_round :
      (w : World) (agents : Agents T) (ts : T)
      → resolve_pending_identities w agents ≡ (ok tt, agents)
      → ((reap_dead w agents).1, announce_removed (reap_dead w agents).0 ts)
        ≡ reaper_round w agents ts
  unfolding reaper_round finish_round
  settled_round w agents ts settled = sym (ap (finish_round w ts) settled)

  module _ {M : Type 0} (order : List String → List String) where
    -- A snapshot brings any frontend level with the registry.
    pub snapshot-Mirrors :
        (app : App T M) (agents : Agents T) (ts : T) (now : M) (clock : String → M)
        → IsKeyed agents
        → Mirrors
            (handle_message order app (from_daemon (make_snapshot_message agents ts)) now clock)
            agents
    unfolding Mirrors handle_message make_snapshot_message
    snapshot-Mirrors app agents ts now clock v k =
        let wire = map_values to_wire_dict agents in
        show_snapshot_agents order app wire now clock k (rw keys-map_values v.distinct)
        ∙ rw lookup-map_values (ground arith)

    pub handle_upsert :
        (app : App T M) (sid : String) (shown : Shown T) (now : M) (clock : String → M) (k : String)
        → sid ≢ ""
        → lookup k (handle_diff order app sid upsert shown now clock).agents
          ≡ (if k == sid then some shown else lookup k app.agents)
    unfolding handle_diff
    handle_upsert app sid shown now clock k h = elim (Bool-cases (sid == "")) [
      | inl e ↦ absurd (h ((==_iff sid "").0 e))
      | inr e ↦ rw e (lookup-upsert_agent order app sid shown now k)
    ]

    pub handle_remove :
        (app : App T M) (sid : String) (shown : Shown T) (now : M) (clock : String → M) (k : String)
        → sid ≢ ""
        → lookup k (handle_diff order app sid remove shown now clock).agents
          ≡ (if k == sid then none else lookup k app.agents)
    unfolding handle_diff
    handle_remove app sid shown now clock k h = elim (Bool-cases (sid == "")) [
      | inl e ↦ absurd (h ((==_iff sid "").0 e))
      | inr e ↦ rw e (lookup-start_despawn order app sid (clock sid) k)
    ]

    announced :
        (app : App T M) (agents agents' : Agents T) (sid : String) (o : Option (AgentRecord T))
        (op : Op) (ts : T) (now : M) (clock : String → M)
        → sid ≢ ""
        → Mirrors app agents
        → lookup sid agents' ≡ o
        → ((o ≡ none) ↔ (op ≡ remove))
        → (op ≡ noop → lookup sid agents ≡ o)
        → ((k : String) → k ≢ sid → lookup k agents' ≡ lookup k agents)
        → Mirrors (drain_queue order app (queued (announce sid (ok (o, op)) ts) now clock)) agents'
    unfolding Mirrors announce drain_queue handle_message make_diff_message
    announced app agents agents' sid o upsert ts now clock h m stored gone same others k =
        handle_upsert app sid (map_option to_wire_dict o) now clock k h
        ∙ ground (arith, m k, others k)
    announced app agents agents' sid o remove ts now clock h m stored gone same others k =
        handle_remove app sid (map_option to_wire_dict o) now clock k h
        ∙ ground (arith, m k, others k)
    announced app agents agents' sid o noop ts now clock h m stored gone same others k =
        elim (Bool-cases (k == sid)) [
          | inl e ↦
              let own : k ≡ sid = (==_iff k sid).0 e in
              m k
              ∙ ap (map_option shown_record) (
                  ap (λ j. lookup j agents) own
                  ∙ same refl
                  ∙ sym (ap (λ j. lookup j agents') own ∙ stored))
          | inr e ↦
              m k
              ∙ ap (map_option shown_record)
                  (sym (others k (λ q. let e' = (==_iff k sid).1 q in ground arith)))
        ]

    -- A hook event that the registry takes in without an exception keeps a connected frontend
    -- level with it: what it shows afterwards is what the registry then holds. An event without
    -- effect must not carry a directory, since the registry takes that over unannounced.
    pub event-Mirrors :
        (app : App T M) (w : World) (agents : Agents T) (event : HookEvent T) (at ts : T) (now : M)
        (clock : String → M) (o : Option (AgentRecord T)) (op : Op)
        → Mirrors app agents
        → event.session_id ≢ ""
        → (Registry.apply_event w agents event at).0 ≡ ok (o, op)
        → (op ≡ noop → event.cwd ≡ "")
        → let (agents', sent) = on_event w agents (ok event) at ts in
          Mirrors (drain_queue order app (queued sent now clock)) agents'
    unfolding on_event
    event-Mirrors app w agents event at ts now clock o op m h result quiet =
        let (stored, gone) = returned_is_stored w agents event at o op result in
        let kept : op ≡ noop → lookup event.session_id agents ≡ o =
          λ e. registry_noop w agents event at o (quiet e) (result ∙ ground arith) in
        rw result (
          announced app agents _ event.session_id o op ts now clock h m stored gone kept
            (apply_event_other w agents event at))

    drain_removed :
        (app : App T M) (dead : List String) (ts : T) (now : M) (clock : String → M) (k : String)
        → contains dead "" ≡ false
        → lookup k (drain_queue order app (queued (announce_removed dead ts) now clock)).agents
          ≡ (if contains dead k then none else lookup k app.agents)
    unfolding announce_removed drain_queue handle_message make_diff_message
    drain_removed app [] ts now clock k h = refl
    drain_removed app (sid ∷ sids) ts now clock k h =
        let named : sid ≢ "" = λ e.
          let e' = (==_iff "" sid).1 (sym e) in
          let impossible : ⊥ = ground arith in absurd impossible in
        let shown = handle_diff order app sid remove none now clock in
        ground (
          arith,
          drain_removed shown sids ts now clock k (ground arith),
          handle_remove app sid none now clock k named,
        )

    -- A round of the reaper in which no identity was still to be resolved keeps a connected
    -- frontend level with the registry.
    pub round-Mirrors :
        (app : App T M) (w : World) (agents : Agents T) (ts : T) (now : M) (clock : String → M)
        → Mirrors app agents
        → IsKeyed agents
        → lookup "" agents ≡ none
        → resolve_pending_identities w agents ≡ (ok tt, agents)
        → let (left, sent) = reaper_round w agents ts in
          Mirrors (drain_queue order app (queued sent now clock)) left
    unfolding Mirrors
    round-Mirrors app w agents ts now clock m v named settled =
        subst (λ p. Mirrors (drain_queue order app (queued p.1 now clock)) p.0)
          (settled_round w agents ts settled)
          (λ k.
            let (found, left) = reap_dead_split w agents k v.distinct in
            let unnamed = (reap_dead_split w agents "" v.distinct).0 in
            drain_removed app (reap_dead w agents).0 ts now clock k (unnamed ∙ rw named refl)
            ∙ ground (arith, found, left, m k))
