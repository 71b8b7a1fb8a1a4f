-- ===== src/System/Shows.antt =====
-- What a frontend of System shows of the sessions, against the registry and the tasks.
use silicon_office.Prelude.{
  String, ◌==◌, ==_iff, ◌≡◌, ◌≢◌, refl, sym, ap, ◌∙◌, false, Option, none, some, List, [], ◌∷◌,
  Distinct, contains, arith, Bool-cases, Option-cases, inl, inr, if◌then◌else◌,
}
use silicon_office.Prelude.Dict.{
  Dict, lookup, keys, map_option, map_values, lookup-map_values, keys-map_values,
}
use silicon_office.Schema.{
  remove, AgentRecord, WireAgent, Message, state_text, to_wire_dict, make_diff_message,
  make_snapshot_message,
}
use silicon_office.Daemon.Objects.{Objects, Heap, contents}
use silicon_office.Office.{App, from_daemon, handle_message}
use silicon_office.Office.Replica.{show_snapshot_agents}
use silicon_office.Office.Mirror.{handle_upsert, handle_remove}
use silicon_office.System.{
  Task, send_upsert, send_remove, Readings, message_of, write_all, send_removed,
}

abbrev pub session_of : Task → String
session_of (send_upsert sid ref) = sid
session_of (send_remove sid) = sid

module _ {T : Type 0} where
  -- What a frontend is to know of a record, field by field.
  abbrev pub depicted : AgentRecord T → WireAgent T
  depicted r = record {
    session_id = r.session_id;
    project_name = r.project_name;
    cwd = r.cwd;
    pid = r.pid;
    entrypoint = r.entrypoint;
    state = state_text r.state;
    action_label = r.action_label;
    state_since = r.state_since;
    agent_kind = r.agent_kind;
    parent_session_id = r.parent_session_id;
  }

  -- The fields that only an announced event changes: all but the directory, the pid, the entrypoint
  -- and the project's name.
  abbrev pub status : WireAgent T → String × String × String × T × String × Option String
  status a =
      (a.session_id, a.state, a.action_label, a.state_since, a.agent_kind, a.parent_session_id)

  -- What the registry knows of a session.
  unfoldable pub known : Objects T → String → Option (Option (WireAgent T))
  known o k = map_option (λ p. some (depicted (o.heap p))) (lookup k o.refs)

  -- What a frontend shows of it.
  unfoldable pub shown : {M : Type 0} → App T M → String → Option (Option (WireAgent T))
  shown app k = lookup k app.agents

  -- What a view of the fields tells of it.
  abbrev pub seen :
      {F : Type 0} → (WireAgent T → F) → Option (Option (WireAgent T)) → Option (Option F)
  seen view = map_option (map_option view)

  -- What a task will tell of its session.
  unfoldable pub told : Heap T → Task → Option (Option (WireAgent T))
  told heap (send_upsert sid ref) = some (map_option (λ p. depicted (heap p)) ref)
  told heap (send_remove sid) = none

  wire-depicted : (r : AgentRecord T) → to_wire_dict r ≡ depicted r
  unfolding to_wire_dict
  wire-depicted r = refl

  wire-known :
      (k : String) (o : Objects T)
      → map_option some (map_option to_wire_dict (map_option o.heap (lookup k o.refs))) ≡ known o k
  unfolding known
  wire-known k o = elim (Option-cases (lookup k o.refs)) [
    | inl e ↦ rw e refl
    | inr (p, e) ↦ rw e (ap (λ f. some (some f)) (wire-depicted (o.heap p)))
  ]

  module _ {M : Type 0} (order : List String → List String) where
    pub lookup-write_all :
        (m : Message T) (reads : Readings M) (apps : Dict (App T M)) (w : String)
        → lookup w (write_all order m reads apps)
          ≡ map_option
              (λ app. handle_message order app (from_daemon m) (reads w).0 (reads w).1)
              (lookup w apps)
    unfolding write_all lookup
    lookup-write_all m reads [] w = refl
    lookup-write_all m reads ((v, app) ∷ rest) w = elim (Bool-cases (w == v)) [
      | inl e ↦ ground arith
      | inr e ↦ rw (e, lookup-write_all m reads rest w)
    ]

    removal_shown :
        (app : App T M) (sid : String) (ts : T) (now : M) (clock : String → M) (k : String)
        → sid ≢ ""
        → shown
            (handle_message order app
              (from_daemon (make_diff_message sid remove none ts))
              now
              clock)
            k
          ≡ (if k == sid then none else shown app k)
    unfolding shown make_diff_message handle_message
    removal_shown app sid ts now clock k h =
        handle_remove order app sid none now clock k h ∙ ground arith

    -- A task tells its own session and leaves the others as they are.
    pub task_shown :
        (app : App T M) (heap : Heap T) (t : Task) (ts : T) (now : M) (clock : String → M)
        (k : String)
        → session_of t ≢ ""
        → shown (handle_message order app (from_daemon (message_of heap t ts)) now clock) k
          ≡ (if k == session_of t then told heap t else shown app k)
    unfolding shown told message_of make_diff_message handle_message
    task_shown app heap (send_upsert sid none) ts now clock k h =
        handle_upsert order app sid none now clock k h ∙ ground arith
    task_shown app heap (send_upsert sid (some p)) ts now clock k h =
        handle_upsert order app sid (some (to_wire_dict (heap p))) now clock k h
        ∙ ground (arith, wire-depicted (heap p))
    task_shown app heap (send_remove sid) ts now clock k h = removal_shown app sid ts now clock k h

    -- A snapshot brings a frontend level with the registry.
    pub snapshot_shown :
        (app : App T M) (o : Objects T) (ts : T) (now : M) (clock : String → M) (k : String)
        → Distinct (keys o.refs)
        → shown
            (handle_message order app
              (from_daemon (make_snapshot_message (contents o) ts))
              now
              clock)
            k
          ≡ known o k
    unfolding shown known contents make_snapshot_message handle_message
    snapshot_shown app o ts now clock k d =
        let wire = map_values to_wire_dict (map_values o.heap o.refs) in
        show_snapshot_agents order app wire now clock k (rw keys-map_values (rw keys-map_values d))
        ∙ rw lookup-map_values (rw lookup-map_values (wire-known k o))

    -- The removals that the reaper announces.
    pub removed_shown :
        (dead : List String) (ts : T) (reads : Readings M) (apps : Dict (App T M)) (w : String)
        (app : App T M) (k : String)
        → contains dead "" ≡ false
        → lookup w (send_removed order dead ts reads apps) ≡ some app
        → (before : App T M) × (lookup w apps ≡ some before)
          × (shown app k ≡ (if contains dead k then none else shown before k))
    unfolding send_removed
    removed_shown [] ts reads apps w app k h e = (app, e, refl)
    removed_shown (sid ∷ sids) ts reads apps w app k h e =
        let named : sid ≢ "" = λ q.
          let q' = (==_iff "" sid).1 (sym q) in
          let impossible : ⊥ = ground arith in absurd impossible in
        let m = make_diff_message sid remove none ts in
        let (mid, there, told_rest) =
          removed_shown sids ts reads (write_all order m reads apps) w app k (ground arith) e in
        let handled = sym (lookup-write_all m reads apps w) ∙ there in
        elim (Option-cases (lookup w apps)) [
          | inl q ↦ let impossible : ⊥ = ground (arith, handled) in absurd impossible
          | inr (before, q) ↦
              let one = removal_shown before sid ts (reads w).0 (reads w).1 k named in
              let same : handle_message order before (from_daemon m) (reads w).0 (reads w).1 ≡ mid =
                ground (arith, handled) in
              (before, q, told_rest ∙ ground (arith, one, ap (λ a. shown a k) same))
        ]
