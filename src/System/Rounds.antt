-- ===== src/System/Rounds.antt =====
-- The reaper, the snapshots and the frontends that come and go, in System.
use silicon_office.Prelude.{
  ℕ, String, ◌==◌, ◌≡◌, refl, sym, ap, ◌∙◌, false, Option, none, some, List, [], Outcome, ok,
  raised, Distinct, contains, arith, Bool-cases, Option-cases, inl, inr, if◌then◌else◌,
}
use silicon_office.Prelude.Dict.{
  lookup, insert, keys, lookup-insert, lookup-erase, keys-map_values, lookup-map_values,
}
use silicon_office.Schema.{WireAgent, make_snapshot_message}
use silicon_office.Sessions.{World}
use silicon_office.Registry.{dead_sessions}
use silicon_office.Registry
use silicon_office.Registry.Sweeps.{reap_dead_split}
use silicon_office.Daemon.Objects.{Objects, contents, resolve_each, reap_objects}
use silicon_office.Daemon.Grown.{face, RefsOwned}
use silicon_office.Daemon.Stored.{resolve_each_keeps_face, lookup-pop_each, pop_each-Distinct}
use silicon_office.Office.{App, from_daemon, handle_message}
use silicon_office.System.{System, Readings, tick, connect, disconnect, reap, end_round}
use silicon_office.System.Shows.{
  known, shown, seen, status, lookup-write_all, snapshot_shown, removed_shown,
}
use silicon_office.System.Settling.{latest, latest-nil, IsSettling, clear}
use silicon_office.System.Steps.{quiet-IsSettling, status-face}

module _ {T : Type 0} (w : World) (o : Objects T) where
  unnamed_lives :
      Distinct (keys o.refs) → lookup "" o.refs ≡ none → contains (reap_objects w o).0 "" ≡ false
  unfolding reap_objects contents Registry.reap_dead
  unnamed_lives d named =
      (reap_dead_split w (contents o) "" (rw keys-map_values d)).0
      ∙ rw lookup-map_values (rw named refl)

  known_left :
      {F : Type 0} (view : WireAgent T → F) (k : String) (was : Option (Option (WireAgent T)))
      → seen view was ≡ seen view (known o k)
      → seen view (if contains (reap_objects w o).0 k then none else was)
        ≡ seen view (known (reap_objects w o).1 k)
  unfolding reap_objects known
  known_left view k was e = elim (Bool-cases (contains (reap_objects w o).0 k)) [
    | inl q ↦ rw (q, reap_objects) (rw lookup-pop_each (rw q refl))
    | inr q ↦ rw (q, reap_objects) (rw lookup-pop_each (rw q e))
  ]

  left_owned : RefsOwned o → RefsOwned (reap_objects w o).1
  unfolding reap_objects
  left_owned v k p h = v k p (ground (arith, lookup-pop_each (reap_objects w o).0 o.refs k, h))

  left_named : lookup "" o.refs ≡ none → lookup "" (reap_objects w o).1.refs ≡ none
  unfolding reap_objects
  left_named named = rw lookup-pop_each (ground arith)

  left-Distinct : Distinct (keys o.refs) → Distinct (keys (reap_objects w o).1.refs)
  unfolding reap_objects
  left-Distinct d = pop_each-Distinct (reap_objects w o).0 o.refs d

module _ {T M F : Type 0} (view : WireAgent T → F) (s : System T M) (v : IsSettling view s) where
  pub disconnect-IsSettling : (w : String) → IsSettling view (disconnect w s)
  unfolding disconnect
  disconnect-IsSettling w = record {
    promised = v.promised;
    level = λ k u app h there. elim (Bool-cases (u == w)) [
      | inl e ↦
          let impossible : ⊥ = ground (arith, lookup-erase u w s.frontends) in absurd impossible
      | inr e ↦ v.level k u app h (ground (arith, lookup-erase u w s.frontends))
    ];
    refs_owned = v.refs_owned;
    tasks_named = v.tasks_named;
    named = v.named;
    distinct = v.distinct;
  }

  -- A frontend may take any step that leaves the agents that it shows.
  pub frame-IsSettling :
      (w : String) (before app : App T M)
      → lookup w s.frontends ≡ some before
      → app.agents ≡ before.agents
      → IsSettling view (record s { frontends = insert w app s.frontends })
  unfolding shown
  frame-IsSettling w before app was same = record {
    promised = v.promised;
    level = λ k u x h there. elim (Bool-cases (u == w)) [
      | inl e ↦
          let is_app : app ≡ x = ground (arith, lookup-insert u w app s.frontends) in
          let agents : x.agents ≡ before.agents = ap (λ a. a.agents) (sym is_app) ∙ same in
          rw agents (v.level k w before h was)
      | inr e ↦ v.level k u x h (ground (arith, lookup-insert u w app s.frontends))
    ];
    refs_owned = v.refs_owned;
    tasks_named = v.tasks_named;
    named = v.named;
    distinct = v.distinct;
  }

  module _ (order : List String → List String) (ts : T) (reads : Readings M) where
    pub connect-IsSettling :
        (w : String) (app : App T M) → IsSettling view (connect order w app ts reads s)
    unfolding connect
    connect-IsSettling w app =
        let m = make_snapshot_message (contents s.objects) ts in
        let greeted = handle_message order app (from_daemon m) (reads w).0 (reads w).1 in
        record {
          promised = v.promised;
          level = λ k u x h there. elim (Bool-cases (u == w)) [
            | inl e ↦
                let same : greeted ≡ x = ground (arith, lookup-insert u w greeted s.frontends) in
                ap (seen view) (
                  ap (λ a. shown a k) (sym same)
                  ∙ snapshot_shown order app s.objects ts (reads w).0 (reads w).1 k v.distinct)
            | inr e ↦ v.level k u x h (ground (arith, lookup-insert u w greeted s.frontends))
          ];
          refs_owned = v.refs_owned;
          tasks_named = v.tasks_named;
          named = v.named;
          distinct = v.distinct;
        }

    end_round-IsSettling :
        (w : World) (result : Outcome (Unit {0}))
        → s.tasks ≡ []
        → IsSettling view (end_round order w ts reads result s)
    unfolding end_round
    end_round-IsSettling w raised idle = v
    end_round-IsSettling w (ok _) idle =
        let dead = (reap_objects w s.objects).0 in
        let unnamed = unnamed_lives w s.objects v.distinct v.named in
        record {
          promised = λ k t h.
              let waits : none ≡ some t = sym (latest-nil k) ∙ ap (latest k) (sym idle) ∙ h in
              let impossible : ⊥ = cc in absurd impossible;
          level = λ k u app h there.
              let (before, was, now_shown) =
                removed_shown order dead ts reads s.frontends u app k unnamed there in
              ap (seen view) now_shown
              ∙ known_left w s.objects view k (shown before k) (v.level k u before h was);
          refs_owned = left_owned w s.objects v.refs_owned;
          tasks_named = v.tasks_named;
          named = left_named w s.objects v.named;
          distinct = left-Distinct w s.objects v.distinct;
        }

-- A snapshot levels the frontends, whatever they showed.
pub tick-IsSettling :
    {T M F : Type 0} (view : WireAgent T → F) (order : List String → List String) (ts : T)
    (reads : Readings M) (s : System T M)
    → IsSettling view (clear s)
    → IsSettling view (tick order ts reads s)
unfolding tick
tick-IsSettling view order ts reads s v = record {
  promised = v.promised;
  level = λ k w app h there.
      let m = make_snapshot_message (contents s.objects) ts in
      let handled = sym (lookup-write_all order m reads s.frontends w) ∙ there in
      elim (Option-cases (lookup w s.frontends)) [
        | inl q ↦ let impossible : ⊥ = ground (arith, handled) in absurd impossible
        | inr (before, q) ↦
            let same : handle_message order before (from_daemon m) (reads w).0 (reads w).1 ≡ app =
              ground (arith, handled) in
            ap (seen view) (
              ap (λ a. shown a k) (sym same)
              ∙ snapshot_shown order before s.objects ts (reads w).0 (reads w).1 k v.distinct)
      ];
  refs_owned = v.refs_owned;
  tasks_named = v.tasks_named;
  named = v.named;
  distinct = v.distinct;
}

-- A round of the reaper in which no task is waiting.
pub reap-IsSettling :
    {T M : Type 0} (order : List String → List String) (ts : T) (reads : Readings M)
    (s : System T M) (w : World)
    → s.tasks ≡ []
    → IsSettling status s
    → IsSettling status (reap order w ts reads s)
unfolding reap face
reap-IsSettling order ts reads s w idle v =
    let (result, heap) = resolve_each w s.objects.heap s.objects.refs in
    let o' = record s.objects { heap = heap } in
    let same = resolve_each_keeps_face w s.objects.heap s.objects.refs in
    let named = λ (q : ℕ). ap (λ f. f.0) (same q) in
    let own : RefsOwned o' = λ k p h. let (lt, mine) = v.refs_owned k p h in (lt, named p ∙ mine) in
    let resolved =
      quiet-IsSettling status s o' refl own
        (λ q. status-face (heap q) ∙ same q ∙ sym (status-face (s.objects.heap q))) v in
    end_round-IsSettling status (record s { objects = o' }) resolved order ts reads w result idle
