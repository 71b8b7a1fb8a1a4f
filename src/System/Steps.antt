-- ===== src/System/Steps.antt =====
-- Every step of System keeps what holds between the steps.
use silicon_office.Prelude.{
  ℕ, String, ◌==◌, ==_iff, ◌≡◌, ◌≢◌, refl, sym, ap, subst, ◌∙◌, Option, some, List, [], ◌∷◌, ◌++◌,
  append-nil, ok, All, All-append, arith, Bool-cases, Option-cases, inl, inr, if◌then◌else◌,
}
use silicon_office.Prelude.Dict.{lookup}
use silicon_office.Schema.{Op, upsert, remove, noop, HookEvent, AgentRecord, WireAgent}
use silicon_office.Sessions.{World}
use silicon_office.Daemon.Objects
use silicon_office.Daemon.Objects.{Objects, Heap, contents, resolve_each, reap_objects}
use silicon_office.Daemon.Grown.{face, Owned, RefsOwned, Grows, apply_event-Grows}
use silicon_office.Daemon.Stored.{apply_event_upsert, apply_event_remove, apply_event_noop}
use silicon_office.Office.{App, from_daemon, handle_message}
use silicon_office.System.{
  Task, send_upsert, send_remove, System, Readings, spawn, message_of, write_all, hook, run_task,
}
use silicon_office.System.Shows.{
  known, shown, seen, depicted, status, told, session_of, lookup-write_all, task_shown,
}
use silicon_office.System.Settling.{
  latest, later, first, neither, latest-append, IsSettling, IsNamed, session_of-IsNamed, refers,
  told-known, known_elsewhere,
}

module _ {T : Type 0} where
  pub RefsOwned-Grows :
      (sid : String) (o o' : Objects T)
      → Grows sid o o'
      → RefsOwned o
      → ((p : ℕ) → lookup sid o'.refs ≡ some p → Owned o' sid p)
      → RefsOwned o'
  RefsOwned-Grows sid o o' g v own k p h = elim (Bool-cases (k == sid)) [
    | inl e ↦
        let same : k ≡ sid = (==_iff k sid).0 e in
        let (lt, q) = own p (ap (λ j. lookup j o'.refs) (sym same) ∙ h) in (lt, q ∙ sym same)
    | inr e ↦
        let n : k ≢ sid = λ q. let e' = (==_iff k sid).1 q in ground arith in
        let (lt, q) = v k p (sym (g.others k n) ∙ h) in (omega (arith, g.kept), g.owner p lt ∙ q)
  ]

  known_quiet :
      {F : Type 0} (view : WireAgent T → F) (o o' : Objects T) (k : String)
      → o.refs ≡ o'.refs
      → ((q : ℕ) → view (depicted (o.heap q)) ≡ view (depicted (o'.heap q)))
      → seen view (known o k) ≡ seen view (known o' k)
  unfolding known
  known_quiet view o o' k refs same = rw refs (elim (Option-cases (lookup k o'.refs)) [
    | inl e ↦ rw e refl
    | inr (p, e) ↦ rw e (ap (λ f. some (some f)) (same p))
  ])

  pub status-face : (r : AgentRecord T) → status (depicted r) ≡ face r
  unfolding face
  status-face r = refl

module _ {T M F : Type 0} (view : WireAgent T → F) where
  -- An event about a session, with the task that it leaves.
  announced-IsSettling :
      (s : System T M) (o' : Objects T) (t : Task)
      → let sid = session_of t in
        Grows sid s.objects o'
        → ((p : ℕ) → lookup sid o'.refs ≡ some p → Owned o' sid p)
        → IsNamed t
        → refers t ≡ lookup sid o'.refs
        → IsSettling view s
        → IsSettling view (record s { objects = o'; tasks = s.tasks ++ t ∷ [] })
  announced-IsSettling s o' t g own mine promise v =
      let sid = session_of t in
      record {
        promised = λ k u h. elim (Bool-cases (k == sid)) [
          | inl e ↦
              let same : t ≡ u = ground (arith, latest-append k s.tasks t) in
              let here : k ≡ sid = (==_iff k sid).0 e in
              ap refers (sym same) ∙ promise ∙ ap (λ j. lookup j o'.refs) (sym here)
          | inr e ↦
              let there : latest k s.tasks ≡ some u = ground (arith, latest-append k s.tasks t) in
              let differ : k ≢ sid = λ q. let e' = (==_iff k sid).1 q in ground arith in
              v.promised k u there ∙ sym (g.others k differ)
        ];
        level = λ k w app h there. elim (Bool-cases (k == sid)) [
          | inl e ↦
              let impossible : ⊥ = ground (arith, latest-append k s.tasks t) in absurd impossible
          | inr e ↦
              let differ : k ≢ sid = λ q. let e' = (==_iff k sid).1 q in ground arith in
              v.level k w app (ground (arith, latest-append k s.tasks t)) there
              ∙ sym (ap (seen view) (known_elsewhere sid k s.objects o' g v.refs_owned differ))
        ];
        refs_owned = RefsOwned-Grows sid s.objects o' g v.refs_owned own;
        tasks_named = All-append IsNamed s.tasks (t ∷ []) v.tasks_named (mine, tt);
        named = g.others "" (λ q. session_of-IsNamed t mine (sym q)) ∙ v.named;
        distinct = g.distinct v.distinct;
      }

  -- Objects that change in what is not announced.
  pub quiet-IsSettling :
      (s : System T M) (o' : Objects T)
      → o'.refs ≡ s.objects.refs
      → RefsOwned o'
      → ((q : ℕ) → view (depicted (o'.heap q)) ≡ view (depicted (s.objects.heap q)))
      → IsSettling view s
      → IsSettling view (record s { objects = o' })
  quiet-IsSettling s o' refs own same v = record {
    promised = λ k t h. v.promised k t h ∙ sym (ap (lookup k) refs);
    level = λ k w app h there.
        v.level k w app h there ∙ sym (known_quiet view o' s.objects k refs same);
    refs_owned = own;
    tasks_named = v.tasks_named;
    named = ap (lookup "") refs ∙ v.named;
    distinct = rw refs v.distinct;
  }

  module _ (order : List String → List String) where
    delivered :
        (s : System T M) (t : Task) (ts : T) (reads : Readings M) (w k : String) (app : App T M)
        → session_of t ≢ ""
        → lookup w (write_all order (message_of s.objects.heap t ts) reads s.frontends) ≡ some app
        → (before : App T M) × (lookup w s.frontends ≡ some before)
          × (shown app k ≡ (if k == session_of t then told s.objects.heap t else shown before k))
    delivered s t ts reads w k app n e =
        let m = message_of s.objects.heap t ts in
        let handled = sym (lookup-write_all order m reads s.frontends w) ∙ e in
        elim (Option-cases (lookup w s.frontends)) [
          | inl q ↦ let impossible : ⊥ = ground (arith, handled) in absurd impossible
          | inr (before, q) ↦
              let one = task_shown order before s.objects.heap t ts (reads w).0 (reads w).1 k n in
              let same : handle_message order before (from_daemon m) (reads w).0 (reads w).1 ≡ app =
                ground (arith, handled) in
              (before, q, ap (λ a. shown a k) (sym same) ∙ one)
        ]

    pub run_task-IsSettling :
        (ts : T) (reads : Readings M) (s : System T M) (tasks : List Task)
        → s.tasks ≡ tasks
        → IsSettling view s
        → IsSettling view (run_task order ts reads s)
    unfolding run_task
    run_task-IsSettling ts reads s [] e v = rw (e, run_task) v
    run_task-IsSettling ts reads s (t ∷ rest) e v =
        let all : All IsNamed (t ∷ rest) = subst (All IsNamed) e v.tasks_named in
        let (mine, others) = all in
        rw (e, run_task)
          (record {
            promised = λ k u h. v.promised k u (ap (latest k) e ∙ later k t rest u h);
            level = λ k w app h there.
                let (before, was, now_shown) =
                  delivered s t ts reads w k app (session_of-IsNamed t mine) there in
                elim (Bool-cases (k == session_of t)) [
                  | inl q ↦
                      ap (seen view) now_shown
                      ∙ rw q (
                          ap (seen view) (
                            told-known s.objects k t mine
                              (v.promised k t (ap (latest k) e ∙ first k t rest h q))))
                  | inr q ↦
                      ap (seen view) now_shown
                      ∙ rw q (v.level k w before (ap (latest k) e ∙ neither k t rest h q) was)
                ];
            refs_owned = v.refs_owned;
            tasks_named = others;
            named = v.named;
            distinct = v.distinct;
          })

module _ {T M : Type 0} where
  pub hook-IsSettling :
      (w : World) (event : HookEvent T) (at : T) (s : System T M) (ref : Option ℕ) (op : Op)
      → event.session_id ≢ ""
      → (Objects.apply_event w s.objects event at).0 ≡ ok (ref, op)
      → IsSettling status s
      → IsSettling status (hook w event at s)
  unfolding hook spawn
  hook-IsSettling w event at s ref upsert n h v =
      let o' = (Objects.apply_event w s.objects event at).1 in
      let sid = event.session_id in
      let g = apply_event-Grows w s.objects event at v.refs_owned in
      let (p, same, there, own) = apply_event_upsert w s.objects event at ref v.refs_owned h in
      rw (h ∙ ap (λ x. ok (x, upsert)) same) (
        announced-IsSettling status s o' (send_upsert sid (some p)) g
          (λ q e. let here : p ≡ q = ground arith in subst (Owned o' sid) here own) n (sym there) v)
  hook-IsSettling w event at s ref remove n h v =
      let o' = (Objects.apply_event w s.objects event at).1 in
      let sid = event.session_id in
      let g = apply_event-Grows w s.objects event at v.refs_owned in
      let gone = apply_event_remove w s.objects event at ref h in
      rw h (
        announced-IsSettling status s o' (send_remove sid) g
          (λ q e. let impossible : ⊥ = ground arith in absurd impossible) n (sym gone) v)
  hook-IsSettling w event at s ref noop n h v =
      let o' = (Objects.apply_event w s.objects event at).1 in
      let g = apply_event-Grows w s.objects event at v.refs_owned in
      let (refs, same) = apply_event_noop w s.objects event at ref v.refs_owned h in
      let own = RefsOwned-Grows event.session_id s.objects o' g v.refs_owned (λ q e.
        let (lt, named) =
          v.refs_owned event.session_id q (ap (lookup event.session_id) (sym refs) ∙ e) in
        (omega (arith, g.kept), g.owner q lt ∙ named)) in
      rw h (
        rw append-nil (
          quiet-IsSettling status s o' refs own
            (λ q. status-face (o'.heap q) ∙ same q ∙ sym (status-face (s.objects.heap q))) v))
