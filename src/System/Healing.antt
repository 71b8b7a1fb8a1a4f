-- ===== src/System/Healing.antt =====
-- Runs of System in which events fail: what the next snapshot makes good.
use silicon_office.Prelude.{
  Option, none, String, ◌≡◌, ◌≢◌, refl, sym, ap, ◌∙◌, some, List, [], ◌∷◌, append-nil, raised, ok,
  arith, Outcome, subst,
}
use silicon_office.Prelude.Dict.{Dict, lookup, lookup-nil}
use silicon_office.Schema.{HookEvent, WireAgent}
use silicon_office.Sessions.{World}
use silicon_office.Daemon.Objects
use silicon_office.Daemon.Objects.{resolve_each, reap_objects}
use silicon_office.Daemon.Grown.{apply_event-Grows}
use silicon_office.Daemon.Stored.{apply_event_raised}
use silicon_office.Office.{App}
use silicon_office.System.{
  Task, System, Readings, spawn, hook, run_task, write_all, tick, connect, disconnect, reap,
  end_round, send_removed,
}
use silicon_office.System.Shows.{known, shown, seen, status}
use silicon_office.System.Settling.{latest-nil, IsSettling, clear, clear-IsSettling}
use silicon_office.System.Steps.{RefsOwned-Grows, hook-IsSettling, run_task-IsSettling}
use silicon_office.System.Rounds.{tick-IsSettling, reap-IsSettling}
use silicon_office.System.Run.{
  Step, hooked, task_run, reaped, ticked, connected, disconnected, framed, Reach, Reach-IsSettling,
  run_tasks, run_tasks_settled,
}

abbrev every_field : {T : Type 0} → WireAgent T → WireAgent T
every_field a = a

seen_whole : {T : Type 0} (o : Option (Option (WireAgent T))) → seen every_field o ≡ o
seen_whole none = refl
seen_whole (some none) = refl
seen_whole (some (some a)) = refl

module _ {T M : Type 0} (order : List String → List String) where
  -- The states that a run reaches in which events may also raise, such as while a session file is
  -- broken. The listener catches that.
  pub data Disturbed : System T M → Type 0 where
    undisturbed : (s : System T M) → Reach order s → Disturbed s
    goes_on : (s s' : System T M) → Disturbed s → Step order s s' → Disturbed s'
    failed :
        (w : World) (event : HookEvent T) (at : T) (s : System T M)
        → Disturbed s
        → event.session_id ≢ ""
        → (Objects.apply_event w s.objects event at).0 ≡ raised
        → Disturbed (hook w event at s)

  failed-clear :
      (w : World) (event : HookEvent T) (at : T) (s : System T M)
      → event.session_id ≢ ""
      → (Objects.apply_event w s.objects event at).0 ≡ raised
      → IsSettling status (clear s)
      → IsSettling status (clear (hook w event at s))
  unfolding hook spawn
  failed-clear w event at s n h v =
      let o' = (Objects.apply_event w s.objects event at).1 in
      let sid = event.session_id in
      let g = apply_event-Grows w s.objects event at v.refs_owned in
      let refs = apply_event_raised w s.objects event at v.refs_owned h in
      rw h (
        rw append-nil (record {
          promised = λ k t l. v.promised k t l ∙ sym (ap (lookup k) refs);
          level = λ k u app q there.
              let impossible : ⊥ = cc (lookup-nil {V = App T M} u) in absurd impossible;
          refs_owned = RefsOwned-Grows sid s.objects o' g v.refs_owned (λ q e.
              let (lt, mine) = v.refs_owned sid q (ap (lookup sid) (sym refs) ∙ e) in
              (omega (arith, g.kept), g.owner q lt ∙ mine));
          tasks_named = v.tasks_named;
          named = ap (lookup "") refs ∙ v.named;
          distinct = rw refs v.distinct;
        }))

  run_task-clear :
      (ts : T) (reads : Readings M) (s : System T M) (tasks : List Task)
      → s.tasks ≡ tasks
      → run_task order ts reads (clear s) ≡ clear (run_task order ts reads s)
  unfolding run_task write_all
  run_task-clear ts reads s [] e = rw (e, run_task) refl
  run_task-clear ts reads s (t ∷ rest) e = rw (e, run_task) refl

  send_removed-nil :
      (sids : List String) (ts : T) (reads : Readings M)
      → ◌≡◌ {A = Dict (App T M)} (send_removed order sids ts reads []) []
  unfolding send_removed write_all
  send_removed-nil [] ts reads = refl
  send_removed-nil (sid ∷ sids) ts reads = send_removed-nil sids ts reads

  end_round-clear :
      (w : World) (ts : T) (reads : Readings M) (result : Outcome (Unit {0})) (s : System T M)
      → end_round order w ts reads result (clear s) ≡ clear (end_round order w ts reads result s)
  unfolding end_round
  end_round-clear w ts reads raised s = refl
  end_round-clear w ts reads (ok _) s =
      ap (λ apps. record s { objects = (reap_objects w s.objects).1; frontends = apps })
        (send_removed-nil (reap_objects w s.objects).0 ts reads)

  reap-clear :
      (w : World) (ts : T) (reads : Readings M) (s : System T M)
      → reap order w ts reads (clear s) ≡ clear (reap order w ts reads s)
  unfolding reap
  reap-clear w ts reads s =
      let (result, heap) = resolve_each w s.objects.heap s.objects.refs in
      end_round-clear w ts reads result (record s { objects = record s.objects { heap = heap } })

  -- A step depends on no frontend.
  Step-clear :
      (s s' : System T M)
      → Step order s s'
      → IsSettling status (clear s)
      → IsSettling status (clear s')
  unfolding hook tick connect disconnect
  Step-clear s s' (hooked w event at _ ref op n h) v =
      hook-IsSettling w event at (clear s) ref op n h v
  Step-clear s s' (task_run ts reads _) v =
      subst (IsSettling status) (run_task-clear ts reads s s.tasks refl)
        (run_task-IsSettling status order ts reads (clear s) s.tasks refl v)
  Step-clear s s' (reaped w ts reads _ idle) v =
      subst (IsSettling status) (reap-clear w ts reads s)
        (reap-IsSettling order ts reads (clear s) w idle v)
  Step-clear s s' (ticked ts reads _) v = v
  Step-clear s s' (connected w app ts reads _) v = v
  Step-clear s s' (disconnected w _) v = v
  Step-clear s s' (framed w app expired spawn_over flash_over now later _ there) v = v

  Disturbed-clear : (s : System T M) → Disturbed s → IsSettling status (clear s)
  Disturbed-clear s (undisturbed _ r) = clear-IsSettling status status s (Reach-IsSettling order r)
  Disturbed-clear s (goes_on before _ d step) = Step-clear before s step (Disturbed-clear before d)
  Disturbed-clear s (failed w event at before d n h) =
      failed-clear w event at before n h (Disturbed-clear before d)

  -- Whatever events have raised before: once a snapshot is sent and the tasks that are waiting
  -- have run, every frontend that is connected shows exactly the sessions that the registry holds,
  -- and of each all ten fields of its record. The tasks change nothing in the registry.
  pub healed :
      (s : System T M) (ts ts' : T) (reads reads' : Readings M)
      → Disturbed s
      → let s' = run_tasks order s.tasks ts' reads' (tick order ts reads s) in
        (s'.tasks ≡ [])
        × (s'.objects ≡ s.objects)
        × ((w : String) (app : App T M) (k : String)
            → lookup w s'.frontends ≡ some app
            → shown app k ≡ known s'.objects k)
  unfolding tick
  healed s ts ts' reads reads' d =
      let (v, idle, same) =
        run_tasks_settled order every_field s.tasks ts' reads' (tick order ts reads s) refl (
          tick-IsSettling every_field order ts reads s
            (clear-IsSettling status every_field (clear s) (Disturbed-clear s d))) in
      (
        idle,
        same,
        λ w app k there.
            sym (seen_whole (shown app k))
            ∙ v.level k w app (rw idle (latest-nil k)) there
            ∙ seen_whole (known _ k),
      )
