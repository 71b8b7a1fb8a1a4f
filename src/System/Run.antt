-- ===== src/System/Run.antt =====
-- Runs of the daemon's event loop with its frontends, from the cold start.
use silicon_office.Prelude.{
  ℕ, ◌+◌, ◌<◌, String, ◌==◌, ◌≡◌, ◌≢◌, refl, sym, ap, ◌∙◌, Bool, Option, none, some, List, [], ◌∷◌,
  ok, arith, Bool-cases, Option-cases, inl, inr,
}
use silicon_office.Prelude.Dict.{lookup, insert, keys, lookup-nil}
use silicon_office.Schema.{Op, HookEvent, WireAgent}
use silicon_office.Sessions.{World, SessionInfo, list_live_sessions}
use silicon_office.Registry.{Agents}
use silicon_office.Registry.Keyed.{IsKeyed}
use silicon_office.Daemon.{cold_start}
use silicon_office.Daemon.Start.{cold_start_seeded, named_in_unnamed}
use silicon_office.Daemon.Objects
use silicon_office.Daemon.Objects.{Objects, Heap, write, contents}
use silicon_office.Daemon.Grown.{RefsOwned}
use silicon_office.Office.{App, update_ghosts, draw}
use silicon_office.Office.Unchanged.{agents-draw}
use silicon_office.System.{Task, System, Readings, hook, run_task, tick, connect, disconnect, reap}
use silicon_office.System.Shows.{known, shown, seen, status}
use silicon_office.System.Settling.{latest-nil, IsSettling, clear-IsSettling}
use silicon_office.System.Steps.{hook-IsSettling, run_task-IsSettling}
use silicon_office.System.Rounds.{
  disconnect-IsSettling, frame-IsSettling, tick-IsSettling, connect-IsSettling, reap-IsSettling,
}

module _ {T : Type 0} where
  -- The records that `_cold_start` makes, each an object of its own.
  unfoldable pub allocate : Heap T → Agents T → Objects T
  allocate base [] = record { heap = base; fresh = 0; refs = [] }
  allocate base ((sid, r) ∷ rest) =
      let o = allocate base rest in
      record { heap = write o.heap o.fresh r; fresh = o.fresh + 1; refs = (sid, o.fresh) ∷ o.refs }

  pub keys-allocate :
      (base : Heap T) (agents : Agents T) → keys (allocate base agents).refs ≡ keys agents
  unfolding allocate keys
  keys-allocate base [] = refl
  keys-allocate base ((sid, r) ∷ rest) = ap (λ ks. sid ∷ ks) (keys-allocate base rest)

  -- A reference leads to the record that the dict holds.
  lookup-allocate :
      (base : Heap T) (agents : Agents T) (k : String) (p : ℕ)
      → lookup k (allocate base agents).refs ≡ some p
      → (p < (allocate base agents).fresh)
        × (lookup k agents ≡ some ((allocate base agents).heap p))
  unfolding allocate lookup
  lookup-allocate base [] k p h = let impossible : ⊥ = ground arith in absurd impossible
  lookup-allocate base ((sid, r) ∷ rest) k p h = elim (Bool-cases (k == sid)) [
    | inl e ↦ ground arith
    | inr e ↦
        let later : lookup k (allocate base rest).refs ≡ some p = ground arith in
        let (lt, there) = lookup-allocate base rest k p later in
        (omega arith, ground (arith, there, lt))
  ]

  pub allocate-RefsOwned :
      (base : Heap T) (agents : Agents T) → IsKeyed agents → RefsOwned (allocate base agents)
  allocate-RefsOwned base agents v k p h =
      let (lt, there) = lookup-allocate base agents k p h in (lt, v.own_key k _ there)

module _ {T M : Type 0} where
  unfoldable pub start : Heap T → Agents T → System T M
  start base agents = record { objects = allocate base agents; tasks = []; frontends = [] }

  -- What the loop may do next. An event has a session id and is taken in without an exception;
  -- the reaper, which a timer wakes, comes after the tasks that are ready; a frontend that
  -- connects may be in any state; a frame of a frontend lets its ghosts fade and draws.
  pub data Step (order : List String → List String) : System T M → System T M → Type 0 where
    hooked :
        (w : World) (event : HookEvent T) (at : T) (s : System T M) (ref : Option ℕ) (op : Op)
        → event.session_id ≢ ""
        → (Objects.apply_event w s.objects event at).0 ≡ ok (ref, op)
        → Step order s (hook w event at s)
    task_run :
        (ts : T) (reads : Readings M) (s : System T M) → Step order s (run_task order ts reads s)
    reaped :
        (w : World) (ts : T) (reads : Readings M) (s : System T M)
        → s.tasks ≡ []
        → Step order s (reap order w ts reads s)
    ticked : (ts : T) (reads : Readings M) (s : System T M) → Step order s (tick order ts reads s)
    connected :
        (w : String) (app : App T M) (ts : T) (reads : Readings M) (s : System T M)
        → Step order s (connect order w app ts reads s)
    disconnected : (w : String) (s : System T M) → Step order s (disconnect w s)
    framed :
        (w : String) (app : App T M) (expired spawn_over flash_over : M → M → Bool) (now later : M)
        (s : System T M)
        → lookup w s.frontends ≡ some app
        → Step order s (record s {
          frontends =
              insert w
                (draw spawn_over flash_over (update_ghosts order expired app now) later)
                s.frontends;
        })

  pub data Reach (order : List String → List String) : System T M → Type 0 where
    started :
        (base : Heap T) (w : World) (now : T) (infos : List SessionInfo) (agents : Agents T)
        → list_live_sessions w ≡ ok infos
        → cold_start w now ≡ ok agents
        → Reach order (start base agents)
    next : {s s' : System T M} → Reach order s → Step order s s' → Reach order s'

  start-IsSettling :
      (base : Heap T) (agents : Agents T)
      → IsKeyed agents
      → lookup "" agents ≡ none
      → IsSettling status (start base agents)
  unfolding start
  start-IsSettling base agents v named = record {
    promised = λ k t h.
        let impossible : none ≡ some t = sym (latest-nil k) ∙ h in
        let absurdity : ⊥ = cc in absurd absurdity;
    level =
        λ k w app h there. let absurdity : ⊥ = cc (lookup-nil {V = App T M} w) in absurd absurdity;
    refs_owned = allocate-RefsOwned base agents v;
    tasks_named = tt;
    named = elim (Option-cases (lookup "" (allocate base agents).refs)) [
      | inl e ↦ e
      | inr (p, e) ↦
          let (lt, there) = lookup-allocate base agents "" p e in
          let absurdity : ⊥ = cc in absurd absurdity
    ];
    distinct = rw keys-allocate v.distinct;
  }

  module _ (order : List String → List String) where
    Step-IsSettling :
        {s s' : System T M} → Step order s s' → IsSettling status s → IsSettling status s'
    Step-IsSettling (hooked w event at s ref op n h) v = hook-IsSettling w event at s ref op n h v
    Step-IsSettling (task_run ts reads s) v =
        run_task-IsSettling status order ts reads s s.tasks refl v
    Step-IsSettling (reaped w ts reads s idle) v = reap-IsSettling order ts reads s w idle v
    Step-IsSettling (ticked ts reads s) v =
        tick-IsSettling status order ts reads s (clear-IsSettling status status s v)
    Step-IsSettling (connected w app ts reads s) v =
        connect-IsSettling status s v order ts reads w app
    Step-IsSettling (disconnected w s) v = disconnect-IsSettling status s v w
    Step-IsSettling (framed w app expired spawn_over flash_over now later s there) v =
        frame-IsSettling status s v w app _ there
          (agents-draw order expired spawn_over flash_over app now later)

    pub Reach-IsSettling : {s : System T M} → Reach order s → IsSettling status s
    Reach-IsSettling (started base w now infos agents l e) =
        let (v, known_sessions) = cold_start_seeded w now agents infos l e in
        start-IsSettling base agents v (elim (Option-cases (lookup "" agents)) [
          | inl q ↦ q
          | inr (r, q) ↦
              let absurdity : ⊥ = ground (arith, (known_sessions "").0, named_in_unnamed infos) in
              absurd absurdity
        ])
    Reach-IsSettling (next before step) = Step-IsSettling step (Reach-IsSettling before)

    -- The tasks that are waiting run, one after another.
    unfoldable pub run_tasks : List Task → T → Readings M → System T M → System T M
    run_tasks [] ts reads s = s
    run_tasks (t ∷ rest) ts reads s = run_tasks rest ts reads (run_task order ts reads s)

    run_task_lem :
        (ts : T) (reads : Readings M) (s : System T M) (t : Task) (rest : List Task)
        → s.tasks ≡ t ∷ rest
        → ((run_task order ts reads s).tasks ≡ rest)
          × ((run_task order ts reads s).objects ≡ s.objects)
    unfolding run_task
    run_task_lem ts reads s t rest e = rw (e, run_task) (refl, refl)

    pub run_tasks_settled :
        {F : Type 0} (view : WireAgent T → F) (tasks : List Task) (ts : T) (reads : Readings M)
        (s : System T M)
        → s.tasks ≡ tasks
        → IsSettling view s
        → let s' = run_tasks tasks ts reads s in
          IsSettling view s' × (s'.tasks ≡ []) × (s'.objects ≡ s.objects)
    unfolding run_tasks
    run_tasks_settled view [] ts reads s e v = (v, e, refl)
    run_tasks_settled view (t ∷ rest) ts reads s e v =
        let (tasks', same) = run_task_lem ts reads s t rest e in
        let (v', idle, objects) =
          run_tasks_settled view rest ts reads (run_task order ts reads s) tasks'
            (run_task-IsSettling view order ts reads s s.tasks refl v) in
        (v', idle, objects ∙ same)

    pub settled :
        (s : System T M) (ts : T) (reads : Readings M)
        → Reach order s
        → let s' = run_tasks s.tasks ts reads s in
          (s'.tasks ≡ [])
          × (s'.objects ≡ s.objects)
          × ((w : String) (app : App T M) (k : String)
              → lookup w s'.frontends ≡ some app
              → seen status (shown app k) ≡ seen status (known s'.objects k))
    settled s ts reads r =
        let (v, idle, same) =
          run_tasks_settled status s.tasks ts reads s refl (Reach-IsSettling r) in
        (idle, same, λ w app k there. v.level k w app (rw idle (latest-nil k)) there)
