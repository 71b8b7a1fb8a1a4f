-- ===== src/Daemon/Grown.antt =====
-- What an event does to the objects of Daemon.Objects: those of other sessions stay as they are.
use silicon_office.Prelude.{
  Option, ℕ, ◌≤◌, ◌<◌, String, ◌≡◌, ◌≢◌, refl, sym, ◌∙◌, none, some, Distinct, arith, Option-cases,
  Outcome-cases, inl, inr,
}
use silicon_office.Prelude.Dict.{
  lookup, insert, erase, keys, lookup-insert, lookup-erase, insert-Distinct, erase-Distinct,
}
use silicon_office.Schema.{Op, upsert, remove, noop, HookEvent, AgentRecord, state_text}
use silicon_office.Sessions.{World, resolve_identity}
use silicon_office.Registry.Keyed.{session_id-resolve_identity, session_id-apply_event}
use silicon_office.Daemon.Objects.{Objects, write, run_machine, store_object, apply_event}

module _ {T : Type 0} where
  -- What the state machine announces of a record: it changes nothing else but the directory and
  -- the label stack.
  unfoldable pub face : AgentRecord T → String × String × String × T × String × Option String
  unfolding state_text
  face r = (
    r.session_id,
    state_text r.state,
    r.action_label,
    r.state_since,
    r.agent_kind,
    r.parent_session_id,
  )

  abbrev pub Owned : Objects T → String → ℕ → Type 0
  Owned o k p = (p < o.fresh) × ((o.heap p).session_id ≡ k)

  pub record Grows (sid : String) (o o' : Objects T) : Type 0 where
    pub kept : o.fresh ≤ o'.fresh
    pub elsewhere : (q : ℕ) → q < o.fresh → (o.heap q).session_id ≢ sid → o'.heap q ≡ o.heap q
    pub owner : (q : ℕ) → q < o.fresh → (o'.heap q).session_id ≡ (o.heap q).session_id
    pub others : (k : String) → k ≢ sid → lookup k o'.refs ≡ lookup k o.refs
    pub distinct : Distinct (keys o.refs) → Distinct (keys o'.refs)

  Grows-trans : (sid : String) (o p q : Objects T) → Grows sid o p → Grows sid p q → Grows sid o q
  Grows-trans sid o p q g h = record {
    kept = ground (arith, g.kept, h.kept);
    elsewhere = λ x lt differ.
        h.elsewhere x (omega (arith, g.kept)) (λ e. differ (sym (g.owner x lt) ∙ e))
        ∙ g.elsewhere x lt differ;
    owner = λ x lt. h.owner x (omega (arith, g.kept)) ∙ g.owner x lt;
    others = λ k n. h.others k n ∙ g.others k n;
    distinct = λ d. h.distinct (g.distinct d);
  }

  -- A write to an object of the session.
  write-Grows :
      (sid : String) (o : Objects T) (p : ℕ) (r : AgentRecord T)
      → Owned o sid p
      → r.session_id ≡ sid
      → Grows sid o (record o { heap = write o.heap p r })
  write-Grows sid o p r (lt, own) e = record {
    kept = omega arith;
    elsewhere = λ q h differ. ground arith;
    owner = λ q h. ground arith;
    others = λ k n. refl;
    distinct = λ d. d;
  }

  insert-Grows :
      (sid : String) (o : Objects T) (p : ℕ) → Grows sid o (record o { refs = insert sid p o.refs })
  insert-Grows sid o p = record {
    kept = omega arith;
    elsewhere = λ q h differ. refl;
    owner = λ q h. refl;
    others = λ k n. rw lookup-insert (ground arith);
    distinct = insert-Distinct sid p o.refs;
  }

  erase-Grows : (sid : String) (o : Objects T) → Grows sid o (record o { refs = erase sid o.refs })
  erase-Grows sid o = record {
    kept = omega arith;
    elsewhere = λ q h differ. refl;
    owner = λ q h. refl;
    others = λ k n. rw lookup-erase (ground arith);
    distinct = erase-Distinct sid o.refs;
  }

  -- The dict refers to objects of its sessions.
  abbrev pub RefsOwned : Objects T → Type 0
  RefsOwned o = (k : String) (p : ℕ) → lookup k o.refs ≡ some p → Owned o k p

  -- The object that an event is about: it is the session's, and the dict is as before.
  pub machine-Grows :
      (o : Objects T) (event : HookEvent T) (now : T)
      → RefsOwned o
      → let (o', p, op) = run_machine o event now in
        Grows event.session_id o o' × Owned o' event.session_id p × (o'.refs ≡ o.refs)
  unfolding run_machine
  machine-Grows o event now v = elim (Option-cases (lookup event.session_id o.refs)) [
    | inl e ↦
        rw (e, run_machine)
          (
            record {
              kept = omega arith;
              elsewhere = λ q h differ. ground arith;
              owner = λ q h. ground arith;
              others = λ k n. refl;
              distinct = λ d. d;
            },
            (
              omega arith,
              ground (arith, session_id-apply_event none event now (λ r impossible. cc)),
            ),
            refl,
          )
    | inr (p, e) ↦
        let own = v event.session_id p e in
        let named =
          session_id-apply_event (some (o.heap p)) event now (λ r q. ground (arith, own.1)) in
        rw (e, run_machine)
          (write-Grows event.session_id o p _ own named, (own.0, ground (arith, named)), refl)
  ]

  store_object-Grows :
      (w : World) (o : Objects T) (sid : String) (p : ℕ) (op : Op)
      → Owned o sid p
      → Grows sid o (store_object w o sid p op).1
  unfolding store_object
  store_object-Grows w o sid p remove own = erase-Grows sid o
  store_object-Grows w o sid p noop own = record {
    kept = omega arith;
    elsewhere = λ q h differ. refl;
    owner = λ q h. refl;
    others = λ k n. refl;
    distinct = λ d. d;
  }
  store_object-Grows w o sid p upsert own = elim (Outcome-cases (resolve_identity w (o.heap p))) [
    | inl e ↦
        rw (e, store_object)
          (record {
            kept = omega arith;
            elsewhere = λ q h differ. refl;
            owner = λ q h. refl;
            others = λ k n. refl;
            distinct = λ d. d;
          })
    | inr (r, e) ↦
        let named = session_id-resolve_identity w (o.heap p) r e ∙ own.1 in
        rw (e, store_object)
          (Grows-trans sid o (record o { heap = write o.heap p r }) _
            (write-Grows sid o p r own named)
            (insert-Grows sid (record o { heap = write o.heap p r }) p))
  ]

  -- An event leaves the objects and entries of other sessions as they are.
  pub apply_event-Grows :
      (w : World) (o : Objects T) (event : HookEvent T) (now : T)
      → RefsOwned o
      → Grows event.session_id o (apply_event w o event now).1
  unfolding apply_event
  apply_event-Grows w o event now v =
      let (g, own, _) = machine-Grows o event now v in
      let (o', p, op) = run_machine o event now in
      Grows-trans event.session_id o o' _ g (store_object-Grows w o' event.session_id p op own)
