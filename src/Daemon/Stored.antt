-- ===== src/Daemon/Stored.antt =====
-- What an event leaves in the dict of Daemon.Objects, by its op, and what the sweeps of
-- daemon/registry.py leave of the objects.
use silicon_office.Prelude.{
  ℕ, String, ◌≡◌, ◌≢◌, refl, ◌∙◌, Option, none, some, List, [], ◌∷◌, contains, ok, raised, Distinct,
  arith, Option-cases, Outcome-cases, inl, inr, if◌then◌else◌,
}
use silicon_office.Prelude.Dict.{
  Dict, lookup, erase, keys, lookup-insert, lookup-erase, erase-Distinct,
}
use silicon_office.Schema.{Op, upsert, remove, noop, HookEvent, AgentRecord}
use silicon_office.StateMachine
use silicon_office.StateMachine.{transition, refresh_cwd}
use silicon_office.Sessions.{World, resolve_identity, look_up_identity, identify}
use silicon_office.Registry.Keyed.{session_id-resolve_identity}
use silicon_office.Daemon.Objects.{
  Objects, Heap, write, run_machine, store_object, apply_event, resolve_each, pop_each,
}
use silicon_office.Daemon.Grown.{face, Owned, RefsOwned, machine-Grows}

module _ {T : Type 0} where
  stored_upsert :
      (w : World) (o : Objects T) (sid : String) (p : ℕ) (op : Op) (ref : Option ℕ)
      → Owned o sid p
      → (store_object w o sid p op).0 ≡ ok (ref, upsert)
      → (ref ≡ some p)
        × (lookup sid (store_object w o sid p op).1.refs ≡ some p)
        × Owned (store_object w o sid p op).1 sid p
  unfolding store_object
  stored_upsert w o sid p remove ref own h = let impossible : ⊥ = ground arith in absurd impossible
  stored_upsert w o sid p noop ref own h = let impossible : ⊥ = ground arith in absurd impossible
  stored_upsert w o sid p upsert ref own h = elim (Outcome-cases (resolve_identity w (o.heap p))) [
    | inl e ↦ let impossible : ⊥ = ground arith in absurd impossible
    | inr (r, e) ↦
        let named = session_id-resolve_identity w (o.heap p) r e ∙ own.1 in
        let same : ref ≡ some p = ground arith in
        rw (e, store_object) (same, rw lookup-insert (ground arith), (own.0, ground (arith, named)))
  ]

  stored_remove :
      (w : World) (o : Objects T) (sid : String) (p : ℕ) (op : Op) (ref : Option ℕ)
      → (store_object w o sid p op).0 ≡ ok (ref, remove)
      → lookup sid (store_object w o sid p op).1.refs ≡ none
  unfolding store_object
  stored_remove w o sid p remove ref h = rw lookup-erase (ground arith)
  stored_remove w o sid p noop ref h = let impossible : ⊥ = ground arith in absurd impossible
  stored_remove w o sid p upsert ref h = let impossible : ⊥ = ground arith in absurd impossible

  stored_noop :
      (w : World) (o : Objects T) (sid : String) (p : ℕ) (op : Op) (ref : Option ℕ)
      → (store_object w o sid p op).0 ≡ ok (ref, noop)
      → (op ≡ noop) × ((store_object w o sid p op).1 ≡ o)
  unfolding store_object
  stored_noop w o sid p remove ref h = let impossible : ⊥ = ground arith in absurd impossible
  stored_noop w o sid p noop ref h = (refl, refl)
  stored_noop w o sid p upsert ref h = let impossible : ⊥ = ground arith in absurd impossible

  noop_keeps_face :
      (r : AgentRecord T) (event : HookEvent T) (now : T)
      → (StateMachine.apply_event (some r) event now).1 ≡ noop
      → face (StateMachine.apply_event (some r) event now).0 ≡ face r
  unfolding StateMachine.apply_event transition refresh_cwd face
  noop_keeps_face r event now h = ground arith

  new_is_announced :
      (event : HookEvent T) (now : T) → (StateMachine.apply_event none event now).1 ≢ noop
  unfolding StateMachine.apply_event transition
  new_is_announced event now = λ h. ground arith

  machine_noop :
      (o : Objects T) (event : HookEvent T) (now : T)
      → (run_machine o event now).2 ≡ noop
      → (q : ℕ) → face ((run_machine o event now).0.heap q) ≡ face (o.heap q)
  unfolding run_machine
  machine_noop o event now h q = elim (Option-cases (lookup event.session_id o.refs)) [
    | inl e ↦ absurd (new_is_announced event now (rw (e, run_machine) at h))
    | inr (p, e) ↦
        let quiet = noop_keeps_face (o.heap p) event now (rw (e, run_machine) at h) in
        rw (e, run_machine) (ground (arith, quiet))
  ]

  -- After "upsert" the dict refers to the object that is handed on.
  pub apply_event_upsert :
      (w : World) (o : Objects T) (event : HookEvent T) (now : T) (ref : Option ℕ)
      → RefsOwned o
      → (apply_event w o event now).0 ≡ ok (ref, upsert)
      → let o' = (apply_event w o event now).1 in
        (p : ℕ) × (ref ≡ some p)
        × (lookup event.session_id o'.refs ≡ some p)
        × Owned o' event.session_id p
  unfolding apply_event
  apply_event_upsert w o event now ref v h =
      let (g, own, _) = machine-Grows o event now v in
      let (o', p, op) = run_machine o event now in
      let (same, there, owned) = stored_upsert w o' event.session_id p op ref own h in
      (p, same, there, owned)

  pub apply_event_remove :
      (w : World) (o : Objects T) (event : HookEvent T) (now : T) (ref : Option ℕ)
      → (apply_event w o event now).0 ≡ ok (ref, remove)
      → lookup event.session_id (apply_event w o event now).1.refs ≡ none
  unfolding apply_event
  apply_event_remove w o event now ref h =
      let (o', p, op) = run_machine o event now in stored_remove w o' event.session_id p op ref h

  stored_raised :
      (w : World) (o : Objects T) (sid : String) (p : ℕ) (op : Op)
      → (store_object w o sid p op).0 ≡ raised
      → (store_object w o sid p op).1 ≡ o
  unfolding store_object
  stored_raised w o sid p remove h = let impossible : ⊥ = ground arith in absurd impossible
  stored_raised w o sid p noop h = refl
  stored_raised w o sid p upsert h = elim (Outcome-cases (resolve_identity w (o.heap p))) [
    | inl e ↦ rw (e, store_object) refl
    | inr (r, e) ↦ let impossible : ⊥ = ground arith in absurd impossible
  ]

  -- An event that raises leaves the dict, though perhaps not the record.
  pub apply_event_raised :
      (w : World) (o : Objects T) (event : HookEvent T) (now : T)
      → RefsOwned o
      → (apply_event w o event now).0 ≡ raised
      → (apply_event w o event now).1.refs ≡ o.refs
  unfolding apply_event
  apply_event_raised w o event now v h =
      let (g, own, refs) = machine-Grows o event now v in
      let (o', p, op) = run_machine o event now in
      rw (stored_raised w o' event.session_id p op h) refs

  -- "noop" changes nothing that is announced.
  pub apply_event_noop :
      (w : World) (o : Objects T) (event : HookEvent T) (now : T) (ref : Option ℕ)
      → RefsOwned o
      → (apply_event w o event now).0 ≡ ok (ref, noop)
      → let o' = (apply_event w o event now).1 in
        (o'.refs ≡ o.refs) × ((q : ℕ) → face (o'.heap q) ≡ face (o.heap q))
  unfolding apply_event
  apply_event_noop w o event now ref v h =
      let (g, own, refs) = machine-Grows o event now v in
      let (o', p, op) = run_machine o event now in
      let (quiet, same) = stored_noop w o' event.session_id p op ref h in
      rw same (refs, machine_noop o event now quiet)

  resolve_keeps_face :
      (w : World) (r r' : AgentRecord T) → resolve_identity w r ≡ ok r' → face r' ≡ face r
  unfolding resolve_identity look_up_identity identify face
  resolve_keeps_face w r r' h = ground arith

  -- Resolving identities changes nothing that is announced.
  pub resolve_each_keeps_face :
      (w : World) (heap : Heap T) (refs : Dict ℕ) (q : ℕ)
      → face ((resolve_each w heap refs).1 q) ≡ face (heap q)
  unfolding resolve_each
  resolve_each_keeps_face w heap [] q = refl
  resolve_each_keeps_face w heap ((sid, p) ∷ rest) q =
      elim (Outcome-cases (resolve_identity w (heap p))) [
        | inl e ↦ rw (e, resolve_each) refl
        | inr (r, e) ↦
            rw (e, resolve_each)
              (resolve_each_keeps_face w (write heap p r) rest q
                ∙ ground (arith, resolve_keeps_face w (heap p) r e))
      ]

pub lookup-pop_each :
    (sids : List String) (refs : Dict ℕ) (k : String)
    → lookup k (pop_each sids refs) ≡ (if contains sids k then none else lookup k refs)
unfolding pop_each
lookup-pop_each [] refs k = refl
lookup-pop_each (sid ∷ sids) refs k =
    ground (arith, lookup-pop_each sids (erase sid refs) k, lookup-erase k sid refs)

pub pop_each-Distinct :
    (sids : List String) (refs : Dict ℕ)
    → Distinct (keys refs)
    → Distinct (keys (pop_each sids refs))
unfolding pop_each
pop_each-Distinct [] refs d = d
pop_each-Distinct (sid ∷ sids) refs d =
    pop_each-Distinct sids (erase sid refs) (erase-Distinct sid refs d)
