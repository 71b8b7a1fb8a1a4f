-- ===== src/Registry/Events.antt =====
-- `apply_event` of daemon/registry.py, as the other sessions and the later reads see it.
use silicon_office.Prelude.{
  String, ◌≡◌, refl, ◌∙◌, ◌≢◌, Option, none, some, ok, arith, Outcome-cases, inl, inr, ◌↔◌, ==_iff,
}
use silicon_office.Prelude.Dict.{lookup, lookup-insert, lookup-erase}
use silicon_office.Schema.{Op, upsert, remove, noop, HookEvent, AgentRecord}
use silicon_office.StateMachine
use silicon_office.StateMachine.{session_end, new_record, refresh_cwd, transition}
use silicon_office.Sessions.{World, resolve_identity}
use silicon_office.Registry.{Agents, changed_in_place, store, apply_event}

module _ {T : Type 0} where
  in_place_other :
      (agents : Agents T) (sid : String) (o : Option (AgentRecord T)) (r : AgentRecord T)
      (k : String)
      → k ≢ sid
      → lookup k (changed_in_place agents sid o r) ≡ lookup k agents
  unfolding changed_in_place
  in_place_other agents sid none r k h = refl
  in_place_other agents sid (some _) r k h = rw lookup-insert (ground arith)

  store_other :
      (w : World) (agents : Agents T) (sid : String) (r : AgentRecord T) (op : Op) (k : String)
      → k ≢ sid
      → lookup k (store w agents sid r op).1 ≡ lookup k agents
  unfolding store
  store_other w agents sid r remove k h = rw lookup-erase (ground arith)
  store_other w agents sid r noop k h = refl
  store_other w agents sid r upsert k h = elim (Outcome-cases (resolve_identity w r)) [
    | inl e ↦ rw (e, store)
    | inr (r', e) ↦ rw (e, store) (rw lookup-insert (ground arith))
  ]

  -- An event changes the entry of its own session alone, also if it raises.
  pub apply_event_other :
      (w : World) (agents : Agents T) (event : HookEvent T) (now : T) (k : String)
      → k ≢ event.session_id
      → lookup k (apply_event w agents event now).1 ≡ lookup k agents
  unfolding apply_event
  apply_event_other w agents event now k h =
      let existing = lookup event.session_id agents in
      let (r, op) = StateMachine.apply_event existing event now in
      store_other w (changed_in_place agents event.session_id existing r) event.session_id r op k h
      ∙ in_place_other agents event.session_id existing r k h

  in_place_own :
      (agents : Agents T) (event : HookEvent T) (now : T) (o : Option (AgentRecord T))
      → (StateMachine.apply_event o event now).1 ≡ noop
      → lookup event.session_id
          (changed_in_place agents event.session_id o (StateMachine.apply_event o event now).0)
        ≡ some (StateMachine.apply_event o event now).0
  unfolding changed_in_place StateMachine.apply_event transition
  in_place_own agents event now none h = let impossible : ⊥ = ground arith in absurd impossible
  in_place_own agents event now (some r) h = rw (lookup-insert, (==_iff _ _).1 refl)

  store_result :
      (w : World) (agents : Agents T) (sid : String) (r : AgentRecord T) (op : Op)
      (o : Option (AgentRecord T)) (op' : Op)
      → (op ≡ noop → lookup sid agents ≡ some r)
      → (store w agents sid r op).0 ≡ ok (o, op')
      → (lookup sid (store w agents sid r op).1 ≡ o) × ((o ≡ none) ↔ (op' ≡ remove))
  unfolding store
  store_result w agents sid r remove o op' k h =
      rw (lookup-erase, (==_iff sid sid).1 refl) (ground arith)
  store_result w agents sid r noop o op' k h = rw (k refl) (ground arith)
  store_result w agents sid r upsert o op' k h = elim (Outcome-cases (resolve_identity w r)) [
    | inl e ↦ let impossible : ⊥ = ground arith in absurd impossible
    | inr (r', e) ↦ rw (e, store) (rw (lookup-insert, (==_iff sid sid).1 refl) (ground arith))
  ]

  -- What `apply_event` hands to the broadcaster is what the registry then holds: the record that
  -- is returned is stored under the session, and where none is returned the op is "remove" and
  -- the session is gone.
  pub returned_is_stored :
      (w : World) (agents : Agents T) (event : HookEvent T) (now : T) (o : Option (AgentRecord T))
      (op : Op)
      → (apply_event w agents event now).0 ≡ ok (o, op)
      → (lookup event.session_id (apply_event w agents event now).1 ≡ o)
        × ((o ≡ none) ↔ (op ≡ remove))
  unfolding apply_event
  returned_is_stored w agents event now o op h =
      let existing = lookup event.session_id agents in
      let (r, op') = StateMachine.apply_event existing event now in
      store_result w (changed_in_place agents event.session_id existing r) event.session_id r op' o
        op (in_place_own agents event now existing) h
