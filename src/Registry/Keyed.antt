-- ===== src/Registry/Keyed.antt =====
-- The registry of daemon/registry.py is a dict keyed by session id, whatever events it takes in.
use silicon_office.Prelude.{
  String, ◌≡◌, refl, ◌∙◌, Option, none, some, ok, arith, Distinct, Outcome-cases, inl, inr,
}
use silicon_office.Prelude.Dict.{
  lookup, insert, erase, keys, insert-Distinct, erase-Distinct, lookup-insert, lookup-erase,
}
use silicon_office.Schema.{Op, upsert, remove, noop, HookEvent, AgentRecord}
use silicon_office.StateMachine
use silicon_office.StateMachine.{session_end, new_record, refresh_cwd, transition}
use silicon_office.StateMachine.Steps.{apply_event_frame}
use silicon_office.Sessions.{World, identify, look_up_identity, resolve_identity}
use silicon_office.Registry.{Agents, changed_in_place, store, apply_event, seed}

module _ {T : Type 0} where
  -- Each entry is keyed by the id of its record, and no key stands twice.
  pub record IsKeyed (agents : Agents T) : Type 0 where
    pub own_key : (k : String) (r : AgentRecord T) → lookup k agents ≡ some r → r.session_id ≡ k
    pub distinct : Distinct (keys agents)

  insert-IsKeyed :
      (agents : Agents T) (k : String) (r : AgentRecord T)
      → r.session_id ≡ k
      → IsKeyed agents
      → IsKeyed (insert k r agents)
  insert-IsKeyed agents k r e v = record {
    own_key = λ j s. rw lookup-insert (ground (arith, v.own_key j s));
    distinct = insert-Distinct k r agents v.distinct;
  }

  pub erase-IsKeyed : (agents : Agents T) (k : String) → IsKeyed agents → IsKeyed (erase k agents)
  erase-IsKeyed agents k v = record {
    own_key = λ j s. rw lookup-erase (ground (arith, v.own_key j s));
    distinct = erase-Distinct k agents v.distinct;
  }

  pub session_id-resolve_identity :
      (w : World) (r r' : AgentRecord T)
      → resolve_identity w r ≡ ok r'
      → r'.session_id ≡ r.session_id
  unfolding resolve_identity look_up_identity identify
  session_id-resolve_identity w r r' h = ground arith

  pub session_id-apply_event :
      (o : Option (AgentRecord T)) (event : HookEvent T) (now : T)
      → ((r : AgentRecord T) → o ≡ some r → r.session_id ≡ event.session_id)
      → (StateMachine.apply_event o event now).0.session_id ≡ event.session_id
  unfolding StateMachine.apply_event transition new_record
  session_id-apply_event none event now h = ground arith
  session_id-apply_event (some r) event now h = (apply_event_frame r event now).0 ∙ h r refl

  store-IsKeyed :
      (w : World) (agents : Agents T) (sid : String) (r : AgentRecord T) (op : Op)
      → r.session_id ≡ sid
      → IsKeyed agents
      → IsKeyed (store w agents sid r op).1
  unfolding store
  store-IsKeyed w agents sid r remove e v = erase-IsKeyed agents sid v
  store-IsKeyed w agents sid r noop e v = v
  store-IsKeyed w agents sid r upsert e v = elim (Outcome-cases (resolve_identity w r)) [
    | inl q ↦ rw (q, store) v
    | inr (r', q) ↦
        rw (q, store) (insert-IsKeyed agents sid r' (session_id-resolve_identity w r r' q ∙ e) v)
  ]

  in_place-IsKeyed :
      (agents : Agents T) (sid : String) (o : Option (AgentRecord T)) (r : AgentRecord T)
      → r.session_id ≡ sid
      → IsKeyed agents
      → IsKeyed (changed_in_place agents sid o r)
  unfolding changed_in_place
  in_place-IsKeyed agents sid none r e v = v
  in_place-IsKeyed agents sid (some _) r e v = insert-IsKeyed agents sid r e v

  -- Every event, also one that raises, keeps the registry keyed by session id.
  pub apply_event-IsKeyed :
      (w : World) (agents : Agents T) (event : HookEvent T) (now : T)
      → IsKeyed agents
      → IsKeyed (apply_event w agents event now).1
  unfolding apply_event
  apply_event-IsKeyed w agents event now v =
      let existing = lookup event.session_id agents in
      let (r, op) = StateMachine.apply_event existing event now in
      let named = session_id-apply_event existing event now (v.own_key event.session_id) in
      store-IsKeyed w (changed_in_place agents event.session_id existing r) event.session_id r op
        named (in_place-IsKeyed agents event.session_id existing r named v)

  -- Seeding a record at cold start keeps the registry keyed by session id.
  pub seed-IsKeyed :
      (agents : Agents T) (r : AgentRecord T) → IsKeyed agents → IsKeyed (seed agents r)
  unfolding seed
  seed-IsKeyed agents r v = insert-IsKeyed agents r.session_id r refl v
