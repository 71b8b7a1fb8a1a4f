-- ===== src/Daemon/Contents.antt =====
-- The registry with objects of Daemon.Objects against the one of Registry, which holds contents.
use silicon_office.Prelude.{
  ℕ, ◌+◌, String, ◌==◌, ==_refl, ◌≡◌, ◌≢◌, refl, sym, ap, subst, ◌∙◌, Option, none, some, [], ◌∷◌,
  Outcome, ok, raised, Distinct, arith, Bool-cases, Option-cases, Outcome-cases, inl, inr,
}
use silicon_office.Prelude.Dict.{
  Dict, lookup, insert, erase, keys, map_values, map_option, contains-keys, lookup-map_values,
  insert-insert,
}
use silicon_office.Schema.{Op, upsert, remove, noop, HookEvent, AgentRecord}
use silicon_office.StateMachine
use silicon_office.Sessions.{World, resolve_identity}
use silicon_office.Registry
use silicon_office.Registry.{Agents, changed_in_place}
use silicon_office.Daemon.Objects.{
  Objects, Heap, write, contents, run_machine, store_object, apply_event,
}
use silicon_office.Daemon.Grown.{RefsOwned}

map_values-insert {ℓ κ} :
    {V : Type ℓ} {W : Type κ} (f : V → W) (k : String) (v : V) (d : Dict V)
    → map_values f (insert k v d) ≡ insert k (f v) (map_values f d)
unfolding map_values insert
map_values-insert f k v [] = refl
map_values-insert f k v ((j, w) ∷ d) = elim (Bool-cases (k == j)) [
  | inl e ↦ rw e refl
  | inr e ↦ rw e (ap (λ r. (j, f w) ∷ r) (map_values-insert f k v d))
]

map_values-erase {ℓ κ} :
    {V : Type ℓ} {W : Type κ} (f : V → W) (k : String) (d : Dict V)
    → map_values f (erase k d) ≡ erase k (map_values f d)
unfolding map_values erase
map_values-erase f k [] = refl
map_values-erase f k ((j, w) ∷ d) = elim (Bool-cases (k == j)) [
  | inl e ↦ rw e (map_values-erase f k d)
  | inr e ↦ rw e (ap (λ r. (j, f w) ∷ r) (map_values-erase f k d))
]

module _ {T : Type 0} where
  -- A write to an object that no entry refers to shows nowhere in the dict.
  contents-write_other :
      (heap : Heap T) (p : ℕ) (r : AgentRecord T) (refs : Dict ℕ)
      → Distinct (keys refs)
      → ((k : String) (q : ℕ) → lookup k refs ≡ some q → q ≢ p)
      → map_values (write heap p r) refs ≡ map_values heap refs
  unfolding map_values lookup keys
  contents-write_other heap p r [] d apart = refl
  contents-write_other heap p r ((j, q) ∷ refs) (fresh, d) apart =
      let here : q ≢ p = apart j q (rw ==_refl refl) in
      let tail =
        contents-write_other heap p r refs d
          (λ k x h. apart k x (ground (arith, contains-keys refs j, h))) in
      ground (arith, tail)

  -- A write to the object of one session shows in its entry alone.
  contents-write :
      (heap : Heap T) (sid : String) (p : ℕ) (r : AgentRecord T) (refs : Dict ℕ)
      → Distinct (keys refs)
      → lookup sid refs ≡ some p
      → ((k : String) (q : ℕ) → lookup k refs ≡ some q → q ≡ p → k ≡ sid)
      → map_values (write heap p r) refs ≡ insert sid r (map_values heap refs)
  unfolding map_values lookup keys insert
  contents-write heap sid p r [] d h apart = let impossible : ⊥ = ground arith in absurd impossible
  contents-write heap sid p r ((j, q) ∷ refs) (fresh, d) h apart = elim (Bool-cases (sid == j)) [
    | inl e ↦
        let other = contents-write_other heap p r refs d (λ k x there same.
          let k_is : k ≡ sid = apart k x (ground (arith, contains-keys refs j, there)) same in
          let impossible : ⊥ = ground (arith, contains-keys refs j, there) in absurd impossible) in
        ground (arith, other)
    | inr e ↦
        let tail =
          contents-write heap sid p r refs d (ground arith)
            (λ k x there same. apart k x (ground (arith, contains-keys refs j, there)) same) in
        let differ : q ≢ p = λ same.
          let j_is : j ≡ sid = apart j q (rw ==_refl refl) same in
          let impossible : ⊥ = ground arith in absurd impossible in
        ground (arith, tail)
  ]

  -- The result, with the contents of the object for the reference to it.
  unfoldable pub dereferenced :
      Heap T → Outcome (Option ℕ × Op) → Outcome (Option (AgentRecord T) × Op)
  dereferenced heap raised = raised
  dereferenced heap (ok (ref, op)) = ok (map_option heap ref, op)

  store_object-contents :
      (w : World) (o : Objects T) (sid : String) (p : ℕ) (op : Op)
      → ((r : AgentRecord T)
          → insert sid r (map_values (write o.heap p r) o.refs) ≡ insert sid r (contents o))
      → let (result, o') = store_object w o sid p op in
        let (result', agents) = Registry.store w (contents o) sid (o.heap p) op in
        (dereferenced o'.heap result ≡ result') × (contents o' ≡ agents)
  unfolding store_object Registry.store dereferenced contents
  store_object-contents w o sid p remove absorbs = (refl, map_values-erase o.heap sid o.refs)
  store_object-contents w o sid p noop absorbs = (refl, refl)
  store_object-contents w o sid p upsert absorbs =
      elim (Outcome-cases (resolve_identity w (o.heap p))) [
        | inl e ↦ rw (e, store_object) (rw (e, Registry.store) (refl, refl))
        | inr (r, e) ↦
            let own : write o.heap p r p ≡ r = ground arith in
            rw (e, store_object)
              (rw (e, Registry.store)
                (
                  ap (λ x. ok (some x, upsert)) own,
                  map_values-insert (write o.heap p r) sid p o.refs
                      ∙ ap (λ x. insert sid x (map_values (write o.heap p r) o.refs)) own
                      ∙ absorbs r,
                ))
      ]

  store_alike :
      (w : World) (o : Objects T) (sid : String) (p : ℕ) (op : Op) (agents : Agents T)
      (r : AgentRecord T)
      → contents o ≡ agents
      → o.heap p ≡ r
      → ((x : AgentRecord T)
          → insert sid x (map_values (write o.heap p x) o.refs) ≡ insert sid x (contents o))
      → let (result, o') = store_object w o sid p op in
        let (result', agents') = Registry.store w agents sid r op in
        (dereferenced o'.heap result ≡ result') × (contents o' ≡ agents')
  store_alike w o sid p op agents r same own absorbs =
      subst
        (λ a.
          (dereferenced (store_object w o sid p op).1.heap (store_object w o sid p op).0
            ≡ (Registry.store w a sid r op).0)
          × (contents (store_object w o sid p op).1 ≡ (Registry.store w a sid r op).1))
        same
        (subst
          (λ x.
            (dereferenced (store_object w o sid p op).1.heap (store_object w o sid p op).0
              ≡ (Registry.store w (contents o) sid x op).0)
            × (contents (store_object w o sid p op).1 ≡ (Registry.store w (contents o) sid x op).1))
          own (store_object-contents w o sid p op absorbs))

  -- Whoever holds references to the records, an event leaves in the dict what it leaves in a dict
  -- that holds the records themselves, and returns the record, or raises, alike: if the entries
  -- refer to objects of their sessions, and no session has two entries.
  pub apply_event-contents :
      (w : World) (o : Objects T) (event : HookEvent T) (now : T)
      → RefsOwned o
      → Distinct (keys o.refs)
      → let (result, o') = apply_event w o event now in
        let (result', agents) = Registry.apply_event w (contents o) event now in
        (dereferenced o'.heap result ≡ result') × (contents o' ≡ agents)
  unfolding apply_event run_machine Registry.apply_event changed_in_place
  apply_event-contents w o event now v d =
      let sid = event.session_id in
      elim (Option-cases (lookup sid o.refs)) [
        | inl e ↦
            let unknown : lookup sid (contents o) ≡ none =
              unfold contents in (lookup-map_values o.heap sid o.refs ∙ rw e refl) in
            let (r, op) = StateMachine.apply_event none event now in
            let made = record o { heap = write o.heap o.fresh r; fresh = o.fresh + 1 } in
            let unseen = λ (heap : Heap T) (x : AgentRecord T).
              contents-write_other heap o.fresh x o.refs d
                (λ k q h. let lt = (v k q h).0 in λ same. omega arith) in
            rw (e, run_machine)
              (rw (unknown, Registry.apply_event)
                (store_alike w made sid o.fresh op (contents o) r
                  (unfold contents in unseen o.heap r) (ground arith)
                  (λ x. unfold contents in ap (insert sid x) (unseen made.heap x))))
        | inr (p, e) ↦
            let there : lookup sid (contents o) ≡ some (o.heap p) =
              unfold contents in (lookup-map_values o.heap sid o.refs ∙ rw e refl) in
            let (r, op) = StateMachine.apply_event (some (o.heap p)) event now in
            let changed = record o { heap = write o.heap p r } in
            let apart = λ (k : String) (q : ℕ) (h : lookup k o.refs ≡ some q) (same : q ≡ p).
              sym (v k q h).1 ∙ ap (λ x. (o.heap x).session_id) same ∙ (v sid p e).1 in
            let one =
              λ (heap : Heap T) (x : AgentRecord T). contents-write heap sid p x o.refs d e apart in
            rw (e, run_machine)
              (rw (there, Registry.apply_event)
                (store_alike w changed sid p op (insert sid r (contents o)) r
                  (unfold contents in one o.heap r) (ground arith)
                  (λ x.
                    unfold contents in
                    (ap (insert sid x) (one changed.heap x)
                      ∙ insert-insert sid x x (map_values changed.heap o.refs)))))
      ]
