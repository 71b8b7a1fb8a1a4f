-- ===== src/FakeSession/Shows.antt =====
-- What the daemon announces for the events whose effect on the state is the same in every state.
use silicon_office.Prelude.{
  String, ==_refl, ◌≡◌, refl, ap, ◌∙◌, false, Option, none, some, List, [], ◌∷◌, ◌++◌, ok, arith,
}
use silicon_office.Prelude.Dict.{lookup, lookup-erase}
use silicon_office.Schema.{
  State, idle, working, asking, error, state_text, Op, upsert, remove, HookEvent, AgentRecord,
  Message, snapshot, diff, make_diff_message, to_wire_dict,
}
use silicon_office.StateMachine
use silicon_office.StateMachine.{
  HookKind, session_start, user_prompt_submit, pre_tool_use, post_tool_use, post_tool_use_failure,
  permission_request, stop, stop_failure, subagent_start, subagent_stop, session_end, unknown,
  classify, transition, refresh_cwd, new_record,
}
use silicon_office.StateMachine.Steps.{apply_event_op}
use silicon_office.Sessions.{World, resolve_identity, look_up_identity, identify}
use silicon_office.Registry
use silicon_office.Registry.{Agents, store, changed_in_place}
use silicon_office.Registry.Broken.{has_broken}
use silicon_office.Daemon.{on_event, announce}
use silicon_office.Daemon.Crashes.{resolve_returns}

-- The state that an event leaves a session in, whatever it was in before.
unfoldable pub told : HookKind → Option State
told session_start = some idle
told user_prompt_submit = some working
told pre_tool_use = some working
told post_tool_use = some working
told post_tool_use_failure = some error
told permission_request = some asking
told stop = some idle
told stop_failure = some error
told subagent_start = some working
told subagent_stop = none
told session_end = none
told unknown = none

module _ {T : Type 0} where
  -- The diffs among the messages: the session, the op, and the state that is shown.
  unfoldable pub shows : List (Message T) → List (String × Op × Option String)
  shows [] = []
  shows (snapshot _ _ _ ∷ ms) = shows ms
  shows (diff _ _ sid op none ∷ ms) = (sid, op, none) ∷ shows ms
  shows (diff _ _ sid op (some a) ∷ ms) = (sid, op, some a.state) ∷ shows ms

  pub shows-append : (xs ys : List (Message T)) → shows (xs ++ ys) ≡ shows xs ++ shows ys
  unfolding shows
  shows-append [] ys = refl
  shows-append (snapshot _ _ _ ∷ xs) ys = shows-append xs ys
  shows-append (diff _ _ sid op none ∷ xs) ys = ap (λ l. (sid, op, none) ∷ l) (shows-append xs ys)
  shows-append (diff _ _ sid op (some a) ∷ xs) ys =
      ap (λ l. (sid, op, some a.state) ∷ l) (shows-append xs ys)

  apply_event-told :
      (o : Option (AgentRecord T)) (e : HookEvent T) (now : T) (s : State)
      → told (classify e.hook_event_name) ≡ some s
      → ((StateMachine.apply_event o e now).0.state ≡ s)
        × ((StateMachine.apply_event o e now).1 ≡ upsert)
  unfolding StateMachine.apply_event transition told
  apply_event-told none e now s h = ground arith
  apply_event-told (some r) e now s h = ground arith

  state-resolve_identity :
      (w : World) (r r' : AgentRecord T) → resolve_identity w r ≡ ok r' → r'.state ≡ r.state
  unfolding resolve_identity look_up_identity identify
  state-resolve_identity w r r' h = ground arith

  store_told :
      (w : World) (agents : Agents T) (sid : String) (r : AgentRecord T) (ts : T)
      → has_broken w.session_files ≡ false
      → shows (announce sid (store w agents sid r upsert).0 ts)
        ≡ (sid, upsert, some (state_text r.state)) ∷ []
  unfolding store announce shows make_diff_message to_wire_dict
  store_told w agents sid r ts b =
      let (r', e) = resolve_returns w r b in
      rw (e, store)
        (ap (λ s. (sid, upsert, some (state_text s)) ∷ []) (state-resolve_identity w r r' e))

  pub on_event-told :
      (w : World) (agents : Agents T) (e : HookEvent T) (now ts : T) (s : State)
      → has_broken w.session_files ≡ false
      → told (classify e.hook_event_name) ≡ some s
      → shows (on_event w agents (ok e) now ts).1 ≡ (e.session_id, upsert, some (state_text s)) ∷ []
  unfolding on_event Registry.apply_event
  on_event-told w agents e now ts s b h =
      let existing = lookup e.session_id agents in
      let (in_state, op) = apply_event-told existing e now s h in
      rw op (
        store_told w _ e.session_id (StateMachine.apply_event existing e now).0 ts b
        ∙ ap (λ t. (e.session_id, upsert, some (state_text t)) ∷ []) in_state)

  pub on_event_ended :
      (w : World) (agents : Agents T) (e : HookEvent T) (now ts : T)
      → classify e.hook_event_name ≡ session_end
      → (shows (on_event w agents (ok e) now ts).1 ≡ (e.session_id, remove, none) ∷ [])
        × (lookup e.session_id (on_event w agents (ok e) now ts).0 ≡ none)
  unfolding on_event Registry.apply_event store announce shows make_diff_message
  on_event_ended w agents e now ts h =
      let op = (apply_event_op (lookup e.session_id agents) e now).0.1 h in
      rw op (refl, rw lookup-erase (rw (==_refl e.session_id) refl))
