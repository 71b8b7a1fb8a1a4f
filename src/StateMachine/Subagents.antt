-- ===== src/StateMachine/Subagents.antt =====
-- The label stack of daemon/state_machine.py: what a subagent's start saves, its stop restores.
use silicon_office.Prelude.{
  ℕ, suc, zero, String, ◌≡◌, refl, ◌∙◌, ap, inl, inr, Option-cases, Option, none, some, List, [],
  ◌∷◌, ◌++◌, arith, length,
}
use silicon_office.Schema.{HookEvent, AgentRecord}
use silicon_office.StateMachine.{
  HookKind, subagent_start, subagent_stop, session_end, refresh_cwd, transition, apply_event,
}
use silicon_office.StateMachine.Steps.{kind_of}

-- The events of one session with their times of arrival.
abbrev pub Trace : Type 0 → Type 0
Trace T = List (HookEvent T × T)

-- What an event does to the stack, from the label before it.
stack_step : HookKind → String → List String → List String
stack_step subagent_start label stack = label ∷ stack
stack_step subagent_stop label [] = []
stack_step subagent_stop label (_ ∷ stack) = stack
stack_step _ label stack = stack

-- How many subagents are running after an event; `none` if one stops that did not start, or if the
-- session ends.
unfoldable pub running : HookKind → ℕ → Option ℕ
running subagent_start n = some (suc n)
running subagent_stop zero = none
running subagent_stop (suc n) = some n
running session_end n = none
running _ n = some n

-- One step above a base that it does not reach.
stack_step_above :
    (k : HookKind) (label : String) (top base : List String) (m : ℕ)
    → running k (length top) ≡ some m
    → (top' : List String) × (stack_step k label (top ++ base) ≡ top' ++ base) × (length top' ≡ m)
unfolding stack_step running
stack_step_above subagent_start label top base m h = (label ∷ top, refl, ground arith)
stack_step_above subagent_stop label [] base m h = cc
stack_step_above subagent_stop label (x ∷ top) base m h = (top, refl, ground arith)
stack_step_above _ label top base m h = (top, refl, ground arith)

append_of_length-zero : (xs ys : List String) → length xs ≡ 0 → xs ++ ys ≡ ys
append_of_length-zero [] ys h = refl
append_of_length-zero (x ∷ xs) ys h = absurd (omega arith)

module _ {T : Type 0} where
  -- The record after the events, each applied to what the ones before it left.
  unfoldable pub run : AgentRecord T → Trace T → AgentRecord T
  run r [] = r
  run r ((event, now) ∷ rest) = run (apply_event (some r) event now).0 rest

  unfoldable pub running_after : ℕ → Trace T → Option ℕ
  running_after n [] = some n
  running_after n ((event, _) ∷ rest) = elim (running (kind_of event) n) [
    | none ↦ none
    | some m ↦ running_after m rest
  ]

  run-append : (r : AgentRecord T) (xs ys : Trace T) → run r (xs ++ ys) ≡ run (run r xs) ys
  unfolding run
  run-append r [] ys = refl
  run-append r ((event, now) ∷ xs) ys = run-append (apply_event (some r) event now).0 xs ys

  apply_event_stack :
      (r : AgentRecord T) (event : HookEvent T) (now : T)
      → (apply_event (some r) event now).0.label_stack
        ≡ stack_step (kind_of event) r.action_label r.label_stack
  unfolding apply_event transition refresh_cwd stack_step
  apply_event_stack r event now = ground arith

  pop_restores :
      (r : AgentRecord T) (event : HookEvent T) (now : T) (label : String) (rest : List String)
      → kind_of event ≡ subagent_stop
      → r.label_stack ≡ label ∷ rest
      → let r' = (apply_event (some r) event now).0 in
        (r'.action_label ≡ label) × (r'.label_stack ≡ rest)
  unfolding apply_event transition refresh_cwd
  pop_restores r event now label rest k e = ground arith

  run_above :
      (trace : Trace T) (r : AgentRecord T) (top base : List String) (m : ℕ)
      → r.label_stack ≡ top ++ base
      → running_after (length top) trace ≡ some m
      → (top' : List String) × ((run r trace).label_stack ≡ top' ++ base) × (length top' ≡ m)
  unfolding run running_after
  run_above [] r top base m e h = (top, e, ground arith)
  run_above ((event, now) ∷ rest) r top base m e h =
      elim (Option-cases (running (kind_of event) (length top))) [
        | inl q ↦ let impossible : ⊥ = ground arith in absurd impossible
        | inr (k, q) ↦
            let (top', above, count) =
              stack_step_above (kind_of event) r.action_label top base k q in
            run_above rest (apply_event (some r) event now).0 top' base m
              (apply_event_stack r event now
                ∙ ap (stack_step (kind_of event) r.action_label) e
                ∙ above)
              (ground arith)
      ]

  -- After a subagent's start, any events of the session in which every further subagent that
  -- starts also stops, and its stop, the label and the stack are those from before the start.
  pub subagent_restores :
      (r : AgentRecord T) (start : HookEvent T) (t : T) (trace : Trace T) (end : HookEvent T)
      (u : T)
      → kind_of start ≡ subagent_start
      → running_after 0 trace ≡ some 0
      → kind_of end ≡ subagent_stop
      → let r' = run r ((start, t) ∷ (trace ++ (end, u) ∷ [])) in
        (r'.action_label ≡ r.action_label) × (r'.label_stack ≡ r.label_stack)
  unfolding run stack_step
  subagent_restores r start t trace end u s b e =
      let r₁ = (apply_event (some r) start t).0 in
      let base = r.action_label ∷ r.label_stack in
      let saved : r₁.label_stack ≡ base =
        apply_event_stack r start t ∙ ap (λ k. stack_step k r.action_label r.label_stack) s in
      let (top, above, count) = run_above trace r₁ [] base 0 saved b in
      rw (run-append r₁ trace ((end, u) ∷ [])) (
        pop_restores (run r₁ trace) end u r.action_label r.label_stack e
          (above ∙ append_of_length-zero top base count))
