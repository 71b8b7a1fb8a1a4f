-- ===== src/FakeSession/Lifecycle.antt =====
-- What the daemon makes of the sessions of tools/fake_session.py.
use silicon_office.Prelude.{
  ℕ, suc, String, ◌==◌, ◌≡◌, refl, ap, ◌∙◌, Bool, false, Option, none, some, List, [], ◌∷◌, ◌++◌,
  map, All, subst, append-nil, Outcome, ok, str_dec,
}
use mathlib.Core.List.{zip}
use silicon_office.Prelude.Dict.{Dict, lookup}
use silicon_office.Json.{Json, object}
use silicon_office.Schema.{State, state_text, upsert, remove, HookEvent, Message}
use silicon_office.StateMachine.{session_end, classify}
use silicon_office.Sessions.{World}
use silicon_office.Registry.{Agents}
use silicon_office.Registry.Broken.{has_broken}
use silicon_office.Daemon.{on_event}
use silicon_office.Emitter.{build_hook_event, event_of, truthy, text_of}
use silicon_office.Emitter.Wire.{event_dict, RawEvent, received_event, sent_event, event_roundtrip}
use silicon_office.FakeSession.Shows.{told, shows, shows-append, on_event-told, on_event_ended}
use silicon_office.FakeSession.Steps.{IsStep, IsTold, told_steps, told_steps-IsTold, last-IsStep}
use silicon_office.FakeSession.{make_payload, full_lifecycle}

module _ {T : Type 0} where
  module _ (w : World) (stamp : T → Json) (of_stamp : Json → Option T)
      (odd : RawEvent → Outcome (HookEvent T)) (repr : Json → String)
      (is_zero : String → Bool) where
    -- `fire` and the daemon's handling of the event, at one time; nothing is sent where no event
    -- is built.
    unfoldable pub deliver : Agents T → Dict Json → T → Agents T × List (Message T)
    deliver agents payload now = elim (build_hook_event repr is_zero payload now) [
      | none ↦ (agents, [])
      | some e ↦
          on_event w agents (received_event of_stamp odd (object (event_dict stamp e))) now now
    ]

    pub delivered :
        (agents : Agents T) (sid name : String) (payload : Dict Json) (now : T)
        → (sid == "") ≡ false
        → of_stamp (stamp now) ≡ some now
        → IsStep sid name payload
        → (e : HookEvent T) × (e.session_id ≡ sid)
          × (e.hook_event_name ≡ name)
          × (deliver agents payload now ≡ on_event w agents (ok e) now now)
    unfolding deliver
    delivered agents sid name payload now n t i =
        let e = event_of repr is_zero payload now in
        let built : build_hook_event repr is_zero payload now ≡ some e =
          unfold build_hook_event truthy in rw (i.own_id, i.own_name, n, i.named) refl in
        (
          sent_event e i.tool none none,
          unfold sent_event event_of text_of in rw i.own_id refl,
          unfold sent_event event_of text_of in rw i.own_name refl,
          rw (built, deliver)
              (ap (λ o. on_event w agents o now now)
                (event_roundtrip of_stamp stamp odd e i.tool none none (unfold event_of in t)
                  (unfold event_of in i.tool_name) (unfold event_of in i.agent_id)
                  (unfold event_of in i.agent_type))),
        )

    module _ (clock : ℕ → T) where
      -- The payloads in order, the `n`-th at the `n`-th time of the clock: the registry at the
      -- end, and all messages.
      unfoldable pub drive : ℕ → Agents T → List (Dict Json) → Agents T × List (Message T)
      drive n agents [] = (agents, [])
      drive n agents (payload ∷ payloads) =
          let (agents', ms) = deliver agents payload (clock n) in
          let (last, more) = drive (suc n) agents' payloads in (last, ms ++ more)

      -- The event of the last payload ends the session.
      drive_life :
          (sid name : String) (n : ℕ) (agents : Agents T) (steps : List (Dict Json × State))
          (last : Dict Json)
          → has_broken w.session_files ≡ false
          → (sid == "") ≡ false
          → ((t : T) → of_stamp (stamp t) ≡ some t)
          → All (IsTold sid) steps
          → IsStep sid name last
          → classify name ≡ session_end
          → let end = drive n agents (map (λ x. x.0) steps ++ last ∷ []) in
            (shows end.1
              ≡ map (λ x. (sid, upsert, some (state_text x.1))) steps ++ (sid, remove, none) ∷ [])
            × (lookup sid end.0 ≡ none)
      unfolding drive shows
      drive_life sid name n agents [] last b e t i l c =
          let (event, own, named, same) =
            delivered agents sid name last (clock n) e (t (clock n)) l in
          let (told_end, gone) =
            on_event_ended w agents event (clock n) (clock n) (ap classify named ∙ c) in
          (
            shows-append (deliver agents last (clock n)).1 []
                ∙ rw append-nil
                    (ap (λ r. shows r.1) same ∙ told_end ∙ ap (λ x. (x, remove, none) ∷ []) own),
            ap (λ r. lookup sid r.0) same
                ∙ subst (λ k. lookup k (on_event w agents (ok event) (clock n) (clock n)).0 ≡ none)
                    own gone,
          )
      drive_life sid name n agents ((payload, s) ∷ steps) last b e t ((step, i, told_s), is) l c =
          let (event, own, named, same) =
            delivered agents sid step payload (clock n) e (t (clock n)) i in
          let next = deliver agents payload (clock n) in
          let here : shows next.1 ≡ (sid, upsert, some (state_text s)) ∷ [] =
            ap (λ r. shows r.1) same
            ∙ on_event-told w agents event (clock n) (clock n) s b
                (ap (λ x. told (classify x)) named ∙ told_s)
            ∙ ap (λ x. (x, upsert, some (state_text s)) ∷ []) own in
          let (rest, gone) = drive_life sid name (suc n) next.0 steps last b e t is l c in
          (
            shows-append next.1 (drive (suc n) next.0 (map (λ x. x.0) steps ++ last ∷ [])).1
                ∙ rw (here, rest) refl,
            gone,
          )

      -- `run_full_lifecycle`: for any session id that is not empty, any directory, and any
      -- registry, also one that has the session, if no session file is broken and time stamps
      -- survive the coding, the daemon announces the session as idle, working five times, asking,
      -- error and idle again, then its removal, and nothing else; the registry does not hold it
      -- any more.
      pub full_lifecycle_lem :
          (sid cwd : String) (agents : Agents T)
          → has_broken w.session_files ≡ false
          → (sid == "") ≡ false
          → ((t : T) → of_stamp (stamp t) ≡ some t)
          → let end = drive 0 agents (full_lifecycle sid cwd) in
            (shows end.1
              ≡ (sid, upsert, some "idle")
                ∷ (sid, upsert, some "working")
                ∷ (sid, upsert, some "working")
                ∷ (sid, upsert, some "working")
                ∷ (sid, upsert, some "working")
                ∷ (sid, upsert, some "working")
                ∷ (sid, upsert, some "asking")
                ∷ (sid, upsert, some "error")
                ∷ (sid, upsert, some "idle")
                ∷ (sid, remove, none)
                ∷ [])
            × (lookup sid end.0 ≡ none)
      unfolding zip state_text str_dec classify
      full_lifecycle_lem sid cwd agents b e t =
          drive_life sid "SessionEnd" 0 agents (told_steps sid cwd)
            (make_payload sid "SessionEnd" cwd []) b e t (told_steps-IsTold sid cwd)
            (last-IsStep sid cwd) refl
