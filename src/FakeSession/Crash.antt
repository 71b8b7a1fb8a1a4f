-- ===== src/FakeSession/Crash.antt =====
-- `run_crash` of tools/fake_session.py: a session whose process exits without an event. The
-- process is a parameter: its pid, and what `kill` answers for it.
use silicon_office.Prelude.{
  ℕ, String, ◌==◌, ==_refl, ◌≡◌, refl, ap, sym, ◌∙◌, Bool, true, false, Option, none, some, List,
  [], All, Distinct, Outcome, ok, str_dec,
}
use silicon_office.Prelude.Dict.{Dict, lookup, insert, keys, lookup-insert, insert-Distinct}
use silicon_office.Json.{Json}
use silicon_office.Schema.{HookEvent, AgentRecord, upsert}
use silicon_office.StateMachine
use silicon_office.StateMachine.{session_start, classify, transition, new_record}
use silicon_office.Sessions.{
  World, SessionInfo, is_pid_alive, identify, find_session_file, look_up_identity, resolve_identity,
}
use silicon_office.Registry
use silicon_office.Registry.{Agents, store, changed_in_place}
use silicon_office.Daemon.{on_event}
use silicon_office.Daemon.Announced.{announces}
use silicon_office.Daemon.Crashes.{reaper_rounds, has_clean, crash_is_noticed}
use silicon_office.Emitter.Wire.{RawEvent}
use silicon_office.FakeSession.{make_payload, update}
use silicon_office.FakeSession.Steps.{IsStep}
use silicon_office.FakeSession.Lifecycle.{deliver, delivered}

-- The session file that it writes: the keys that the daemon reads.
unfoldable pub fake_info : String → String → ℕ → SessionInfo
fake_info session_id cwd pid = record {
  session_id = some session_id;
  cwd = some cwd;
  pid = some pid;
  entrypoint = some "cli";
  name = some "fake-crash-test";
}

-- What it fires.
unfoldable pub crash_payload : String → String → Dict Json
unfolding make_payload update
crash_payload session_id cwd = make_payload session_id "SessionStart" cwd []

crash_payload-IsStep : (sid cwd : String) → IsStep sid "SessionStart" (crash_payload sid cwd)
unfolding crash_payload lookup str_dec
crash_payload-IsStep sid cwd = record {
  tool = none;
  own_id = refl;
  own_name = refl;
  named = refl;
  tool_name = refl;
  agent_id = refl;
  agent_type = refl;
}

module _ {T : Type 0} where
  on_start :
      (e : HookEvent T) (now : T)
      → classify e.hook_event_name ≡ session_start
      → (StateMachine.apply_event none e now).1 ≡ upsert
  unfolding StateMachine.apply_event transition
  on_start e now c = rw c refl

  resolve_start :
      (w : World) (e : HookEvent T) (now : T) (info : SessionInfo)
      → classify e.hook_event_name ≡ session_start
      → find_session_file w e.session_id ≡ ok (some info)
      → resolve_identity w (StateMachine.apply_event none e now).0
        ≡ ok (identify (StateMachine.apply_event none e now).0 info)
  unfolding resolve_identity look_up_identity StateMachine.apply_event transition new_record
  resolve_start w e now info c f = rw (c, f) refl

  -- The first event of a session that the registry does not have, and whose file it finds.
  started :
      (w : World) (agents : Agents T) (e : HookEvent T) (now ts : T) (cwd : String) (pid : ℕ)
      → lookup e.session_id agents ≡ none
      → classify e.hook_event_name ≡ session_start
      → find_session_file w e.session_id ≡ ok (some (fake_info e.session_id cwd pid))
      → (r : AgentRecord T) × (r.pid ≡ some pid)
        × ((on_event w agents (ok e) now ts).0 ≡ insert e.session_id r agents)
  unfolding on_event Registry.apply_event
  started w agents e now ts cwd pid h c f =
      let r = (StateMachine.apply_event none e now).0 in
      let info = fake_info e.session_id cwd pid in
      let op = on_start e now c in
      let found : resolve_identity w r ≡ ok (identify r info) = resolve_start w e now info c f in
      (
        identify r info,
        unfold identify fake_info in refl,
        rw (h, Registry.apply_event)
            (rw op (unfold store changed_in_place in rw (found, store) refl)),
      )

  -- A crash is noticed, end to end: if the session id is not empty, the time stamp survives the
  -- coding, no session is twice in the registry and this one is not in it, and the daemon finds
  -- the session file that is written for it, with the pid of the process, then once that process
  -- is dead, and stays so, the rounds of the reaper after the first event, of which one finds no
  -- broken session file, remove the session and announce it, though it never ended.
  pub crash_is_removed :
      (w : World) (stamp : T → Json) (of_stamp : Json → Option T)
      (odd : RawEvent → Outcome (HookEvent T)) (repr : Json → String) (is_zero : String → Bool)
      (sid cwd : String) (pid : ℕ) (now : T) (agents : Agents T) (rounds : List (World × T))
      → (sid == "") ≡ false
      → of_stamp (stamp now) ≡ some now
      → Distinct (keys agents)
      → lookup sid agents ≡ none
      → find_session_file w sid ≡ ok (some (fake_info sid cwd pid))
      → All (λ x. is_pid_alive x.0 (some pid) ≡ false) rounds
      → has_clean rounds ≡ true
      → let first = deliver w stamp of_stamp odd repr is_zero agents (crash_payload sid cwd) now in
        (lookup sid (reaper_rounds rounds first.0).0 ≡ none)
        × (announces sid (reaper_rounds rounds first.0).1 ≡ true)
  crash_is_removed w stamp of_stamp odd repr is_zero sid cwd pid now agents rounds n t d h f dead
        c =
      let (e, own, named, same) =
        delivered w stamp of_stamp odd repr is_zero agents sid "SessionStart"
          (crash_payload sid cwd) now n t (crash_payload-IsStep sid cwd) in
      let (r, known, there) =
        started w agents e now now cwd pid (ap (λ k. lookup k agents) own ∙ h)
          (ap classify named ∙ (unfold classify str_dec in refl))
          (ap (find_session_file w) own
            ∙ f
            ∙ ap (λ k. ok (some (fake_info k cwd pid))) (sym own)) in
      let registered : (deliver w stamp of_stamp odd repr is_zero agents (crash_payload sid cwd)
            now).0
          ≡ insert sid r agents =
        ap (λ o. o.0) same ∙ there ∙ ap (λ k. insert k r agents) own in
      rw registered (
        crash_is_noticed rounds (insert sid r agents) sid r pid (insert-Distinct sid r agents d)
          (lookup-insert sid sid r agents ∙ rw (==_refl sid) refl) known dead c)
