-- ===== src/Tests/Registry.antt =====
-- Tests of the registry, over machines with given session files and processes.
use silicon_office.Prelude.{
  ℕ, ◌≡◌, refl, ◌↔◌, true, none, some, [], ◌∷◌, arith, ok, raised, str_dec, contains, if◌then◌else◌,
  eqb,
}
use silicon_office.Prelude.Dict.{lookup, insert, erase, keys}
use silicon_office.Schema.{upsert, remove, AgentRecord}
use silicon_office.StateMachine
use silicon_office.StateMachine.{
  session_end, classify, new_record, refresh_cwd, project_name_from_cwd,
}
use silicon_office.Sessions.{
  World, SessionInfo, parsed, skipped, broken, delivered, process_lookup_error, resolve_identity,
  parse_files, read_session_files, find_session_file, first_for, identify, look_up_identity,
  is_pid_alive,
}
use silicon_office.Registry
use silicon_office.Registry.{
  Agents, reap_dead, resolve_pending_identities, store, changed_in_place, dead_sessions, is_dead,
  erase_all,
}
use silicon_office.Registry.Events.{returned_is_stored}
use silicon_office.Registry.Broken.{broken_file_blocks, has_broken}
use silicon_office.Registry.Keyed.{IsKeyed}
use silicon_office.Registry.Sweeps.{reap_dead_twice}
use silicon_office.Registry.Machine.{IsGone, reap_dead_lem, resolve_pending_lem}
use silicon_office.Sessions.Described.{IsResolved}
use silicon_office.Daemon.Announced.{announces}
use silicon_office.Daemon.Crashes.{reaper_rounds, has_clean, crash_is_noticed}
use silicon_office.Tests.Daemon.{event, busy}

program : Unit {0}
unfolding StateMachine.apply_event StateMachine.transition classify new_record refresh_cwd
    project_name_from_cwd lookup insert erase keys str_dec resolve_identity parse_files
    read_session_files find_session_file first_for identify look_up_identity is_pid_alive
    Registry.apply_event reap_dead resolve_pending_identities store changed_in_place dead_sessions
    is_dead erase_all has_broken has_clean
program = tt

abbrev pub info : SessionInfo
info = record {
  session_id = some "s1";
  cwd = none;
  pid = some 42;
  entrypoint = some "cli";
  name = some "office";
}

-- The session file of "s1" is there, and no process with its pid.
abbrev pub world : World
world = record {
  sessions_dir_exists = true;
  session_files = skipped ∷ parsed info ∷ [];
  kill = λ p. if eqb p 42 then process_lookup_error else delivered;
}

abbrev pub known : AgentRecord ℕ
known = record busy { pid = some 42; entrypoint = "cli"; project_name = "office" }

abbrev pub other : AgentRecord ℕ
other = record busy { session_id = "s2" }

abbrev pub agents : Agents ℕ
agents = ("s2", other) ∷ ("s1", known) ∷ []

pub agents-IsKeyed : IsKeyed agents
unfolding program
agents-IsKeyed = record { own_key = λ k r h. ground arith; distinct = (refl, (refl, tt)) }

first_event_run :
    Registry.apply_event world [] (event "s1" "PreToolUse") 2
    ≡ (ok (some known, upsert), ("s1", known) ∷ [])
unfolding program
first_event_run = refl

reap_run : reap_dead world agents ≡ ("s1" ∷ [], ("s2", other) ∷ [])
unfolding program
reap_run = refl

returned_is_stored_example :
    (lookup "s1" (Registry.apply_event world [] (event "s1" "PreToolUse") 2).1 ≡ some known)
    × ((some known ≡ none) ↔ (upsert ≡ remove))
unfolding program
returned_is_stored_example =
    returned_is_stored world [] (event "s1" "PreToolUse") 2 (some known) upsert refl

abbrev pub broken_world : World
broken_world = record world { session_files = parsed info ∷ broken ∷ [] }

broken_file_blocks_example :
    Registry.apply_event broken_world agents (event "s3" "SessionStart") 3 ≡ (raised, agents)
unfolding program
broken_file_blocks_example =
    broken_file_blocks broken_world agents (event "s3" "SessionStart") 3 refl refl refl (λ e. cc)

reap_dead_lem_example :
    let (dead, left) = reap_dead world agents in
    ((contains dead "s1" ≡ true) ↔ IsGone world agents "s1")
    × (lookup "s1" left ≡ (if contains dead "s1" then none else lookup "s1" agents))
reap_dead_lem_example = reap_dead_lem world agents "s1" agents-IsKeyed.distinct

reap_dead_twice_example :
    IsKeyed (reap_dead world agents).1 × ((reap_dead world (reap_dead world agents).1).0 ≡ [])
reap_dead_twice_example = reap_dead_twice world agents agents-IsKeyed

abbrev pending : Agents ℕ
pending = ("s1", busy) ∷ []

resolve_pending_lem_example :
    let left = (resolve_pending_identities world pending).1 in
    (keys left ≡ keys pending)
    × ((r' : AgentRecord ℕ) × (lookup "s1" left ≡ some r') × IsResolved world busy r')
    × (resolve_pending_identities world left ≡ (ok tt, left))
unfolding program
resolve_pending_lem_example = resolve_pending_lem world pending "s1" busy refl refl

-- The first round meets a broken file.
crash_is_noticed_example :
    (lookup "s1" (reaper_rounds ((broken_world, 5) ∷ (world, 7) ∷ []) agents).0 ≡ none)
    × (announces "s1" (reaper_rounds ((broken_world, 5) ∷ (world, 7) ∷ []) agents).1 ≡ true)
unfolding program
crash_is_noticed_example =
    crash_is_noticed ((broken_world, 5) ∷ (world, 7) ∷ []) agents "s1" known 42
      agents-IsKeyed.distinct refl refl (refl, (refl, tt)) refl
