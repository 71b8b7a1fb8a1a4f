-- ===== src/Tests/Network.antt =====
-- Tests of the daemon's start, its rounds and its broadcasts, and of the client's retries.
use silicon_office.Prelude.{
  ℕ, String, ◌≡◌, ◌≢◌, ◌↔◌, refl, ◌*◌, ◌/◌, ◌≤◌, ◌&&◌, true, false, not, none, some, is_some, List,
  [], ◌∷◌, arith, str_dec, ◌==◌, contains, Distinct, All, Any, keep,
}
use silicon_office.Prelude.Dict.{lookup, insert, erase, keys}
use silicon_office.StateMachine.{project_name_from_cwd}
use silicon_office.Sessions.{
  World, parsed, broken, delivered, is_pid_alive, parse_files, read_session_files,
  list_live_sessions,
}
use silicon_office.Sessions.Described.{files}
use silicon_office.Registry.{Agents, seed}
use silicon_office.Registry.Broken.{has_broken}
use silicon_office.Registry.Keyed.{IsKeyed}
use silicon_office.Registry.Machine.{IsGone}
use silicon_office.Daemon.{cold_record, seed_info, seed_all, cold_start, reaper_round}
use silicon_office.Daemon.Live.{IsLive, cold_start_lem}
use silicon_office.Daemon.Rounds.{broken_file_stops_reaper}
use silicon_office.Broadcaster.{broadcast, broadcast_lem}
use silicon_office.Ipc.{Loaded, malformed}
use silicon_office.NetClient.{received, os_error}
use silicon_office.NetClient.Reconnect.{Attempt, IsUniform, run, run_waits}
use silicon_office.Tests.Registry.{world, info, agents}
use silicon_office.Tests.Daemon.{busy}

program : Unit {0}
unfolding lookup insert erase keys str_dec keep project_name_from_cwd is_pid_alive parse_files
    read_session_files list_live_sessions seed cold_record seed_info seed_all cold_start has_broken
    broadcast
program = tt

-- The process of the session file is alive here.
abbrev live_world : World
live_world = record world { kill = λ p. delivered }

abbrev cold_agents : Agents ℕ
cold_agents = ("s1", cold_record "s1" info 7) ∷ []

cold_start_lem_example :
    IsKeyed cold_agents
    × ((k : String)
        → ((is_some (lookup k cold_agents) ≡ true)
            ↔ ((k ≢ "") × Any (IsLive live_world k) (files live_world)))
          × (IsGone live_world cold_agents k → ⊥))
unfolding program
cold_start_lem_example = cold_start_lem live_world 7 cold_agents refl

abbrev broken_world : World
broken_world = record world { session_files = parsed info ∷ broken ∷ [] }

-- "s2" has no pid, and the process of "s1" is dead.
broken_file_stops_reaper_example :
    ((reaper_round broken_world agents 9).1 ≡ [])
    × (keys (reaper_round broken_world agents 9).0 ≡ keys agents)
unfolding program
broken_file_stops_reaper_example =
    broken_file_stops_reaper broken_world agents 9 "s2" (record busy { session_id = "s2" }) refl
      refl refl refl

abbrev as_is : List String → List String
as_is xs = xs

-- The socket of "b" is dead, and "c" connects meanwhile.
broadcast_lem_example :
    let (reached, left) = broadcast as_is (λ w. w == "a") ("a" ∷ "b" ∷ []) ("c" ∷ "a" ∷ "b" ∷ []) in
    Distinct reached
    × ((k : String)
        → (contains reached k ≡ (contains ("a" ∷ "b" ∷ []) k && k == "a"))
          × (contains left k ≡ (
              contains ("c" ∷ "a" ∷ "b" ∷ []) k
              && not (contains ("a" ∷ "b" ∷ []) k && not (k == "a")))))
unfolding program
broadcast_lem_example =
    broadcast_lem as_is (λ w. w == "a") ("a" ∷ "b" ∷ []) ("c" ∷ "a" ∷ "b" ∷ [])
      (record { members = λ xs a. refl; once = λ xs d. d }) (refl, (refl, tt))

data Doc : Type 0 where
  one : Doc

abbrev loads : List ℕ → Loaded Doc
loads line = malformed

abbrev refused : Attempt
refused = record { connection = none; stop_seen = false; uniform = λ top. top / 2 }

abbrev attempts : List Attempt
attempts =
    refused
    ∷ refused
    ∷ record {
      connection = some (received (49 ∷ []) ∷ os_error ∷ []);
      stop_seen = false;
      uniform = λ top. top / 2;
    }
    ∷ refused
    ∷ []

attempts-IsUniform : All IsUniform attempts
attempts-IsUniform =
    (λ top. omega arith, (λ top. omega arith, (λ top. omega arith, (λ top. omega arith, tt))))

-- The unit is a millisecond.
run_waits_example : All (λ n. (5 * 100 ≤ n) × (n ≤ 48 * 100)) (run loads 100 500 attempts).1
run_waits_example = run_waits loads 100 500 attempts (omega arith) (omega arith) attempts-IsUniform
