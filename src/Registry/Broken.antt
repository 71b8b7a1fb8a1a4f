-- ===== src/Registry/Broken.antt =====
-- What a session file that cannot be read does to `apply_event` of daemon/registry.py.
use silicon_office.Prelude.{
  String, ◌≡◌, refl, ◌≢◌, Bool, true, false, none, List, [], ◌∷◌, raised, arith,
}
use silicon_office.Prelude.Dict.{lookup}
use silicon_office.Schema.{Op, upsert, HookEvent, AgentRecord}
use silicon_office.StateMachine
use silicon_office.StateMachine.{session_end, new_record, refresh_cwd, transition}
use silicon_office.StateMachine.Steps.{kind_of}
use silicon_office.Sessions.{
  World, look_up_identity, resolve_identity, parse_files, FileRead, broken, parsed, skipped,
  read_session_files, find_session_file,
}
use silicon_office.Registry.{Agents, changed_in_place, store, apply_event}

-- A session file that reading or parsing does not survive.
unfoldable pub has_broken : List FileRead → Bool
has_broken [] = false
has_broken (broken ∷ _) = true
has_broken (parsed _ ∷ rest) = has_broken rest
has_broken (skipped ∷ rest) = has_broken rest

parse_files-has_broken :
    (files : List FileRead) → has_broken files ≡ true → parse_files files ≡ raised
unfolding has_broken parse_files
parse_files-has_broken [] h = cc
parse_files-has_broken (broken ∷ _) h = refl
parse_files-has_broken (parsed info ∷ rest) h = rw (parse_files-has_broken rest h)
parse_files-has_broken (skipped ∷ rest) h = parse_files-has_broken rest h

module _ {T : Type 0} where
  pub resolve_raises :
      (w : World) (r : AgentRecord T)
      → w.sessions_dir_exists ≡ true
      → has_broken w.session_files ≡ true
      → r.pid ≡ none
      → resolve_identity w r ≡ raised
  unfolding resolve_identity look_up_identity find_session_file read_session_files
  resolve_raises w r d b p = ground (arith, parse_files-has_broken w.session_files b)

  store_raises :
      (w : World) (agents : Agents T) (sid : String) (r : AgentRecord T) (op : Op)
      → op ≡ upsert
      → resolve_identity w r ≡ raised
      → store w agents sid r op ≡ (raised, agents)
  unfolding store
  store_raises w agents sid r op e h = ground arith

  fresh_upsert :
      (event : HookEvent T) (now : T)
      → kind_of event ≢ session_end
      → ((StateMachine.apply_event none event now).1 ≡ upsert)
        × ((StateMachine.apply_event none event now).0.pid ≡ none)
  unfolding StateMachine.apply_event transition new_record
  fresh_upsert event now k = ground arith

  -- One broken session file is enough to lose every event of a session that is not yet registered,
  -- SessionEnd aside: the call raises and nothing is stored.
  pub broken_file_blocks :
      (w : World) (agents : Agents T) (event : HookEvent T) (now : T)
      → w.sessions_dir_exists ≡ true
      → has_broken w.session_files ≡ true
      → lookup event.session_id agents ≡ none
      → kind_of event ≢ session_end
      → apply_event w agents event now ≡ (raised, agents)
  unfolding apply_event changed_in_place
  broken_file_blocks w agents event now d b fresh k =
      let (r, op) = StateMachine.apply_event none event now in
      let (upserted, no_pid) = fresh_upsert event now k in
      rw fresh
        (store_raises w agents event.session_id r op upserted (resolve_raises w r d b no_pid))
