-- ===== src/Daemon/Crashes.antt =====
-- Sessions that end without an event, over the rounds of daemon/reaper.py's `reaper_loop`.
use silicon_office.Prelude.{
  ℕ, String, ◌≡◌, refl, sym, subst, Bool, true, false, not, ◌||◌, none, some, List, [], ◌∷◌, ◌++◌,
  All, Distinct, Outcome, ok, raised, arith, Outcome-cases, inl, inr,
}
use silicon_office.Prelude.Dict.{lookup, keys, erase, erase-Distinct, contains-keys}
use silicon_office.Schema.{AgentRecord, Message}
use silicon_office.Sessions.{
  World, FileRead, parsed, skipped, broken, is_pid_alive, parse_files, read_session_files,
  find_session_file, look_up_identity, resolve_identity, SessionInfo,
}
use silicon_office.Registry.{
  Agents, resolve_pending_identities, reap_dead, is_dead, erase_all, dead_sessions,
}
use silicon_office.Registry.Broken.{has_broken}
use silicon_office.Registry.Sweeps.{keys-resolve_pending, reap_dead_split}
use silicon_office.Daemon.Announced.{
  announces, announces-announce_removed, announces-append, later-announces,
}
use silicon_office.Daemon.{finish_round, reaper_round}

parse_files_whole :
    (files : List FileRead)
    → has_broken files ≡ false
    → (infos : List SessionInfo) × (parse_files files ≡ ok infos)
unfolding parse_files has_broken
parse_files_whole [] h = ([], refl)
parse_files_whole (parsed info ∷ files) h =
    let (infos, e) = parse_files_whole files h in (info ∷ infos, rw e refl)
parse_files_whole (skipped ∷ files) h = parse_files_whole files h
parse_files_whole (broken ∷ files) h = cc

module _ {T : Type 0} where
  pub resolve_returns :
      (w : World) (r : AgentRecord T)
      → has_broken w.session_files ≡ false
      → (r' : AgentRecord T) × (resolve_identity w r ≡ ok r')
  unfolding resolve_identity look_up_identity find_session_file read_session_files
  resolve_returns w r h =
      let (infos, e) = parse_files_whole w.session_files h in
      elim (Outcome-cases (resolve_identity w r)) [
        | inl q ↦ let impossible : ⊥ = ground arith in absurd impossible
        | inr found ↦ found
      ]

  resolve_pending_returns :
      (w : World) (agents : Agents T)
      → has_broken w.session_files ≡ false
      → (resolve_pending_identities w agents).0 ≡ ok tt
  unfolding resolve_pending_identities
  resolve_pending_returns w [] h = refl
  resolve_pending_returns w ((sid, r) ∷ rest) h =
      let (r', e) = resolve_returns w r h in
      rw (e, resolve_pending_identities) (resolve_pending_returns w rest h)

  -- A record whose pid is known stays as it is, also if the sweep raises.
  resolve_pending_known :
      (w : World) (agents : Agents T) (k : String) (r : AgentRecord T) (p : ℕ)
      → lookup k agents ≡ some r
      → r.pid ≡ some p
      → lookup k (resolve_pending_identities w agents).1 ≡ some r
  unfolding resolve_pending_identities lookup resolve_identity
  resolve_pending_known w [] k r p h q = h
  resolve_pending_known w ((sid, s) ∷ rest) k r p h q =
      ground (arith, resolve_pending_known w rest k r p)

  erase_all-Distinct :
      (sids : List String) (agents : Agents T)
      → Distinct (keys agents)
      → Distinct (keys (erase_all sids agents))
  unfolding erase_all
  erase_all-Distinct [] agents d = d
  erase_all-Distinct (sid ∷ sids) agents d =
      erase_all-Distinct sids (erase sid agents) (erase-Distinct sid agents d)

  -- The rounds, each with what the machine then answers and its time: the registry at the end, and
  -- all messages, in order.
  unfoldable pub reaper_rounds : List (World × T) → Agents T → Agents T × List (Message T)
  reaper_rounds [] agents = (agents, [])
  reaper_rounds ((w, ts) ∷ rest) agents =
      let (agents', ms) = reaper_round w agents ts in
      let (last, more) = reaper_rounds rest agents' in (last, ms ++ more)

  -- Whether one of the rounds finds no broken session file.
  unfoldable pub has_clean : List (World × T) → Bool
  has_clean [] = false
  has_clean ((w, _) ∷ rest) = not (has_broken w.session_files) || has_clean rest

  pending-Distinct :
      (w : World) (agents : Agents T)
      → Distinct (keys agents)
      → Distinct (keys (resolve_pending_identities w agents).1)
  pending-Distinct w agents d = subst Distinct (sym (keys-resolve_pending w agents)) d

  round-Distinct :
      (w : World) (agents : Agents T) (ts : T)
      → Distinct (keys agents)
      → Distinct (keys (reaper_round w agents ts).0)
  unfolding reaper_round reap_dead
  round-Distinct w agents ts d =
      finished (resolve_pending_identities w agents) (pending-Distinct w agents d)
    where
      finished :
          (o : Outcome (Unit {0}) × Agents T)
          → Distinct (keys o.1)
          → Distinct (keys (finish_round w ts o).0)
      finished (raised, left) d = unfold finish_round in d
      finished (ok _, left) d =
          unfold finish_round in erase_all-Distinct (dead_sessions w left) left d

  -- A session that is not there does not come back.
  round_absent :
      (w : World) (agents : Agents T) (ts : T) (k : String)
      → Distinct (keys agents)
      → lookup k agents ≡ none
      → lookup k (reaper_round w agents ts).0 ≡ none
  unfolding reaper_round finish_round
  round_absent w agents ts k d h =
      let left = (resolve_pending_identities w agents).1 in
      let absent : lookup k left ≡ none =
        ground
          (arith, contains-keys left k, contains-keys agents k, keys-resolve_pending w agents) in
      let swept = reap_dead_split w left k (pending-Distinct w agents d) in
      elim (Outcome-cases (resolve_pending_identities w agents).0) [
        | inl e ↦ ground (arith, absent)
        | inr (a, e) ↦ ground (arith, absent, swept)
      ]

  rounds_absent :
      (rounds : List (World × T)) (agents : Agents T) (k : String)
      → Distinct (keys agents)
      → lookup k agents ≡ none
      → lookup k (reaper_rounds rounds agents).0 ≡ none
  unfolding reaper_rounds
  rounds_absent [] agents k d h = h
  rounds_absent ((w, ts) ∷ rest) agents k d h =
      rounds_absent rest (reaper_round w agents ts).0 k (round-Distinct w agents ts d)
        (round_absent w agents ts k d h)

  -- A round that does not raise removes a session whose pid is dead, and announces it.
  round_removes :
      (w : World) (agents : Agents T) (ts : T) (k : String) (r : AgentRecord T) (p : ℕ)
      → Distinct (keys agents)
      → lookup k agents ≡ some r
      → r.pid ≡ some p
      → is_pid_alive w (some p) ≡ false
      → (resolve_pending_identities w agents).0 ≡ ok tt
      → (lookup k (reaper_round w agents ts).0 ≡ none)
        × (announces k (reaper_round w agents ts).1 ≡ true)
  unfolding reaper_round finish_round is_dead
  round_removes w agents ts k r p d h q dead e =
      let left = (resolve_pending_identities w agents).1 in
      let known : lookup k left ≡ some r = resolve_pending_known w agents k r p h q in
      let swept = reap_dead_split w left k (pending-Distinct w agents d) in
      (
        ground (arith, swept),
        ground (arith, swept, announces-announce_removed k (reap_dead w left).0 ts),
      )

  -- A round that raises keeps a session whose pid is known, and announces nothing.
  round_raised :
      (w : World) (agents : Agents T) (ts : T) (k : String) (r : AgentRecord T) (p : ℕ)
      → lookup k agents ≡ some r
      → r.pid ≡ some p
      → (resolve_pending_identities w agents).0 ≡ raised
      → lookup k (reaper_round w agents ts).0 ≡ some r
  unfolding reaper_round finish_round
  round_raised w agents ts k r p h q e = ground (arith, resolve_pending_known w agents k r p h q)

  -- A crash is noticed, in a registry that has no session twice: once the pid of a session is
  -- known and dead, and stays so, then after any rounds of which one finds no broken session
  -- file, whatever the other rounds find, the session is gone and its removal was announced.
  pub crash_is_noticed :
      (rounds : List (World × T)) (agents : Agents T) (k : String) (r : AgentRecord T) (p : ℕ)
      → Distinct (keys agents)
      → lookup k agents ≡ some r
      → r.pid ≡ some p
      → All (λ x. is_pid_alive x.0 (some p) ≡ false) rounds
      → has_clean rounds ≡ true
      → (lookup k (reaper_rounds rounds agents).0 ≡ none)
        × (announces k (reaper_rounds rounds agents).1 ≡ true)
  unfolding reaper_rounds has_clean
  crash_is_noticed [] agents k r p d h q dead c = cc
  crash_is_noticed ((w, ts) ∷ rest) agents k r p d h q (dead, later) c =
      let next = reaper_round w agents ts in
      elim (Outcome-cases (resolve_pending_identities w agents).0) [
        | inl e ↦
            let unclean = resolve_pending_returns w agents in
            let clean_later : has_clean rest ≡ true = ground (arith, unclean) in
            let (gone, told) =
              crash_is_noticed rest next.0 k r p (round-Distinct w agents ts d)
                (round_raised w agents ts k r p h q e) q later clean_later in
            (gone, later-announces k next.1 (reaper_rounds rest next.0).1 told)
        | inr (tt, e) ↦
            let (gone, told) = round_removes w agents ts k r p d h q dead e in
            (
              rounds_absent rest next.0 k (round-Distinct w agents ts d) gone,
              announces-append k next.1 (reaper_rounds rest next.0).1 told,
            )
      ]
