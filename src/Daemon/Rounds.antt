-- ===== src/Daemon/Rounds.antt =====
-- The rounds of daemon/reaper.py's `reaper_loop`.
use silicon_office.Prelude.{
  String, ◌==◌, ◌≡◌, refl, true, none, some, [], ◌∷◌, raised, arith, Outcome-cases, inl, inr,
  Bool-cases,
}
use silicon_office.Prelude.Dict.{lookup, keys}
use silicon_office.Schema.{AgentRecord}
use silicon_office.Sessions.{World, resolve_identity}
use silicon_office.Registry.{Agents, resolve_pending_identities}
use silicon_office.Registry.Broken.{has_broken, resolve_raises}
use silicon_office.Registry.Sweeps.{keys-resolve_pending}
use silicon_office.Daemon.{finish_round, reaper_round}

module _ {T : Type 0} where
  pending_raises :
      (w : World) (agents : Agents T) (k : String) (r : AgentRecord T)
      → w.sessions_dir_exists ≡ true
      → has_broken w.session_files ≡ true
      → lookup k agents ≡ some r
      → r.pid ≡ none
      → (resolve_pending_identities w agents).0 ≡ raised
  unfolding resolve_pending_identities lookup
  pending_raises w [] k r d b f p = let impossible : ⊥ = ground arith in absurd impossible
  pending_raises w ((sid, s) ∷ rest) k r d b f p = elim (Outcome-cases (resolve_identity w s)) [
    | inl e ↦ rw (e, resolve_pending_identities) refl
    | inr (s', e) ↦ elim (Bool-cases (k == sid)) [
      | inl q ↦
          let same : s ≡ r = ground arith in
          let failed : resolve_identity w s ≡ raised = resolve_raises w s d b (ground arith) in
          let impossible : ⊥ = ground arith in absurd impossible
      | inr q ↦ rw (e, resolve_pending_identities) (pending_raises w rest k r d b (ground arith) p)
    ]
  ]

  -- While a session file is broken and some session has no pid yet, a round of the reaper removes
  -- no session and announces none, whoever has died: crashes go unnoticed.
  pub broken_file_stops_reaper :
      (w : World) (agents : Agents T) (ts : T) (k : String) (r : AgentRecord T)
      → w.sessions_dir_exists ≡ true
      → has_broken w.session_files ≡ true
      → lookup k agents ≡ some r
      → r.pid ≡ none
      → ((reaper_round w agents ts).1 ≡ []) × (keys (reaper_round w agents ts).0 ≡ keys agents)
  unfolding reaper_round finish_round
  broken_file_stops_reaper w agents ts k r d b f p =
      let failed = pending_raises w agents k r d b f p in
      ground (arith, keys-resolve_pending w agents)
