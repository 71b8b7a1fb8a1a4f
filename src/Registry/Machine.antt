-- ===== src/Registry/Machine.antt =====
-- The sweeps of daemon/registry.py, said of the session files and the processes that there are.
use silicon_office.Prelude.{
  ℕ, String, ◌≡◌, refl, sym, subst, ◌∙◌, ◌↔◌, inl, inr, true, none, some, arith, Distinct, contains,
  Bool-cases, Option-cases, if◌then◌else◌, ok,
}
use silicon_office.Prelude.Dict.{lookup, keys}
use silicon_office.Schema.{AgentRecord}
use silicon_office.Sessions.{World, is_pid_alive}
use silicon_office.Sessions.Described.{
  IsRunning, is_pid_alive-IsRunning, IsResolved, resolve_identity-IsResolved,
}
use silicon_office.Registry.{Agents, is_dead, reap_dead, resolve_pending_identities}
use silicon_office.Registry.Sweeps.{entry_is_dead, reap_dead_split, resolve_pending_kept}

module _ {T : Type 0} where
  -- The session is known with a pid, and no process with it runs.
  abbrev pub IsGone : World → Agents T → String → Type 0
  IsGone w agents k =
      (r : AgentRecord T) × (p : ℕ) × (lookup k agents ≡ some r)
      × (r.pid ≡ some p)
      × (IsRunning w p → ⊥)

  dead-IsGone :
      (w : World) (r : AgentRecord T)
      → (is_dead w r ≡ true) ↔ ((p : ℕ) × (r.pid ≡ some p) × (IsRunning w p → ⊥))
  unfolding is_dead
  dead-IsGone w r = elim (Option-cases r.pid) [
    | inl e ↦ (
      λ h. let impossible : ⊥ = ground arith in absurd impossible,
      λ (p, q, n). let impossible : ⊥ = ground arith in absurd impossible,
    )
    | inr (p, e) ↦ (
      λ h. (
        p,
        e,
        λ run.
            let alive = (is_pid_alive-IsRunning w p).1 run in
            let impossible : ⊥ = ground arith in absurd impossible,
      ),
      λ (q, e', n). elim (Bool-cases (is_pid_alive w (some p))) [
        | inl alive ↦
            let same : p ≡ q = ground arith in
            absurd (n (subst (IsRunning w) same ((is_pid_alive-IsRunning w p).0 alive)))
        | inr gone ↦ ground arith
      ],
    )
  ]

  pub entry-IsGone :
      (w : World) (agents : Agents T) (k : String)
      → (entry_is_dead w (lookup k agents) ≡ true) ↔ IsGone w agents k
  entry-IsGone w agents k = elim (Option-cases (lookup k agents)) [
    | inl e ↦ (
      λ h. let impossible : ⊥ = ground arith in absurd impossible,
      λ (r, p, q, _, _). let impossible : ⊥ = ground arith in absurd impossible,
    )
    | inr (r, e) ↦ (
      λ h. let (p, q, n) = (dead-IsGone w r).0 (ground arith) in (r, p, e, q, n),
      λ (s, p, e', q, n). let dead = (dead-IsGone w s).1 (p, q, n) in ground arith,
    )
  ]

  -- The reaper reports exactly the sessions whose pid is known and of which no process runs, and
  -- the registry loses exactly those that are reported.
  pub reap_dead_lem :
      (w : World) (agents : Agents T) (k : String)
      → Distinct (keys agents)
      → let (dead, left) = reap_dead w agents in
        ((contains dead k ≡ true) ↔ IsGone w agents k)
        × (lookup k left ≡ (if contains dead k then none else lookup k agents))
  reap_dead_lem w agents k d =
      let (found, left) = reap_dead_split w agents k d in
      let (to, from) = entry-IsGone w agents k in
      ((λ h. to (sym found ∙ h), λ g. found ∙ from g), left ∙ rw found refl)

  -- A sweep that does not raise keeps the sessions. A record that has a pid stays; one that has
  -- none takes the pid, the entrypoint and the name from the first file that was parsed and names
  -- its session, or stays where no file does. A second sweep over the same files changes nothing.
  pub resolve_pending_lem :
      (w : World) (agents : Agents T) (k : String) (r : AgentRecord T)
      → (resolve_pending_identities w agents).0 ≡ ok tt
      → lookup k agents ≡ some r
      → let left = (resolve_pending_identities w agents).1 in
        (keys left ≡ keys agents)
        × ((r' : AgentRecord T) × (lookup k left ≡ some r') × IsResolved w r r')
        × (resolve_pending_identities w left ≡ (ok tt, left))
  resolve_pending_lem w agents k r h f =
      let (same, (r', resolved, there), again) = resolve_pending_kept w agents k r h f in
      (same, (r', there, resolve_identity-IsResolved w r r' resolved), again)
