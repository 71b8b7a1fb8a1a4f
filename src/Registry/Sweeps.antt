-- ===== src/Registry/Sweeps.antt =====
-- The sweeps of daemon/registry.py: what the reaper removes, and what identity resolution changes.
use silicon_office.Prelude.{
  String, ◌==◌, ◌≡◌, refl, ap, ◌∙◌, inl, inr, Bool, false, Option, none, some, List, [], ◌∷◌, ok,
  arith, Distinct, contains, Bool-cases, Outcome-cases, Option-cases, ◌⊎◌, if◌then◌else◌,
}
use silicon_office.Prelude.Dict.{lookup, erase, keys, lookup-erase, contains-keys}
use silicon_office.Schema.{AgentRecord}
use silicon_office.Sessions.{
  World, SessionInfo, identify, look_up_identity, find_session_file, resolve_identity,
}
use silicon_office.Registry.{
  Agents, is_dead, dead_sessions, erase_all, reap_dead, resolve_pending_identities,
}
use silicon_office.Registry.Keyed.{IsKeyed, erase-IsKeyed}

nil_of_contains : (xs : List String) → ((k : String) → contains xs k ≡ false) → xs ≡ []
nil_of_contains [] h = refl
nil_of_contains (x ∷ xs) h = ground (arith, h x)

module _ {T : Type 0} where
  -- Whether the entry of a session is one to reap.
  abbrev pub entry_is_dead : World → Option (AgentRecord T) → Bool
  entry_is_dead w none = false
  entry_is_dead w (some r) = is_dead w r

  lookup-erase_all :
      (sids : List String) (agents : Agents T) (k : String)
      → lookup k (erase_all sids agents) ≡ (if contains sids k then none else lookup k agents)
  unfolding erase_all
  lookup-erase_all [] agents k = refl
  lookup-erase_all (sid ∷ sids) agents k =
      ground (arith, lookup-erase_all sids (erase sid agents) k, lookup-erase k sid agents)

  contains-dead_sessions :
      (w : World) (agents : Agents T) (k : String)
      → Distinct (keys agents)
      → contains (dead_sessions w agents) k ≡ entry_is_dead w (lookup k agents)
  unfolding dead_sessions lookup keys
  contains-dead_sessions w [] k d = refl
  contains-dead_sessions w ((sid, r) ∷ rest) k (fresh, d) =
      ground (arith, contains-dead_sessions w rest k d, contains-keys rest sid)

  -- The reaper reports exactly the sessions whose pid is known and not alive, and the registry
  -- loses exactly those.
  pub reap_dead_split :
      (w : World) (agents : Agents T) (k : String)
      → Distinct (keys agents)
      → let (dead, left) = reap_dead w agents in
        (contains dead k ≡ entry_is_dead w (lookup k agents))
        × (lookup k left ≡ (if entry_is_dead w (lookup k agents) then none else lookup k agents))
  unfolding reap_dead
  reap_dead_split w agents k d =
      let found = contains-dead_sessions w agents k d in
      (found, lookup-erase_all (dead_sessions w agents) agents k ∙ rw found)

  erase_all-IsKeyed :
      (sids : List String) (agents : Agents T) → IsKeyed agents → IsKeyed (erase_all sids agents)
  unfolding erase_all
  erase_all-IsKeyed [] agents v = v
  erase_all-IsKeyed (sid ∷ sids) agents v =
      erase_all-IsKeyed sids (erase sid agents) (erase-IsKeyed agents sid v)

  -- A sweep keeps the registry keyed by session id, and a second one, with the same pids alive,
  -- finds nothing to reap.
  pub reap_dead_twice :
      (w : World) (agents : Agents T)
      → IsKeyed agents
      → IsKeyed (reap_dead w agents).1 × ((reap_dead w (reap_dead w agents).1).0 ≡ [])
  unfolding reap_dead
  reap_dead_twice w agents v =
      let kept = erase_all-IsKeyed (dead_sessions w agents) agents v in
      (
        kept,
        nil_of_contains _ λ k.
            contains-dead_sessions w _ k kept.distinct
            ∙ ap (entry_is_dead w) (unfold reap_dead in (reap_dead_split w agents k v.distinct).1)
            ∙ ground arith,
      )

  identify_idem :
      (r : AgentRecord T) (info : SessionInfo) → identify (identify r info) info ≡ identify r info
  unfolding identify
  identify_idem r info = ground arith

  look_up_found :
      (w : World) (r : AgentRecord T) (info : SessionInfo)
      → find_session_file w r.session_id ≡ ok (some info)
      → look_up_identity w (identify r info) ≡ ok (identify r info)
  unfolding look_up_identity identify
  look_up_found w r info h = rw h (ap ok (identify_idem r info))

  resolve_found :
      (w : World) (r : AgentRecord T) (info : SessionInfo)
      → find_session_file w r.session_id ≡ ok (some info)
      → resolve_identity w (identify r info) ≡ ok (identify r info)
  unfolding resolve_identity
  resolve_found w r info h = ground (arith, look_up_found w r info h)

  resolve_shape :
      (w : World) (r r' : AgentRecord T)
      → resolve_identity w r ≡ ok r'
      → (r' ≡ r)
        ⊎ ((info : SessionInfo) × (find_session_file w r.session_id ≡ ok (some info))
            × (r' ≡ identify r info))
  unfolding resolve_identity look_up_identity
  resolve_shape w r r' h = elim (Outcome-cases (find_session_file w r.session_id)) [
    | inl e ↦ inl (ground arith)
    | inr (none, e) ↦ inl (ground arith)
    | inr (some info, e) ↦ elim (Option-cases r.pid) [
      | inl n ↦ inr (info, e, ground arith)
      | inr (p, n) ↦ inl (ground arith)
    ]
  ]

  -- Resolving an identity that was just resolved, over the same session files, changes nothing
  -- more, also if the file had no pid.
  pub resolve_identity_idem :
      (w : World) (r r' : AgentRecord T)
      → resolve_identity w r ≡ ok r'
      → resolve_identity w r' ≡ ok r'
  resolve_identity_idem w r r' h = elim (resolve_shape w r r' h) [
    | inl e ↦ ap (resolve_identity w) e ∙ h
    | inr (info, found, e) ↦ rw e (resolve_found w r info found)
  ]

  pub keys-resolve_pending :
      (w : World) (agents : Agents T) → keys (resolve_pending_identities w agents).1 ≡ keys agents
  unfolding resolve_pending_identities keys
  keys-resolve_pending w [] = refl
  keys-resolve_pending w ((sid, r) ∷ rest) = elim (Outcome-cases (resolve_identity w r)) [
    | inl e ↦ rw (e, resolve_pending_identities)
    | inr (r', e) ↦
        rw (e, resolve_pending_identities) (ap (λ l. sid ∷ l) (keys-resolve_pending w rest))
  ]

  resolve_pending_lookup :
      (w : World) (agents : Agents T)
      → (resolve_pending_identities w agents).0 ≡ ok tt
      → (k : String) (r : AgentRecord T) → lookup k agents ≡ some r
      → (r' : AgentRecord T) × (resolve_identity w r ≡ ok r')
        × (lookup k (resolve_pending_identities w agents).1 ≡ some r')
  unfolding resolve_pending_identities lookup
  resolve_pending_lookup w [] h k r f = let impossible : ⊥ = ground arith in absurd impossible
  resolve_pending_lookup w ((sid, s) ∷ rest) h k r f = elim (Outcome-cases (resolve_identity w s)) [
    | inl e ↦ let impossible : ⊥ = ground arith in absurd impossible
    | inr (s', e) ↦ elim (Bool-cases (k == sid)) [
      | inl q ↦ (s', ground arith, ground arith)
      | inr q ↦
          let (r', here, there) = resolve_pending_lookup w rest (ground arith) k r (ground arith) in
          (r', here, ground arith)
    ]
  ]

  resolve_pending_again :
      (w : World) (agents : Agents T)
      → (resolve_pending_identities w agents).0 ≡ ok tt
      → resolve_pending_identities w (resolve_pending_identities w agents).1
        ≡ (ok tt, (resolve_pending_identities w agents).1)
  unfolding resolve_pending_identities
  resolve_pending_again w [] h = refl
  resolve_pending_again w ((sid, r) ∷ rest) h = elim (Outcome-cases (resolve_identity w r)) [
    | inl e ↦ let impossible : ⊥ = ground arith in absurd impossible
    | inr (r', e) ↦
        rw (e, resolve_pending_identities)
          (ground
            (arith, resolve_identity_idem w r r' e, resolve_pending_again w rest (ground arith)))
  ]

  -- A sweep that does not raise has resolved every record: the sessions stay, what the dict holds
  -- for one afterwards is what resolving its record gives, and a second sweep over the same
  -- session files changes nothing.
  pub resolve_pending_kept :
      (w : World) (agents : Agents T) (k : String) (r : AgentRecord T)
      → (resolve_pending_identities w agents).0 ≡ ok tt
      → lookup k agents ≡ some r
      → let left = (resolve_pending_identities w agents).1 in
        (keys left ≡ keys agents)
        × ((r' : AgentRecord T) × (resolve_identity w r ≡ ok r') × (lookup k left ≡ some r'))
        × (resolve_pending_identities w left ≡ (ok tt, left))
  resolve_pending_kept w agents k r h f = (
    keys-resolve_pending w agents,
    resolve_pending_lookup w agents h k r f,
    resolve_pending_again w agents h,
  )
