-- ===== src/Daemon/Start.antt =====
-- `_cold_start` of daemon/main.py: what the registry holds before the first event.
use silicon_office.Prelude.{
  String, ◌==◌, ◌≡◌, refl, ◌∙◌, Bool, true, false, Option, none, some, is_some, List, [], ◌∷◌, ok,
  All, arith, Outcome-cases, ok_injective, subst, Bool-cases, inl, inr, keep, if◌then◌else◌,
}
use silicon_office.Prelude.Dict.{lookup, keys, lookup-insert, lookup-nil}
use silicon_office.Schema.{AgentRecord}
use silicon_office.Sessions.{
  World, SessionInfo, is_pid_alive, read_session_files, list_live_sessions,
}
use silicon_office.Registry.{Agents, seed, is_dead}
use silicon_office.Registry.Keyed.{IsKeyed, seed-IsKeyed}
use silicon_office.Registry.Sweeps.{entry_is_dead}
use silicon_office.Daemon.{cold_record, seed_info, seed_all, cold_start}

-- Whether a file names the session; the empty name is none.
abbrev pub names_session : String → Option String → Bool
names_session k none = false
names_session k (some sid) = if sid == "" then false else k == sid

unfoldable pub named_in : String → List SessionInfo → Bool
named_in k [] = false
named_in k (info ∷ infos) = if names_session k info.session_id then true else named_in k infos

unnamed_session : (o : Option String) → names_session "" o ≡ false
unnamed_session none = refl
unnamed_session (some sid) = ground arith

pub named_in_unnamed : (infos : List SessionInfo) → named_in "" infos ≡ false
unfolding named_in
named_in_unnamed [] = refl
named_in_unnamed (info ∷ infos) =
    ground (arith, named_in_unnamed infos, unnamed_session info.session_id)

AllAlive : World → List SessionInfo → Type 0
AllAlive w infos = All (λ info. is_pid_alive w info.pid ≡ true) infos

keep-AllAlive :
    (w : World) (infos : List SessionInfo)
    → AllAlive w (keep (λ info. is_pid_alive w info.pid) infos)
unfolding keep AllAlive
keep-AllAlive w [] = tt
keep-AllAlive w (info ∷ infos) = elim (Bool-cases (is_pid_alive w info.pid)) [
  | inl e ↦ rw (e, keep) (e, keep-AllAlive w infos)
  | inr e ↦ rw (e, keep) (keep-AllAlive w infos)
]

live-AllAlive :
    (w : World) (infos : List SessionInfo) → list_live_sessions w ≡ ok infos → AllAlive w infos
unfolding list_live_sessions
live-AllAlive w infos h = elim (Outcome-cases (read_session_files w)) [
  | inl e ↦ let impossible : ⊥ = ground arith in absurd impossible
  | inr (all, e) ↦ subst (AllAlive w) (ok_injective (ground arith)) (keep-AllAlive w all)
]

module _ {T : Type 0} where
  seed_info-IsKeyed :
      (agents : Agents T) (info : SessionInfo) (o : Option String) (now : T)
      → IsKeyed agents
      → IsKeyed (seed_info agents info o now)
  unfolding seed_info
  seed_info-IsKeyed agents info none now v = v
  seed_info-IsKeyed agents info (some sid) now v = elim (Bool-cases (sid == "")) [
    | inl e ↦ rw e v
    | inr e ↦ rw e (seed-IsKeyed agents (cold_record sid info now) v)
  ]

  seed_all-IsKeyed :
      (agents : Agents T) (infos : List SessionInfo) (now : T)
      → IsKeyed agents
      → IsKeyed (seed_all agents infos now)
  unfolding seed_all
  seed_all-IsKeyed agents [] now v = v
  seed_all-IsKeyed agents (info ∷ infos) now v =
      seed_all-IsKeyed (seed_info agents info info.session_id now) infos now
        (seed_info-IsKeyed agents info info.session_id now v)

  lookup-seed_info :
      (agents : Agents T) (info : SessionInfo) (o : Option String) (now : T) (k : String)
      → is_some (lookup k (seed_info agents info o now))
        ≡ (if names_session k o then true else is_some (lookup k agents))
  unfolding seed_info seed cold_record
  lookup-seed_info agents info none now k = refl
  lookup-seed_info agents info (some sid) now k = elim (Bool-cases (sid == "")) [
    | inl e ↦ rw e refl
    | inr e ↦ rw e (rw lookup-insert (ground arith))
  ]

  lookup-seed_all :
      (agents : Agents T) (infos : List SessionInfo) (now : T) (k : String)
      → is_some (lookup k (seed_all agents infos now))
        ≡ (if named_in k infos then true else is_some (lookup k agents))
  unfolding seed_all named_in
  lookup-seed_all agents [] now k = refl
  lookup-seed_all agents (info ∷ infos) now k = ground (
    arith,
    lookup-seed_all (seed_info agents info info.session_id now) infos now k,
    lookup-seed_info agents info info.session_id now k,
  )

  alive-seed_info :
      (w : World) (agents : Agents T) (info : SessionInfo) (o : Option String) (now : T)
      → is_pid_alive w info.pid ≡ true
      → ((k : String) → entry_is_dead w (lookup k agents) ≡ false)
      → (k : String) → entry_is_dead w (lookup k (seed_info agents info o now)) ≡ false
  unfolding seed_info seed cold_record is_dead
  alive-seed_info w agents info none now a h k = h k
  alive-seed_info w agents info (some sid) now a h k = elim (Bool-cases (sid == "")) [
    | inl e ↦ rw e (h k)
    | inr e ↦ rw e (rw lookup-insert (ground (arith, h k, a)))
  ]

  alive-seed_all :
      (w : World) (agents : Agents T) (infos : List SessionInfo) (now : T)
      → AllAlive w infos
      → ((k : String) → entry_is_dead w (lookup k agents) ≡ false)
      → (k : String) → entry_is_dead w (lookup k (seed_all agents infos now)) ≡ false
  unfolding seed_all AllAlive
  alive-seed_all w agents [] now a h k = h k
  alive-seed_all w agents (info ∷ infos) now (a, rest) h k =
      alive-seed_all w (seed_info agents info info.session_id now) infos now rest
        (alive-seed_info w agents info info.session_id now a h) k

  -- A cold start that does not raise leaves a registry that is keyed by session id, that knows a
  -- session exactly if the file of a live process names it, and in which no session is one that
  -- the reaper would remove.
  pub cold_start_seeded :
      (w : World) (now : T) (agents : Agents T) (infos : List SessionInfo)
      → list_live_sessions w ≡ ok infos
      → cold_start w now ≡ ok agents
      → IsKeyed agents
        × ((k : String)
            → (is_some (lookup k agents) ≡ named_in k infos)
              × (entry_is_dead w (lookup k agents) ≡ false))
  unfolding cold_start
  cold_start_seeded w now agents infos l h =
      let e : seed_all [] infos now ≡ agents = ground arith in
      let none_yet : IsKeyed {T = T} [] = record {
        own_key = λ k r q. let e' = lookup-nil {V = AgentRecord T} k in ground arith;
        distinct = unfold keys in tt;
      } in
      subst
        (λ d.
          IsKeyed d
          × ((k : String)
              → (is_some (lookup k d) ≡ named_in k infos) × (entry_is_dead w (lookup k d) ≡ false)))
        e
        (
          seed_all-IsKeyed [] infos now none_yet,
          λ k. (
            lookup-seed_all [] infos now k ∙ rw lookup-nil (ground arith),
            alive-seed_all w [] infos now (live-AllAlive w infos l) (λ j. rw lookup-nil refl) k,
          ),
        )
