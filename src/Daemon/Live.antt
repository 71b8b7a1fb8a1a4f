-- ===== src/Daemon/Live.antt =====
-- `_cold_start` of daemon/main.py, said of the session files and the processes that there are.
use silicon_office.Prelude.{
  ℕ, String, ==_iff, ◌≡◌, ◌≢◌, refl, sym, ◌∙◌, subst, ◌↔◌, inl, inr, true, some, is_some, List, [],
  ◌∷◌, Any, keep, ok, ok_injective, arith, Bool-cases, Option-cases, Outcome-cases,
}
use silicon_office.Prelude.Dict.{lookup}
use silicon_office.Sessions.{
  World, SessionInfo, FileRead, parsed, skipped, broken, is_pid_alive, parse_files,
  list_live_sessions,
}
use silicon_office.Sessions.Described.{files, IsRunning, is_pid_alive-IsRunning, read-files}
use silicon_office.Registry.{Agents}
use silicon_office.Registry.Keyed.{IsKeyed}
use silicon_office.Registry.Machine.{IsGone, entry-IsGone}
use silicon_office.Daemon.{cold_start}
use silicon_office.Daemon.Start.{names_session, named_in, named_in_unnamed, cold_start_seeded}

-- A file that was parsed names the session, and a process with its pid runs.
abbrev pub IsLive : World → String → FileRead → Type 0
IsLive w k (parsed info) =
    (info.session_id ≡ some k) × ((p : ℕ) × (info.pid ≡ some p) × IsRunning w p)
IsLive w k skipped = ⊥
IsLive w k broken = ⊥

names_session_iff :
    (k : String) (info : SessionInfo)
    → k ≢ ""
    → (names_session k info.session_id ≡ true) ↔ (info.session_id ≡ some k)
names_session_iff k info n = elim (Option-cases info.session_id) [
  | inl e ↦ ground arith
  | inr (s, e) ↦ ground (arith, ==_iff k s, ==_iff s "", ==_iff k "", n)
]

alive_iff :
    (w : World) (info : SessionInfo)
    → (is_pid_alive w info.pid ≡ true) ↔ ((p : ℕ) × (info.pid ≡ some p) × IsRunning w p)
unfolding is_pid_alive
alive_iff w info = elim (Option-cases info.pid) [
  | inl e ↦ (
    λ h. let impossible : ⊥ = ground arith in absurd impossible,
    λ (p, q, _). let impossible : ⊥ = ground arith in absurd impossible,
  )
  | inr (p, e) ↦ (
    λ h. (p, e, (is_pid_alive-IsRunning w p).0 (ground arith)),
    λ (q, e', run). let alive = (is_pid_alive-IsRunning w q).1 run in ground arith,
  )
]

named-IsLive_one :
    (w : World) (k : String) (info : SessionInfo) (fs : List FileRead) (rest : List SessionInfo)
    → k ≢ ""
    → (named_in k (keep (λ i. is_pid_alive w i.pid) rest) ≡ true) ↔ Any (IsLive w k) fs
    → (named_in k (keep (λ i. is_pid_alive w i.pid) (info ∷ rest)) ≡ true)
      ↔ Any (IsLive w k) (parsed info ∷ fs)
unfolding named_in keep
named-IsLive_one w k info fs rest n (to, from) = (
  λ h. elim (Bool-cases (is_pid_alive w info.pid)) [
    | inl alive ↦ elim (Bool-cases (names_session k info.session_id)) [
      | inl e ↦ inl ((names_session_iff k info n).0 e, (alive_iff w info).0 alive)
      | inr e ↦ inr (to (ground arith))
    ]
    | inr gone ↦ inr (to (ground arith))
  ],
  λ a. elim a [
    | inl (own, live) ↦
        let names = (names_session_iff k info n).1 own in
        let alive = (alive_iff w info).1 live in ground arith
    | inr later ↦ let there = from later in ground arith
  ],
)

named-IsLive :
    (w : World) (k : String) (fs : List FileRead) (infos : List SessionInfo)
    → k ≢ ""
    → parse_files fs ≡ ok infos
    → (named_in k (keep (λ info. is_pid_alive w info.pid) infos) ≡ true) ↔ Any (IsLive w k) fs
unfolding parse_files named_in keep
named-IsLive w k [] infos n h =
    subst (λ l. (named_in k (keep (λ i. is_pid_alive w i.pid) l) ≡ true) ↔ Any (IsLive w k) [])
      (ok_injective h) (λ e. let impossible : ⊥ = ground arith in absurd impossible, λ a. absurd a)
named-IsLive w k (parsed info ∷ fs) infos n h = elim (Outcome-cases (parse_files fs)) [
  | inl e ↦ let impossible : ⊥ = ground arith in absurd impossible
  | inr (rest, e) ↦
      let same : info ∷ rest ≡ infos = ok_injective (ground arith) in
      subst
        (λ l.
          (named_in k (keep (λ i. is_pid_alive w i.pid) l) ≡ true)
          ↔ Any (IsLive w k) (parsed info ∷ fs))
        same (named-IsLive_one w k info fs rest n (named-IsLive w k fs rest n e))
]
named-IsLive w k (skipped ∷ fs) infos n h =
    let (to, from) = named-IsLive w k fs infos n h in
    (λ e. inr (to e), λ a. elim a [ inl x ↦ absurd x | inr later ↦ from later ])
named-IsLive w k (broken ∷ fs) infos n h = let impossible : ⊥ = ground arith in absurd impossible

list_live_lem :
    (w : World) (infos : List SessionInfo)
    → parse_files (files w) ≡ ok infos
    → list_live_sessions w ≡ ok (keep (λ info. is_pid_alive w info.pid) infos)
unfolding list_live_sessions
list_live_lem w infos h = rw (read-files w) (rw h refl)

module _ {T : Type 0} where
  -- A cold start that does not raise leaves a registry that is keyed by session id, that knows a
  -- session exactly if its name is not empty and a file that was parsed names it with the pid of a
  -- process that runs, and that holds no session whose process is gone.
  pub cold_start_lem :
      (w : World) (now : T) (agents : Agents T)
      → cold_start w now ≡ ok agents
      → IsKeyed agents
        × ((k : String)
            → ((is_some (lookup k agents) ≡ true) ↔ ((k ≢ "") × Any (IsLive w k) (files w)))
              × (IsGone w agents k → ⊥))
  unfolding cold_start list_live_sessions
  cold_start_lem w now agents h = elim (Outcome-cases (parse_files (files w))) [
    | inl e ↦ let impossible : ⊥ = ground (arith, read-files w) in absurd impossible
    | inr (infos, e) ↦
        let live = keep (λ info. is_pid_alive w info.pid) infos in
        let (keyed, each) = cold_start_seeded w now agents live (list_live_lem w infos e) h in
        (
          keyed,
          λ k.
              let (known, lives) = each k in
              (
                (
                  λ q.
                      let n : k ≢ "" = λ same.
                        let none_named = named_in_unnamed live in
                        let impossible : ⊥ = ground arith in absurd impossible in
                      (n, (named-IsLive w k (files w) infos n e).0 (sym known ∙ q)),
                  λ (n, a). known ∙ (named-IsLive w k (files w) infos n e).1 a,
                ),
                λ g.
                    let dead = (entry-IsGone w agents k).1 g in
                    let impossible : ⊥ = ground arith in absurd impossible,
              ),
        )
  ]
