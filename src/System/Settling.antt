-- ===== src/System/Settling.antt =====
-- The steps of System, and what holds between them: in the fields that a view picks, a frontend
-- shows what the registry knows of a session, or a task that is still to run will tell it.
use silicon_office.Prelude.{
  ℕ, String, ◌==◌, ◌≡◌, ◌≢◌, refl, sym, ap, ◌∙◌, true, false, Option, none, some, List, [], ◌∷◌,
  ◌++◌, Distinct, All, arith, Option-cases, inl, inr, if◌then◌else◌,
}
use silicon_office.Prelude.Dict.{lookup, lookup-nil, keys, map_option}
use silicon_office.Schema.{WireAgent}
use silicon_office.Daemon.Objects.{Objects}
use silicon_office.Daemon.Grown.{RefsOwned, Grows}
use silicon_office.Office.{App}
use silicon_office.System.{Task, send_upsert, send_remove, System}
use silicon_office.System.Shows.{known, shown, seen, depicted, told, session_of}

-- The last task in the queue that is about a session.
unfoldable pub latest : String → List Task → Option Task
latest k [] = none
latest k (t ∷ ts) = elim (latest k ts) [
  | some u ↦ some u
  | none ↦ if k == session_of t then some t else none
]

pub latest-nil : (k : String) → latest k [] ≡ none
unfolding latest
latest-nil k = refl

pub latest-append :
    (k : String) (ts : List Task) (t : Task)
    → latest k (ts ++ t ∷ []) ≡ (if k == session_of t then some t else latest k ts)
unfolding latest
latest-append k [] t = ground arith
latest-append k (u ∷ ts) t = ground (arith, latest-append k ts t)

module _ (k : String) (t : Task) (ts : List Task) where
  pub later : (u : Task) → latest k ts ≡ some u → latest k (t ∷ ts) ≡ some u
  unfolding latest
  later u h = ground arith

  pub first : latest k ts ≡ none → (k == session_of t) ≡ true → latest k (t ∷ ts) ≡ some t
  unfolding latest
  first h e = ground arith

  pub neither : latest k ts ≡ none → (k == session_of t) ≡ false → latest k (t ∷ ts) ≡ none
  unfolding latest
  neither h e = ground arith

-- The object that a task refers to.
abbrev pub refers : Task → Option ℕ
refers (send_upsert sid ref) = ref
refers (send_remove sid) = none

-- An upsert has an object, and the session has a name.
abbrev pub IsNamed : Task → Type 0
IsNamed (send_upsert sid none) = ⊥
IsNamed (send_upsert sid (some p)) = sid ≢ ""
IsNamed (send_remove sid) = sid ≢ ""

pub session_of-IsNamed : (t : Task) → IsNamed t → session_of t ≢ ""
session_of-IsNamed (send_upsert sid none) n = absurd n
session_of-IsNamed (send_upsert sid (some p)) n = n
session_of-IsNamed (send_remove sid) n = n

module _ {T : Type 0} where
  -- The last task about a session refers to what the dict holds for it.
  pub record IsSettling {M F : Type 0} (view : WireAgent T → F) (s : System T M) : Type 0 where
    pub promised :
        (k : String) (t : Task) → latest k s.tasks ≡ some t → refers t ≡ lookup k s.objects.refs
    pub level :
        (k w : String) (app : App T M)
        → latest k s.tasks ≡ none
        → lookup w s.frontends ≡ some app
        → seen view (shown app k) ≡ seen view (known s.objects k)
    pub refs_owned : RefsOwned s.objects
    pub tasks_named : All IsNamed s.tasks
    pub named : lookup "" s.objects.refs ≡ none
    pub distinct : Distinct (keys s.objects.refs)

  -- Such a task will tell what the registry knows.
  pub told-known :
      (o : Objects T) (k : String) (t : Task)
      → IsNamed t
      → refers t ≡ lookup k o.refs
      → told o.heap t ≡ known o k
  unfolding told known
  told-known o k (send_upsert sid none) n e = absurd n
  told-known o k (send_upsert sid (some p)) n e =
      ap (map_option (λ q. some (depicted (o.heap q)))) e
  told-known o k (send_remove sid) n e = ap (map_option (λ q. some (depicted (o.heap q)))) e

  -- What is known of the other sessions stays.
  pub known_elsewhere :
      (sid k : String) (o o' : Objects T)
      → Grows sid o o'
      → RefsOwned o
      → k ≢ sid
      → known o' k ≡ known o k
  unfolding known
  known_elsewhere sid k o o' g v n = elim (Option-cases (lookup k o.refs)) [
    | inl e ↦ rw (g.others k n) (rw e refl)
    | inr (p, e) ↦
        let (lt, own) = v k p e in
        rw (g.others k n)
          (rw e (ap (λ r. some (some (depicted r))) (g.elsewhere p lt (λ q. n (sym own ∙ q)))))
  ]

module _ {T M : Type 0} where
  -- The same with no frontend.
  abbrev pub clear : System T M → System T M
  clear s = record s { frontends = [] }

  -- No view matters then.
  pub clear-IsSettling :
      {F G : Type 0} (view : WireAgent T → F) (other : WireAgent T → G) (s : System T M)
      → IsSettling view s
      → IsSettling other (clear s)
  clear-IsSettling view other s v = record {
    promised = v.promised;
    level = λ k w app h there.
        let impossible : ⊥ = cc (lookup-nil {V = App T M} w) in absurd impossible;
    refs_owned = v.refs_owned;
    tasks_named = v.tasks_named;
    named = v.named;
    distinct = v.distinct;
  }
