-- ===== src/NetClient/Reconnect.antt =====
-- `_run` of frontend/net_client.py: the attempts to connect, what each puts on the queue, and the
-- waits between them. A wait is a whole number of units, `u` of them in a tenth of a second; any
-- `u` will do, so the unit may be as fine as the random numbers are.
use silicon_office.Prelude.{
  ℕ, ◌+◌, ◌*◌, ◌/◌, ◌≤◌, min, Bool, true, false, Option, none, some, List, [], ◌∷◌, ◌++◌, All,
  arith, Option-cases, inl, inr, map, Bool-cases, if◌then◌else◌,
}
use silicon_office.Ipc.{Loaded}
use silicon_office.NetClient.{Recv, End, stopped, closed, failed, crashed, read_loop}

abbrev pub min_backoff : ℕ → ℕ
min_backoff u = 5 * u

abbrev pub max_backoff : ℕ → ℕ
max_backoff u = 40 * u

-- A round of the loop: `none` where `create_connection` fails, else the `recv`s of the connection;
-- whether `stop()` is seen by the test after it; and what `random.uniform(0, top)` then gives.
pub record Attempt : Type 0 where
  pub connection : Option (List Recv)
  pub stop_seen : Bool
  pub uniform : ℕ → ℕ

-- `random.uniform(0, top)` is at most `top`.
abbrev pub IsUniform : Attempt → Type 0
IsUniform a = (top : ℕ) → a.uniform top ≤ top

-- The argument of `time.sleep`: `backoff + random.uniform(0, backoff * 0.2)`.
unfoldable pub wait : Attempt → ℕ → ℕ
wait a backoff = backoff + a.uniform (backoff / 5)

pub data Queued (J : Type 0) : Type 0 where
  conn_status : Bool → Queued J
  message : J → Queued J

module _ {J : Type 0} where
  -- From the `put` of the closing status on: `later` is what the rounds that follow queue and
  -- wait.
  unfoldable pub close : Attempt → ℕ → List (Queued J) × List ℕ → List (Queued J) × List ℕ
  close a backoff later =
      if a.stop_seen
      then (conn_status false ∷ [], [])
      else (conn_status false ∷ later.0, wait a backoff ∷ later.1)

  -- After the read loop: an exception other than `OSError` ends the thread at once.
  unfoldable pub after_read :
      End → Attempt → ℕ → List (Queued J) × List ℕ → List (Queued J) × List ℕ
  after_read stopped a backoff later = (conn_status false ∷ [], [])
  after_read closed a backoff later = close a backoff later
  after_read failed a backoff later = close a backoff later
  after_read crashed a backoff later = ([], [])

module _ {J : Type 0} (loads : List ℕ → Loaded J) (u : ℕ) where
  -- `_run` from a `backoff` on: what is put on the queue, and the waits. The attempts end where
  -- the loop's own test sees `stop()`.
  unfoldable pub run : ℕ → List Attempt → List (Queued J) × List ℕ
  run backoff [] = ([], [])
  run backoff (a ∷ rest) =
      let retry = run (min (max_backoff u) (backoff * 2)) rest in
      let again = run (min (max_backoff u) (min_backoff u * 2)) rest in
      elim a.connection [
        | none ↦ close a backoff retry
        | some recvs ↦
            let (objs, end) = read_loop loads [] recvs in
            let (queued, waits) = after_read end a (min_backoff u) again in
            (conn_status true ∷ map message objs ++ queued, waits)
      ]

  -- From half a second to 4.8 seconds.
  abbrev pub IsWait : ℕ → Type 0
  IsWait n = (5 * u ≤ n) × (n ≤ 48 * u)

  close_waits :
      (a : Attempt) (backoff : ℕ) (later : List (Queued J) × List ℕ)
      → IsUniform a
      → min_backoff u ≤ backoff
      → backoff ≤ max_backoff u
      → All IsWait later.1
      → All IsWait (close a backoff later).1
  unfolding close wait
  close_waits a backoff later r l h all = elim (Bool-cases a.stop_seen) [
    | inl e ↦ rw e tt
    | inr e ↦ let bound = r (backoff / 5) in rw e ((omega (arith, l), omega (arith, h, bound)), all)
  ]

  after_read_waits :
      (end : End) (a : Attempt) (later : List (Queued J) × List ℕ)
      → IsUniform a
      → All IsWait later.1
      → All IsWait (after_read end a (min_backoff u) later).1
  unfolding after_read
  after_read_waits stopped a later r h = tt
  after_read_waits closed a later r h =
      close_waits a (min_backoff u) later r (omega arith) (omega arith) h
  after_read_waits failed a later r h =
      close_waits a (min_backoff u) later r (omega arith) (omega arith) h
  after_read_waits crashed a later r h = tt

  -- However the attempts turn out, and if `random.uniform(0, top)` gives at most `top`, each wait
  -- is of half a second at least and of 4.8 seconds at most, a fifth over the largest backoff.
  pub run_waits :
      (backoff : ℕ) (attempts : List Attempt)
      → min_backoff u ≤ backoff
      → backoff ≤ max_backoff u
      → All IsUniform attempts
      → All (λ n. (5 * u ≤ n) × (n ≤ 48 * u)) (run backoff attempts).1
  unfolding run
  run_waits backoff [] l h r = tt
  run_waits backoff (a ∷ rest) l h (ra, r) =
      let retry =
        run_waits (min (max_backoff u) (backoff * 2)) rest (omega arith) (omega arith) r in
      let again =
        run_waits (min (max_backoff u) (min_backoff u * 2)) rest (omega arith) (omega arith) r in
      elim (Option-cases a.connection) [
        | inl e ↦ rw (e, run) (close_waits a backoff _ ra l h retry)
        | inr (recvs, e) ↦ rw (e, run) (after_read_waits (read_loop loads [] recvs).1 a _ ra again)
      ]
