-- ===== src/NetClient.antt =====
-- frontend/net_client.py: the read loop of the connection, over what each `recv` comes to, and the
-- wait before each attempt to reconnect.
pub mod Delivery
pub mod Reconnect
use silicon_office.Prelude.{
  ℕ, ◌+◌, ◌*◌, List, [], ◌∷◌, ◌++◌, min, if◌then◌else◌, Outcome, ok, raised,
}
use silicon_office.Ipc.{Loaded, feed}

-- A `recv`: it times out, returns bytes (none when the peer closed the connection), or fails.
pub data Recv : Type 0 where
  timeout : Recv
  received : List ℕ → Recv
  os_error : Recv

-- Why the loop ended: `stop()` was called, the peer closed, an `OSError`, another exception.
pub data End : Type 0 where
  stopped closed failed crashed : End

module _ {J : Type 0} where
  -- Puts the messages of one feed in front of what the rounds after it put; an exception ends the
  -- thread.
  unfoldable pub queue_fed : Outcome (List J) → List J × End → List J × End
  queue_fed raised later = ([], crashed)
  queue_fed (ok objs) later = (objs ++ later.0, later.1)

module _ {J : Type 0} (loads : List ℕ → Loaded J) where
  -- `_read_loop`: the messages put on the queue, and how it ended. The events are the `recv`s up
  -- to the moment at which `stop()` is seen.
  unfoldable pub read_loop : List ℕ → List Recv → List J × End
  read_loop buf [] = ([], stopped)
  read_loop buf (timeout ∷ rest) = read_loop buf rest
  read_loop buf (received [] ∷ rest) = ([], closed)
  read_loop buf (received (b ∷ bs) ∷ rest) =
      let fed = feed loads buf (b ∷ bs) in queue_fed fed.0 (read_loop fed.1 rest)
  read_loop buf (os_error ∷ rest) = ([], failed)
