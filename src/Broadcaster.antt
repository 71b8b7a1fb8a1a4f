-- ===== src/Broadcaster.antt =====
-- daemon/broadcaster.py: the connected frontends and what a broadcast does to them. A writer is a
-- text that tells it from the others; `write w` is what `_write` returns for it: False for one of
-- the errors of a dead socket.
use silicon_office.Prelude.{
  String, ◌==◌, ◌≡◌, refl, ◌∙◌, Bool, not, ◌&&◌, List, [], ◌∷◌, contains, keep, Distinct,
  contains-keep, keep-Distinct, arith, if◌then◌else◌,
}
use silicon_office.Layout.Sync.{IsSetOrder}

-- `self._clients.add(writer)` and `self._clients.discard(writer)`
unfoldable pub add : String → List String → List String
add w clients = if contains clients w then clients else w ∷ clients

unfoldable pub discard : String → List String → List String
discard w clients = keep (λ x. not (x == w)) clients

-- The first loop of `_broadcast`: the writers that took the message, and `dead`.
unfoldable pub write_each : (String → Bool) → List String → List String × List String
write_each write [] = ([], [])
write_each write (w ∷ ws) =
    let (reached, dead) = write_each write ws in
    if write w then (w ∷ reached, dead) else (reached, w ∷ dead)

unfoldable pub discard_each : List String → List String → List String
discard_each [] clients = clients
discard_each (w ∷ ws) clients = discard_each ws (discard w clients)

-- `broadcast_diff` and `broadcast_snapshot`, up to the message: the writers that took it, and the
-- clients afterwards. Other tasks run while a write waits: `meanwhile` holds the clients at the
-- end of the writes. `order` is the order of iteration over the set. Every write returns here, as
-- taken or as failed; one that waits without end, on a client that reads nothing, is not modelled.
unfoldable pub broadcast :
    (List String → List String)
    → (String → Bool)
    → List String
    → List String
    → List String × List String
broadcast order write [] meanwhile = ([], meanwhile)
broadcast order write (c ∷ cs) meanwhile =
    let (reached, dead) = write_each write (order (c ∷ cs)) in
    (reached, discard_each dead meanwhile)

-- `handle_client`: the clients while it serves a connection, and after it; whether the snapshot
-- got through makes no difference.
unfoldable pub serve : String → List String → List String × List String
unfolding add discard
serve w clients = (add w clients, discard w (add w clients))

contains-write_each :
    (write : String → Bool) (ws : List String) (k : String)
    → (contains (write_each write ws).0 k ≡ (contains ws k && write k))
      × (contains (write_each write ws).1 k ≡ (contains ws k && not (write k)))
unfolding write_each
contains-write_each write [] k = (refl, refl)
contains-write_each write (w ∷ ws) k = ground (arith, contains-write_each write ws k)

write_each-Distinct :
    (write : String → Bool) (ws : List String) → Distinct ws → Distinct (write_each write ws).0
unfolding write_each
write_each-Distinct write [] d = tt
write_each-Distinct write (w ∷ ws) (fresh, d) =
    ground (arith, write_each-Distinct write ws d, contains-write_each write ws w)

contains-discard_each :
    (ws clients : List String) (k : String)
    → contains (discard_each ws clients) k ≡ (contains clients k && not (contains ws k))
unfolding discard_each discard
contains-discard_each [] clients k = ground arith
contains-discard_each (w ∷ ws) clients k = ground (
  arith,
  contains-discard_each ws (discard w clients) k,
  contains-keep (λ x. not (x == w)) clients k,
)

discard_each-Distinct :
    (ws clients : List String) → Distinct clients → Distinct (discard_each ws clients)
unfolding discard_each discard
discard_each-Distinct [] clients d = d
discard_each-Distinct (w ∷ ws) clients d =
    discard_each-Distinct ws (discard w clients) (keep-Distinct _ clients d)

-- If every write returns, a broadcast is written to each client that was connected when it began and whose socket is
-- alive, and to no other, to each once. Afterwards those clients are left that were in the set at
-- the end of the writes and whose write did not fail: a dead socket costs no other client
-- anything, and a client that connected meanwhile stays.
pub broadcast_lem :
    (order : List String → List String) (write : String → Bool) (clients meanwhile : List String)
    → IsSetOrder order
    → Distinct clients
    → let (reached, left) = broadcast order write clients meanwhile in
      Distinct reached
      × ((k : String)
          → (contains reached k ≡ (contains clients k && write k))
            × (contains left k
                ≡ (contains meanwhile k && not (contains clients k && not (write k)))))
unfolding broadcast
broadcast_lem order write [] meanwhile o d = (tt, λ k. (refl, ground arith))
broadcast_lem order write (c ∷ cs) meanwhile o d =
    let ws = order (c ∷ cs) in
    (
      write_each-Distinct write ws (o.once (c ∷ cs) d),
      λ k.
          let (reached, dead) = contains-write_each write ws k in
          let same = o.members (c ∷ cs) k in
          (
            ground (arith, reached, same),
            contains-discard_each (write_each write ws).1 meanwhile k ∙ ground (arith, dead, same),
          ),
    )
