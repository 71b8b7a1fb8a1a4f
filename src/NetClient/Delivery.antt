-- ===== src/NetClient/Delivery.antt =====
-- The read loop of frontend/net_client.py delivers what the bytes say, however they are cut.
use silicon_office.Prelude.{
  ℕ, ◌≡◌, refl, ap, sym, ◌∙◌, ◌≢◌, false, List, [], ◌∷◌, ◌++◌, All, arith, eqb, Outcome, ok, raised,
  Bool-cases, inl, inr, Outcome-cases,
}
use silicon_office.Ipc.{Loaded, newline, emit, feed}
use silicon_office.Ipc.Scan.{
  has_newline, has_newline-append, scan, scan_end, scan_byte, feed-scan, after, scan-append,
}
use silicon_office.Ipc.Stream.{IsFaithful, stream, feed-stream}
use silicon_office.NetClient.{Recv, timeout, received, os_error, queue_fed, read_loop}

-- The bytes that arrive before the connection ends.
unfoldable pub bytes : List Recv → List ℕ
bytes [] = []
bytes (timeout ∷ rest) = bytes rest
bytes (received [] ∷ rest) = []
bytes (received (b ∷ bs) ∷ rest) = (b ∷ bs) ++ bytes rest
bytes (os_error ∷ rest) = []

module _ {J : Type 0} (loads : List ℕ → Loaded J) where
  emit_tail :
      (line rest : List ℕ) (r : Outcome (List J) × List ℕ)
      → (emit loads line rest r).0 ≢ raised
      → (r.0 ≢ raised) × ((emit loads line rest r).1 ≡ r.1)
  unfolding emit
  emit_tail line rest r h = ground arith

  -- The line that a scan leaves open holds no newline.
  scan_tail :
      (line bs : List ℕ)
      → has_newline line ≡ false
      → (scan loads line bs).0 ≢ raised
      → has_newline (scan loads line bs).1 ≡ false
  unfolding has_newline
  scan_tail line [] n h = unfold scan in n
  scan_tail line (b ∷ bs) n h = elim (Bool-cases (eqb b newline)) [
    | inl e ↦
        let (h', same) =
          emit_tail line bs (scan loads [] bs) (rw (scan_end loads line b bs e) at h) in
        rw (scan_end loads line b bs e, same) (scan_tail [] bs refl h')
    | inr e ↦ rw (scan_byte loads line b bs e) (
        scan_tail (line ++ b ∷ []) bs (has_newline-append line (b ∷ []) ∙ ground arith)
          (rw (scan_byte loads line b bs e) at h))
  ]

  after_ok :
      (r : Outcome (List J) × List ℕ) (ys : List ℕ) {objs : List J}
      → (after loads r ys).0 ≡ ok objs
      → (xs : List J) × (zs : List J) × (r.0 ≡ ok xs)
        × ((scan loads r.1 ys).0 ≡ ok zs)
        × (objs ≡ xs ++ zs)
  unfolding after
  after_ok (raised, l) ys h = let impossible : ⊥ = cc in absurd impossible
  after_ok (ok xs, l) ys h = elim (Outcome-cases (scan loads l ys).0) [
    | inl e ↦ let impossible : ⊥ = ground arith in absurd impossible
    | inr (zs, e) ↦ (xs, zs, refl, e, ground arith)
  ]

  read_loop-scan :
      (recvs : List Recv) (buf : List ℕ) (objs : List J)
      → has_newline buf ≡ false
      → (scan loads buf (bytes recvs)).0 ≡ ok objs
      → (read_loop loads buf recvs).0 ≡ objs
  unfolding read_loop queue_fed bytes
  read_loop-scan [] buf objs n h = unfold scan in ground arith
  read_loop-scan (timeout ∷ rest) buf objs n h = read_loop-scan rest buf objs n h
  read_loop-scan (received [] ∷ rest) buf objs n h = unfold scan in ground arith
  read_loop-scan (os_error ∷ rest) buf objs n h = unfold scan in ground arith
  read_loop-scan (received (b ∷ bs) ∷ rest) buf objs n h =
      let (xs, zs, first, second, joined) =
        after_ok (scan loads buf (b ∷ bs)) (bytes rest)
          (rw (scan-append loads buf (b ∷ bs) (bytes rest)) at h) in
      ap (λ r. (queue_fed r.0 (read_loop loads r.1 rest)).0) (feed-scan loads buf (b ∷ bs) n)
      ∙ rw (first, joined, queue_fed)
          (ap (λ l. xs ++ l)
            (read_loop-scan rest (scan loads buf (b ∷ bs)).1 zs
              (scan_tail buf (b ∷ bs) n (λ e. let impossible : ⊥ = cc in impossible)) second))

  -- Whatever pieces the bytes arrive in, and however many reads time out in between, the messages
  -- on the queue are those that one feed of all the bytes gives, as long as that feed does not
  -- raise.
  pub read_loop-feed :
      (recvs : List Recv) (objs : List J)
      → (feed loads [] (bytes recvs)).0 ≡ ok objs
      → (read_loop loads [] recvs).0 ≡ objs
  unfolding has_newline
  read_loop-feed recvs objs h =
      read_loop-scan recvs [] objs refl
        (ap (λ r. r.0) (sym (feed-scan loads [] (bytes recvs) refl)) ∙ h)

-- The frontend's queue gets the messages that the daemon encoded, in order and once each, however
-- the stream is cut, with a last message that is cut off by the end of the connection left out.
pub read_loop-stream :
    {J : Type 0} (dumps : J → List ℕ) (loads : List ℕ → Loaded J) (recvs : List Recv)
    (objs : List J) (cut : List ℕ)
    → All (IsFaithful dumps loads) objs
    → has_newline cut ≡ false
    → bytes recvs ≡ stream dumps loads objs ++ cut
    → (read_loop loads [] recvs).0 ≡ objs
read_loop-stream dumps loads recvs objs cut f n e =
    read_loop-feed loads recvs objs
      (ap (λ b. (feed loads [] b).0) e ∙ ap (λ r. r.0) (feed-stream dumps loads objs cut f n))
