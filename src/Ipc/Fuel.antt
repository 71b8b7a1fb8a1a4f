-- ===== src/Ipc/Fuel.antt =====
-- The loop of `NDJSONBuffer.feed` in common/ipc.py ends: each round takes a newline out of the
-- buffer.
use silicon_office.Prelude.{
  ℕ, zero, suc, ◌<◌, ◌≡◌, refl, ap, false, none, some, List, [], ◌∷◌, length, arith, Outcome, ok,
  raised, Option-cases, inl, inr,
}
use silicon_office.Ipc.{Loaded, split_line, emit, drain, feed}
use silicon_office.Ipc.Scan.{has_newline}

-- A line and what follows it, with its newline, are what there was.
split_line_shorter :
    (bs line rest : List ℕ) → split_line bs ≡ some (line, rest) → length rest < length bs
unfolding split_line
split_line_shorter [] line rest h = let impossible : ⊥ = ground arith in absurd impossible
split_line_shorter (b ∷ bs) line rest h = elim (Option-cases (split_line bs)) [
  | inl e ↦ ground arith
  | inr ((l, r), e) ↦ ground (arith, split_line_shorter bs l r e)
]

split_line-none : (bs : List ℕ) → split_line bs ≡ none → has_newline bs ≡ false
unfolding split_line has_newline
split_line-none [] h = refl
split_line-none (b ∷ bs) h = elim (Option-cases (split_line bs)) [
  | inl e ↦ ground (arith, split_line-none bs e)
  | inr ((l, r), e) ↦ let impossible : ⊥ = ground arith in absurd impossible
]

-- When `feed` returns, what it leaves in the buffer holds no newline.
unfoldable pub IsDrained : {J : Type 0} → Outcome (List J) × List ℕ → Type 0
IsDrained (raised, rest) = Unit
IsDrained (ok _, rest) = has_newline rest ≡ false

module _ {J : Type 0} (loads : List ℕ → Loaded J) where
  -- Beyond the number of bytes in the buffer, fuel makes no difference.
  drain_stable :
      (fuel more : ℕ) (buf : List ℕ)
      → length buf < fuel
      → length buf < more
      → drain loads fuel buf ≡ drain loads more buf
  unfolding drain
  drain_stable zero more buf h m = absurd (omega arith)
  drain_stable (suc fuel) zero buf h m = absurd (omega arith)
  drain_stable (suc fuel) (suc more) buf h m = elim (Option-cases (split_line buf)) [
    | inl e ↦ rw (e, drain) refl
    | inr ((line, rest), e) ↦
        let shorter = split_line_shorter buf line rest e in
        rw (e, drain)
          (ap (emit loads line rest)
            (drain_stable fuel more rest (omega (arith, shorter)) (omega (arith, shorter))))
  ]

  emit_ok :
      (line after rest : List ℕ) (objs : List J) (later : Outcome (List J) × List ℕ)
      → emit loads line after later ≡ (ok objs, rest)
      → (objs' : List J) × (later ≡ (ok objs', rest))
  unfolding emit
  emit_ok line after rest objs (raised, left) e =
      let impossible : ⊥ = ground arith in absurd impossible
  emit_ok line after rest objs (ok found, left) e = (found, ground arith)

  drain_done :
      (fuel : ℕ) (buf rest : List ℕ) (objs : List J)
      → length buf < fuel
      → drain loads fuel buf ≡ (ok objs, rest)
      → has_newline rest ≡ false
  unfolding drain
  drain_done zero buf rest objs h e = absurd (omega arith)
  drain_done (suc fuel) buf rest objs h e = elim (Option-cases (split_line buf)) [
    | inl q ↦ ground (arith, split_line-none buf q)
    | inr ((line, after), q) ↦
        let shorter = split_line_shorter buf line after q in
        let (objs', e') =
          emit_ok line after rest objs (drain loads fuel after) (rw (q, drain) at e) in
        drain_done fuel after rest objs' (omega (arith, shorter)) e'
  ]

  -- The loop ends: with any fuel beyond the number of bytes in the buffer it gives what `feed`
  -- gives, and `feed`, when it returns, leaves no newline in the buffer.
  pub drain_ends :
      (fuel : ℕ) (buf : List ℕ)
      → length buf < fuel
      → (drain loads fuel buf ≡ feed loads [] buf) × IsDrained (feed loads [] buf)
  unfolding feed IsDrained
  drain_ends fuel buf h =
      (drain_stable fuel (suc (length buf)) buf h (omega arith), ended (feed loads [] buf) refl)
    where
      ended : (r : Outcome (List J) × List ℕ) → feed loads [] buf ≡ r → IsDrained r
      ended (raised, rest) e = tt
      ended (ok objs, rest) e =
          drain_done (suc (length buf)) buf rest objs (omega arith) (unfold feed in e)
