-- ===== src/Ipc/Scan.antt =====
-- The buffer of common/ipc.py against a reader that takes one byte at a time.
use silicon_office.Prelude.{
  ℕ, zero, suc, ◌<◌, ◌≡◌, refl, ap, ◌∙◌, Bool, true, false, ◌||◌, none, some, List, [], ◌∷◌, ◌++◌,
  append-nil, append_assoc, length, length-append, arith, eqb, Outcome, ok, raised, Bool-cases, inl,
  inr,
}
use silicon_office.Ipc.{Loaded, newline, split_line, emit, drain, feed}

unfoldable pub has_newline : List ℕ → Bool
has_newline [] = false
has_newline (b ∷ bs) = eqb b newline || has_newline bs

pub has_newline-append :
    (xs ys : List ℕ) → has_newline (xs ++ ys) ≡ (has_newline xs || has_newline ys)
unfolding has_newline
has_newline-append [] ys = refl
has_newline-append (x ∷ xs) ys = ground (arith, has_newline-append xs ys)

split_line-eq-none : (xs : List ℕ) → has_newline xs ≡ false → split_line xs ≡ none
unfolding split_line has_newline
split_line-eq-none [] h = refl
split_line-eq-none (x ∷ xs) h = ground (arith, split_line-eq-none xs)

pub split_line_at :
    (xs ys : List ℕ) → has_newline xs ≡ false → split_line (xs ++ newline ∷ ys) ≡ some (xs, ys)
unfolding split_line has_newline
split_line_at [] ys h = refl
split_line_at (x ∷ xs) ys h = ground (arith, split_line_at xs ys)

module _ {J : Type 0} (loads : List ℕ → Loaded J) where
  -- `line` holds the bytes since the last newline.
  unfoldable pub scan : List ℕ → List ℕ → Outcome (List J) × List ℕ
  scan line [] = (ok [], line)
  scan line (b ∷ bs) = elim (eqb b newline) [
    | true ↦ emit loads line bs (scan [] bs)
    | false ↦ scan (line ++ b ∷ []) bs
  ]

  pub scan_end :
      (line : List ℕ) (b : ℕ) (bs : List ℕ)
      → eqb b newline ≡ true
      → scan line (b ∷ bs) ≡ emit loads line bs (scan [] bs)
  unfolding scan
  scan_end line b bs e = ground arith

  pub scan_byte :
      (line : List ℕ) (b : ℕ) (bs : List ℕ)
      → eqb b newline ≡ false
      → scan line (b ∷ bs) ≡ scan (line ++ b ∷ []) bs
  unfolding scan
  scan_byte line b bs e = ground arith

  drain-scan :
      (fuel : ℕ) (line bs : List ℕ)
      → length bs < fuel
      → has_newline line ≡ false
      → drain loads fuel (line ++ bs) ≡ scan line bs
  unfolding drain has_newline
  drain-scan zero line bs h n = absurd (omega arith)
  drain-scan (suc fuel) line [] h n =
      unfold scan in rw append-nil (rw (split_line-eq-none line n, drain))
  drain-scan (suc fuel) line (b ∷ bs) h n = elim (Bool-cases (eqb b newline)) [
    | inl e ↦
        let q : b ≡ newline = ground arith in
        rw (scan_end line b bs e, q, split_line_at line bs n, drain)
          (ap (emit loads line bs) (drain-scan fuel [] bs (omega arith) refl))
    | inr e ↦
        rw (scan_byte line b bs e, ← append_assoc line (b ∷ []) bs)
          (drain-scan (suc fuel) (line ++ b ∷ []) bs (omega arith)
            (has_newline-append line (b ∷ []) ∙ ground arith))
  ]

  -- A feed gives what a reader of single bytes gives, and has fuel enough for it.
  pub feed-scan :
      (buf input : List ℕ) → has_newline buf ≡ false → feed loads buf input ≡ scan buf input
  unfolding feed
  feed-scan buf input h =
      drain-scan (suc (length (buf ++ input))) buf input
        (omega (arith, length-append {0} buf input)) h

  -- What a reader makes of two pieces: after an exception in the first it reads no further.
  unfoldable pub after : Outcome (List J) × List ℕ → List ℕ → Outcome (List J) × List ℕ
  after (raised, line) ys = (raised, line ++ ys)
  after (ok objs, line) ys =
      let rest = scan line ys in
      (elim rest.0 [ raised ↦ raised | ok more ↦ ok (objs ++ more) ], rest.1)

  cons_eta :
      (r : Outcome (List J) × List ℕ)
      → r ≡ (elim r.0 [ raised ↦ raised | ok more ↦ ok ([] ++ more) ], r.1)
  cons_eta (ok more, line) = refl
  cons_eta (raised, line) = refl

  emit-after :
      (line rest ys : List ℕ) (r : Outcome (List J) × List ℕ)
      → emit loads line (rest ++ ys) (after r ys) ≡ after (emit loads line rest r) ys
  unfolding emit after
  emit-after line rest ys (raised, l) = ground arith
  emit-after line rest ys (ok objs, l) = ground arith

  pub scan-append : (line xs ys : List ℕ) → scan line (xs ++ ys) ≡ after (scan line xs) ys
  unfolding after
  scan-append line [] ys = unfold scan in cons_eta (scan line ys)
  scan-append line (x ∷ xs) ys = elim (Bool-cases (eqb x newline)) [
    | inl e ↦
        rw (scan_end line x (xs ++ ys) e, scan_end line x xs e, scan-append [] xs ys)
          (emit-after line xs ys (scan [] xs))
    | inr e ↦
        rw (scan_byte line x (xs ++ ys) e, scan_byte line x xs e)
          (scan-append (line ++ x ∷ []) xs ys)
  ]
