-- ===== src/Ipc/Stream.antt =====
-- What common/ipc.py writes it reads back, in whatever pieces the bytes arrive.
use silicon_office.Prelude.{
  ℕ, ◌≡◌, refl, ap, ◌∙◌, false, some, List, [], ◌∷◌, ◌++◌, append_assoc, append-nil, All, arith, ok,
}
use silicon_office.Ipc.{
  Loaded, value, newline, is_blank, rstrip_newlines, encode_message, decode_message, emit, feed,
}
use silicon_office.Ipc.Scan.{has_newline, scan, scan_end, scan_byte, feed-scan}

rstrip-append : (xs : List ℕ) → has_newline xs ≡ false → rstrip_newlines (xs ++ newline ∷ []) ≡ xs
unfolding rstrip_newlines has_newline
rstrip-append [] h = refl
rstrip-append (b ∷ []) h = ground arith
rstrip-append (b ∷ c ∷ bs) h = rw (rstrip-append (c ∷ bs) (ground arith))

module _ {J : Type 0} (dumps : J → List ℕ) (loads : List ℕ → Loaded J) where
  -- What `json` promises of an object: its text is one line that is not blank, and loading that
  -- text gives the object back.
  pub record IsFaithful (obj : J) : Type 0 where
    pub one_line : has_newline (dumps obj) ≡ false
    pub visible : is_blank (dumps obj) ≡ false
    pub loaded : loads (dumps obj) ≡ value obj

  -- One UDP datagram is one message: the listener strips the newline and decodes what was encoded.
  pub datagram_roundtrip :
      (obj : J)
      → IsFaithful obj
      → decode_message loads (rstrip_newlines (encode_message dumps obj)) ≡ ok (some obj)
  unfolding decode_message encode_message
  datagram_roundtrip obj f = rw (rstrip-append (dumps obj) f.one_line, f.loaded)

  -- The bytes of messages that are sent one after the other.
  unfoldable pub stream : List J → List ℕ
  stream [] = []
  stream (obj ∷ objs) = encode_message dumps obj ++ stream objs

  scan_line :
      (line xs ys : List ℕ)
      → has_newline xs ≡ false
      → scan loads line (xs ++ newline ∷ ys) ≡ emit loads (line ++ xs) ys (scan loads [] ys)
  unfolding has_newline
  scan_line line [] ys h = rw append-nil (scan_end loads line newline ys refl)
  scan_line line (x ∷ xs) ys h =
      scan_byte loads line x (xs ++ newline ∷ ys) (ground arith)
      ∙ scan_line (line ++ x ∷ []) xs ys (ground arith)
      ∙ ap (λ l. emit loads l ys (scan loads [] ys)) (append_assoc line (x ∷ []) xs)

  scan_rest :
      (line rest : List ℕ) → has_newline rest ≡ false → scan loads line rest ≡ (ok [], line ++ rest)
  unfolding has_newline
  scan_rest line [] h = unfold scan in rw append-nil
  scan_rest line (b ∷ bs) h =
      scan_byte loads line b bs (ground arith)
      ∙ scan_rest (line ++ b ∷ []) bs (ground arith)
      ∙ ap (λ l. (ok [], l)) (append_assoc line (b ∷ []) bs)

  emit_message :
      (obj : J) (rest : List ℕ) (objs : List J) (left : List ℕ)
      → IsFaithful obj
      → emit loads (dumps obj) rest (ok objs, left) ≡ (ok (obj ∷ objs), left)
  unfolding emit decode_message
  emit_message obj rest objs left f = rw (f.visible, f.loaded)

  pub scan-stream :
      (objs : List J) (rest : List ℕ)
      → All IsFaithful objs
      → has_newline rest ≡ false
      → scan loads [] (stream objs ++ rest) ≡ (ok objs, rest)
  unfolding stream encode_message
  scan-stream [] rest f h = scan_rest [] rest h
  scan-stream (obj ∷ objs) rest (f, fs) h =
      let later = stream objs ++ rest in
      ap (scan loads []) (
        append_assoc (dumps obj ++ newline ∷ []) (stream objs) rest
        ∙ append_assoc (dumps obj) (newline ∷ []) later)
      ∙ scan_line [] (dumps obj) later f.one_line
      ∙ ap (emit loads (dumps obj) later) (scan-stream objs rest fs h)
      ∙ emit_message obj later objs rest f

  -- A stream of messages is read back as those messages; the bytes of a message that has not ended
  -- stay in the buffer.
  pub feed-stream :
      (objs : List J) (rest : List ℕ)
      → All IsFaithful objs
      → has_newline rest ≡ false
      → feed loads [] (stream objs ++ rest) ≡ (ok objs, rest)
  unfolding has_newline
  feed-stream objs rest f h =
      feed-scan loads [] (stream objs ++ rest) refl ∙ scan-stream objs rest f h
