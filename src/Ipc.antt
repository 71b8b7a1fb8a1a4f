-- ===== src/Ipc.antt =====
-- common/ipc.py: NDJSON encoding, decoding of a line, and the buffer that cuts a TCP stream into
-- lines. Bytes are numbers. Python's `json` with its UTF-8 coding is a parameter: what
-- `json.dumps(...).encode()` writes and what `json.loads(line.decode())` comes to.
pub mod Scan
pub mod Stream
pub mod Fuel
use silicon_office.Prelude.{
  ℕ, zero, suc, Bool, true, false, ◌&&◌, ◌||◌, Option, none, some, List, [], ◌∷◌, ◌++◌, length, eqb,
  leb, if◌then◌else◌, Outcome, ok, raised,
}

-- `b"\n"`
abbrev pub newline : ℕ
newline = 10

-- `json.loads(line.decode("utf-8"))`: a value other than null, null (Python's `None`), one of the
-- two errors that `decode_message` catches, or any other exception.
pub data Loaded (J : Type 0) : Type 0 where
  value : J → Loaded J
  null malformed raises : Loaded J

-- The bytes that `bytes.strip` removes: space, and tab up to carriage return.
is_space : ℕ → Bool
is_space b = eqb b 32 || leb 9 b && leb b 13

-- `not line.strip()`
unfoldable pub is_blank : List ℕ → Bool
unfolding is_space
is_blank [] = true
is_blank (b ∷ bs) = is_space b && is_blank bs

-- `self._buf.split(b"\n", 1)`; `none` if there is no newline in the bytes.
unfoldable pub split_line : List ℕ → Option (List ℕ × List ℕ)
split_line [] = none
split_line (b ∷ bs) =
    let rest = split_line bs in
    if eqb b newline
    then some ([], bs)
    else elim rest [ none ↦ none | some (line, after) ↦ some (b ∷ line, after) ]

-- `data.rstrip(b"\n")`
unfoldable pub rstrip_newlines : List ℕ → List ℕ
rstrip_newlines [] = []
rstrip_newlines (b ∷ bs) = elim (rstrip_newlines bs) [
  | [] ↦ if eqb b newline then [] else b ∷ []
  | c ∷ cs ↦ b ∷ c ∷ cs
]

module _ {J : Type 0} (dumps : J → List ℕ) where
  unfoldable pub encode_message : J → List ℕ
  encode_message obj = dumps obj ++ newline ∷ []

module _ {J : Type 0} where
  -- The `try` of `decode_message`.
  abbrev pub caught : Loaded J → Outcome (Option J)
  caught (value obj) = ok (some obj)
  caught null = ok none
  caught malformed = ok none
  caught raises = raised

module _ {J : Type 0} (loads : List ℕ → Loaded J) where
  unfoldable pub decode_message : List ℕ → Outcome (Option J)
  decode_message line = caught (loads line)

  -- What the loop does with a line: `later` is the result of the rounds that follow, on `rest`. An
  -- exception leaves `rest` in the buffer, and the messages of this call are lost.
  unfoldable pub emit : List ℕ → List ℕ → Outcome (List J) × List ℕ → Outcome (List J) × List ℕ
  emit line rest later = if is_blank line then later else elim (decode_message line) [
    | raised ↦ (raised, rest)
    | ok none ↦ later
    | ok (some obj) ↦ (elim later.0 [ raised ↦ raised | ok objs ↦ ok (obj ∷ objs) ], later.1)
  ]

  -- The loop of `feed`, on fuel: the messages, and what stays in the buffer.
  unfoldable pub drain : ℕ → List ℕ → Outcome (List J) × List ℕ
  unfolding emit split_line is_blank decode_message
  drain zero buf = (ok [], buf)
  drain (suc fuel) buf = elim (split_line buf) [
    | none ↦ (ok [], buf)
    | some (line, rest) ↦ emit line rest (drain fuel rest)
  ]

  -- Each round takes a byte at least, so the bytes are fuel enough.
  unfoldable pub feed : List ℕ → List ℕ → Outcome (List J) × List ℕ
  feed buf data_in = drain (suc (length (buf ++ data_in))) (buf ++ data_in)
