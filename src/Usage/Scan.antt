-- ===== src/Usage/Scan.antt =====
-- `_scan_file` and `_parse_ts` of frontend/usage.py. Parameters are Python's `json.loads` on a
-- line, `datetime.fromisoformat` on a text, and the value of a number's literal, where token
-- counts are whole numbers that are not negative. A cost is that of Pricing.
use Prim.Native.Char.{code}
use silicon_office.Prelude.{
  ℕ, ◌+◌, String, Bool, true, ◌&&◌, ◌||◌, Option, none, some, List, [], ◌∷◌, eqb, leb, get_or,
  if◌then◌else◌, Outcome, ok, raised, ◌>>=◌,
}
use silicon_office.Prelude.Dict.{Dict, lookup}
use silicon_office.Json.{
  Json, null, bool, num, str, arr, obj, nil, cons, end, field, as_dict, to_dict,
}
use silicon_office.Pricing.{TokenUsage, Rate, rate_of, default_rate, cost_at}
use silicon_office.Usage.{Entry}

-- What iterating over the file gives: a line, an `OSError` (also of `open`), or the exception of a
-- line that is not UTF-8.
pub data FileLine : Type 0 where
  line : String → FileLine
  read_error undecodable : FileLine

-- What `json.loads` gives for a line: a value, a `ValueError`, or another exception.
pub data Parsed : Type 0 where
  value : Json → Parsed
  value_error other_error : Parsed

-- The code points that `str.strip` removes.
unfoldable pub is_white : ℕ → Bool
is_white c =
    leb 9 c && leb c 13
    || leb 28 c && leb c 32
    || eqb c 133
    || eqb c 160
    || eqb c 5760
    || leb 8192 c && leb c 8202
    || eqb c 8232
    || eqb c 8233
    || eqb c 8239
    || eqb c 8287
    || eqb c 12288

-- `not line.strip()`
unfoldable pub is_blank : String → Bool
unfolding is_white
is_blank String.[] = true
is_blank (String.◌∷◌ c s) = is_white (code c) && is_blank s

-- `_MODEL_RATES.get(model, _DEFAULT_RATE)`: a list or a dict cannot be a key.
unfoldable pub rate_for : Json → Outcome Rate
rate_for (str model) = ok (rate_of model)
rate_for (arr _) = raised
rate_for (obj _) = raised
rate_for _ = ok default_rate

-- `isinstance(v, dict)`
abbrev pub dict_of : Option Json → Option (Dict Json)
dict_of (some (obj fs)) = some (to_dict fs)
dict_of _ = none

module _ (number : String → ℕ) where
  -- `usage.get(key) or 0`, and the arithmetic that follows, which takes numbers and Booleans
  -- alone.
  unfoldable pub count_of : Option Json → Outcome ℕ
  count_of none = ok 0
  count_of (some null) = ok 0
  count_of (some (bool b)) = ok (if b then 1 else 0)
  count_of (some (num n)) = ok (number n)
  count_of (some (str s)) = elim s [ String.[] ↦ ok 0 | String.◌∷◌ _ _ ↦ raised ]
  count_of (some (arr nil)) = ok 0
  count_of (some (arr (cons _ _))) = raised
  count_of (some (obj end)) = ok 0
  count_of (some (obj (field _ _ _))) = raised

  unfoldable pub token_usage : Dict Json → Outcome TokenUsage
  token_usage usage = count_of (lookup "input_tokens" usage) >>= λ i.
      count_of (lookup "output_tokens" usage) >>= λ o.
      count_of (lookup "cache_creation_input_tokens" usage) >>= λ w.
      count_of (lookup "cache_read_input_tokens" usage) >>= λ r. ok (record {
        input_tokens = i;
        output_tokens = o;
        cache_creation_input_tokens = w;
        cache_read_input_tokens = r;
      })

  unfoldable pub tokens_of : TokenUsage → ℕ
  tokens_of u =
      u.input_tokens + u.output_tokens + u.cache_creation_input_tokens + u.cache_read_input_tokens

  module _ {T : Type 0} (iso : String → Option T) (zero_ts : T) where
    -- `_parse_ts`, of what `get` returns: `iso` is `fromisoformat` after its replacement, with
    -- `timestamp()`, and `none` its `ValueError`.
    unfoldable pub parse_ts : Option Json → T
    parse_ts (some (str s)) = get_or (iso s) zero_ts
    parse_ts _ = zero_ts

    -- The entry of a record whose message has a usage.
    unfoldable pub entry_of : Option Json → Json → Dict Json → Outcome (Entry T ℕ)
    unfolding tokens_of
    entry_of stamp model usage = rate_for model >>= λ r. token_usage usage >>= λ u.
        ok (record { ts = parse_ts stamp; cost = cost_at r u; tokens = tokens_of u })

    -- From `message = record.get("message")` on: no entry where the loop continues.
    unfoldable pub message_entry : Option Json → Option (Dict Json) → Outcome (Option (Entry T ℕ))
    message_entry stamp none = ok none
    message_entry stamp (some message) = elim (dict_of (lookup "usage" message)) [
      | none ↦ ok none
      | some usage ↦
          entry_of stamp (get_or (lookup "model" message) (str "")) usage >>= λ e. ok (some e)
    ]

    unfoldable pub record_entry : Json → Outcome (Option (Entry T ℕ))
    record_entry j = as_dict j >>= λ fields.
        message_entry (lookup "timestamp" fields) (dict_of (lookup "message" fields))

    abbrev pub add_found : Option (Entry T ℕ) → List (Entry T ℕ) → List (Entry T ℕ)
    add_found none es = es
    add_found (some e) es = e ∷ es

    module _ (loads : String → Parsed) where
      -- The body of the loop, on a line; `later` is what the following lines give.
      unfoldable pub scan_line : String → Outcome (List (Entry T ℕ)) → Outcome (List (Entry T ℕ))
      scan_line text later = if is_blank text then later else elim (loads text) [
        | value_error ↦ later
        | other_error ↦ raised
        | value j ↦ record_entry j >>= λ found. later >>= λ es. ok (add_found found es)
      ]

      -- `_scan_file`: an `OSError` ends the reading and keeps the entries so far; any other
      -- exception leaves the function.
      unfoldable pub scan_file : List FileLine → Outcome (List (Entry T ℕ))
      scan_file [] = ok []
      scan_file (read_error ∷ rest) = ok []
      scan_file (undecodable ∷ rest) = raised
      scan_file (line text ∷ rest) = scan_line text (scan_file rest)
