-- ===== src/Pricing.antt =====
-- common/pricing.py: the cost of the tokens of one transcript line. Rates are dollars per million
-- tokens, as whole numbers, and a cost is counted in twentieths of a dollar per million, in which
-- the multipliers 1.25 and 0.1 come out whole. This is exact where the program's floats round; its
-- last division by a million is a change of unit.
use silicon_office.Prelude.{ℕ, ◌+◌, ◌*◌, ◌≡◌, String, [], ◌∷◌, get_or, arith}
use silicon_office.Prelude.Dict.{Dict, lookup}

pub record Rate : Type 0 where
  pub input_rate : ℕ
  pub output_rate : ℕ

abbrev rate : ℕ → ℕ → Rate
rate i o = record { input_rate = i; output_rate = o }

abbrev pub model_rates : Dict Rate
model_rates =
    ("claude-fable-5", rate 10 50)
    ∷ ("claude-mythos-5", rate 10 50)
    ∷ ("claude-opus-4-8", rate 5 25)
    ∷ ("claude-opus-4-7", rate 5 25)
    ∷ ("claude-opus-4-6", rate 5 25)
    ∷ ("claude-opus-4-5", rate 5 25)
    ∷ ("claude-opus-4-1", rate 5 25)
    ∷ ("claude-opus-4-0", rate 5 25)
    ∷ ("claude-sonnet-5", rate 3 15)
    ∷ ("claude-sonnet-4-6", rate 3 15)
    ∷ ("claude-sonnet-4-5", rate 3 15)
    ∷ ("claude-sonnet-4-0", rate 3 15)
    ∷ ("claude-haiku-4-5", rate 1 5)
    ∷ []

abbrev pub default_rate : Rate
default_rate = rate 3 15

-- The counts of a usage dict; a missing or null count is 0.
pub record TokenUsage : Type 0 where
  pub input_tokens : ℕ
  pub output_tokens : ℕ
  pub cache_creation_input_tokens : ℕ
  pub cache_read_input_tokens : ℕ

-- 1.25 and 0.1 in twentieths.
abbrev cache_write_twentieths : ℕ
cache_write_twentieths = 25

abbrev cache_read_twentieths : ℕ
cache_read_twentieths = 2

unfoldable pub rate_of : String → Rate
rate_of model = get_or (lookup model model_rates) default_rate

unfoldable pub cost_at : Rate → TokenUsage → ℕ
cost_at r u =
    u.input_tokens * r.input_rate * 20
    + u.output_tokens * r.output_rate * 20
    + u.cache_creation_input_tokens * r.input_rate * cache_write_twentieths
    + u.cache_read_input_tokens * r.input_rate * cache_read_twentieths

unfoldable pub cost_for_usage : String → TokenUsage → ℕ
cost_for_usage model u = cost_at (rate_of model) u

unfoldable pub add_usage : TokenUsage → TokenUsage → TokenUsage
add_usage u v = record {
  input_tokens = u.input_tokens + v.input_tokens;
  output_tokens = u.output_tokens + v.output_tokens;
  cache_creation_input_tokens = u.cache_creation_input_tokens + v.cache_creation_input_tokens;
  cache_read_input_tokens = u.cache_read_input_tokens + v.cache_read_input_tokens;
}

-- The cost of two lines of one model is the cost of their counts taken together, so adding line by
-- line loses nothing.
pub cost_for_usage-add_usage :
    (model : String) (u v : TokenUsage)
    → cost_for_usage model (add_usage u v) ≡ cost_for_usage model u + cost_for_usage model v
unfolding cost_for_usage cost_at add_usage
cost_for_usage-add_usage model u v = omega arith
