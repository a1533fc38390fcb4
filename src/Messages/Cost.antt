-- ===== src/Messages/Cost.antt =====
-- The price of a reply in app/api/webhooks.py, and the admin's write to it in app/api/admin_panel.py.
use Prim.Native.Char.{code}
use ethiogram.Base.{
  ℕ, ◌+◌, ◌-◌, ◌*◌, ◌/◌, max, String, Bool, true, not, ◌&&◌, ◌||◌, Option, none, some, [], ◌∷◌,
  ◌++◌, lookup, insert, delete, find_first, modify_first, nat_eq, leb, ◌==◌, eq_string,
  if◌then◌else◌,
}
use ethiogram.Base.Texts.{Text, eq_text, decimal_text, parse_int}
use ethiogram.Models.{World, Db, AiModel, Error}
use ethiogram.Request.{Action, ok, pure, gets, or_raise, raise_if, ◌>>=◌, ◌>>◌}

-- `-(-a // b)`, which rounds up.
abbrev pub ceil_div : ℕ → ℕ → ℕ
ceil_div a b = (a + b - 1) / b

-- `_DEFAULT_ETG_PER_1K_INPUT`, `_DEFAULT_ETG_PER_1K_OUTPUT`
abbrev pub default_price : ℕ × ℕ
default_price = (1, 2)

abbrev pub is_model : String → AiModel → Bool
is_model model_id m = m.model_id == model_id

abbrev pub price_or_default : Option AiModel → ℕ × ℕ
price_or_default none = default_price
price_or_default (some m) = (m.etg_cost_per_1k_input, m.etg_cost_per_1k_output)

-- The price that the database holds for a model.
abbrev pub db_price : String → Db → ℕ × ℕ
db_price model_id db = price_or_default (find_first (is_model model_id) db.ai_models)

-- f"{price[0]},{price[1]}"
unfoldable pub price_text : ℕ × ℕ → Text
price_text (i, o) = decimal_text i ++ b',' ∷ decimal_text o

-- The text before the first comma, and the text behind it.
abbrev pub split_comma : Text → Option (Text × Text)
split_comma [] = none
split_comma (c ∷ s) =
    if nat_eq c b','
    then some ([], s)
    else elim (split_comma s) [ none ↦ none | some (a, b) ↦ some (c ∷ a, b) ]

-- The value of an ASCII digit. The texts that are read here are those that the code wrote.
abbrev pub ascii_digit : ℕ → Option ℕ
ascii_digit c = if leb b'0' c && leb c b'9' then some (c - 48) else none

-- `int(s)`, which raises on the empty text.
abbrev pub int_of : Text → Option ℕ
int_of [] = none
int_of (c ∷ s) = parse_int ascii_digit (c ∷ s) 0

abbrev both : Option ℕ → Option ℕ → Option (ℕ × ℕ)
both (some i) (some o) = some (i, o)
both _ _ = none

-- `i, o = str(cached).split(",")` and `(int(i), int(o))`; none where one of these raises.
unfoldable pub parse_price : Text → Option (ℕ × ℕ)
parse_price t = elim (split_comma t) [ none ↦ none | some (a, b) ↦ both (int_of a) (int_of b) ]

abbrev pub cache_price : String → ℕ × ℕ → World → World
cache_price model_id price w = record w {
  redis = record w.redis { model_prices = insert model_id (price_text price) w.redis.model_prices };
}

abbrev cached_price : String → World → Option (ℕ × ℕ)
cached_price model_id w = elim (lookup model_id w.redis.model_prices) [
  | none ↦ none
  | some t ↦ parse_price t
]

-- A model has an id here: without one the code answers with `default_price`.
unfoldable pub model_price : String → World → (ℕ × ℕ) × World
unfolding price_text parse_price
model_price model_id w =
    if model_id == "" then (default_price, w) else elim (cached_price model_id w) [
      | some price ↦ (price, w)
      | none ↦ (db_price model_id w.db, cache_price model_id (db_price model_id w.db) w)
    ]

abbrev codes : String → Text
codes String.[] = []
codes (String.◌∷◌ c s) = code c ∷ codes s

abbrev ends_with : Text → Text → Bool
ends_with suffix [] = suffix == []
ends_with suffix (c ∷ s) = suffix == c ∷ s || ends_with suffix s

-- `(model_id or "").endswith(":free")`
unfoldable pub is_free : String → Bool
is_free model_id = ends_with (codes ":free") (codes model_id)

abbrev pub tokens_cost : ℕ → ℕ → ℕ × ℕ → ℕ
tokens_cost input output (per_in, per_out) =
    max 1 (ceil_div (input * per_in) 1000 + ceil_div (output * per_out) 1000)

unfoldable pub reply_cost : String → ℕ → ℕ → World → ℕ × World
reply_cost model_id input output w =
    let (price, w') = model_price model_id w in
    if is_free model_id then (0, w) else (tokens_cost input output price, w')

-- `SetModelPricingRequest`
pub record Repricing : Type 0 where
  pub model_id : String
  pub etg_cost_per_1k_input : Option ℕ
  pub etg_cost_per_1k_output : Option ℕ
  pub is_enabled : Option Bool

-- `price per 1k tokens must be between 0 and 100000`
abbrev is_valid_price : Option ℕ → Bool
is_valid_price none = true
is_valid_price (some v) = leb v 100000

abbrev or_old {ℓ} : {A : Type ℓ} → Option A → A → A
or_old none old = old
or_old (some v) old = v

abbrev pub reprice : Repricing → AiModel → AiModel
reprice r m = record m {
  etg_cost_per_1k_input = or_old r.etg_cost_per_1k_input m.etg_cost_per_1k_input;
  etg_cost_per_1k_output = or_old r.etg_cost_per_1k_output m.etg_cost_per_1k_output;
  is_enabled = or_old r.is_enabled m.is_enabled;
}

abbrev pub write_price : ℕ → Repricing → World → World
write_price admin_id r w = record {
  db = record w.db {
    ai_models = modify_first (is_model r.model_id) (reprice r) w.db.ai_models;
    audit_log =
        record { admin_id = admin_id; action = "model.set_pricing"; target_type = "ai_model" }
        ∷ w.db.audit_log;
  };
  redis = record w.redis { model_prices = delete r.model_id w.redis.model_prices };
}

abbrev pub is_valid_repricing : Repricing → Bool
is_valid_repricing r =
    is_valid_price r.etg_cost_per_1k_input && is_valid_price r.etg_cost_per_1k_output

unfoldable pub set_model_pricing : ℕ → Repricing → Action AiModel
set_model_pricing admin_id r = do
  raise_if (not (is_valid_repricing r)) (Error.validation_error "price")
  found ← gets (λ w. find_first (is_model r.model_id) w.db.ai_models)
  m ← or_raise found (Error.not_found "AiModel")
  (λ w. (ok tt, write_price admin_id r w))
  pure (reprice r m)
