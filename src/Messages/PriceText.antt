-- ===== src/Messages/PriceText.antt =====
-- The text of a model's price in Redis, which app/api/webhooks.py writes and reads.
use ethiogram.Base.{ℕ, ◌%◌, ◌≤◌, ◌≡◌, refl, ◌∙◌, some, [], ◌∷◌, ◌++◌, arith, eq_string}
use ethiogram.Base.Texts.{Text, decimal_text, parse_int}
use ethiogram.Base.Decimals.{digit, IsNumeral, parse_int-decimal_text, decimal_text-IsNumeral}
use ethiogram.Messages.{price_text, parse_price, split_comma, int_of, ascii_digit}

digit_value : (n : ℕ) → ascii_digit (digit n) ≡ some (n % 10)
digit_value n = ground arith

-- At least `0`, so neither a comma nor a sign.
abbrev IsAscii : ℕ → Type 0
IsAscii c = 48 ≤ c

split_comma-numeral : (s t : Text) → IsNumeral IsAscii s → split_comma (s ++ b',' ∷ t) ≡ some (s, t)
unfolding IsNumeral
split_comma-numeral [] t h = absurd h
split_comma-numeral (c ∷ []) t h = ground arith
split_comma-numeral (c ∷ d ∷ s) t h = rw (split_comma-numeral (d ∷ s) t h.1) ground arith

int_of-numeral : (s : Text) → IsNumeral IsAscii s → int_of s ≡ parse_int ascii_digit s 0
unfolding IsNumeral
int_of-numeral [] h = absurd h
int_of-numeral (c ∷ s) h = refl

int_of-decimal_text : (n : ℕ) → int_of (decimal_text n) ≡ some n
int_of-decimal_text n =
    int_of-numeral (decimal_text n) (decimal_text-IsNumeral IsAscii (λ m. ground arith) n)
    ∙ parse_int-decimal_text ascii_digit digit_value n

price_of :
    (t : Text) {a b : Text} {i o : ℕ}
    → split_comma t ≡ some (a, b)
    → int_of a ≡ some i
    → int_of b ≡ some o
    → parse_price t ≡ some (i, o)
unfolding parse_price
price_of t split left right = rw (parse_price, split) (rw left (rw right refl))

-- The price that is written to the cache is the price that is read from it.
pub parse_price-price_text : (price : ℕ × ℕ) → parse_price (price_text price) ≡ some price
unfolding parse_price price_text
parse_price-price_text (i, o) =
    price_of (price_text (i, o))
      (split_comma-numeral (decimal_text i) (decimal_text o)
        (decimal_text-IsNumeral IsAscii (λ m. ground arith) i))
      (int_of-decimal_text i) (int_of-decimal_text o)
