-- ===== src/Tests/Documents.antt =====
-- A document that is cut into chunks, and a phone number: app/services/embedding_service.py and
-- app/utils/phone.py.
use ethiogram.Base.{
  ℕ, ◌-◌, ◌≤◌, ◌≡◌, refl, Bool, ◌&&◌, some, List, [], ◌∷◌, arith, length, All, leb,
}
use ethiogram.Base.Texts.{Text}
use ethiogram.Knowledge.{chunk_text}
use ethiogram.Knowledge.Coverage.{glue, chunk_text_lem}
use ethiogram.Utils.{normalize_ethiopian_phone}

-- Five words, in chunks of three that share one.
abbrev words : List Text
words = (97 ∷ []) ∷ (98 ∷ []) ∷ (99 ∷ []) ∷ (100 ∷ []) ∷ (101 ∷ []) ∷ []

chunk_text_lem_example :
    (chunks : List (List Text)) × (chunk_text words 3 1 ≡ some chunks)
    × All (λ (chunk : List Text). length chunk ≤ 3) chunks
    × (glue (3 - 1) chunks ≡ words)
chunk_text_lem_example = chunk_text_lem words 3 1 (omega arith)

abbrev is_decimal : ℕ → Bool
is_decimal c = leb 48 c && leb c 57

-- 0912-345678
abbrev number : Text
number = 48 ∷ 57 ∷ 49 ∷ 50 ∷ 45 ∷ 51 ∷ 52 ∷ 53 ∷ 54 ∷ 55 ∷ 56 ∷ []

-- +251912345678
abbrev e164 : Text
e164 = 43 ∷ 50 ∷ 53 ∷ 49 ∷ 57 ∷ 49 ∷ 50 ∷ 51 ∷ 52 ∷ 53 ∷ 54 ∷ 55 ∷ 56 ∷ []

number-normal : normalize_ethiopian_phone is_decimal number ≡ some e164
unfolding normalize_ethiopian_phone
number-normal = refl
