-- ===== src/Knowledge/Chunks.antt =====
-- `chunk_text` of app/services/embedding_service.py, on the words of a text.
use ethiogram.Base.{
  ℕ, zero, suc, ◌+◌, ◌-◌, Option, none, some, List, [], ◌∷◌, length, leb, ltb, if◌then◌else◌,
}
use ethiogram.Base.Texts.{Text}
use ethiogram.Base.Sequences.{take}

abbrev pub drop {ℓ} : {A : Type ℓ} → ℕ → List A → List A
drop zero xs = xs
drop (suc n) [] = []
drop (suc n) (x ∷ xs) = drop n xs

abbrev pub prepend {ℓ} : {A : Type ℓ} → A → Option (List A) → Option (List A)
prepend x none = none
prepend x (some xs) = some (x ∷ xs)

-- The loop on `start`, on fuel: none where the fuel does not reach. A chunk is a list of words, which
-- the source joins by blanks; `split` yields no empty word, so no chunk is blank.
module _ (words : List Text) (chunk_size overlap : ℕ) where
  unfoldable pub chunk_loop : (fuel start : ℕ) → Option (List (List Text))
  chunk_loop zero start = none
  chunk_loop (suc fuel) start =
      let end = start + chunk_size in
      let rest = chunk_loop fuel (end - overlap) in
      let chunk = take chunk_size (drop start words) in
      if ltb start (length words)
      then if leb (length words) end then some (chunk ∷ []) else prepend chunk rest
      else some []

-- For an overlap of at most the size, by which `start` stays a natural number.
unfoldable pub chunk_text : List Text → (chunk_size overlap : ℕ) → Option (List (List Text))
unfolding chunk_loop
chunk_text words chunk_size overlap = chunk_loop words chunk_size overlap (suc (length words)) 0
