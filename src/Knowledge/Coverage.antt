-- ===== src/Knowledge/Coverage.antt =====
-- The chunks of `chunk_text` in app/services/embedding_service.py against the words of the text.
use ethiogram.Base.{
  ℕ, zero, suc, ◌+◌, ◌-◌, ◌≤◌, ◌<◌, ◌≡◌, refl, sym, ap, ◌∙◌, inl, inr, Bool-cases, Option, some,
  List, [], ◌∷◌, ◌++◌, arith, length, All, ltb, leb,
}
use ethiogram.Base.Texts.{Text}
use ethiogram.Base.Sequences.{take, length-take}
use ethiogram.Knowledge.{drop, prepend, chunk_loop, chunk_text}

module _ {A : Type 0} where
  drop-nil : (n : ℕ) → drop {A = A} n [] ≡ []
  drop-nil zero = refl
  drop-nil (suc n) = refl

  drop-drop : (m n : ℕ) (xs : List A) → drop m (drop n xs) ≡ drop (n + m) xs
  drop-drop m zero xs = ap (λ n. drop n xs) (omega arith)
  drop-drop m (suc n) [] = drop-nil m ∙ sym (drop-nil (suc n + m))
  drop-drop m (suc n) (x ∷ xs) =
      let place : suc (n + m) ≡ suc n + m = omega arith in
      drop-drop m n xs ∙ ap (λ k. drop k (x ∷ xs)) place

  length-drop : (n : ℕ) (xs : List A) → length (drop n xs) ≡ length xs - n
  length-drop zero xs = omega arith
  length-drop (suc n) [] = omega arith
  length-drop (suc n) (x ∷ xs) = omega (arith, length-drop n xs)

  drop_all : (n : ℕ) (xs : List A) → length xs ≤ n → drop n xs ≡ []
  drop_all zero [] h = refl
  drop_all zero (x ∷ xs) h = ground arith
  drop_all (suc n) [] h = refl
  drop_all (suc n) (x ∷ xs) h = drop_all n xs (omega (arith, h))

  take_all : (n : ℕ) (xs : List A) → length xs ≤ n → take n xs ≡ xs
  take_all zero [] h = refl
  take_all zero (x ∷ xs) h = ground arith
  take_all (suc n) [] h = refl
  take_all (suc n) (x ∷ xs) h = ap (λ ys. x ∷ ys) (take_all n xs (omega (arith, h)))

  take-take-drop : (m n : ℕ) (xs : List A) → m ≤ n → take m (take n xs) ++ drop m xs ≡ xs
  take-take-drop zero n xs h = refl
  take-take-drop (suc m) zero xs h = ground arith
  take-take-drop (suc m) (suc n) [] h = refl
  take-take-drop (suc m) (suc n) (x ∷ xs) h =
      ap (λ ys. x ∷ ys) (take-take-drop m n xs (omega (arith, h)))

-- The words of a list of chunks, of which each but the last counts with its first `step` words.
pub glue : (step : ℕ) → List (List Text) → List Text
glue step [] = []
glue step (chunk ∷ []) = chunk
glue step (chunk ∷ next ∷ chunks) = take step chunk ++ glue step (next ∷ chunks)

module _ (words : List Text) (chunk_size overlap : ℕ) (smaller : overlap < chunk_size) where
  -- Chunks of at most the size that hold the words from a place on.
  abbrev Cover : (start : ℕ) → Option (List (List Text)) → Type 0
  Cover start result =
      (chunks : List (List Text)) × (result ≡ some chunks)
      × All (λ (chunk : List Text). length chunk ≤ chunk_size) chunks
      × (glue (chunk_size - overlap) chunks ≡ drop start words)

  next_chunk :
      (start : ℕ) (chunks : List (List Text))
      → start + chunk_size < length words
      → glue (chunk_size - overlap) chunks ≡ drop (start + chunk_size - overlap) words
      → glue (chunk_size - overlap) (take chunk_size (drop start words) ∷ chunks) ≡ drop start words
  unfolding glue
  next_chunk start [] more rest =
      let empty : 0 ≡ length words - (start + chunk_size - overlap) =
        ap length rest ∙ length-drop (start + chunk_size - overlap) words in
      absurd (omega (arith, empty, more, smaller))
  next_chunk start (next ∷ chunks) more rest =
      let place : start + chunk_size - overlap ≡ start + (chunk_size - overlap) =
        omega (arith, smaller) in
      ap
        (λ (ys : List Text). take (chunk_size - overlap) (take chunk_size (drop start words)) ++ ys)
        (rest ∙ ap (λ n. drop n words) place ∙ sym (drop-drop (chunk_size - overlap) start words))
      ∙ take-take-drop (chunk_size - overlap) chunk_size (drop start words) (omega arith)

  Cover-prepend :
      (start : ℕ) {result : Option (List (List Text))}
      → start + chunk_size < length words
      → Cover (start + chunk_size - overlap) result
      → Cover start (prepend (take chunk_size (drop start words)) result)
  Cover-prepend start more (chunks, done, short, rest) = (
    take chunk_size (drop start words) ∷ chunks,
    rw done refl,
    (length-take chunk_size (drop start words), short),
    next_chunk start chunks more rest,
  )

  chunk_loop-Cover :
      (fuel start : ℕ)
      → start ≤ length words
      → length words < start + fuel
      → Cover start (chunk_loop words chunk_size overlap fuel start)
  unfolding chunk_loop glue
  chunk_loop-Cover zero start inside h = absurd (omega (arith, inside, h))
  chunk_loop-Cover (suc fuel) start le h = elim (Bool-cases (ltb start (length words))) [
    | inr past ↦ rw past ([], refl, tt, sym (drop_all start words (ground (arith, past))))
    | inl inside ↦ elim (Bool-cases (leb (length words) (start + chunk_size))) [
      | inl last ↦
          rw (inside, last)
            (
              take chunk_size (drop start words) ∷ [],
              refl,
              (length-take chunk_size (drop start words), tt),
              take_all chunk_size (drop start words)
                  (rw (length-drop start words) (ground (arith, last))),
            )
      | inr more ↦
          rw (inside, more)
            (Cover-prepend start (ground (arith, more)) (
              chunk_loop-Cover fuel (start + chunk_size - overlap) (ground (arith, more))
                (omega (arith, h, smaller))))
    ]
  ]

  -- For an overlap that is less than the size of a chunk, the loop ends, every chunk has at most that
  -- many words, and the chunks, each but the last without the words that it shares with the next, are
  -- the words of the text in their order.
  pub chunk_text_lem :
      (chunks : List (List Text)) × (chunk_text words chunk_size overlap ≡ some chunks)
      × All (λ (chunk : List Text). length chunk ≤ chunk_size) chunks
      × (glue (chunk_size - overlap) chunks ≡ words)
  unfolding chunk_text
  chunk_text_lem = chunk_loop-Cover (suc (length words)) 0 (omega arith) (omega arith)
