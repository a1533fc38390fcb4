-- ===== src/Knowledge/Budget.antt =====
-- The budget of `build_context_string` in app/services/rag_service.py.
use ethiogram.Base.{
  ℕ, ◌+◌, ◌≤◌, max, ◌≡◌, inl, inr, Bool-cases, Bool, List, [], ◌∷◌, ◌++◌, arith, length, ltb,
}
use ethiogram.Base.Texts.{Text}
use ethiogram.Knowledge.{entries, entry, join_lines, heading, build_context_string, newline}

length-append : {A : Type 0} (xs ys : List A) → length (xs ++ ys) ≡ length xs + length ys
length-append [] ys = omega arith
length-append (x ∷ xs) ys = omega (arith, length-append xs ys)

-- The characters of the parts, without what joins them.
abbrev characters : List Text → ℕ
characters [] = 0
characters (part ∷ parts) = length part + characters parts

length-join_lines :
    (first : Text) (parts : List Text)
    → length (join_lines first parts) ≡ length first + (characters parts + length parts)
length-join_lines first [] = omega arith
length-join_lines first (part ∷ parts) =
    omega
      (arith, length-append first (newline ∷ join_lines part parts), length-join_lines part parts)

module _ (is_space : ℕ → Bool) (max_chars : ℕ) where
  entries-characters :
      (i total : ℕ) (chunks : List Text)
      → total + characters (entries is_space max_chars i total chunks) ≤ max total max_chars
  entries-characters i total [] = omega arith
  entries-characters i total (chunk ∷ chunks) =
      let counted = total + length (entry is_space i chunk) in
      elim (Bool-cases (ltb max_chars counted)) [
        | inl full ↦ rw full (omega arith)
        | inr fits ↦
            let within : counted ≤ max_chars = ground (arith, fits) in
            rw fits (omega (arith, within, entries-characters (i + 1) counted chunks))
      ]

  length-entries :
      (i total : ℕ) (chunks : List Text)
      → length (entries is_space max_chars i total chunks) ≤ length chunks
  length-entries i total [] = omega arith
  length-entries i total (chunk ∷ chunks) =
      let counted = total + length (entry is_space i chunk) in
      elim (Bool-cases (ltb max_chars counted)) [
        | inl full ↦ rw full (omega arith)
        | inr fits ↦ rw fits (omega (arith, length-entries (i + 1) counted chunks))
      ]

-- The text is no longer than the greater of the budget and the heading, and one character more for
-- each chunk: the line breaks that join the parts are not counted against the budget.
pub build_context_string_bounds :
    (is_space : ℕ → Bool) (chunks : List Text) (max_chars : ℕ)
    → length (build_context_string is_space chunks max_chars)
      ≤ max (length heading) max_chars + length chunks
unfolding build_context_string
build_context_string_bounds is_space [] max_chars = omega arith
build_context_string_bounds is_space (chunk ∷ chunks) max_chars =
    let parts = entries is_space max_chars 1 (length heading) (chunk ∷ chunks) in
    omega (
      arith,
      length-join_lines heading parts,
      entries-characters is_space max_chars 1 (length heading) (chunk ∷ chunks),
      length-entries is_space max_chars 1 (length heading) (chunk ∷ chunks),
    )
