-- ===== src/Knowledge/Context.antt =====
-- `build_context_string` of app/services/rag_service.py.
use ethiogram.Base.{ℕ, ◌+◌, Bool, List, [], ◌∷◌, ◌++◌, length, ltb, if◌then◌else◌}
use ethiogram.Base.Texts.{Text, strip, decimal_text}

abbrev pub newline : ℕ
newline = 10

-- `f"\n[{i}] {snippet}"`
abbrev pub entry : (is_space : ℕ → Bool) → ℕ → Text → Text
entry is_space i content =
    newline ∷ b'[' ∷ (decimal_text i ++ (b']' ∷ b' ' ∷ strip is_space content))

module _ (is_space : ℕ → Bool) (max_chars : ℕ) where
  -- The entries that the budget allows, from a chunk's number and the characters that are counted.
  abbrev pub entries : (i total : ℕ) → List Text → List Text
  entries i total [] = []
  entries i total (chunk ∷ chunks) =
      let e = entry is_space i chunk in
      let rest = entries (i + 1) (total + length e) chunks in
      if ltb max_chars (total + length e) then [] else e ∷ rest

-- `"\n".join(parts)`
abbrev pub join_lines : Text → List Text → Text
join_lines first [] = first
join_lines first (part ∷ parts) = first ++ (newline ∷ join_lines part parts)

-- "=== Relevant business information ==="
abbrev pub heading : Text
heading =
    b'=' ∷ b'=' ∷ b'=' ∷ b' ' ∷ b'R' ∷ b'e' ∷ b'l' ∷ b'e' ∷ b'v' ∷ b'a' ∷ b'n' ∷ b't' ∷ b' ' ∷ b'b'
    ∷ b'u' ∷ b's' ∷ b'i' ∷ b'n' ∷ b'e' ∷ b's' ∷ b's' ∷ b' ' ∷ b'i' ∷ b'n' ∷ b'f' ∷ b'o' ∷ b'r'
    ∷ b'm' ∷ b'a' ∷ b't' ∷ b'i' ∷ b'o' ∷ b'n' ∷ b' ' ∷ b'=' ∷ b'=' ∷ b'=' ∷ []

-- `chunks` are the contents of the chunks that were retrieved.
unfoldable pub build_context_string :
    (is_space : ℕ → Bool) → (chunks : List Text) → (max_chars : ℕ) → Text
build_context_string is_space [] max_chars = []
build_context_string is_space (chunk ∷ chunks) max_chars =
    join_lines heading (entries is_space max_chars 1 (length heading) (chunk ∷ chunks))
