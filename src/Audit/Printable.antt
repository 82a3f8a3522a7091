-- ===== src/Audit/Printable.antt =====
-- audit/text.py: a name that a stranger wrote, made safe for one line. Which characters
-- `str.isprintable` accepts is a parameter.
use Prim.Native.Char.{Char, code}
use Prim.Native.String.{[], ◌∷◌}
use mathlib.Core.List.{List}
use nextcloud_mcp_connector.Base.{ℕ, zero, suc, String, Bool, true, false, if◌then◌else◌}
use nextcloud_mcp_connector.Base.Text.{is_space, join_words, concat}

-- `s.split()`: a letter begins a word before a space and at the end, and else joins the next word.
abbrev starts_word : String → Bool
unfolding is_space
starts_word [] = true
starts_word (c ∷ s) = is_space (code c)

abbrev add_letter : Char → Bool → List String → List String
add_letter c false (List.◌∷◌ w ws) = List.◌∷◌ (c ∷ w) ws
add_letter c _ ws = List.◌∷◌ (c ∷ []) ws

unfoldable pub split : String → List String
unfolding is_space
split [] = List.[]
split (c ∷ s) =
    let words = split s in if is_space (code c) then words else add_letter c (starts_word s) words

-- `s[:n]`
unfoldable pub cut : ℕ → String → String
cut zero s = []
cut (suc n) [] = []
cut (suc n) (c ∷ s) = c ∷ cut n s

module _ (isprintable : Char → Bool) where
  unfoldable pub replace_unprintable : String → String
  replace_unprintable [] = []
  replace_unprintable (c ∷ s) =
      concat (if isprintable c then c ∷ [] else " ") (replace_unprintable s)

  unfoldable pub printable : ℕ → String → String
  unfolding cut join_words split replace_unprintable
  printable limit raw = cut limit (join_words (split (replace_unprintable raw)))
