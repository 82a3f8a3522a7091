-- ===== src/Base/Text.antt =====
-- Python's text operations over native texts: whitespace as `str.strip` reads it.
use Prim.Native.Nat.{ℕ, suc}
use Prim.Native.Char.{Char, code}
use Prim.Native.String
use Prim.Native.String.{String, [], ◌∷◌}
use mathlib.Core.Bool.{Bool, true, false, ◌&&◌, ◌||◌}
use mathlib.Core.List.{List}
use nextcloud_mcp_connector.Base.Tests.{ltb, leb, ◌==◌, if◌then◌else◌}

-- `chr(n).isspace()`
unfoldable pub is_space : ℕ → Bool
is_space n =
    (leb 9 n && leb n 13)
    || (leb 28 n && leb n 32)
    || n == 133
    || n == 160
    || n == 5760
    || (leb 8192 n && leb n 8202)
    || n == 8232
    || n == 8233
    || n == 8239
    || n == 8287
    || n == 12288

-- `not s.strip()`
unfoldable pub is_blank : String → Bool
unfolding is_space
is_blank [] = true
is_blank (c ∷ s) = is_space (code c) && is_blank s

-- `not s`
abbrev pub is_empty : String → Bool
is_empty [] = true
is_empty (c ∷ s) = false

-- `len(s)`
abbrev pub text_length : String → ℕ
text_length [] = 0
text_length (c ∷ s) = suc (text_length s)

-- `s + t`
abbrev pub concat : String → String → String
concat s t = String.◌++◌ s t

-- `s.strip()`: the leading whitespace, the trailing whitespace, both.
unfoldable pub lstrip : String → String
unfolding is_space
lstrip [] = []
lstrip (c ∷ s) = elim (is_space (code c)) [ true ↦ lstrip s | false ↦ c ∷ s ]

-- One character before a text that has been stripped at its end.
abbrev before_stripped : Bool → Char → String → String
before_stripped true c [] = []
before_stripped _ c s = c ∷ s

unfoldable pub rstrip : String → String
unfolding is_space
rstrip [] = []
rstrip (c ∷ s) = before_stripped (is_space (code c)) c (rstrip s)

unfoldable pub strip : String → String
unfolding lstrip rstrip
strip s = rstrip (lstrip s)

-- `" ".join(words)`
unfoldable pub join_words : List String → String
join_words List.[] = ""
join_words (List.◌∷◌ w List.[]) = w
join_words (List.◌∷◌ w ws) = concat w (concat " " (join_words ws))

-- `s < t`: by code points
unfoldable pub str_lt : String → String → Bool
str_lt s [] = false
str_lt [] (d ∷ t) = true
str_lt (c ∷ s) (d ∷ t) =
    let rest = str_lt s t in ltb (code c) (code d) || (code c == code d && rest)

-- `sorted(texts)`: a text before the first that is not smaller, into texts in order.
unfoldable pub insert_sorted : String → List String → List String
unfolding str_lt
insert_sorted s List.[] = List.◌∷◌ s List.[]
insert_sorted s (List.◌∷◌ t ts) =
    if str_lt t s then List.◌∷◌ t (insert_sorted s ts) else List.◌∷◌ s (List.◌∷◌ t ts)

unfoldable pub sorted : List String → List String
unfolding insert_sorted
sorted List.[] = List.[]
sorted (List.◌∷◌ s ts) = insert_sorted s (sorted ts)
