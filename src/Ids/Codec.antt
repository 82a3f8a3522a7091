-- ===== src/Ids/Codec.antt =====
-- ids.py: the codec. A ToolError is a value that says which guard refused; the text of a number is an
-- argument.
use Prim.Native.Char.{Char, code}
use Prim.Native.String.{[], ◌∷◌}
use mathlib.Core.List.{List}
use nextcloud_mcp_connector.Base.{
  ℕ, suc, String, Bool, true, false, not, ◌&&◌, ◌||◌, Option, none, some, any, leb, ◌==◌, str_eq,
  if◌then◌else◌,
}
use nextcloud_mcp_connector.Base.Text.{is_blank, is_empty, strip, concat}

-- The refusals of this module.
pub data IdError : Type 0 where
  empty_value separator_in_segment empty_url not_an_id not_a_mail_id not_a_message_id : IdError
  not_a_table_id not_a_card_id not_an_event_id unknown_type empty_segment : IdError

pub data Outcome (A : Type 0) : Type 0 where
  ok : A → Outcome A
  refused : IdError → Outcome A

-- A kind with its segments.
abbrev pub Parsed : Type 0
Parsed = String × List String

abbrev pub is_separator : Char → Bool
is_separator c = code c == 58

-- `SEPARATOR in part`
unfoldable pub has_separator : String → Bool
has_separator [] = false
has_separator (c ∷ s) = is_separator c || has_separator s

-- `value.partition(SEPARATOR)`: what stands before the first separator, and what stands behind it.
unfoldable pub before : String → String
before [] = []
before (c ∷ s) = let rest = before s in if is_separator c then [] else c ∷ rest

unfoldable pub behind : String → Option String
behind [] = none
behind (c ∷ s) = let rest = behind s in if is_separator c then some s else rest

-- `rest.split(SEPARATOR)`
abbrev pub add_first : Char → List String → List String
add_first c List.[] = List.◌∷◌ (c ∷ []) List.[]
add_first c (List.◌∷◌ p ps) = List.◌∷◌ (c ∷ p) ps

unfoldable pub split_all : String → List String
split_all [] = List.◌∷◌ [] List.[]
split_all (c ∷ s) =
    let parts = split_all s in if is_separator c then List.◌∷◌ [] parts else add_first c parts

-- `rest.split(SEPARATOR, 1)`
unfoldable pub split_once : String → List String
unfolding before behind
split_once s = elim (behind s) [
  | none ↦ List.◌∷◌ s List.[]
  | some t ↦ List.◌∷◌ (before s) (List.◌∷◌ t List.[])
]

-- `SEPARATOR.join(words)`
unfoldable pub join_segments : List String → String
join_segments List.[] = []
join_segments (List.◌∷◌ w List.[]) = w
join_segments (List.◌∷◌ w ws) = concat w (concat ":" (join_segments ws))

-- The guards of _join on every segment, in order.
unfoldable pub refuses_part : List String → Option IdError
unfolding has_separator
refuses_part List.[] = none
refuses_part (List.◌∷◌ part parts) =
    let rest = refuses_part parts in
    if is_blank part
    then some empty_value
    else if has_separator part
    then some separator_in_segment
    else rest

unfoldable pub join : (kind : String) → List String → Outcome String
unfolding refuses_part join_segments
join kind parts = elim (refuses_part parts) [
  | some e ↦ refused e
  | none ↦ ok (join_segments (List.◌∷◌ kind parts))
]

unfoldable pub encode_file : String → Outcome String
unfolding join
encode_file fileid = join "file" (List.◌∷◌ fileid List.[])

unfoldable pub encode_note : String → Outcome String
unfolding join
encode_note note_id = join "note" (List.◌∷◌ note_id List.[])

unfoldable pub encode_mail : String → Outcome String
unfolding join
encode_mail message_id = join "mail" (List.◌∷◌ message_id List.[])

unfoldable pub encode_message : String → String → Outcome String
unfolding join
encode_message token message_id = join "message" (List.◌∷◌ token (List.◌∷◌ message_id List.[]))

unfoldable pub encode_table : String → Outcome String
unfolding join
encode_table table_id = join "table" (List.◌∷◌ table_id List.[])

unfoldable pub encode_card_short : String → Outcome String
unfolding join
encode_card_short card = join "card" (List.◌∷◌ card List.[])

unfoldable pub encode_event : String → String → Outcome String
unfolding join
encode_event calendar_uri object_name =
    join "event" (List.◌∷◌ calendar_uri (List.◌∷◌ object_name List.[]))

unfoldable pub encode_card : (board stack card : String) → Outcome String
unfolding join
encode_card board stack card = join "card" (List.◌∷◌ board (List.◌∷◌ stack (List.◌∷◌ card List.[])))

unfoldable pub encode_url : String → Outcome String
unfolding strip
encode_url url =
    if is_empty (strip url) then refused empty_url else ok (concat "url" (concat ":" (strip url)))

-- `_DIGITS.fullmatch`
abbrev pub is_digit : Char → Bool
is_digit c = leb 48 (code c) && leb (code c) 57

unfoldable pub all_digits : String → Bool
all_digits [] = true
all_digits (c ∷ s) = is_digit c && all_digits s

unfoldable pub is_number : String → Bool
unfolding all_digits
is_number s = not (is_empty s) && all_digits s

-- `_TOKEN.fullmatch`
abbrev is_token_char : Char → Bool
is_token_char c = is_digit c || (leb 97 (code c) && leb (code c) 122)

unfoldable pub all_token_chars : String → Bool
all_token_chars [] = true
all_token_chars (c ∷ s) = is_token_char c && all_token_chars s

unfoldable pub text_size : String → ℕ
text_size [] = 0
text_size (c ∷ s) = suc (text_size s)

unfoldable pub is_token : String → Bool
unfolding all_token_chars text_size
is_token s = leb 4 (text_size s) && leb (text_size s) 30 && all_token_chars s

-- The last guard of `parse`.
unfoldable pub finish : (kind : String) → List String → Outcome Parsed
finish kind parts = if any is_blank parts then refused empty_segment else ok (kind, parts)

-- `len(parts)` of a split
abbrev pub is_pair : List String → Bool
is_pair (List.◌∷◌ a (List.◌∷◌ b List.[])) = true
is_pair _ = false

abbrev pub is_card : List String → Bool
is_card (List.◌∷◌ a List.[]) = true
is_card (List.◌∷◌ a (List.◌∷◌ b (List.◌∷◌ c List.[]))) = true
is_card _ = false

-- The token and the number of a message id.
unfoldable pub is_message : List String → Bool
unfolding is_token is_number
is_message (List.◌∷◌ token (List.◌∷◌ number List.[])) = is_token token && is_number number
is_message _ = false

-- Which kind it is, and the guards of that kind.
unfoldable pub parse_kind : (kind rest : String) → Outcome Parsed
unfolding finish strip has_separator split_all split_once is_number is_message
parse_kind kind rest =
    if str_eq kind "url"
    then (if is_blank rest || not (str_eq rest (strip rest))
        then refused not_an_id
        else ok ("url", List.◌∷◌ rest List.[]))
    else if str_eq kind "file" || str_eq kind "note"
    then (if has_separator rest then refused not_an_id else finish kind (List.◌∷◌ rest List.[]))
    else if str_eq kind "mail"
    then (if is_number rest then finish kind (List.◌∷◌ rest List.[]) else refused not_a_mail_id)
    else if str_eq kind "message"
    then (if is_message (split_once rest)
        then finish kind (split_once rest)
        else refused not_a_message_id)
    else if str_eq kind "table"
    then (if is_number rest then finish kind (List.◌∷◌ rest List.[]) else refused not_a_table_id)
    else if str_eq kind "card"
    then (if is_card (split_all rest) then finish kind (split_all rest) else refused not_a_card_id)
    else if str_eq kind "event"
    then (if is_pair (split_all rest)
        then finish kind (split_all rest)
        else refused not_an_event_id)
    else refused unknown_type

unfoldable pub parse : String → Outcome Parsed
unfolding parse_kind strip before behind
parse raw = elim (behind (strip raw)) [
  | none ↦ refused not_an_id
  | some rest ↦
      if is_empty (before (strip raw)) || is_empty rest
      then refused not_an_id
      else parse_kind (before (strip raw)) rest
]
