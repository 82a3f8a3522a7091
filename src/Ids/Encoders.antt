-- ===== src/Ids/Encoders.antt =====
-- ids.py: the encoders by kind and number of segments.
use mathlib.Core.List.{List}
use nextcloud_mcp_connector.Base.{
  String, ◌≡◌, refl, sym, subst, true, ◌||◌, arith, str_eq, eq_iff, Bool-cases, inl, inr,
  if◌then◌else◌,
}
use nextcloud_mcp_connector.Ids.Codec.{
  Outcome, refused, Parsed, join, encode_file, encode_note, encode_mail, encode_message,
  encode_table, encode_card_short, encode_event, encode_card, not_an_id, not_a_card_id,
  unknown_type, encode_url, is_pair, is_card, is_message,
}

-- An encoder of one, of two and of three segments.
abbrev pub one_part : (String → Outcome String) → List String → Outcome String
one_part f (List.◌∷◌ a List.[]) = f a
one_part f _ = refused not_an_id

abbrev pub two_parts : (String → String → Outcome String) → List String → Outcome String
two_parts f (List.◌∷◌ a (List.◌∷◌ b List.[])) = f a b
two_parts f _ = refused not_an_id

abbrev pub card_parts : List String → Outcome String
unfolding encode_card_short encode_card
card_parts (List.◌∷◌ c List.[]) = encode_card_short c
card_parts (List.◌∷◌ a (List.◌∷◌ b (List.◌∷◌ c List.[]))) = encode_card a b c
card_parts _ = refused not_a_card_id

-- The encoder that a tool of the kind calls, by the number of the segments.
unfoldable pub encode : Parsed → Outcome String
unfolding encode_url encode_file encode_note encode_mail encode_message encode_table encode_event
encode (kind, parts) =
    if str_eq kind "url"
    then one_part encode_url parts
    else if str_eq kind "file"
    then one_part encode_file parts
    else if str_eq kind "note"
    then one_part encode_note parts
    else if str_eq kind "mail"
    then one_part encode_mail parts
    else if str_eq kind "message"
    then two_parts encode_message parts
    else if str_eq kind "table"
    then one_part encode_table parts
    else if str_eq kind "card"
    then card_parts parts
    else if str_eq kind "event"
    then two_parts encode_event parts
    else refused unknown_type

abbrev pub Joins : (kind : String) → List String → Type 0
Joins kind parts = encode (kind, parts) ≡ join kind parts

pub Joins-file :
    (kind rest : String)
    → (str_eq kind "file" || str_eq kind "note") ≡ true
    → Joins kind (List.◌∷◌ rest List.[])
unfolding encode encode_file encode_note
Joins-file kind rest own = elim (Bool-cases (str_eq kind "file")) [
  | inl file ↦ subst (λ k. Joins k (List.◌∷◌ rest List.[])) (sym ((eq_iff kind "file").0 file)) refl
  | inr other ↦
      subst (λ k. Joins k (List.◌∷◌ rest List.[]))
        (sym ((eq_iff kind "note").0 (ground (arith, own, other)))) refl
]

pub Joins-mail :
    (kind rest : String) → str_eq kind "mail" ≡ true → Joins kind (List.◌∷◌ rest List.[])
unfolding encode encode_mail
Joins-mail kind rest own =
    subst (λ k. Joins k (List.◌∷◌ rest List.[])) (sym ((eq_iff kind "mail").0 own)) refl

pub Joins-table :
    (kind rest : String) → str_eq kind "table" ≡ true → Joins kind (List.◌∷◌ rest List.[])
unfolding encode encode_table
Joins-table kind rest own =
    subst (λ k. Joins k (List.◌∷◌ rest List.[])) (sym ((eq_iff kind "table").0 own)) refl

message_parts : (parts : List String) → is_message parts ≡ true → Joins "message" parts
unfolding encode encode_message is_message
message_parts List.[] fits = cc
message_parts (List.◌∷◌ a List.[]) fits = cc
message_parts (List.◌∷◌ a (List.◌∷◌ b List.[])) fits = refl
message_parts (List.◌∷◌ a (List.◌∷◌ b (List.◌∷◌ c ps))) fits = cc

event_parts : (parts : List String) → is_pair parts ≡ true → Joins "event" parts
unfolding encode encode_event
event_parts List.[] fits = cc
event_parts (List.◌∷◌ a List.[]) fits = cc
event_parts (List.◌∷◌ a (List.◌∷◌ b List.[])) fits = refl
event_parts (List.◌∷◌ a (List.◌∷◌ b (List.◌∷◌ c ps))) fits = cc

cards : (parts : List String) → is_card parts ≡ true → Joins "card" parts
unfolding encode encode_card_short encode_card
cards List.[] fits = cc
cards (List.◌∷◌ a List.[]) fits = refl
cards (List.◌∷◌ a (List.◌∷◌ b List.[])) fits = cc
cards (List.◌∷◌ a (List.◌∷◌ b (List.◌∷◌ c List.[]))) fits = refl
cards (List.◌∷◌ a (List.◌∷◌ b (List.◌∷◌ c (List.◌∷◌ d ps)))) fits = cc

pub Joins-message :
    (kind : String) (parts : List String)
    → str_eq kind "message" ≡ true
    → is_message parts ≡ true
    → Joins kind parts
Joins-message kind parts own fits =
    subst (λ k. Joins k parts) (sym ((eq_iff kind "message").0 own)) (message_parts parts fits)

pub Joins-event :
    (kind : String) (parts : List String)
    → str_eq kind "event" ≡ true
    → is_pair parts ≡ true
    → Joins kind parts
Joins-event kind parts own fits =
    subst (λ k. Joins k parts) (sym ((eq_iff kind "event").0 own)) (event_parts parts fits)

pub Joins-card :
    (kind : String) (parts : List String)
    → str_eq kind "card" ≡ true
    → is_card parts ≡ true
    → Joins kind parts
Joins-card kind parts own fits =
    subst (λ k. Joins k parts) (sym ((eq_iff kind "card").0 own)) (cards parts fits)
