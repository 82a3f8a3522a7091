-- ===== src/Ids/Cards.antt =====
-- ids.py: the id of a card, from its three segments and back.
use Prim.Native.String.append
use mathlib.Core.List.{List}
use nextcloud_mcp_connector.Base.{String, ◌≡◌, refl, ap, ◌∙◌, false, none, arith}
use nextcloud_mcp_connector.Base.Text.{concat, strip, is_blank, is_empty}
use nextcloud_mcp_connector.Ids.Codec.{
  ok, has_separator, before, behind, split_all, join_segments, refuses_part, join, encode_card,
  finish, parse_kind, parse,
}
use nextcloud_mcp_connector.Ids.Pieces.{
  behind-concat, before-concat, split_all-concat, split_all-plain,
}

-- A segment that the encoder takes.
abbrev IsSegment : String → Type 0
IsSegment s = (is_blank s ≡ false) × (has_separator s ≡ false)

is_empty-concat : (s t : String) → is_blank s ≡ false → is_empty (concat s t) ≡ false
unfolding is_blank
is_empty-concat String.[] t h = cc
is_empty-concat (String.◌∷◌ c s) t h = ap is_empty (append.cons c s t)

module _ (board stack card : String) where
  abbrev segments : List String
  segments = List.◌∷◌ board (List.◌∷◌ stack (List.◌∷◌ card List.[]))

  abbrev rest : String
  rest = concat board (concat ":" (concat stack (concat ":" card)))

  -- The text of the id.
  abbrev pub card_id : String
  card_id = concat "card" (concat ":" rest)

  module _ (accepted : refuses_part segments ≡ none) where
    board_fits : IsSegment board
    unfolding refuses_part
    board_fits = (ground (arith, accepted), ground (arith, accepted))

    stack_fits : IsSegment stack
    unfolding refuses_part
    stack_fits = (ground (arith, accepted), ground (arith, accepted))

    card_fits : IsSegment card
    unfolding refuses_part
    card_fits = (ground (arith, accepted), ground (arith, accepted))

    split_all-rest : split_all rest ≡ segments
    split_all-rest =
        split_all-concat (concat stack (concat ":" card)) board board_fits.1
        ∙ ap (List.◌∷◌ board) (
            split_all-concat card stack stack_fits.1
            ∙ ap (List.◌∷◌ stack) (split_all-plain card card_fits.1))

    parse_kind-rest : parse_kind "card" rest ≡ ok ("card", segments)
    unfolding parse_kind finish
    parse_kind-rest = rw split_all-rest (rw (board_fits.0, stack_fits.0, card_fits.0) refl)

    -- A card id that the encoder takes and that carries no whitespace at its ends is read back as the
    -- same three segments.
    pub parse-encode_card :
        strip card_id ≡ card_id
        → (encode_card board stack card ≡ ok card_id) × (parse card_id ≡ ok ("card", segments))
    unfolding encode_card join join_segments parse
    parse-encode_card trimmed = (
      rw (encode_card, join, accepted) refl,
      rw
          (
            parse,
            ap behind trimmed ∙ behind-concat rest "card" refl,
            ap before trimmed ∙ before-concat rest "card" refl,
            is_empty-concat board (concat ":" (concat stack (concat ":" card))) board_fits.0,
          )
          parse_kind-rest,
    )
