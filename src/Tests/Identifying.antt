-- ===== src/Tests/Identifying.antt =====
-- Runs of the id codec (ids.py).
use mathlib.Core.List.{[], ◌∷◌}
use nextcloud_mcp_connector.Base.{◌≡◌, refl}
use nextcloud_mcp_connector.Base.Text.{is_blank, strip}
use nextcloud_mcp_connector.Ids.Codec.{ok, encode_card, parse, refuses_part}
use nextcloud_mcp_connector.Ids.Encoders.{encode}
use nextcloud_mcp_connector.Ids.RoundTrip.{encode-parse}
use nextcloud_mcp_connector.Ids.Cards.{card_id, parse-encode_card}

read_message : parse " message:abcd:17" ≡ ok ("message", "abcd" ∷ "17" ∷ [])
unfolding parse is_blank
read_message = refl

encode-parse_example : encode ("message", "abcd" ∷ "17" ∷ []) ≡ ok (strip " message:abcd:17")
encode-parse_example = encode-parse " message:abcd:17" ("message", "abcd" ∷ "17" ∷ []) read_message

parse-encode_card_example :
    (encode_card "4" "2" "9" ≡ ok (card_id "4" "2" "9"))
    × (parse (card_id "4" "2" "9") ≡ ok ("card", "4" ∷ "2" ∷ "9" ∷ []))
unfolding refuses_part is_blank strip
parse-encode_card_example = parse-encode_card "4" "2" "9" refl refl
