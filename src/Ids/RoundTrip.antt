-- ===== src/Ids/RoundTrip.antt =====
-- ids.py: what is read back is what the encoders build.
use mathlib.Core.List.{List}
use nextcloud_mcp_connector.Base.{
  String, ◌≡◌, refl, ap, sym, ◌∙◌, subst, Bool, true, false, not, ◌||◌, none, some, arith, All, any,
  str_eq, eq_iff, Option-cases, inl, inr, if◌then◌else◌,
}
use nextcloud_mcp_connector.Base.Text.{concat, strip, is_blank, is_empty}
use nextcloud_mcp_connector.Ids.Codec.{
  Outcome, ok, refused, Parsed, has_separator, before, behind, split_all, split_once, join_segments,
  refuses_part, join, encode_url, is_number, all_digits, finish, is_pair, is_card, is_message,
  parse_kind, parse,
}
use nextcloud_mcp_connector.Ids.Encoders.{
  encode, Joins, Joins-file, Joins-mail, Joins-table, Joins-message, Joins-event, Joins-card,
}
use nextcloud_mcp_connector.Ids.Pieces.{
  before-behind, has_separator-before, is_cons, is_cons-split_all, join_cons, join-split_all,
  has_separator-split_all, has_separator-digits,
}

-- What holds of the value of a call that does not refuse.
abbrev IfOk : {A : Type 0} → (A → Type 0) → Outcome A → Type 0
IfOk P (ok a) = P a
IfOk P (refused e) = Unit

IfOk-if :
    {A : Type 0} (P : A → Type 0) (b : Bool) (x y : Outcome A)
    → (b ≡ true → IfOk P x)
    → (b ≡ false → IfOk P y)
    → IfOk P (if b then x else y)
IfOk-if P true x y met failed = met refl
IfOk-if P false x y met failed = failed refl

refuses_part-none :
    (parts : List String)
    → All (λ p. has_separator p ≡ false) parts
    → any is_blank parts ≡ false
    → refuses_part parts ≡ none
unfolding refuses_part
refuses_part-none List.[] plain filled = refl
refuses_part-none (List.◌∷◌ p ps) plain filled =
    ground (arith, filled, plain.0, refuses_part-none ps plain.1)

-- Segments that can be joined to the rest of an id.
abbrev Segments : (rest : String) → List String → Type 0
Segments rest parts =
    (is_cons parts ≡ true) × (join_segments parts ≡ rest) × All (λ p. has_separator p ≡ false) parts

abbrev Encodes : String → Parsed → Type 0
Encodes text p = encode p ≡ ok text

filled : (s : String) → is_blank s ≡ false → is_empty s ≡ false
unfolding is_blank
filled String.[] h = cc
filled (String.◌∷◌ c s) h = refl

module _ (kind rest : String) where
  abbrev text : String
  text = concat kind (concat ":" rest)

  encode-finish :
      (parts : List String)
      → Joins kind parts
      → Segments rest parts
      → IfOk (Encodes text) (finish kind parts)
  unfolding finish join
  encode-finish parts joins (filled, joined, plain) =
      IfOk-if (Encodes text) (any is_blank parts) _ _ (λ blank. tt)
        (λ full.
          rw (joins, join, refuses_part-none parts plain full)
            (ap ok (join_cons kind parts filled ∙ ap (λ r. concat kind (concat ":" r)) joined)))

  one_segment : has_separator rest ≡ false → Segments rest (List.◌∷◌ rest List.[])
  unfolding join_segments
  one_segment plain = (refl, refl, (plain, tt))

  Segments-split_all : Segments rest (split_all rest)
  Segments-split_all = (is_cons-split_all rest, join-split_all rest, has_separator-split_all rest)

  number_segment : is_number rest ≡ true → Segments rest (List.◌∷◌ rest List.[])
  unfolding is_number
  number_segment digits = one_segment (has_separator-digits rest (ground (arith, digits)))

  split_once-pair :
      (t : String)
      → behind rest ≡ some t
      → split_once rest ≡ List.◌∷◌ (before rest) (List.◌∷◌ t List.[])
  unfolding split_once before
  split_once-pair t found = rw (split_once, found) refl

  number_of :
      (t : String)
      → is_message (List.◌∷◌ (before rest) (List.◌∷◌ t List.[])) ≡ true
      → all_digits t ≡ true
  unfolding is_message is_number
  number_of t own = ground (arith, own)

  Segments-message : is_message (split_once rest) ≡ true → Segments rest (split_once rest)
  unfolding split_once is_message is_number join_segments
  Segments-message own = elim (Option-cases (behind rest)) [
    | inl nothing ↦ ground (arith, own, nothing)
    | inr (t, found) ↦ rw (split_once-pair t found) (
      refl,
      before-behind rest t found,
      (
        has_separator-before rest,
        (
          has_separator-digits t
              (number_of t (ap is_message (sym (split_once-pair t found)) ∙ own)),
          tt,
        ),
      ),
    )
  ]

  encode-url :
      str_eq kind "url" ≡ true
      → (is_blank rest || not (str_eq rest (strip rest))) ≡ false
      → Encodes text ("url", List.◌∷◌ rest List.[])
  unfolding encode encode_url
  encode-url own whole =
      let same = (eq_iff rest (strip rest)).0 (ground (arith, whole)) in
      rw (encode_url, ap is_empty (sym same) ∙ filled rest (ground (arith, whole)))
        (ap (λ r. ok (concat "url" (concat ":" r))) (sym same)
          ∙ ap (λ k. ok (concat k (concat ":" rest))) (sym ((eq_iff kind "url").0 own)))

  -- Each branch of `parse`.
  encode-parse_kind : IfOk (Encodes text) (parse_kind kind rest)
  unfolding parse_kind
  encode-parse_kind =
      IfOk-if (Encodes text) (str_eq kind "url") _ _
        (λ own.
          IfOk-if (Encodes text) (is_blank rest || not (str_eq rest (strip rest))) _ _ (λ blank. tt)
            (λ whole. encode-url own whole))
        (λ other.
          IfOk-if (Encodes text) (str_eq kind "file" || str_eq kind "note") _ _
            (λ own.
              IfOk-if (Encodes text) (has_separator rest) _ _ (λ cut. tt)
                (λ plain.
                  encode-finish (List.◌∷◌ rest List.[]) (Joins-file kind rest own)
                    (one_segment plain)))
            (λ no_file.
              IfOk-if (Encodes text) (str_eq kind "mail") _ _
                (λ own.
                  IfOk-if (Encodes text) (is_number rest) _ _
                    (λ digits.
                      encode-finish (List.◌∷◌ rest List.[]) (Joins-mail kind rest own)
                        (number_segment digits))
                    (λ no_number. tt))
                (λ no_mail.
                  IfOk-if (Encodes text) (str_eq kind "message") _ _
                    (λ own.
                      IfOk-if (Encodes text) (is_message (split_once rest)) _ _
                        (λ message.
                          encode-finish (split_once rest)
                            (Joins-message kind (split_once rest) own message)
                            (Segments-message message))
                        (λ no_pair. tt))
                    (λ no_message.
                      IfOk-if (Encodes text) (str_eq kind "table") _ _
                        (λ own.
                          IfOk-if (Encodes text) (is_number rest) _ _
                            (λ digits.
                              encode-finish (List.◌∷◌ rest List.[]) (Joins-table kind rest own)
                                (number_segment digits))
                            (λ no_number. tt))
                        (λ no_table.
                          IfOk-if (Encodes text) (str_eq kind "card") _ _
                            (λ own.
                              IfOk-if (Encodes text) (is_card (split_all rest)) _ _
                                (λ fits.
                                  encode-finish (split_all rest)
                                    (Joins-card kind (split_all rest) own fits) Segments-split_all)
                                (λ too_many. tt))
                            (λ no_card.
                              IfOk-if (Encodes text) (str_eq kind "event") _ _
                                (λ own.
                                  IfOk-if (Encodes text) (is_pair (split_all rest)) _ _
                                    (λ fits.
                                      encode-finish (split_all rest)
                                        (Joins-event kind (split_all rest) own fits)
                                        Segments-split_all)
                                    (λ too_many. tt))
                                (λ unknown. tt)))))))

encode-parse_text : (raw : String) → IfOk (Encodes (strip raw)) (parse raw)
unfolding parse
encode-parse_text raw = elim (Option-cases (behind (strip raw))) [
  | inl nothing ↦ rw (parse, nothing) tt
  | inr (rest, found) ↦
      rw (parse, found)
        (IfOk-if (Encodes (strip raw)) (is_empty (before (strip raw)) || is_empty rest) _ _
          (λ empty. tt)
          (λ full.
            subst (λ t. IfOk (Encodes t) (parse_kind (before (strip raw)) rest))
              (before-behind (strip raw) rest found) (encode-parse_kind (before (strip raw)) rest)))
]

-- What `parse` accepts is what the encoders build: where a text is read as a kind with segments, the
-- encoder of the kind builds that text again from them, without the whitespace around it.
pub encode-parse : (raw : String) (p : Parsed) → parse raw ≡ ok p → encode p ≡ ok (strip raw)
encode-parse raw p read = subst (IfOk (Encodes (strip raw))) read (encode-parse_text raw)
