-- ===== src/Exclusion/Spellings.antt =====
-- Which ids `exclude_tag_ids` (nextcloud/exclusion.py) takes from a listing.
use nextcloud_mcp_connector.Base.{
  ℕ, ◌≤◌, String, ◌≡◌, ◌⊎◌, inl, inr, sym, subst, ◌∙◌, true, false, Option, some, List, [], ◌∷◌,
  map, arith, All, eq_refl, ◌==◌, order_by, Option-cases,
}
use nextcloud_mcp_connector.Base.Selecting.{All-mono}
use nextcloud_mcp_connector.Base.Dict.{Dict, get, put, get-put}
use nextcloud_mcp_connector.Exclusion.Scope.{
  Tag, is_exclude_name, lowest_ids, exclude_tag_ids, among,
}
use nextcloud_mcp_connector.Exclusion.Lowest.{
  any-get, any-order_by, among-map, IsAtMost, skipped, stored, kept, IsNumberOf, lowest_ids-cons,
  lowest_ids-IsAtMost, lowest_ids-IsNumberOf,
}

module _ (casefold : String → String) (int_of : String → Option ℕ) (text_of : ℕ → String) where
  -- A tag does not spell the exclusion tag, or the lowest number kept for its spelling, that of a
  -- listed tag of the same name, is not above its own and is among the ids.
  abbrev pub IsAsked : List Tag → List String → Tag → Type 0
  IsAsked tags ids tag =
      (is_exclude_name casefold tag.name ≡ false)
      ⊎ ((n : ℕ) × (m : ℕ) × (int_of tag.id ≡ some n)
          × (m ≤ n)
          × IsNumberOf casefold int_of tags tag.name m
          × (among (text_of m) ids ≡ true))

  -- Every tag of the listing is accounted for.
  abbrev pub AreSpellings : List Tag → List String → Type 0
  AreSpellings tags ids = All (IsAsked tags ids) tags

  abbrev IsKept : Dict ℕ → Tag → Type 0
  IsKept result tag =
      (is_exclude_name casefold tag.name ≡ false)
      ⊎ ((n : ℕ) × (int_of tag.id ≡ some n) × IsAtMost n (get result tag.name))

  lowest_ids-IsKept :
      (tags : List Tag) (d result : Dict ℕ)
      → lowest_ids casefold int_of tags d ≡ some result
      → All (IsKept result) tags
  lowest_ids-IsKept [] d result read = tt
  lowest_ids-IsKept (tag ∷ tags) d result read =
      elim (lowest_ids-cons casefold int_of tag tags d result read) [
        | skipped other rest ↦ (inl other, lowest_ids-IsKept tags d result rest)
        | stored n number below rest ↦ (
          inr (
            n,
            number,
            lowest_ids-IsAtMost casefold int_of tags (put d tag.name n) result tag.name n rest
                (rw (get-put d tag.name tag.name n, eq_refl tag.name) (omega arith)),
          ),
          lowest_ids-IsKept tags (put d tag.name n) result rest,
        )
        | kept n least number present le rest ↦ (
          inr (
            n,
            number,
            lowest_ids-IsAtMost casefold int_of tags d result tag.name n rest
                (subst (IsAtMost n) (sym present) le),
          ),
          lowest_ids-IsKept tags d result rest,
        )
      ]

  IsAsked-IsKept :
      (tags : List Tag) (result : Dict ℕ) (tag : Tag)
      → lowest_ids casefold int_of tags [] ≡ some result
      → IsKept result tag
      → IsAsked tags (map text_of (order_by (λ n. n) (map (λ (e : String × ℕ). e.1) result))) tag
  unfolding get
  IsAsked-IsKept tags result tag read (inl other) = inl other
  IsAsked-IsKept tags result tag read (inr (n, number, low)) =
      elim (Option-cases (get result tag.name)) [
        | inl missing ↦ absurd (subst (IsAtMost n) missing low)
        | inr (m, found) ↦
            elim (lowest_ids-IsNumberOf casefold int_of tags [] result tag.name m read found) [
              | inl empty ↦ cc
              | inr source ↦ inr (
                n,
                m,
                number,
                subst (IsAtMost n) found low,
                source,
                among-map text_of m _
                    (any-order_by (λ v. v == m) _ ∙ any-get result tag.name m found),
              )
            ]
      ]

  -- What is read of a listing accounts for each of its tags.
  pub exclude_tag_ids-AreSpellings :
      (tags : List Tag) (ids : List String)
      → exclude_tag_ids casefold int_of text_of tags ≡ some ids
      → AreSpellings tags ids
  unfolding exclude_tag_ids
  exclude_tag_ids-AreSpellings tags ids read =
      elim (Option-cases (lowest_ids casefold int_of tags [])) [
        | inl garbled ↦ ground (arith, read, garbled)
        | inr (result, kept_numbers) ↦
            let same : map text_of (order_by (λ n. n) (map (λ (e : String × ℕ). e.1) result))
                ≡ ids =
              ground (arith, read, kept_numbers) in
            subst (λ k. All (IsAsked tags k) tags) same
              (All-mono (IsKept result) _ tags
                (λ tag k. IsAsked-IsKept tags result tag kept_numbers k)
                (lowest_ids-IsKept tags [] result kept_numbers))
      ]
