-- ===== src/Exclusion/Lowest.antt =====
-- The numbers that the loop of `exclude_tag_ids` (nextcloud/exclusion.py) keeps.
use mathlib.Core.List.{Memᴰ}
use nextcloud_mcp_connector.Base.{
  ℕ, ◌≤◌, String, ◌≡◌, ◌⊎◌, inl, inr, refl, ap, subst, ◌∙◌, Bool, true, false, ◌||◌, Option, none,
  some, List, [], ◌∷◌, map, arith, any, ltb, str_eq, eq_iff, ◌==◌, order_by, insert_by, Bool-cases,
  Option-cases,
}
use nextcloud_mcp_connector.Base.Dict.{Dict, get, put, get-put}
use nextcloud_mcp_connector.Exclusion.Scope.{Tag, is_exclude_name, lowest_ids, among}

-- A value of a dict is among its values.
pub any-get :
    (d : Dict ℕ) (k : String) (m : ℕ)
    → get d k ≡ some m
    → any (λ v. v == m) (map (λ (e : String × ℕ). e.1) d) ≡ true
unfolding get
any-get [] k m found = cc
any-get ((j, v) ∷ d) k m found = ground (arith, found, any-get d k m)

any-insert_by :
    (p : ℕ → Bool) (x : ℕ) (ys : List ℕ) → any p (insert_by (λ n. n) x ys) ≡ (p x || any p ys)
unfolding insert_by
any-insert_by p x [] = refl
any-insert_by p x (y ∷ ys) = ground (arith, any-insert_by p x ys)

pub any-order_by : (p : ℕ → Bool) (xs : List ℕ) → any p (order_by (λ n. n) xs) ≡ any p xs
unfolding order_by
any-order_by p [] = refl
any-order_by p (x ∷ xs) =
    any-insert_by p x (order_by (λ n. n) xs) ∙ ap (λ b. p x || b) (any-order_by p xs)

pub among-map :
    (text_of : ℕ → String) (m : ℕ) (vs : List ℕ)
    → any (λ v. v == m) vs ≡ true
    → among (text_of m) (map text_of vs) ≡ true
among-map text_of m [] found = cc
among-map text_of m (v ∷ vs) found = elim (Bool-cases (v == m)) [
  | inl here ↦
      let same : v ≡ m = ground (arith, here) in
      let first : str_eq (text_of v) (text_of m) ≡ true =
        (eq_iff (text_of v) (text_of m)).1 (ap text_of same) in
      ground (arith, first)
  | inr there ↦ ground (arith, among-map text_of m vs (ground (arith, found, there)))
]

-- A number that is not above the one that was kept.
abbrev pub IsAtMost : ℕ → Option ℕ → Type 0
IsAtMost k none = ⊥
IsAtMost k (some m) = m ≤ k

module _ (casefold : String → String) (int_of : String → Option ℕ) where
  -- What one tag of the list does to the numbers.
  pub data Choice (tag : Tag) (tags : List Tag) (d result : Dict ℕ) : Type 0 where
    skipped :
        is_exclude_name casefold tag.name ≡ false
        → lowest_ids casefold int_of tags d ≡ some result
        → Choice tag tags d result
    stored :
        (n : ℕ)
        → int_of tag.id ≡ some n
        → ((m : ℕ) → get d tag.name ≡ some m → n ≤ m)
        → lowest_ids casefold int_of tags (put d tag.name n) ≡ some result
        → Choice tag tags d result
    kept :
        (n least : ℕ)
        → int_of tag.id ≡ some n
        → get d tag.name ≡ some least
        → least ≤ n
        → lowest_ids casefold int_of tags d ≡ some result
        → Choice tag tags d result

  pub lowest_ids-cons :
      (tag : Tag) (tags : List Tag) (d result : Dict ℕ)
      → lowest_ids casefold int_of (tag ∷ tags) d ≡ some result
      → Choice tag tags d result
  unfolding lowest_ids
  lowest_ids-cons tag tags d result read = elim (Bool-cases (is_exclude_name casefold tag.name)) [
    | inr other ↦ skipped other (ground (arith, read, other))
    | inl spelled ↦ elim (Option-cases (int_of tag.id)) [
      | inl garbled ↦ ground (arith, read, spelled, garbled)
      | inr (n, number) ↦ elim (Option-cases (get d tag.name)) [
        | inl new ↦ stored n number (λ m found. cc) (ground (arith, read, spelled, number, new))
        | inr (least, present) ↦ elim (Bool-cases (ltb n least)) [
          | inl less ↦
              stored n number (λ m found. ground (arith, found, present, less))
                (ground (arith, read, spelled, number, present, less))
          | inr more ↦
              kept n least number present (ground (arith, more))
                (ground (arith, read, spelled, number, present, more))
        ]
      ]
    ]
  ]

  put-IsAtMost :
      (d : Dict ℕ) (key name : String) (n j : ℕ)
      → ((m : ℕ) → get d key ≡ some m → n ≤ m)
      → IsAtMost j (get d name)
      → IsAtMost j (get (put d key n) name)
  put-IsAtMost d key name n j below low = elim (Bool-cases (str_eq key name)) [
    | inr other ↦ rw (get-put d key name n, other) low
    | inl same ↦ elim (Option-cases (get d name)) [
      | inl missing ↦ absurd (subst (IsAtMost j) missing low)
      | inr (m, found) ↦
          rw (get-put d key name n, same)
            (omega (
              arith,
              below m (ap (get d) ((eq_iff key name).0 same) ∙ found),
              subst (IsAtMost j) found low,
            ))
    ]
  ]

  -- The number that is kept for a name never grows.
  pub lowest_ids-IsAtMost :
      (tags : List Tag) (d result : Dict ℕ) (name : String) (k : ℕ)
      → lowest_ids casefold int_of tags d ≡ some result
      → IsAtMost k (get d name)
      → IsAtMost k (get result name)
  unfolding lowest_ids
  lowest_ids-IsAtMost [] d result name k read low =
      let same : d ≡ result = cc in subst (λ e. IsAtMost k (get e name)) same low
  lowest_ids-IsAtMost (tag ∷ tags) d result name k read low =
      elim (lowest_ids-cons tag tags d result read) [
        | skipped other rest ↦ lowest_ids-IsAtMost tags d result name k rest low
        | stored n number below rest ↦
            lowest_ids-IsAtMost tags (put d tag.name n) result name k rest
              (put-IsAtMost d tag.name name n k below low)
        | kept n least number present le rest ↦ lowest_ids-IsAtMost tags d result name k rest low
      ]

  -- A number that is kept is that of a tag with the name.
  abbrev pub IsNumberOf : List Tag → (name : String) → ℕ → Type 0
  IsNumberOf tags name m =
      (twin : Tag) × Memᴰ twin tags × (twin.name ≡ name) × (int_of twin.id ≡ some m)

  later_number :
      (tag : Tag) (tags : List Tag) (name : String) (m : ℕ)
      → IsNumberOf tags name m
      → IsNumberOf (tag ∷ tags) name m
  later_number tag tags name m (twin, listed, named, number) =
      (twin, Memᴰ.tail listed, named, number)

  or_later :
      (tag : Tag) (tags : List Tag) (d : Dict ℕ) (name : String) (m : ℕ)
      → (get d name ≡ some m) ⊎ IsNumberOf tags name m
      → (get d name ≡ some m) ⊎ IsNumberOf (tag ∷ tags) name m
  or_later tag tags d name m (inl first) = inl first
  or_later tag tags d name m (inr later) = inr (later_number tag tags name m later)

  pub lowest_ids-IsNumberOf :
      (tags : List Tag) (d result : Dict ℕ) (name : String) (m : ℕ)
      → lowest_ids casefold int_of tags d ≡ some result
      → get result name ≡ some m
      → (get d name ≡ some m) ⊎ IsNumberOf tags name m
  unfolding lowest_ids
  lowest_ids-IsNumberOf [] d result name m read found =
      let same : result ≡ d = cc in inl (subst (λ e. get e name ≡ some m) same found)
  lowest_ids-IsNumberOf (tag ∷ tags) d result name m read found =
      elim (lowest_ids-cons tag tags d result read) [
        | skipped other rest ↦
            or_later tag tags d name m (lowest_ids-IsNumberOf tags d result name m rest found)
        | stored n number below rest ↦
            elim (lowest_ids-IsNumberOf tags (put d tag.name n) result name m rest found) [
              | inr later ↦ inr (later_number tag tags name m later)
              | inl here ↦ elim (Bool-cases (str_eq tag.name name)) [
                | inl same ↦ inr (
                  tag,
                  Memᴰ.head refl,
                  (eq_iff tag.name name).0 same,
                  number ∙ ground (arith, here, get-put d tag.name name n, same),
                )
                | inr other ↦ inl (ground (arith, here, get-put d tag.name name n, other))
              ]
            ]
        | kept n least number present le rest ↦
            or_later tag tags d name m (lowest_ids-IsNumberOf tags d result name m rest found)
      ]
