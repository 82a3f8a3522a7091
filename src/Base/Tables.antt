-- ===== src/Base/Tables.antt =====
-- SQL statements on one table, a list of rows in insertion order: SELECT, fetchone, UPDATE,
-- DELETE, COUNT. A condition is a Boolean test of a row.
use Prim.Native.Nat.{ℕ, zero, suc, ◌+◌}
use mathlib.Core.Bool.{Bool}
use mathlib.Core.Option.{Option, none, some}
use mathlib.Core.List.{List, [], ◌∷◌}
use nextcloud_mcp_connector.Base.Tests.{ltb, if◌then◌else◌}

module _ {ℓ} {A : Type ℓ} where
  -- SELECT … WHERE p
  abbrev pub select : (A → Bool) → List A → List A
  select p [] = []
  select p (x ∷ xs) = if p x then x ∷ select p xs else select p xs

  -- DELETE … WHERE p
  abbrev pub delete : (A → Bool) → List A → List A
  delete p [] = []
  delete p (x ∷ xs) = if p x then delete p xs else x ∷ delete p xs

  -- SELECT … WHERE p, fetchone()
  abbrev pub fetch : (A → Bool) → List A → Option A
  fetch p [] = none
  fetch p (x ∷ xs) = if p x then some x else fetch p xs

  -- SELECT … WHERE p ORDER BY seq DESC LIMIT 1, fetchone(), over rows in ascending order of seq
  abbrev pub fetch_last : (A → Bool) → List A → Option A
  fetch_last p [] = none
  fetch_last p (x ∷ xs) = elim (fetch_last p xs) [
    | some y ↦ some y
    | none ↦ if p x then some x else none
  ]

  -- UPDATE … SET f WHERE p
  abbrev pub update : (A → Bool) → (A → A) → List A → List A
  update p f [] = []
  update p f (x ∷ xs) = (if p x then f x else x) ∷ update p f xs

  -- SELECT COUNT(*) … WHERE p, or the row count of an UPDATE or a DELETE
  abbrev pub count : (A → Bool) → List A → ℕ
  count p [] = 0
  count p (x ∷ xs) = (if p x then 1 else 0) + count p xs

  -- LIMIT n
  abbrev pub take : ℕ → List A → List A
  take zero xs = []
  take (suc n) [] = []
  take (suc n) (x ∷ xs) = x ∷ take n xs

  -- A row into its place among rows in ascending order, before those that compare equal.
  unfoldable pub insert_by : (A → ℕ) → A → List A → List A
  insert_by key x [] = x ∷ []
  insert_by key x (y ∷ ys) = if ltb (key y) (key x) then y ∷ insert_by key x ys else x ∷ y ∷ ys

  -- ORDER BY key; rows that compare equal keep their order of insertion.
  unfoldable pub order_by : (A → ℕ) → List A → List A
  unfolding insert_by
  order_by key [] = []
  order_by key (x ∷ xs) = insert_by key x (order_by key xs)

  -- The same, descending.
  unfoldable pub insert_by_desc : (A → ℕ) → A → List A → List A
  insert_by_desc key x [] = x ∷ []
  insert_by_desc key x (y ∷ ys) =
      if ltb (key x) (key y) then y ∷ insert_by_desc key x ys else x ∷ y ∷ ys

  unfoldable pub order_by_desc : (A → ℕ) → List A → List A
  unfolding insert_by_desc
  order_by_desc key [] = []
  order_by_desc key (x ∷ xs) = insert_by_desc key x (order_by_desc key xs)
