-- ===== src/Base/Counting.antt =====
-- How the statements of Base/Tables change the number of rows that meet a condition.
use nextcloud_mcp_connector.Base.{
  ◌+◌, ◌≤◌, ◌<◌, ◌≡◌, refl, ap, subst, Bool, true, false, none, some, List, [], ◌∷◌, ◌++◌, arith,
  any, count, delete, select, update, fetch, All, length, if◌then◌else◌, inl, inr, Bool-cases,
}

module _ {ℓ} {A : Type ℓ} where
  pub count-append : (p : A → Bool) (xs ys : List A) → count p (xs ++ ys) ≡ count p xs + count p ys
  count-append p [] ys = omega arith
  count-append p (x ∷ xs) ys = omega (arith, count-append p xs ys)

  pub count-delete-le : (p q : A → Bool) (xs : List A) → count p (delete q xs) ≤ count p xs
  count-delete-le p q [] = omega arith
  count-delete-le p q (x ∷ xs) = ground (arith, count-delete-le p q xs)

  -- An update that makes no row meet the condition that did not meet it before.
  pub count-update-le :
      (p q : A → Bool) (f : A → A) (xs : List A)
      → ((x : A) → q x ≡ true → p (f x) ≡ true → p x ≡ true)
      → count p (update q f xs) ≤ count p xs
  count-update-le p q f [] h = omega arith
  count-update-le p q f (x ∷ xs) h = ground (arith, count-update-le p q f xs h, h x)

  -- An update that leaves the condition alone.
  pub count-update :
      (p q : A → Bool) (f : A → A) (xs : List A)
      → ((x : A) → p (f x) ≡ p x)
      → count p (update q f xs) ≡ count p xs
  count-update p q f [] h = omega arith
  count-update p q f (x ∷ xs) h = ground (arith, count-update p q f xs h, h x)

  pub count-eq-zero : (p : A → Bool) (xs : List A) → any p xs ≡ false → count p xs ≡ 0
  count-eq-zero p [] h = omega arith
  count-eq-zero p (x ∷ xs) h = ground (arith, count-eq-zero p xs)

  -- A narrower condition is met at most as often.
  pub count_mono :
      (p q : A → Bool) (xs : List A) → ((x : A) → p x ≡ true → q x ≡ true) → count p xs ≤ count q xs
  count_mono p q [] h = omega arith
  count_mono p q (x ∷ xs) h = ground (arith, count_mono p q xs h, h x)

  -- Where no row meets the condition, an update changes nothing.
  pub update_of_count_zero :
      (q : A → Bool) (f : A → A) (xs : List A) → count q xs ≡ 0 → update q f xs ≡ xs
  update_of_count_zero q f [] h = refl
  update_of_count_zero q f (x ∷ xs) h = ground (arith, update_of_count_zero q f xs)

  pub fetch_of_count_zero : (p : A → Bool) (xs : List A) → count p xs ≡ 0 → fetch p xs ≡ none
  fetch_of_count_zero p [] h = refl
  fetch_of_count_zero p (x ∷ xs) h = ground (arith, fetch_of_count_zero p xs)

  pub count-fetch-none : (p : A → Bool) (xs : List A) → fetch p xs ≡ none → count p xs ≡ 0
  count-fetch-none p [] h = omega arith
  count-fetch-none p (x ∷ xs) h = ground (arith, count-fetch-none p xs)

  -- A fetched row meets the condition.
  pub fetch_sound : (p : A → Bool) (xs : List A) (a : A) → fetch p xs ≡ some a → p a ≡ true
  fetch_sound p [] a h = cc
  fetch_sound p (x ∷ xs) a h = ground (arith, fetch_sound p xs a)

  -- What an update makes of the fetched row, where it leaves the condition of the fetch alone.
  pub fetch-update :
      (p q : A → Bool) (f : A → A) (xs : List A) (a : A)
      → ((x : A) → p (f x) ≡ p x)
      → fetch p xs ≡ some a
      → fetch p (update q f xs) ≡ some (if q a then f a else a)
  fetch-update p q f [] a keeps found = cc
  fetch-update p q f (x ∷ xs) a keeps found = ground (arith, fetch-update p q f xs a keeps, keeps x)

  -- What holds of each row that an update leaves or makes, if it meets the condition.
  pub All-select-update {κ} :
      (P : A → Type κ) (p q : A → Bool) (f : A → A) (xs : List A)
      → ((x : A) → p (if q x then f x else x) ≡ true → P (if q x then f x else x))
      → All P (select p (update q f xs))
  All-select-update P p q f [] h = tt
  All-select-update P p q f (x ∷ xs) h = elim (Bool-cases (p (if q x then f x else x))) [
    | inl passes ↦ rw passes (h x passes, All-select-update P p q f xs h)
    | inr fails ↦ rw fails (All-select-update P p q f xs h)
  ]

  -- What a deletion of rows that meet the condition takes away.
  pub count-delete-select :
      (p q : A → Bool) (xs : List A)
      → ((x : A) → q x ≡ true → p x ≡ true)
      → count p (delete q xs) + count (λ x. true) (select q xs) ≡ count p xs
  count-delete-select p q [] h = omega arith
  count-delete-select p q (x ∷ xs) h = ground (arith, count-delete-select p q xs h, h x)

  -- A deletion of rows that meet the condition, at least one of them.
  pub count-delete-lt :
      (p q : A → Bool) (xs ys : List A) (y : A)
      → ((x : A) → q x ≡ true → p x ≡ true)
      → select q xs ≡ y ∷ ys
      → count p (delete q xs) < count p xs
  count-delete-lt p q xs ys y h found =
      ground (arith, count-delete-select p q xs h, ap (count (λ (x : A). true)) found)

  -- A deletion of rows that do not meet the condition.
  pub count-delete-none :
      (p q : A → Bool) (xs : List A)
      → ((x : A) → q x ≡ true → p x ≡ false)
      → count p (delete q xs) ≡ count p xs
  count-delete-none p q [] h = refl
  count-delete-none p q (x ∷ xs) h = ground (arith, count-delete-none p q xs h, h x)

  -- What holds of every row holds of the fetched one.
  pub All-fetch {κ} :
      (P : A → Type κ) (p : A → Bool) (xs : List A) (a : A) → All P xs → fetch p xs ≡ some a → P a
  All-fetch P p [] a h found = absurd (ground (arith, found))
  All-fetch P p (x ∷ xs) a h found = elim (Bool-cases (p x)) [
    | inl meets ↦ subst P (ground (arith, meets, found)) h.0
    | inr fails ↦ All-fetch P p xs a h.1 (ground (arith, fails, found))
  ]

  pub All-select-nil : (p : A → Bool) (xs : List A) → select p xs ≡ [] → All (λ x. p x ≡ false) xs
  All-select-nil p [] h = tt
  All-select-nil p (x ∷ xs) h = elim (Bool-cases (p x)) [
    | inl meets ↦ ground (arith, meets, h)
    | inr fails ↦ (fails, All-select-nil p xs (ground (arith, fails, h)))
  ]

  pub fetch_head :
      (p : A → Bool) (x : A) (xs : List A) (a : A) → p x ≡ true → fetch p (x ∷ xs) ≡ some a → x ≡ a
  fetch_head p x xs a meets found = ground (arith, meets, found)

  pub count-length : (p : A → Bool) (xs : List A) → count p xs ≤ length xs
  count-length p [] = omega arith
  count-length p (x ∷ xs) = ground (arith, count-length p xs)
