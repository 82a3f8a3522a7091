-- ===== src/Base/Selecting.antt =====
-- How the statements of Base/Tables act on the rows that another statement reads.
use nextcloud_mcp_connector.Base.{
  ◌≡◌, refl, Bool, true, false, Option, none, some, List, [], ◌∷◌, ◌++◌, arith, delete, select,
  fetch_last, take, ℕ, zero, suc, All, inl, inr, Bool-cases, if◌then◌else◌,
}

-- `a`, or else `b`
abbrev pub first_some {ℓ} : {A : Type ℓ} → Option A → Option A → Option A
first_some none b = b
first_some (some a) b = some a

pub first_some_assoc {ℓ} :
    {A : Type ℓ} (x y z : Option A) → first_some (first_some x y) z ≡ first_some x (first_some y z)
first_some_assoc none y z = refl
first_some_assoc (some a) y z = refl

pub first_some-none {ℓ} : {A : Type ℓ} (x : Option A) → first_some x none ≡ x
first_some-none none = refl
first_some-none (some a) = refl

module _ {ℓ} {A : Type ℓ} where
  pub select-append :
      (p : A → Bool) (xs ys : List A) → select p (xs ++ ys) ≡ select p xs ++ select p ys
  select-append p [] ys = refl
  select-append p (x ∷ xs) ys = ground (arith, select-append p xs ys)

  -- A deletion that is another one where the condition is met.
  pub select-delete :
      (p q k : A → Bool) (xs : List A)
      → ((x : A) → p x ≡ true → q x ≡ k x)
      → select p (delete q xs) ≡ delete k (select p xs)
  select-delete p q k [] h = refl
  select-delete p q k (x ∷ xs) h = ground (arith, select-delete p q k xs h, h x)

  pub select-delete-none :
      (p q : A → Bool) (xs : List A)
      → ((x : A) → p x ≡ true → q x ≡ false)
      → select p (delete q xs) ≡ select p xs
  select-delete-none p q [] h = refl
  select-delete-none p q (x ∷ xs) h = ground (arith, select-delete-none p q xs h, h x)

  pub select-delete-all :
      (p q : A → Bool) (xs : List A)
      → ((x : A) → p x ≡ true → q x ≡ true)
      → select p (delete q xs) ≡ []
  select-delete-all p q [] h = refl
  select-delete-all p q (x ∷ xs) h = ground (arith, select-delete-all p q xs h, h x)

  pub select-select :
      (p q : A → Bool) (xs : List A) → select p (select q xs) ≡ select q (select p xs)
  select-select p q [] = refl
  select-select p q (x ∷ xs) = ground (arith, select-select p q xs)

  pub fetch_last-select :
      (p n : A → Bool) (xs : List A)
      → ((x : A) → n x ≡ true → p x ≡ true)
      → fetch_last n (select p xs) ≡ fetch_last n xs
  fetch_last-select p n [] h = refl
  fetch_last-select p n (x ∷ xs) h = ground (arith, fetch_last-select p n xs h, h x)

  pub fetch_last-delete :
      (n q : A → Bool) (xs : List A)
      → ((x : A) → n x ≡ true → q x ≡ false)
      → fetch_last n (delete q xs) ≡ fetch_last n xs
  fetch_last-delete n q [] h = refl
  fetch_last-delete n q (x ∷ xs) h = ground (arith, fetch_last-delete n q xs h, h x)

  pub fetch_last-append :
      (n : A → Bool) (xs : List A) (y : A)
      → fetch_last n (xs ++ (y ∷ [])) ≡ (if n y then some y else fetch_last n xs)
  fetch_last-append n [] y = refl
  fetch_last-append n (x ∷ xs) y = ground (arith, fetch_last-append n xs y)

  -- A fetched row meets the condition.
  pub fetch_last_sound :
      (n : A → Bool) (xs : List A) (a : A) → fetch_last n xs ≡ some a → n a ≡ true
  fetch_last_sound n [] a h = cc
  fetch_last_sound n (x ∷ xs) a h = ground (arith, fetch_last_sound n xs a)

  pub delete-All : (q : A → Bool) (xs : List A) → All (λ x. q x ≡ true) xs → delete q xs ≡ []
  delete-All q [] h = refl
  delete-All q (x ∷ xs) h = ground (arith, delete-All q xs h.1, h.0)

  pub delete_of_none : (q : A → Bool) (xs : List A) → All (λ x. q x ≡ false) xs → delete q xs ≡ xs
  delete_of_none q [] h = refl
  delete_of_none q (x ∷ xs) h = ground (arith, delete_of_none q xs h.1, h.0)

  pub select_of_none : (q : A → Bool) (xs : List A) → All (λ x. q x ≡ false) xs → select q xs ≡ []
  select_of_none q [] h = refl
  select_of_none q (x ∷ xs) h = ground (arith, select_of_none q xs h.1, h.0)

  pub All-selected : (p : A → Bool) (xs : List A) → All (λ x. p x ≡ true) (select p xs)
  All-selected p [] = tt
  All-selected p (x ∷ xs) = elim (Bool-cases (p x)) [
    | inl meets ↦ rw meets (meets, All-selected p xs)
    | inr fails ↦ rw fails (All-selected p xs)
  ]

  module _ {κ} (P : A → Type κ) where
    pub All-select : (p : A → Bool) (xs : List A) → All P xs → All P (select p xs)
    All-select p [] h = tt
    All-select p (x ∷ xs) h = elim (Bool-cases (p x)) [
      | inl meets ↦ rw meets (h.0, All-select p xs h.1)
      | inr fails ↦ rw fails (All-select p xs h.1)
    ]

    pub All-delete : (p : A → Bool) (xs : List A) → All P xs → All P (delete p xs)
    All-delete p [] h = tt
    All-delete p (x ∷ xs) h = elim (Bool-cases (p x)) [
      | inl meets ↦ rw meets (All-delete p xs h.1)
      | inr fails ↦ rw fails (h.0, All-delete p xs h.1)
    ]

    pub All-take : (n : ℕ) (xs : List A) → All P xs → All P (take n xs)
    All-take zero xs h = tt
    All-take (suc n) [] h = tt
    All-take (suc n) (x ∷ xs) h = (h.0, All-take n xs h.1)

    pub All-mono {ι} : (Q : A → Type ι) (xs : List A) → ((x : A) → P x → Q x) → All P xs → All Q xs
    All-mono Q [] h a = tt
    All-mono Q (x ∷ xs) h a = (h x a.0, All-mono Q xs h a.1)
