-- ===== src/Audit/Tally.antt =====
-- audit/store.py: sums over rows and over the counts of a dictionary.
use nextcloud_mcp_connector.Base.{
  ℕ, ◌+◌, String, ◌≡◌, refl, ◌∙◌, Bool, true, false, ◌||◌, List, [], ◌∷◌, ◌++◌, arith, any, str_eq,
  eq_iff, eq_refl, Bool-cases, inl, inr, select, delete, if◌then◌else◌,
}
use nextcloud_mcp_connector.Base.Dict.{Dict, get, put}
use nextcloud_mcp_connector.Base.Text.{sorted, insert_sorted}
use nextcloud_mcp_connector.Audit.Markers.{or_else, keys}

module _ {ℓ} {A : Type ℓ} where
  abbrev pub sum_by : (A → ℕ) → List A → ℕ
  sum_by f [] = 0
  sum_by f (x ∷ xs) = f x + sum_by f xs

  pub sum_by-append : (f : A → ℕ) (xs ys : List A) → sum_by f (xs ++ ys) ≡ sum_by f xs + sum_by f ys
  sum_by-append f [] ys = omega arith
  sum_by-append f (x ∷ xs) ys = omega (arith, sum_by-append f xs ys)

  pub sum_by-delete :
      (f : A → ℕ) (q : A → Bool) (xs : List A)
      → ((x : A) → q x ≡ true → f x ≡ 0)
      → sum_by f (delete q xs) ≡ sum_by f xs
  sum_by-delete f q [] h = refl
  sum_by-delete f q (x ∷ xs) h = ground (arith, sum_by-delete f q xs h, h x)

  pub sum_by-select :
      (f : A → ℕ) (p : A → Bool) (xs : List A)
      → ((x : A) → p x ≡ false → f x ≡ 0)
      → sum_by f (select p xs) ≡ sum_by f xs
  sum_by-select f p [] h = refl
  sum_by-select f p (x ∷ xs) h = ground (arith, sum_by-select f p xs h, h x)

sum_by-insert_sorted :
    (f : String → ℕ) (s : String) (ts : List String)
    → sum_by f (insert_sorted s ts) ≡ f s + sum_by f ts
unfolding insert_sorted
sum_by-insert_sorted f s [] = refl
sum_by-insert_sorted f s (t ∷ ts) = ground (arith, sum_by-insert_sorted f s ts)

pub sum_by-sorted : (f : String → ℕ) (ts : List String) → sum_by f (sorted ts) ≡ sum_by f ts
unfolding sorted
sum_by-sorted f [] = refl
sum_by-sorted f (t ∷ ts) = omega (arith, sum_by-insert_sorted f t (sorted ts), sum_by-sorted f ts)

-- The counts of a dictionary together.
abbrev pub total : Dict ℕ → ℕ
total d = sum_by (λ (kv : String × ℕ). kv.1) d

pub total-put :
    (d : Dict ℕ) (k : String) (n : ℕ) → total (put d k (or_else 0 (get d k) + n)) ≡ total d + n
unfolding get put
total-put [] k n = omega arith
total-put ((j, v) ∷ d) k n = ground (arith, total-put d k n)

-- No key stands twice.
abbrev pub IsDistinct : List String → Type 0
IsDistinct [] = Unit
IsDistinct (k ∷ ks) = (any (λ j. str_eq j k) ks ≡ false) × IsDistinct ks

module _ {ℓ} {V : Type ℓ} where
  -- A key that is there keeps its place, and a new one comes last.
  pub keys-put :
      (d : Dict V) (k : String) (v : V)
      → keys (put d k v) ≡ (if any (λ j. str_eq j k) (keys d) then keys d else keys d ++ (k ∷ []))
  unfolding put
  keys-put [] k v = refl
  keys-put ((j, w) ∷ d) k v = ground (arith, keys-put d k v)

any-snoc :
    (p : String → Bool) (ks : List String) (k : String) → any p (ks ++ (k ∷ [])) ≡ (any p ks || p k)
any-snoc p [] k = ground arith
any-snoc p (j ∷ ks) k = ground (arith, any-snoc p ks k)

IsDistinct-snoc :
    (ks : List String) (k : String)
    → any (λ j. str_eq j k) ks ≡ false
    → IsDistinct ks
    → IsDistinct (ks ++ (k ∷ []))
IsDistinct-snoc [] k fresh h = (refl, tt)
IsDistinct-snoc (j ∷ ks) k fresh h = (
  any-snoc (λ i. str_eq i j) ks k ∙ ground (arith, h.0, fresh, eq_iff k j, eq_iff j k),
  IsDistinct-snoc ks k (ground (arith, fresh)) h.1,
)

pub IsDistinct-put {ℓ} :
    {V : Type ℓ} (d : Dict V) (k : String) (v : V)
    → IsDistinct (keys d)
    → IsDistinct (keys (put d k v))
IsDistinct-put d k v h = elim (Bool-cases (any (λ j. str_eq j k) (keys d))) [
  | inl there ↦ rw (keys-put d k v, there) h
  | inr fresh ↦ rw (keys-put d k v, fresh) (IsDistinct-snoc (keys d) k fresh h)
]

-- A key that does not stand among others.
sum_by-get_other :
    (j : String) (v : ℕ) (d : Dict ℕ) (ks : List String)
    → any (λ i. str_eq i j) ks ≡ false
    → sum_by (λ k. or_else 0 (get ((j, v) ∷ d) k)) ks ≡ sum_by (λ k. or_else 0 (get d k)) ks
unfolding get
sum_by-get_other j v d [] h = refl
sum_by-get_other j v d (k ∷ ks) h =
    ground (arith, h, eq_iff k j, eq_iff j k, sum_by-get_other j v d ks)

-- The counts of the keys are all the counts.
pub total-keys :
    (d : Dict ℕ) → IsDistinct (keys d) → sum_by (λ k. or_else 0 (get d k)) (keys d) ≡ total d
unfolding get
total-keys [] h = refl
total-keys ((j, v) ∷ d) h =
    ground (arith, eq_refl j, sum_by-get_other j v d (keys d) h.0, total-keys d h.1)
