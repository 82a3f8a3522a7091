-- ===== src/Audit/Taken.antt =====
-- audit/store.py: which rows a batch takes from a chain, and what is kept of the names of an entry.
use nextcloud_mcp_connector.Base.{
  ℕ, zero, suc, ◌≤◌, ◌<◌, String, ◌≡◌, refl, ap, sym, subst, inl, inr, Bool, true, false, ◌&&◌,
  Option, none, some, List, [], ◌∷◌, ◌++◌, map, arith, ltb, leb, All, Bool-cases, select, delete,
  fetch, fetch_last, take, length, if◌then◌else◌,
}
use nextcloud_mcp_connector.Base.Text.{text_length, is_empty}
use nextcloud_mcp_connector.Audit.Printable.{cut}
use nextcloud_mcp_connector.Base.Selecting.{delete_of_none, select_of_none, All-mono}
use nextcloud_mcp_connector.Audit.Rows.{Entry, Row, in_chain, or_none}
use nextcloud_mcp_connector.Audit.Sweep.{is_sweepable, expires, seq_or, is_young}
use nextcloud_mcp_connector.Audit.Linked.{IsAscending, All-IsAscending, stays_behind}
use nextcloud_mcp_connector.Audit.Batches.{expires-chain, first_young}
use nextcloud_mcp_connector.Audit.Ledger.{EveryAccount, IsCleaned, IsExpired}

pub map-append {ℓ κ} :
    {A : Type ℓ} {B : Type κ} (f : A → B) (xs ys : List A) → map f (xs ++ ys) ≡ map f xs ++ map f ys
map-append f [] ys = refl
map-append f (x ∷ xs) ys = ap (◌∷◌ (f x)) (map-append f xs ys)

-- A deletion below some number takes a first part.
pub select-delete-prefix :
    (b t : ℕ) (q : Row → Bool) (rows : List Row)
    → IsAscending b rows
    → All (λ (r : Row). q r ≡ ltb r.seq t) rows
    → rows ≡ select q rows ++ delete q rows
select-delete-prefix b t q [] ascends prefix = refl
select-delete-prefix b t q (r ∷ rows) ascends prefix = elim (Bool-cases (q r)) [
  | inl goes ↦ rw goes (ap (◌∷◌ r) (select-delete-prefix r.seq t q rows ascends.1 prefix.1))
  | inr stays ↦
      let none_goes = stays_behind t q rows (ground (arith, stays, prefix.0)) ascends.1 prefix.1 in
      rw (stays, select_of_none q rows none_goes, delete_of_none q rows none_goes) refl
]

abbrev pub columns_of : Row → Entry
columns_of r = r.columns

pub map-if :
    (b : Bool) (rows : List Row)
    → map columns_of (if b then [] else rows) ≡ (if b then [] else map columns_of rows)
map-if true rows = refl
map-if false rows = refl

pub All-map {ℓ κ ι} :
    {A : Type ℓ} {B : Type κ} (P : B → Type ι) (f : A → B) (xs : List A)
    → All (λ x. P (f x)) xs
    → All P (map f xs)
All-map P f [] h = tt
All-map P f (x ∷ xs) h = (h.0, All-map P f xs h.1)

pub All-trivial : (xs : List Row) → All {0, 0} (λ (x : Row). is_sweepable x ≡ true → Unit) xs
All-trivial [] = tt
All-trivial (x ∷ xs) = (λ own. tt, All-trivial xs)

pub length-take_le {ℓ} : {A : Type ℓ} (n : ℕ) (xs : List A) → length (take n xs) ≤ n
length-take_le zero xs = omega arith
length-take_le (suc n) [] = omega arith
length-take_le (suc n) (x ∷ xs) = omega (arith, length-take_le n xs)

fetch_here : (p : Row → Bool) (r : Row) (rows : List Row) → p r ≡ true → fetch p (r ∷ rows) ≡ some r
fetch_here p r rows meets = rw meets refl

fetch_there :
    (p : Row → Bool) (r : Row) (rows : List Row) → p r ≡ false → fetch p (r ∷ rows) ≡ fetch p rows
fetch_there p r rows fails = rw fails refl

-- No row that meets the condition stands before the first that is fetched.
fetch_least :
    (b : ℕ) (p : Row → Bool) (rows : List Row)
    → IsAscending b rows
    → All (λ (x : Row). p x ≡ true → seq_or (suc x.seq) (fetch p rows) ≤ x.seq) rows
fetch_least b p [] ascends = tt
fetch_least b p (r ∷ rows) ascends =
    let goal = (λ (o : Option Row).
      All (λ (x : Row). p x ≡ true → seq_or (suc x.seq) o ≤ x.seq) (r ∷ rows)) in
    elim (Bool-cases (p r)) [
      | inl meets ↦ subst goal (sym (fetch_here p r rows meets)) (
        λ own. omega arith,
        All-mono (λ (x : Row). r.seq < x.seq) (λ (x : Row). p x ≡ true → r.seq ≤ x.seq) rows
            (λ x later own. omega (arith, later)) (All-IsAscending r.seq rows ascends.1),
      )
      | inr fails ↦
          subst goal (sym (fetch_there p r rows fails))
            (λ own. cc, fetch_least r.seq p rows ascends.1)
    ]

pub cut_le : (n : ℕ) (s : String) → text_length (cut n s) ≤ n
unfolding cut
cut_le zero s = omega arith
cut_le (suc n) String.[] = omega arith
cut_le (suc n) (String.◌∷◌ c s) = omega (arith, cut_le n s)

pub or_none-IsCleaned :
    (limit : ℕ) (raw name : String)
    → text_length name ≤ limit
    → IsCleaned limit (some raw) (or_none name)
or_none-IsCleaned limit raw name fits = elim (Bool-cases (is_empty name)) [
  | inl empty ↦ rw empty tt
  | inr full ↦ rw full fits
]

pub All-select_met :
    (p : Row → Bool) (last : ℕ) (P : Entry → Type 0) (rows : List Row)
    → All (λ (x : Row). p x ≡ true → P x.columns) rows
    → All (λ (x : Row). P x.columns) (select (λ x. p x && leb x.seq last) rows)
All-select_met p last P [] h = tt
All-select_met p last P (x ∷ rows) h = elim (Bool-cases (p x && leb x.seq last)) [
  | inl goes ↦ rw goes (h.0 (ground (arith, goes)), All-select_met p last P rows h.1)
  | inr stays ↦ rw stays (All-select_met p last P rows h.1)
]

All-select_own {κ} :
    (c : String) (P : Row → Type κ) (rows : List Row)
    → All (λ (x : Row). in_chain c x ≡ true → P x) rows
    → All P (select (in_chain c) rows)
All-select_own c P [] h = tt
All-select_own c P (x ∷ rows) h = elim (Bool-cases (in_chain c x)) [
  | inl own ↦ rw own (h.0 own, All-select_own c P rows h.1)
  | inr other ↦ rw other (All-select_own c P rows h.1)
]

pub fetch_last-none {ℓ} :
    {A : Type ℓ} (p : A → Bool) (xs : List A) → fetch_last p xs ≡ none → All (λ x. p x ≡ false) xs
fetch_last-none p [] h = tt
fetch_last-none p (x ∷ xs) h = (ground (arith, h), fetch_last-none p xs (ground (arith, h)))

-- What a batch of the retention takes has expired.
pub expires-IsExpired :
    (moment window : ℕ) (rows : List Row)
    → IsAscending 0 rows
    → EveryAccount (λ c.
      All
        (λ (x : Row). expires moment window rows x ≡ true → IsExpired moment window x.columns)
        (select (in_chain c) rows))
expires-IsExpired moment window rows ascends c other =
    All-select_own c (λ x. expires moment window rows x ≡ true → IsExpired moment window x.columns)
      rows
      (All-mono
        (λ (x : Row).
          (in_chain c x && is_young moment window x) ≡ true
          → seq_or (suc x.seq) (first_young moment window rows c) ≤ x.seq)
        (λ (x : Row).
          in_chain c x ≡ true
          → expires moment window rows x ≡ true
          → IsExpired moment window x.columns)
        rows
        (λ x least own goes. elim (Bool-cases (is_young moment window x)) [
          | inl young ↦ absurd (
              ground (
                arith,
                expires-chain moment window rows c x other own,
                goes,
                least (ground (arith, own, young)),
              ))
          | inr old ↦ ground (arith, old)
        ])
        (fetch_least 0 (λ s. in_chain c s && is_young moment window s) rows ascends))
