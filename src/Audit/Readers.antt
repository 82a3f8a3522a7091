-- ===== src/Audit/Readers.antt =====
-- audit/store.py, `AuditStore.read_entries`: which rows an answer holds.
use mathlib.Core.List.{Memᴰ}
use mathlib.Core.List.Memᴰ
use Prim.Native.Char.{Char}
use nextcloud_mcp_connector.Base.{
  ℕ, zero, suc, max, ◌<◌, ◌≤◌, ◌⊎◌, inl, inr, sym, subst, Bool-cases, leb, String, ◌≡◌, refl, Bool,
  true, Option, List, [], ◌∷◌, ◌++◌, arith, length, All, All-append, select, take,
}
use nextcloud_mcp_connector.Base.Selecting.{All-take, All-mono}
use nextcloud_mcp_connector.Audit.Rows.{Row, AuditDb}
use nextcloud_mcp_connector.Audit.Chains.{Digest}
use nextcloud_mcp_connector.Audit.Linked.{IsAscending, IsAscending-select, All-IsAscending}
use nextcloud_mcp_connector.Audit.Taken.{length-take_le}
use nextcloud_mcp_connector.Audit.Commits.{Reach, Reach-IsWhole}
use nextcloud_mcp_connector.Audit.Reading.{
  ℤ, pos, negsuc, bounded, is_read, descending, read_entries,
}
use nextcloud_mcp_connector.Audit.Asked.{IsAskedFor, is_read-asked, asked-is_read}

-- The numbers of the rows descend, all below `top`.
abbrev pub IsYoungestFirst : List Row → Type 0
IsYoungestFirst [] = Unit
IsYoungestFirst (r ∷ rows) = All (λ (s : Row). s.seq < r.seq) rows × IsYoungestFirst rows

IsYoungestFirst-append :
    (rows : List Row) (r : Row)
    → IsYoungestFirst rows
    → All (λ (s : Row). r.seq < s.seq) rows
    → IsYoungestFirst (rows ++ (r ∷ []))
IsYoungestFirst-append [] r h later = (tt, tt)
IsYoungestFirst-append (s ∷ rows) r h later = (
  All-append (λ (x : Row). x.seq < s.seq) rows (r ∷ []) h.0 (later.0, tt),
  IsYoungestFirst-append rows r h.1 later.1,
)

All-descending {κ} : (P : Row → Type κ) (rows : List Row) → All P rows → All P (descending rows)
unfolding descending
All-descending P [] h = tt
All-descending P (r ∷ rows) h =
    All-append P (descending rows) (r ∷ []) (All-descending P rows h.1) (h.0, tt)

IsYoungestFirst-descending :
    (b : ℕ) (rows : List Row) → IsAscending b rows → IsYoungestFirst (descending rows)
unfolding descending
IsYoungestFirst-descending b [] ascends = tt
IsYoungestFirst-descending b (r ∷ rows) ascends =
    IsYoungestFirst-append (descending rows) r (IsYoungestFirst-descending r.seq rows ascends.1)
      (All-descending (λ (s : Row). r.seq < s.seq) rows (All-IsAscending r.seq rows ascends.1))

module _ {κ} (P : Row → Type κ) where
  All-at : (rows : List Row) (r : Row) → All P rows → Memᴰ r rows → P r
  All-at [] r h m = absurd (Memᴰ.not-nil m)
  All-at (x ∷ rows) r h m = elim (Memᴰ.cases_cons m) [
    | inl here ↦ subst P (sym here) h.0
    | inr there ↦ All-at rows r h.1 there
  ]

  All-of : (rows : List Row) → ((r : Row) → Memᴰ r rows → P r) → All P rows
  All-of [] h = tt
  All-of (x ∷ rows) h = (h x (Memᴰ.head refl), All-of rows (λ r m. h r (Memᴰ.tail m)))

mem-append-left : (r : Row) (xs ys : List Row) → Memᴰ r xs → Memᴰ r (xs ++ ys)
mem-append-left r [] ys m = absurd (Memᴰ.not-nil m)
mem-append-left r (x ∷ xs) ys m = elim (Memᴰ.cases_cons m) [
  | inl here ↦ Memᴰ.head here
  | inr there ↦ Memᴰ.tail (mem-append-left r xs ys there)
]

mem-append-right : (r : Row) (xs ys : List Row) → Memᴰ r ys → Memᴰ r (xs ++ ys)
mem-append-right r [] ys m = m
mem-append-right r (x ∷ xs) ys m = Memᴰ.tail (mem-append-right r xs ys m)

mem-descending : (r : Row) (rows : List Row) → Memᴰ r rows → Memᴰ r (descending rows)
unfolding descending
mem-descending r [] m = m
mem-descending r (x ∷ rows) m = elim (Memᴰ.cases_cons m) [
  | inl here ↦ mem-append-right r (descending rows) (x ∷ []) (Memᴰ.head here)
  | inr there ↦ mem-append-left r (descending rows) (x ∷ []) (mem-descending r rows there)
]

mem-select :
    (p : Row → Bool) (r : Row) (rows : List Row) → p r ≡ true → Memᴰ r rows → Memᴰ r (select p rows)
mem-select p r [] meets m = m
mem-select p r (x ∷ rows) meets m = elim (Memᴰ.cases_cons m) [
  | inl here ↦ let met : p x ≡ true = subst (λ y. p y ≡ true) here meets in rw met (Memᴰ.head here)
  | inr there ↦ elim (Bool-cases (p x)) [
    | inl met ↦ rw met (Memᴰ.tail (mem-select p r rows meets there))
    | inr not_met ↦ rw not_met (mem-select p r rows meets there)
  ]
]

selected_rows {κ} :
    (P : Row → Type κ) (p : Row → Bool) (rows : List Row)
    → ((r : Row) → p r ≡ true → P r)
    → All (λ (r : Row). Memᴰ r rows × P r) (select p rows)
selected_rows P p [] h = tt
selected_rows P p (x ∷ rows) h =
    let later =
      All-mono (λ (r : Row). Memᴰ r rows × P r) (λ (r : Row). Memᴰ r (x ∷ rows) × P r)
        (select p rows) (λ r (m, own). (Memᴰ.tail m, own)) (selected_rows P p rows h) in
    elim (Bool-cases (p x)) [
      | inl met ↦ rw met ((Memᴰ.head refl, h x met), later)
      | inr not_met ↦ rw not_met later
    ]

-- A row is among the youngest so many, or these are as many and all younger.
abbrev IsTakenOrOlder : ℕ → Row → List Row → Type 0
IsTakenOrOlder n r taken =
    Memᴰ r taken ⊎ ((length taken ≡ n) × All (λ (s : Row). r.seq < s.seq) taken)

youngest_taken :
    (n : ℕ) (r : Row) (rows : List Row)
    → IsYoungestFirst rows
    → Memᴰ r rows
    → IsTakenOrOlder n r (take n rows)
youngest_taken zero r rows h m = inr (refl, tt)
youngest_taken (suc n) r [] h m = absurd (Memᴰ.not-nil m)
youngest_taken (suc n) r (x ∷ rows) h m = elim (Memᴰ.cases_cons m) [
  | inl here ↦ inl (Memᴰ.head here)
  | inr there ↦ elim (youngest_taken n r rows h.1 there) [
    | inl taken ↦ inl (Memᴰ.tail taken)
    | inr (many, later) ↦
        inr (omega (arith, many), (All-at (λ (s : Row). s.seq < x.seq) rows r h.0 there, later))
  ]
]

IsYoungestFirst-take :
    (n : ℕ) (rows : List Row) → IsYoungestFirst rows → IsYoungestFirst (take n rows)
IsYoungestFirst-take zero rows h = tt
IsYoungestFirst-take (suc n) [] h = tt
IsYoungestFirst-take (suc n) (r ∷ rows) h =
    (All-take (λ (s : Row). s.seq < r.seq) n rows h.0, IsYoungestFirst-take n rows h.1)

-- A limit that is not positive counts as one, and none is above 5000.
abbrev pub IsWithin : ℤ → ℕ → Type 0
IsWithin (pos k) n = (n ≤ 5000) × (n ≤ max 1 k)
IsWithin (negsuc k) n = n ≤ 1

-- The answer could not hold a row more.
abbrev pub IsFull : ℤ → ℕ → Type 0
IsFull (pos k) n = (1 ≤ n) × ((k ≤ n) ⊎ (n ≡ 5000))
IsFull (negsuc k) n = n ≡ 1

bounded-IsWithin : (limit : ℤ) (n : ℕ) → n ≤ bounded limit → IsWithin limit n
unfolding bounded
bounded-IsWithin (pos k) n h = (omega (arith, h), omega (arith, h))
bounded-IsWithin (negsuc k) n h = h

bounded-IsFull : (limit : ℤ) (n : ℕ) → n ≡ bounded limit → IsFull limit n
unfolding bounded
bounded-IsFull (pos k) n h = (
  omega (arith, h),
  elim (Bool-cases (leb k 5000)) [
    | inl low ↦ inl (ground (arith, low, h))
    | inr high ↦ inr (ground (arith, high, h))
  ],
)
bounded-IsFull (negsuc k) n h = h

module _ (chain : Option String) (since until : Option ℕ) (limit : ℤ) where
  -- What an answer is of a table.
  abbrev pub IsAnswer : (answer rows : List Row) → Type 0
  IsAnswer answer rows =
      IsWithin limit (length answer)
      × IsYoungestFirst answer
      × All (λ (r : Row). Memᴰ r rows × IsAskedFor chain since until r) answer
      × All
          (λ (r : Row).
            IsAskedFor chain since until r
            → Memᴰ r answer
              ⊎ (IsFull limit (length answer) × All (λ (s : Row). r.seq < s.seq) answer))
          rows

  -- An answer from a reachable log holds rows of the log that were asked for, the youngest first. Such
  -- a row is missing only where the answer is as long as the limit allows and all in it are younger. A
  -- limit that is not positive allows one row, and none allows more than READ_LIMIT_MAX.
  pub read_entries-IsAnswer :
      (digest : Digest) (isprintable : Char → Bool) (db : AuditDb)
      → Reach digest isprintable db
      → IsAnswer (read_entries chain since until limit db) db.rows
  unfolding read_entries
  read_entries-IsAnswer digest isprintable db reached =
      let p = is_read chain since until in
      let rows = select p db.rows in
      let youngest_first =
        IsYoungestFirst-descending 0 rows
          (IsAscending-select 0 p db.rows (Reach-IsWhole digest isprintable reached).0.0) in
      (
        bounded-IsWithin limit _ (length-take_le (bounded limit) (descending rows)),
        IsYoungestFirst-take (bounded limit) (descending rows) youngest_first,
        All-take (λ (r : Row). Memᴰ r db.rows × IsAskedFor chain since until r) (bounded limit)
            (descending rows)
            (All-descending (λ (r : Row). Memᴰ r db.rows × IsAskedFor chain since until r) rows
              (selected_rows (IsAskedFor chain since until) p db.rows
                (λ r. is_read-asked chain since until r))),
        All-of _ db.rows (λ r m asked.
            elim (youngest_taken (bounded limit) r (descending rows) youngest_first (
              mem-descending r rows
                (mem-select p r db.rows (asked-is_read chain since until r asked) m))) [
                  | inl taken ↦ inl taken
                  | inr (many, later) ↦ inr (bounded-IsFull limit _ many, later)
                ]),
      )
