-- ===== src/Audit/Linked.antt =====
-- Rows in ascending order, and rows each of which points at the one before it.
use nextcloud_mcp_connector.Base.{
  ℕ, ◌<◌, ◌≤◌, String, ◌≡◌, refl, Bool, false, Option, none, some, List, [], ◌∷◌, ◌++◌, arith, ltb,
  All, Bool-cases, inl, inr, select, delete, fetch_last,
}
use nextcloud_mcp_connector.Base.Selecting.{delete_of_none, select_of_none}
use nextcloud_mcp_connector.Audit.Rows.{Row}
use nextcloud_mcp_connector.Audit.Chains.{Digest}

-- The numbers of the rows ascend, from above `b`.
abbrev pub IsAscending : ℕ → List Row → Type 0
IsAscending b [] = Unit
IsAscending b (r ∷ rows) = (b < r.seq) × IsAscending r.seq rows

pub IsAscending-lower :
    (a b : ℕ) (rows : List Row) → a ≤ b → IsAscending b rows → IsAscending a rows
IsAscending-lower a b [] le h = tt
IsAscending-lower a b (r ∷ rows) le h = (omega (arith, h.0), h.1)

pub All-IsAscending :
    (b : ℕ) (rows : List Row) → IsAscending b rows → All (λ (r : Row). b < r.seq) rows
All-IsAscending b [] h = tt
All-IsAscending b (r ∷ rows) h =
    (h.0, All-IsAscending b rows (IsAscending-lower b r.seq rows (omega (arith, h.0)) h.1))

pub IsAscending-append :
    (b top : ℕ) (rows : List Row) (r : Row)
    → b ≤ top
    → IsAscending b rows
    → All (λ (s : Row). s.seq ≤ top) rows
    → top < r.seq
    → IsAscending b (rows ++ (r ∷ []))
IsAscending-append b top [] r le h below lt = (omega (arith, le, lt), tt)
IsAscending-append b top (s ∷ rows) r le h below lt =
    (h.0, IsAscending-append s.seq top rows r below.0 h.1 below.1 lt)

pub IsAscending-delete :
    (b : ℕ) (q : Row → Bool) (rows : List Row) → IsAscending b rows → IsAscending b (delete q rows)
IsAscending-delete b q [] h = tt
IsAscending-delete b q (r ∷ rows) h = elim (Bool-cases (q r)) [
  | inl goes ↦ rw goes (
      IsAscending-lower b r.seq (delete q rows) (omega (arith, h.0))
        (IsAscending-delete r.seq q rows h.1))
  | inr stays ↦ rw stays (h.0, IsAscending-delete r.seq q rows h.1)
]

pub IsAscending-select :
    (b : ℕ) (q : Row → Bool) (rows : List Row) → IsAscending b rows → IsAscending b (select q rows)
IsAscending-select b q [] h = tt
IsAscending-select b q (r ∷ rows) h = elim (Bool-cases (q r)) [
  | inr out ↦ rw out (
      IsAscending-lower b r.seq (select q rows) (omega (arith, h.0))
        (IsAscending-select r.seq q rows h.1))
  | inl meets ↦ rw meets (h.0, IsAscending-select r.seq q rows h.1)
]

-- The hash of the last of the rows, or `p`.
abbrev pub last_hash : String → List Row → String
last_hash p [] = p
last_hash p (r ∷ rows) = last_hash r.hash rows

-- Where a row stays, so does every later one.
pub stays_behind :
    {b : ℕ} (t : ℕ) (q : Row → Bool) (rows : List Row)
    → t ≤ b
    → IsAscending b rows
    → All (λ (r : Row). q r ≡ ltb r.seq t) rows
    → All (λ (r : Row). q r ≡ false) rows
stays_behind t q [] le asc prefix = tt
stays_behind t q (r ∷ rows) le asc prefix = (
  ground (arith, le, asc.0, prefix.0),
  stays_behind t q rows (omega (arith, le, asc.0)) asc.1 prefix.1,
)

module _ (digest : Digest) where
  -- Each row carries its own hash and points at the row before it, the first one at `p`.
  abbrev pub IsLinked : String → List Row → Type 0
  IsLinked p [] = Unit
  IsLinked p (r ∷ rows) =
      (r.prev_hash ≡ p) × (digest r.seq r.columns r.prev_hash ≡ r.hash) × IsLinked r.hash rows

  pub IsLinked-append :
      (p : String) (rows : List Row) (r : Row)
      → IsLinked p rows
      → r.prev_hash ≡ last_hash p rows
      → digest r.seq r.columns r.prev_hash ≡ r.hash
      → IsLinked p (rows ++ (r ∷ []))
  IsLinked-append p [] r h points own = (points, own, tt)
  IsLinked-append p (s ∷ rows) r h points own =
      (h.0, h.1, IsLinked-append s.hash rows r h.2 points own)

  -- Where the rows below some number go, the rest begins at the hash of the last that went.
  pub IsLinked-prefix :
      (p : String) (b t : ℕ) (q : Row → Bool) (rows : List Row)
      → IsAscending b rows
      → All (λ (r : Row). q r ≡ ltb r.seq t) rows
      → IsLinked p rows
      → IsLinked (last_hash p (select q rows)) (delete q rows)
  IsLinked-prefix p b t q [] asc prefix h = tt
  IsLinked-prefix p b t q (r ∷ rows) asc prefix h = elim (Bool-cases (q r)) [
    | inl goes ↦ rw goes (IsLinked-prefix r.hash r.seq t q rows asc.1 prefix.1 h.2)
    | inr stays ↦
        let none_goes = stays_behind t q rows (ground (arith, stays, prefix.0)) asc.1 prefix.1 in
        rw (stays, select_of_none q rows none_goes, delete_of_none q rows none_goes) h
  ]

-- The hash of a row that was read, or `g`.
abbrev pub hash_or : String → Option Row → String
hash_or g none = g
hash_or g (some r) = r.hash

-- What _LAST_OF_CHAIN reads is the last hash of the chain.
pub last_hash-select :
    (p : Row → Bool) (g : String) (rows : List Row)
    → hash_or g (fetch_last p rows) ≡ last_hash g (select p rows)
last_hash-select p g [] = refl
last_hash-select p g (r ∷ rows) =
    ground (arith, last_hash-select p g rows, last_hash-select p r.hash rows)
