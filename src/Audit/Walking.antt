-- ===== src/Audit/Walking.antt =====
-- audit/store.py, `_first_finding`: the walk over the rows of one chain.
use nextcloud_mcp_connector.Base.{
  ℕ, String, ◌≡◌, refl, ap, ◌∙◌, ◌≢◌, ◌⊎◌, inl, inr, true, false, none, some, List, [], ◌∷◌, ◌++◌,
  arith, str_eq, eq_iff, Bool-cases,
}
use nextcloud_mcp_connector.Audit.Rows.{Row, genesis}
use nextcloud_mcp_connector.Audit.Chains.{Digest}
use nextcloud_mcp_connector.Audit.Verify.{is_intact, modified, missing, walk_on, walk, is_explained}
use nextcloud_mcp_connector.Audit.Linked.{IsLinked}

pub unequal : (a b : String) → a ≢ b → str_eq a b ≡ false
unequal a b apart = elim (Bool-cases (str_eq a b)) [
  | inl same ↦ absurd (apart ((eq_iff a b).0 same))
  | inr other ↦ other
]

module _ (digest : Digest) where
  pub intact : (r : Row) → digest r.seq r.columns r.prev_hash ≡ r.hash → is_intact digest r ≡ true
  intact r own = (eq_iff (digest r.seq r.columns r.prev_hash) r.hash).1 own

  module _ (chain : String) (explained : List String) where
    walk_on-IsLinked :
        (expected : String) (previous : ℕ) (rows : List Row)
        → IsLinked digest expected rows
        → walk_on digest chain explained expected previous rows ≡ none
    unfolding walk_on
    walk_on-IsLinked expected previous [] linked = refl
    walk_on-IsLinked expected previous (r ∷ rows) linked =
        rw (intact r linked.1, (eq_iff r.prev_hash expected).1 linked.0)
          (walk_on-IsLinked r.hash r.seq rows linked.2)

    quiet_parts :
        (r : Row) (expected : String) (previous : ℕ) (rows : List Row)
        → walk_on digest chain explained expected previous (r ∷ rows) ≡ none
        → (is_intact digest r ≡ true)
          × (str_eq r.prev_hash expected ≡ true)
          × (walk_on digest chain explained r.hash r.seq rows ≡ none)
    unfolding walk_on
    quiet_parts r expected previous rows quiet =
        (ground (arith, quiet), ground (arith, quiet), ground (arith, quiet))

    IsLinked-walk_on :
        (expected : String) (previous : ℕ) (rows : List Row)
        → walk_on digest chain explained expected previous rows ≡ none
        → IsLinked digest expected rows
    unfolding walk_on
    IsLinked-walk_on expected previous [] quiet = tt
    IsLinked-walk_on expected previous (r ∷ rows) quiet =
        let (own, points, rest) = quiet_parts r expected previous rows quiet in
        (
          (eq_iff r.prev_hash expected).0 points,
          (eq_iff (digest r.seq r.columns r.prev_hash) r.hash).0 own,
          IsLinked-walk_on r.hash r.seq rows rest,
        )

    -- Rows that begin at GENESIS or at an explained end.
    abbrev pub BeginsWell : List Row → Type 0
    BeginsWell rows =
        (start : String) × IsLinked digest start rows
        × ((start ≡ genesis) ⊎ (is_explained digest chain explained start ≡ true))

    pub BeginsWell-walk :
        (rows : List Row) → walk digest chain explained rows ≡ none → BeginsWell rows
    unfolding walk
    BeginsWell-walk [] quiet = (genesis, tt, inl refl)
    BeginsWell-walk (r ∷ rows) quiet = (
      r.prev_hash,
      (
        refl,
        (eq_iff (digest r.seq r.columns r.prev_hash) r.hash).0 (ground (arith, quiet)),
        IsLinked-walk_on r.hash r.seq rows (ground (arith, quiet)),
      ),
      elim (Bool-cases (str_eq r.prev_hash genesis)) [
        | inl at_genesis ↦ inl ((eq_iff r.prev_hash genesis).0 at_genesis)
        | inr apart ↦ inr (ground (arith, quiet, apart))
      ],
    )

    -- A changed row behind linked ones.
    walk_on-modified :
        (expected : String) (previous : ℕ) (before behind : List Row) (r : Row)
        → IsLinked digest expected before
        → is_intact digest r ≡ false
        → walk_on digest chain explained expected previous (before ++ (r ∷ behind))
          ≡ some (modified digest chain explained r)
    unfolding walk_on
    walk_on-modified expected previous [] behind r linked changed = rw changed refl
    walk_on-modified expected previous (b ∷ before) behind r linked changed =
        rw (intact b linked.1, (eq_iff b.prev_hash expected).1 linked.0)
          (walk_on-modified b.hash b.seq before behind r linked.2 changed)

    -- A first row that begins well is no finding.
    walk-head :
        (rows : List Row) (r : Row)
        → BeginsWell (r ∷ [])
        → walk digest chain explained (r ∷ rows) ≡ walk_on digest chain explained r.hash r.seq rows
    unfolding walk
    walk-head rows r (start, linked, starts) =
        let known = ap (is_explained digest chain explained) linked.0 in
        rw (intact r linked.1) (elim starts [
          | inl at_genesis ↦ rw ((eq_iff r.prev_hash genesis).1 (linked.0 ∙ at_genesis)) refl
          | inr at_marker ↦ ground (arith, known ∙ at_marker)
        ])

    pub walk-BeginsWell :
        (rows : List Row) → BeginsWell rows → walk digest chain explained rows ≡ none
    unfolding walk
    walk-BeginsWell [] h = refl
    walk-BeginsWell (r ∷ rows) (start, linked, starts) =
        walk-head rows r (start, (linked.0, linked.1, tt), starts)
        ∙ walk_on-IsLinked r.hash r.seq rows linked.2

    pub walk-modified :
        (before behind : List Row) (r : Row)
        → BeginsWell before
        → is_intact digest r ≡ false
        → walk digest chain explained (before ++ (r ∷ behind))
          ≡ some (modified digest chain explained r)
    unfolding walk
    walk-modified [] behind r h changed = rw changed refl
    walk-modified (b ∷ before) behind r (start, linked, starts) changed =
        walk-head (before ++ (r ∷ behind)) b (start, (linked.0, linked.1, tt), starts)
        ∙ walk_on-modified b.hash b.seq before behind r linked.2 changed

    -- A row that does not point at the one before it.
    walk_on-missing :
        (expected : String) (previous : ℕ) (before behind : List Row) (x y : Row)
        → IsLinked digest expected (before ++ (x ∷ []))
        → is_intact digest y ≡ true
        → str_eq y.prev_hash x.hash ≡ false
        → walk_on digest chain explained expected previous (before ++ (x ∷ y ∷ behind))
          ≡ some (missing digest chain explained x.seq (some y.seq))
    unfolding walk_on
    walk_on-missing expected previous [] behind x y linked own apart =
        rw (intact x linked.1, (eq_iff x.prev_hash expected).1 linked.0, own, apart) refl
    walk_on-missing expected previous (b ∷ before) behind x y linked own apart =
        rw (intact b linked.1, (eq_iff b.prev_hash expected).1 linked.0)
          (walk_on-missing b.hash b.seq before behind x y linked.2 own apart)

  pub walk-missing :
      (chain : String) (explained : List String) (before behind : List Row) (x y : Row)
      → BeginsWell chain explained (before ++ (x ∷ []))
      → is_intact digest y ≡ true
      → str_eq y.prev_hash x.hash ≡ false
      → walk digest chain explained (before ++ (x ∷ y ∷ behind))
        ≡ some (missing digest chain explained x.seq (some y.seq))
  unfolding walk walk_on
  walk-missing chain explained [] behind x y h own apart =
      walk-head chain explained (y ∷ behind) x h ∙ rw (own, apart) refl
  walk-missing chain explained (b ∷ before) behind x y (start, linked, starts) own apart =
      walk-head chain explained (before ++ (x ∷ y ∷ behind)) b
        (start, (linked.0, linked.1, tt), starts)
      ∙ walk_on-missing chain explained b.hash b.seq before behind x y linked.2 own apart
