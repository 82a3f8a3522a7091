-- ===== src/Audit/Batches.antt =====
-- audit/store.py, the batches of a sweep: what is read is what is removed, and the last hash of a
-- chain in it is what is noted.
use nextcloud_mcp_connector.Base.{
  ℕ, zero, suc, min, ◌<◌, ◌≤◌, String, ◌≡◌, refl, ap, sym, ◌∙◌, subst, Bool, true, false, ◌&&◌,
  Option, none, some, List, [], ◌∷◌, arith, ltb, leb, str_eq, eq_iff, All, Bool-cases, Option-cases,
  inl, inr, select, fetch, fetch_last, take,
}
use nextcloud_mcp_connector.Base.Dict.{get, get-put}
use nextcloud_mcp_connector.Base.Selecting.{
  first_some, select_of_none, All-mono, All-selected, All-select, All-take,
}
use nextcloud_mcp_connector.Audit.Rows.{Row, chain_instance, in_chain}
use nextcloud_mcp_connector.Audit.Markers.{Removed, note_row, note_removed}
use nextcloud_mcp_connector.Audit.Sweep.{last_seq, is_young, is_sweepable, expires, seq_or}
use nextcloud_mcp_connector.Audit.Linked.{IsAscending, IsAscending-lower, All-IsAscending}

-- The number of the last row, or `d`.
abbrev last_in : ℕ → List Row → ℕ
last_in d [] = d
last_in d (r ∷ rows) = last_in r.seq rows

last_seq-last_in : (r : Row) (batch : List Row) → last_seq r batch ≡ last_in r.seq batch
last_seq-last_in r [] = refl
last_seq-last_in r (s ∷ batch) = last_seq-last_in s batch

last_in-lower :
    (b d : ℕ) (rows : List Row) → b ≤ d → All (λ (r : Row). b < r.seq) rows → b ≤ last_in d rows
last_in-lower b d [] le h = le
last_in-lower b d (r ∷ rows) le h = last_in-lower b r.seq rows (omega (arith, h.0)) h.1

last_in-taken :
    (p : Row → Bool) (n : ℕ) (r : Row) (rows : List Row)
    → IsAscending r.seq rows
    → leb r.seq (last_in r.seq (take n (select p rows))) ≡ true
last_in-taken p n r rows asc = ground (
  arith,
  last_in-lower r.seq r.seq (take n (select p rows)) (omega arith) (
      All-take (λ (s : Row). r.seq < s.seq) n (select p rows)
        (All-select (λ (s : Row). r.seq < s.seq) p rows (All-IsAscending r.seq rows asc))),
)

module _ (p : Row → Bool) (r : Row) (rows : List Row) where
  select_first : p r ≡ true → select p (r ∷ rows) ≡ r ∷ select p rows
  select_first meets = rw meets refl

  select_rest : p r ≡ false → select p (r ∷ rows) ≡ select p rows
  select_rest fails = rw fails refl

-- The rows that meet the condition up to the last number of the batch are the batch.
select-take :
    (p : Row → Bool) (n b : ℕ) (rows : List Row)
    → IsAscending b rows
    → select (λ r. p r && leb r.seq (last_in b (take n (select p rows)))) rows
      ≡ take n (select p rows)
select-take p zero b rows asc =
    select_of_none (λ r. p r && leb r.seq b) rows
      (All-mono (λ (r : Row). b < r.seq) (λ (r : Row). (p r && leb r.seq b) ≡ false) rows
        (λ r lt. ground (arith, lt)) (All-IsAscending b rows asc))
select-take p (suc n) b [] asc = refl
select-take p (suc n) b (r ∷ rows) asc =
    let goal = (λ (k : List Row).
      select (λ x. p x && leb x.seq (last_in b (take (suc n) k))) (r ∷ rows) ≡ take (suc n) k) in
    elim (Bool-cases (p r)) [
      | inl meets ↦ subst goal (sym (select_first p r rows meets)) (
          rw (meets, last_in-taken p n r rows asc.1)
            (ap (◌∷◌ r) (select-take p n r.seq rows asc.1)))
      | inr fails ↦ subst goal (sym (select_rest p r rows fails)) (
          rw fails (
            select-take p (suc n) b rows
              (IsAscending-lower b r.seq rows (omega (arith, asc.0)) asc.1)))
    ]

pub select-batch :
    (p : Row → Bool) (n : ℕ) (rows : List Row) (r : Row) (batch : List Row)
    → IsAscending 0 rows
    → take n (select p rows) ≡ r ∷ batch
    → select (λ x. p x && leb x.seq (last_seq r batch)) rows ≡ r ∷ batch
select-batch p n rows r batch asc read = rw (last_seq-last_in r batch) (
    subst (λ b. select (λ x. p x && leb x.seq (last_in 0 b)) rows ≡ b) read
      (select-take p n 0 rows asc))

abbrev pub hash_of : Option Row → Option String
hash_of none = none
hash_of (some r) = some r.hash

pub get-note_removed :
    (chain : String) (batch : List Row) (t : Removed)
    → get (note_removed batch t).ends chain
      ≡ first_some (hash_of (fetch_last (in_chain chain) batch)) (get t.ends chain)
unfolding note_removed note_row
get-note_removed chain [] t = refl
get-note_removed chain (r ∷ batch) t =
    get-note_removed chain batch (note_row r t)
    ∙ ground (
      arith,
      get-put t.ends r.columns.chain chain r.hash,
      Option-cases (fetch_last (in_chain chain) batch),
    )

-- In each chain of an account, the condition with the last number of a batch is a bound on the number.
abbrev pub IsPrefix : (Row → Bool) → List Row → Type 0
IsPrefix p rows =
    (chain : String) (last : ℕ)
    → str_eq chain_instance chain ≡ false
    → (t : ℕ) × All (λ (r : Row). (p r && leb r.seq last) ≡ ltb r.seq t)
        (select (in_chain chain) rows)

pub is_sweepable-chain :
    (chain : String) (r : Row)
    → str_eq chain_instance chain ≡ false
    → in_chain chain r ≡ true
    → is_sweepable r ≡ true
is_sweepable-chain chain r other own = ground (
  arith,
  other,
  ap (λ c. str_eq c chain_instance) ((eq_iff r.columns.chain chain).0 own),
  eq_iff chain chain_instance,
  eq_iff chain_instance chain,
)

pub is_sweepable-IsPrefix : (rows : List Row) → IsPrefix is_sweepable rows
is_sweepable-IsPrefix rows chain last other = (
  suc last,
  All-mono (λ (r : Row). in_chain chain r ≡ true)
      (λ (r : Row). (is_sweepable r && leb r.seq last) ≡ ltb r.seq (suc last))
      (select (in_chain chain) rows)
      (λ r own. rw (is_sweepable-chain chain r other own) (ground arith))
      (All-selected (in_chain chain) rows),
)

module _ (moment window : ℕ) (rows : List Row) where
  -- The first young row of a chain.
  abbrev pub first_young : String → Option Row
  first_young chain = fetch (λ s. in_chain chain s && is_young moment window s) rows

  pub expires-chain :
      (chain : String) (r : Row)
      → str_eq chain_instance chain ≡ false
      → in_chain chain r ≡ true
      → expires moment window rows r ≡ ltb r.seq (seq_or (suc r.seq) (first_young chain))
  expires-chain chain r other own = ground (
    arith,
    is_sweepable-chain chain r other own,
    ap first_young ((eq_iff r.columns.chain chain).0 own),
  )

  abbrev bound_of : ℕ → Option Row → ℕ
  bound_of last none = suc last
  bound_of last (some s) = min s.seq (suc last)

  pub expires-IsPrefix : IsPrefix (expires moment window rows) rows
  expires-IsPrefix chain last other = (
    bound_of last (first_young chain),
    All-mono (λ (r : Row). in_chain chain r ≡ true)
        (λ (r : Row).
          (expires moment window rows r && leb r.seq last)
          ≡ ltb r.seq (bound_of last (first_young chain)))
        (select (in_chain chain) rows)
        (λ r own. rw (expires-chain chain r other own) (elim (Option-cases (first_young chain)) [
          | inl nothing ↦ rw nothing (ground arith)
          | inr (s, found) ↦ rw found (ground arith)
        ]))
        (All-selected (in_chain chain) rows),
  )
