-- ===== src/Audit/Absorbing.antt =====
-- audit/store.py, `_write_markers`: what the walk over the end of the instance chain takes with it.
use nextcloud_mcp_connector.Base.{
  ℕ, ◌<◌, String, ◌≡◌, refl, ap, sym, ◌∙◌, subst, Bool, true, false, ◌&&◌, Option, none, some, List,
  [], ◌∷◌, arith, str_eq, eq_iff, All, Bool-cases, Option-cases, inl, inr, delete, fetch_last,
  if◌then◌else◌,
}
use nextcloud_mcp_connector.Base.Dict.{get, get-put}
use nextcloud_mcp_connector.Base.Selecting.{
  first_some, first_some_assoc, first_some-none, delete-All, All-mono,
}
use nextcloud_mcp_connector.Audit.Rows.{Row, chain_instance, in_chain, names_gap}
use nextcloud_mcp_connector.Audit.Chains.{Digest}
use nextcloud_mcp_connector.Audit.Markers.{Marks, or_else, absorb_marker, absorb_row, absorb, among}
use nextcloud_mcp_connector.Audit.Verify.{names}
use nextcloud_mcp_connector.Audit.Filed.{marked}
use nextcloud_mcp_connector.Audit.Linked.{IsAscending, IsAscending-lower, IsLinked}

-- The end that one row names for a chain.
abbrev names_end : String → Row → Option String
names_end chain r =
    if str_eq (or_else "" r.columns.gap_chain) chain
    then some (or_else "" r.columns.gap_hash)
    else none

superseded-absorb_row : (r : Row) (m : Marks) → (absorb_row r m).superseded ≡ r.seq ∷ m.superseded
unfolding absorb_row absorb_marker
superseded-absorb_row r m = ground arith

-- A younger end of the same chain stays.
get-absorb_row :
    (r : Row) (m : Marks) (chain : String)
    → get (absorb_row r m).ends chain ≡ first_some (get m.ends chain) (names_end chain r)
unfolding absorb_row absorb_marker
get-absorb_row r m chain =
    let gap = or_else "" r.columns.gap_chain in
    let end = or_else "" r.columns.gap_hash in
    elim (Bool-cases (str_eq gap chain)) [
      | inl same ↦
          ground
            (arith, same, ap (get m.ends) ((eq_iff gap chain).0 same), get-put m.ends gap chain end)
      | inr other ↦
          ground (arith, other, get-put m.ends gap chain end, first_some-none (get m.ends chain))
    ]

unfoldable pub walked : Marks → List Row → Marks
unfolding absorb
walked m rows = (absorb m rows).0

unfoldable pub running : Marks → List Row → Bool
unfolding absorb
running m rows = (absorb m rows).1

abbrev takes : Marks → Row → List Row → Bool
takes m r rows = running m rows && names_gap r.columns

-- The rows that the walk leaves.
abbrev pub kept : Marks → List Row → List Row
kept m rows = delete (λ r. among r.seq m.superseded) rows

module _ (m : Marks) (r : Row) (rows : List Row) where
  walked-takes : takes m r rows ≡ true → walked m (r ∷ rows) ≡ absorb_row r (walked m rows)
  unfolding walked running absorb
  walked-takes h = ground (arith, h)

  walked-stops : takes m r rows ≡ false → walked m (r ∷ rows) ≡ walked m rows
  unfolding walked running absorb
  walked-stops h = ground (arith, h)

  running-takes : running m (r ∷ rows) ≡ takes m r rows
  unfolding running absorb
  running-takes = ground arith

not_among : (n : ℕ) (ns : List ℕ) → All (λ (k : ℕ). n < k) ns → among n ns ≡ false
not_among n [] h = refl
not_among n (k ∷ ns) h = ground (arith, h.0, not_among n ns h.1)

-- While the walk is running, it has taken every row.
superseded-All :
    (m : Marks) (rows : List Row)
    → running m rows ≡ true
    → All (λ (r : Row). among r.seq (walked m rows).superseded ≡ true) rows
superseded-All m [] runs = tt
superseded-All m (r ∷ rows) runs =
    let both = sym (running-takes m r rows) ∙ runs in
    subst (λ ns. All (λ (s : Row). among s.seq ns ≡ true) (r ∷ rows))
      (sym (
        ap (λ (w : Marks). w.superseded) (walked-takes m r rows both)
        ∙ superseded-absorb_row r (walked m rows)))
      (
        ground arith,
        All-mono (λ (s : Row). among s.seq (walked m rows).superseded ≡ true)
            (λ (s : Row). among s.seq (r.seq ∷ (walked m rows).superseded) ≡ true) rows
            (λ s h. ground (arith, h)) (superseded-All m rows (ground (arith, both))),
      )

-- What stays of the rows that the walk has read: none, or the row and those that stay behind it.
pub data Walk (m : Marks) (r : Row) (rows : List Row) : Type 0 where
  took :
      names_gap r.columns ≡ true
      → walked m (r ∷ rows) ≡ absorb_row r (walked m rows)
      → kept (walked m rows) rows ≡ []
      → kept (walked m (r ∷ rows)) (r ∷ rows) ≡ []
      → Walk m r rows
  left :
      walked m (r ∷ rows) ≡ walked m rows
      → kept (walked m (r ∷ rows)) (r ∷ rows) ≡ r ∷ kept (walked m rows) rows
      → Walk m r rows

-- The end that a row names for a chain, where it is a marker of the instance chain.
own_end : String → Row → Option String
own_end chain r = if names chain r then some (or_else "" r.columns.gap_hash) else none

own_end-names_end :
    (chain : String) (r : Row)
    → in_chain chain_instance r ≡ true
    → names_gap r.columns ≡ true
    → own_end chain r ≡ names_end chain r
unfolding own_end
own_end-names_end chain r own gap = rw (own, gap) refl

marked_cons :
    (chain : String) (r : Row) (rows : List Row)
    → marked chain (r ∷ rows) ≡ first_some (marked chain rows) (own_end chain r)
unfolding own_end
marked_cons chain r rows = elim (Option-cases (fetch_last (names chain) rows)) [
  | inl nothing ↦
      rw nothing
        (elim (Bool-cases (names chain r)) [ inl own ↦ rw own refl | inr other ↦ rw other refl ])
  | inr (s, found) ↦ rw found refl
]

-- What the walk carries on, and what stays.
joined :
    (g a w n : Option String)
    → first_some w none ≡ first_some g a
    → first_some (first_some w n) none ≡ first_some g (first_some a n)
joined g a w n e =
    first_some-none (first_some w n)
    ∙ ap (λ x. first_some x n) (sym (first_some-none w) ∙ e)
    ∙ first_some_assoc g a n

moved :
    (g a w k n : Option String)
    → first_some w k ≡ first_some g a
    → first_some w (first_some k n) ≡ first_some g (first_some a n)
moved g a w k n e =
    sym (first_some_assoc w k n) ∙ ap (λ x. first_some x n) e ∙ first_some_assoc g a n

module _ (m : Marks) (clean : m.superseded ≡ []) where
  superseded-later :
      (b : ℕ) (rows : List Row)
      → IsAscending b rows
      → All (λ (n : ℕ). b < n) (walked m rows).superseded
  unfolding walked absorb
  superseded-later b [] asc = rw clean tt
  superseded-later b (r ∷ rows) asc =
      let later =
        superseded-later b rows (IsAscending-lower b r.seq rows (omega (arith, asc.0)) asc.1) in
      elim (Bool-cases (takes m r rows)) [
        | inl runs ↦
            rw (walked-takes m r rows runs, superseded-absorb_row r (walked m rows)) (asc.0, later)
        | inr stops ↦ rw (walked-stops m r rows stops) later
      ]

  pub Walk-cases : (r : Row) (rows : List Row) → IsAscending r.seq rows → Walk m r rows
  Walk-cases r rows asc = elim (Bool-cases (takes m r rows)) [
    | inl runs ↦
        took (ground (arith, runs)) (walked-takes m r rows runs)
          (delete-All (λ s. among s.seq (walked m rows).superseded) rows
            (superseded-All m rows (ground (arith, runs))))
          (delete-All (λ s. among s.seq (walked m (r ∷ rows)).superseded) (r ∷ rows)
            (superseded-All m (r ∷ rows) (running-takes m r rows ∙ runs)))
    | inr stops ↦ left (walked-stops m r rows stops) (
        ap (λ w. kept w (r ∷ rows)) (walked-stops m r rows stops)
        ∙ rw (not_among r.seq (walked m rows).superseded (superseded-later r.seq rows asc)) refl)
  ]

  -- The instance chain is linked up to where the walk stopped.
  pub IsLinked-kept :
      (digest : Digest) (p : String) (b : ℕ) (rows : List Row)
      → IsAscending b rows
      → IsLinked digest p rows
      → IsLinked digest p (kept (walked m rows) rows)
  IsLinked-kept digest p b [] asc h = tt
  IsLinked-kept digest p b (r ∷ rows) asc h = elim (Walk-cases r rows asc.1) [
    | took names walk before now ↦ rw now tt
    | left walk now ↦ rw now (h.0, h.1, IsLinked-kept digest r.hash r.seq rows asc.1 h.2)
  ]

  -- The youngest end of a chain is carried on, or stands in a row that stays.
  pub marked-kept :
      (chain : String) (b : ℕ) (rows : List Row)
      → IsAscending b rows
      → All (λ (r : Row). in_chain chain_instance r ≡ true) rows
      → first_some (get (walked m rows).ends chain) (marked chain (kept (walked m rows) rows))
        ≡ first_some (get m.ends chain) (marked chain rows)
  unfolding walked absorb
  marked-kept chain b [] asc own = refl
  marked-kept chain b (r ∷ rows) asc own =
      let rest = marked-kept chain r.seq rows asc.1 own.1 in
      rw (marked_cons chain r rows) (elim (Walk-cases r rows asc.1) [
        | took names walk before now ↦
            rw
              (
                now,
                walk,
                get-absorb_row r (walked m rows) chain,
                own_end-names_end chain r own.0 names,
              )
              (joined (get m.ends chain) (marked chain rows) (get (walked m rows).ends chain)
                (names_end chain r)
                (subst
                  (λ k.
                    first_some (get (walked m rows).ends chain) (marked chain k)
                    ≡ first_some (get m.ends chain) (marked chain rows))
                  before rest))
        | left walk now ↦
            rw (now, walk, marked_cons chain r (kept (walked m rows) rows))
              (moved (get m.ends chain) (marked chain rows) (get (walked m rows).ends chain)
                (marked chain (kept (walked m rows) rows)) (own_end chain r) rest)
      ])
