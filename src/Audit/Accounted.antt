-- ===== src/Audit/Accounted.antt =====
-- audit/store.py: every row that a sweep takes is counted in a marker.
use Prim.Native.Char.{Char}
use nextcloud_mcp_connector.Base.{
  ℕ, ◌+◌, String, ◌≡◌, refl, ap, sym, ◌∙◌, subst, Bool, true, false, ◌&&◌, List, [], ◌∷◌, ◌++◌,
  arith, any, length, str_eq, All, Bool-cases, inl, inr, select, delete, is_some, if◌then◌else◌,
}
use nextcloud_mcp_connector.Base.Dict.{Dict, get, put}
use nextcloud_mcp_connector.Base.Text.{sorted}
use nextcloud_mcp_connector.Base.Selecting.{select-delete, All-selected}
use nextcloud_mcp_connector.Audit.Rows.{
  Row, AuditDb, chain_instance, in_chain, names_gap, row_values,
}
use nextcloud_mcp_connector.Audit.Chains.{Digest, new_row, append_row}
use nextcloud_mcp_connector.Audit.Markers.{
  or_else, Removed, note_row, note_removed, Marks, new_marks, absorb_marker, absorb_row, keys,
  is_superseded, among, absorb, marker_of, append_markers, replace_markers, write_markers,
}
use nextcloud_mcp_connector.Audit.Linked.{IsAscending, IsAscending-select}
use nextcloud_mcp_connector.Audit.Absorbing.{walked, kept, took, left, Walk-cases}
use nextcloud_mcp_connector.Audit.Writing.{any-keys}
use nextcloud_mcp_connector.Audit.Tally.{
  sum_by, sum_by-append, sum_by-select, sum_by-sorted, total, total-put, total-keys, IsDistinct,
  IsDistinct-put, keys-put,
}

-- For how many rows that went a row stands.
abbrev pub stands_for : Row → ℕ
stands_for r =
    if in_chain chain_instance r && names_gap r.columns then or_else 0 r.columns.removed else 0

abbrev pub explained_rows : List Row → ℕ
explained_rows rows = sum_by stands_for rows

pub total-note_removed :
    (batch : List Row) (t : Removed)
    → total (note_removed batch t).counts ≡ total t.counts + length batch
unfolding note_removed note_row
total-note_removed [] t = omega arith
total-note_removed (r ∷ batch) t =
    omega (arith, total-note_removed batch (note_row r t), total-put t.counts r.columns.chain 1)

-- Both dictionaries of a batch or of a walk have the same keys, none twice.
abbrev pub HasKeys : Dict ℕ → Dict String → Type 0
HasKeys counts ends = (keys counts ≡ keys ends) × IsDistinct (keys counts)

HasKeys-put :
    (counts : Dict ℕ) (ends : Dict String) (k : String) (n : ℕ) (h : String)
    → HasKeys counts ends
    → HasKeys (put counts k n) (put ends k h)
HasKeys-put counts ends k n h (same, distinct) = (
  keys-put counts k n
      ∙ ap (λ ks. if any (λ j. str_eq j k) ks then ks else ks ++ (k ∷ [])) same
      ∙ sym (keys-put ends k h),
  IsDistinct-put counts k n distinct,
)

pub HasKeys-note_removed :
    (batch : List Row) (t : Removed)
    → HasKeys t.counts t.ends
    → HasKeys (note_removed batch t).counts (note_removed batch t).ends
unfolding note_removed note_row
HasKeys-note_removed [] t h = h
HasKeys-note_removed (r ∷ batch) t h = HasKeys-note_removed batch (note_row r t) (
    HasKeys-put t.counts t.ends r.columns.chain (or_else 0 (get t.counts r.columns.chain) + 1)
      r.hash h)

-- A count for a key that is there leaves the keys alone.
keys-put_there :
    (counts : Dict ℕ) (ends : Dict String) (k : String) (n : ℕ)
    → HasKeys counts ends
    → is_some (get ends k) ≡ true
    → HasKeys (put counts k n) ends
keys-put_there counts ends k n (same, distinct) there = (
  keys-put counts k n ∙ rw (ap (any (λ j. str_eq j k)) same ∙ any-keys ends k ∙ there) same,
  IsDistinct-put counts k n distinct,
)

HasKeys-absorb_row :
    (r : Row) (m : Marks)
    → HasKeys m.counts m.ends
    → HasKeys (absorb_row r m).counts (absorb_row r m).ends
unfolding absorb_row absorb_marker
HasKeys-absorb_row r m h =
    let gap = or_else "" r.columns.gap_chain in
    let n = or_else 0 (get m.counts gap) + or_else 0 r.columns.removed in
    elim (Bool-cases (is_some (get m.ends gap))) [
      | inl there ↦
          rw (absorb_row, absorb_marker, there) (keys-put_there m.counts m.ends gap n h there)
      | inr fresh ↦
          rw (absorb_row, absorb_marker, fresh)
            (HasKeys-put m.counts m.ends gap n (or_else "" r.columns.gap_hash) h)
    ]

total-absorb_row :
    (r : Row) (m : Marks)
    → total (absorb_row r m).counts ≡ total m.counts + or_else 0 r.columns.removed
unfolding absorb_row absorb_marker
total-absorb_row r m =
    ground
      (arith, total-put m.counts (or_else "" r.columns.gap_chain) (or_else 0 r.columns.removed))

stands_for-marker :
    (r : Row)
    → in_chain chain_instance r ≡ true
    → names_gap r.columns ≡ true
    → stands_for r ≡ or_else 0 r.columns.removed
stands_for-marker r own names = rw (own, names) refl

stands_for-other : (r : Row) → in_chain chain_instance r ≡ false → stands_for r ≡ 0
stands_for-other r other = rw other refl

module _ (m : Marks) (clean : m.superseded ≡ []) where
  HasKeys-walked :
      (b : ℕ) (rows : List Row)
      → IsAscending b rows
      → HasKeys m.counts m.ends
      → HasKeys (walked m rows).counts (walked m rows).ends
  unfolding walked absorb
  HasKeys-walked b [] ascends h = h
  HasKeys-walked b (r ∷ rows) ascends h =
      let rest = HasKeys-walked r.seq rows ascends.1 h in
      elim (Walk-cases m clean r rows ascends.1) [
        | took names walk before now ↦
            subst (λ w. HasKeys w.counts w.ends) (sym walk)
              (HasKeys-absorb_row r (walked m rows) rest)
        | left walk now ↦ subst (λ w. HasKeys w.counts w.ends) (sym walk) rest
      ]

  -- The counts that the walk carries on, and what the rows that stay stand for.
  total-walked :
      (b : ℕ) (rows : List Row)
      → IsAscending b rows
      → All (λ (r : Row). in_chain chain_instance r ≡ true) rows
      → total (walked m rows).counts + explained_rows (kept (walked m rows) rows)
        ≡ total m.counts + explained_rows rows
  unfolding walked absorb
  total-walked b [] ascends own = refl
  total-walked b (r ∷ rows) ascends own =
      let rest = total-walked r.seq rows ascends.1 own.1 in
      elim (Walk-cases m clean r rows ascends.1) [
        | took names walk before now ↦
            rw (now, walk)
              (omega (
                arith,
                total-absorb_row r (walked m rows),
                stands_for-marker r own.0 names,
                subst
                    (λ k.
                      total (walked m rows).counts + explained_rows k
                      ≡ total m.counts + explained_rows rows)
                    before rest,
              ))
        | left walk now ↦ rw (now, walk) (omega (arith, rest))
      ]

module _ (digest : Digest) (isprintable : Char → Bool) where
  explained-append_markers :
      (m : Marks) (chains : List String) (db : AuditDb)
      → explained_rows (append_markers digest isprintable m chains db).rows
        ≡ explained_rows db.rows + sum_by (λ c. or_else 0 (get m.counts c)) chains
  unfolding append_markers append_row new_row row_values
  explained-append_markers m [] db = omega arith
  explained-append_markers m (c ∷ chains) db = omega (
    arith,
    explained-append_markers m chains (append_row digest isprintable (marker_of m c) db),
    sum_by-append stands_for db.rows (new_row digest isprintable (marker_of m c) db ∷ []),
  )

  module _ (moment : ℕ) (t : Removed) (db : AuditDb) (ascends : IsAscending 0 db.rows)
      (fits : HasKeys t.counts t.ends) where
    abbrev own : List Row
    own = select (in_chain chain_instance) db.rows

    abbrev m : Marks
    m = walked (new_marks moment t) own

    abbrev tail_gone : AuditDb
    tail_gone = record db { rows = delete (is_superseded m) db.rows }

    explained-tail_gone : explained_rows tail_gone.rows ≡ explained_rows (kept m own)
    explained-tail_gone =
        sym (sum_by-select stands_for (in_chain chain_instance) tail_gone.rows stands_for-other)
        ∙ ap explained_rows (
            select-delete (in_chain chain_instance) (is_superseded m)
              (λ r. among r.seq m.superseded) db.rows (λ r here. rw here refl))

    -- The new markers stand for what the old ones stood for and for the rows that just went.
    pub explained-write_markers :
        explained_rows (write_markers digest isprintable moment t db).rows
        ≡ explained_rows db.rows + total t.counts
    unfolding write_markers replace_markers walked
    explained-write_markers =
        let own_ascends = IsAscending-select 0 (in_chain chain_instance) db.rows ascends in
        let keys_fit = HasKeys-walked (new_marks moment t) refl 0 own own_ascends fits in
        omega (
          arith,
          explained-append_markers m (sorted (keys m.ends)) tail_gone,
          explained-tail_gone,
          sum_by-sorted (λ c. or_else 0 (get m.counts c)) (keys m.ends),
          ap (sum_by (λ c. or_else 0 (get m.counts c))) keys_fit.0,
          total-keys m.counts keys_fit.1,
          total-walked (new_marks moment t) refl 0 own own_ascends
              (All-selected (in_chain chain_instance) db.rows),
          sum_by-select stands_for (in_chain chain_instance) db.rows stands_for-other,
        )
