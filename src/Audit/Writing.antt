-- ===== src/Audit/Writing.antt =====
-- audit/store.py, `_write_markers`: the table after the new markers.
use Prim.Native.Char.{Char}
use nextcloud_mcp_connector.Base.{
  ℕ, ◌≤◌, String, ◌≡◌, refl, ap, sym, ◌∙◌, Bool, false, ◌||◌, Option, none, some, List, [], ◌∷◌,
  arith, any, str_eq, eq_iff, Bool-cases, inl, inr, is_some, select, delete, if◌then◌else◌,
}
use nextcloud_mcp_connector.Base.Dict.{Dict, get}
use nextcloud_mcp_connector.Base.Text.{sorted, insert_sorted}
use nextcloud_mcp_connector.Base.Selecting.{
  first_some, select-delete, select-delete-none, fetch_last-select, All-delete, All-selected,
}
use nextcloud_mcp_connector.Audit.Rows.{Row, AuditDb, chain_instance, in_chain, row_values}
use nextcloud_mcp_connector.Audit.Chains.{Digest, new_row, append_row}
use nextcloud_mcp_connector.Audit.Markers.{
  Marks, Removed, new_marks, or_else, marker_of, keys, is_superseded, among, append_markers,
  replace_markers, write_markers,
}
use nextcloud_mcp_connector.Audit.Verify.{names}
use nextcloud_mcp_connector.Audit.Linked.{IsAscending-delete, IsAscending-select}
use nextcloud_mcp_connector.Audit.Filed.{
  IsFiled, IsFiled-append_row, select-append_row-other, marked, end_named, marked-append_row,
}
use nextcloud_mcp_connector.Audit.Absorbing.{kept, walked, IsLinked-kept, marked-kept}

module _ (p : String → Bool) where
  any-insert_sorted : (s : String) (ts : List String) → any p (insert_sorted s ts) ≡ p s || any p ts
  unfolding insert_sorted
  any-insert_sorted s [] = refl
  any-insert_sorted s (t ∷ ts) = ground (arith, any-insert_sorted s ts)

  pub any-sorted : (ts : List String) → any p (sorted ts) ≡ any p ts
  unfolding sorted
  any-sorted [] = refl
  any-sorted (t ∷ ts) = any-insert_sorted t (sorted ts) ∙ ap (λ b. p t || b) (any-sorted ts)

pub any-keys {ℓ} :
    {A : Type ℓ} (d : Dict A) (k : String) → any (λ j. str_eq j k) (keys d) ≡ is_some (get d k)
unfolding get
any-keys [] k = refl
any-keys ((j, v) ∷ d) k = ground (arith, any-keys d k)

module _ (digest : Digest) (isprintable : Char → Bool) (m : Marks) where
  module _ (chain : String) where
    -- The markers stand in the instance chain.
    select-append_markers :
        (chains : List String) (db : AuditDb)
        → str_eq chain_instance chain ≡ false
        → select (in_chain chain) (append_markers digest isprintable m chains db).rows
          ≡ select (in_chain chain) db.rows
    unfolding append_markers
    select-append_markers [] db other = refl
    select-append_markers (c ∷ chains) db other =
        select-append_markers chains (append_row digest isprintable (marker_of m c) db) other
        ∙ select-append_row-other digest isprintable (marker_of m c) db chain other

    marked-marker_of :
        (c : String) (db : AuditDb)
        → marked chain (append_row digest isprintable (marker_of m c) db).rows
          ≡ (if str_eq c chain then some (or_else "" (get m.ends c)) else marked chain db.rows)
    unfolding new_row row_values
    marked-marker_of c db = marked-append_row digest isprintable (marker_of m c) db chain

    marked-append_markers :
        (chains : List String) (db : AuditDb)
        → marked chain (append_markers digest isprintable m chains db).rows ≡ (
            if any (λ c. str_eq c chain) chains
            then some (or_else "" (get m.ends chain))
            else marked chain db.rows)
    unfolding append_markers
    marked-append_markers [] db = refl
    marked-append_markers (c ∷ chains) db =
        marked-append_markers chains (append_row digest isprintable (marker_of m c) db)
        ∙ elim (Bool-cases (str_eq c chain)) [
          | inl same ↦
              ground (arith, same, marked-marker_of c db, ap (get m.ends) ((eq_iff c chain).0 same))
          | inr other ↦ ground (arith, other, marked-marker_of c db)
        ]

  IsFiled-append_markers :
      (chains : List String) (db : AuditDb)
      → IsFiled digest db
      → IsFiled digest (append_markers digest isprintable m chains db)
  unfolding append_markers
  IsFiled-append_markers [] db h = h
  IsFiled-append_markers (c ∷ chains) db h =
      IsFiled-append_markers chains (append_row digest isprintable (marker_of m c) db)
        (IsFiled-append_row digest isprintable (marker_of m c) db h)

chosen :
    {b : Bool} (g k : Option String)
    → b ≡ is_some g
    → (if b then some (or_else "" g) else k) ≡ first_some g k
chosen none k e = rw e refl
chosen (some h) k e = rw e refl

-- The marks after the walk over the instance chain of a table.
abbrev final_marks : ℕ → Removed → List Row → Marks
final_marks moment t rows = walked (new_marks moment t) (select (in_chain chain_instance) rows)

module _ (digest : Digest) (isprintable : Char → Bool) (moment : ℕ) (t : Removed)
    (db : AuditDb) where
  abbrev m : Marks
  m = final_marks moment t db.rows

  abbrev tail_gone : AuditDb
  tail_gone = record db { rows = delete (is_superseded m) db.rows }

  select-tail_gone :
      select (in_chain chain_instance) tail_gone.rows
      ≡ kept m (select (in_chain chain_instance) db.rows)
  select-tail_gone =
      select-delete (in_chain chain_instance) (is_superseded m) (λ r. among r.seq m.superseded)
        db.rows (λ r own. rw own refl)

  marked_instance :
      (chain : String) (rows : List Row)
      → marked chain (select (in_chain chain_instance) rows) ≡ marked chain rows
  marked_instance chain rows = ap end_named (
      fetch_last-select (in_chain chain_instance) (names chain) rows
        (λ r named. ground (arith, named)))

  module _ (filed : IsFiled digest db) where
    IsFiled-tail_gone : IsFiled digest tail_gone
    IsFiled-tail_gone = (
      IsAscending-delete 0 (is_superseded m) db.rows filed.0,
      All-delete (λ (r : Row). r.seq ≤ db.highest) (is_superseded m) db.rows filed.1,
      rw select-tail_gone (
          IsLinked-kept (new_marks moment t) refl digest _ 0
            (select (in_chain chain_instance) db.rows)
            (IsAscending-select 0 (in_chain chain_instance) db.rows filed.0) filed.2),
    )

    pub IsFiled-write_markers : IsFiled digest (write_markers digest isprintable moment t db)
    unfolding write_markers replace_markers walked
    IsFiled-write_markers =
        IsFiled-append_markers digest isprintable m (sorted (keys m.ends)) tail_gone
          IsFiled-tail_gone

    -- The youngest end of a chain: the one that just went, or else the one named before.
    pub marked-write_markers :
        (chain : String)
        → marked chain (write_markers digest isprintable moment t db).rows
          ≡ first_some (get t.ends chain) (marked chain db.rows)
    unfolding write_markers replace_markers walked
    marked-write_markers chain =
        marked-append_markers digest isprintable m chain (sorted (keys m.ends)) tail_gone
        ∙ chosen (get m.ends chain) (marked chain tail_gone.rows)
            (any-sorted (λ c. str_eq c chain) (keys m.ends) ∙ any-keys m.ends chain)
        ∙ ap (first_some (get m.ends chain))
            (sym (marked_instance chain tail_gone.rows) ∙ ap (marked chain) select-tail_gone)
        ∙ marked-kept (new_marks moment t) refl chain 0 (select (in_chain chain_instance) db.rows)
            (IsAscending-select 0 (in_chain chain_instance) db.rows filed.0)
            (All-selected (in_chain chain_instance) db.rows)
        ∙ ap (first_some (get t.ends chain)) (marked_instance chain db.rows)

  pub select-write_markers :
      (chain : String)
      → str_eq chain_instance chain ≡ false
      → select (in_chain chain) (write_markers digest isprintable moment t db).rows
        ≡ select (in_chain chain) db.rows
  unfolding write_markers replace_markers walked
  select-write_markers chain other =
      select-append_markers digest isprintable m chain (sorted (keys m.ends)) tail_gone other
      ∙ select-delete-none (in_chain chain) (is_superseded m) db.rows (λ r own. ground (
        arith,
        other,
        own,
        ap (λ c. str_eq c chain_instance) ((eq_iff r.columns.chain chain).0 own),
        eq_iff chain chain_instance,
        eq_iff chain_instance chain,
      ))
