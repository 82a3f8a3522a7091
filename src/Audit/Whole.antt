-- ===== src/Audit/Whole.antt =====
-- audit/store.py: every commit leaves whole chains, each of which begins at GENESIS or at an end that
-- the youngest marker for it names.
use Prim.Native.Char.{Char}
use nextcloud_mcp_connector.Base.{
  ℕ, ◌≤◌, String, ◌≡◌, refl, ap, sym, ◌∙◌, subst, ◌⊎◌, inl, inr, Bool, true, false, ◌&&◌, Option,
  none, some, List, [], ◌∷◌, arith, leb, str_eq, eq_iff, Bool-cases, select, delete, fetch_last,
}
use nextcloud_mcp_connector.Base.Dict.{get}
use nextcloud_mcp_connector.Base.Selecting.{
  first_some, select-delete, select-delete-none, select-select, fetch_last-delete, All-delete,
}
use nextcloud_mcp_connector.Audit.Rows.{
  Entry, Row, AuditDb, genesis, chain_instance, in_chain, names_gap, row_values,
}
use nextcloud_mcp_connector.Audit.Chains.{Digest, new_row, append_row}
use nextcloud_mcp_connector.Audit.Markers.{nothing_removed, note_removed, write_markers}
use nextcloud_mcp_connector.Audit.Verify.{names}
use nextcloud_mcp_connector.Audit.Sweep.{last_seq, commit_batch}
use nextcloud_mcp_connector.Audit.Linked.{
  IsAscending-delete, IsAscending-select, IsLinked, IsLinked-prefix, last_hash, last_hash-select,
  hash_or,
}
use nextcloud_mcp_connector.Audit.Filed.{
  IsFiled, IsFiled-append_row, IsLinked-append_row, select-append_row-other, marked,
  marked-append_row, end_named,
}
use nextcloud_mcp_connector.Audit.Writing.{
  IsFiled-write_markers, marked-write_markers, select-write_markers,
}
use nextcloud_mcp_connector.Audit.Batches.{get-note_removed, hash_of, IsPrefix}

-- No row of a chain but the instance chain is in the instance chain.
pub not_instance :
    (chain : String) (r : Row)
    → str_eq chain_instance chain ≡ false
    → in_chain chain r ≡ true
    → in_chain chain_instance r ≡ false
not_instance chain r other own = ground (
  arith,
  other,
  ap (λ c. str_eq c chain_instance) ((eq_iff r.columns.chain chain).0 own),
  eq_iff chain chain_instance,
  eq_iff chain_instance chain,
)

-- What is left of a chain begins at the last hash that went, which the new marker names.
begins :
    {now named : Option String} (start : String) (last : Option Row)
    → now ≡ first_some (first_some (hash_of last) none) named
    → (start ≡ genesis) ⊎ (named ≡ some start)
    → (hash_or start last ≡ genesis) ⊎ (now ≡ some (hash_or start last))
begins start none e (inl fresh) = inl fresh
begins start none e (inr named) = inr (e ∙ named)
begins start (some r) e starts = inr e

module _ (digest : Digest) where
  -- Where the rows of a chain begin.
  abbrev pub HasStart : String → List Row → Type 0
  HasStart chain rows =
      (start : String) × IsLinked digest start (select (in_chain chain) rows)
      × ((start ≡ genesis) ⊎ (marked chain rows ≡ some start))

  abbrev pub IsWhole : AuditDb → Type 0
  IsWhole db =
      IsFiled digest db
      × ((chain : String) → str_eq chain_instance chain ≡ false → HasStart chain db.rows)

  -- A chain without rows begins at GENESIS.
  restart :
      (start : String) (named : Option String) (rows : List Row)
      → IsLinked digest start rows
      → (start ≡ genesis) ⊎ (named ≡ some start)
      → (s : String) × IsLinked digest s rows
        × (last_hash genesis rows ≡ last_hash s rows)
        × ((s ≡ genesis) ⊎ (named ≡ some s))
  restart start named [] linked starts = (genesis, tt, refl, inl refl)
  restart start named (r ∷ rows) linked starts = (start, linked, refl, starts)

  -- Rows go, but none of the instance chain.
  pub IsFiled-delete :
      (q : Row → Bool) (db : AuditDb)
      → ((r : Row) → in_chain chain_instance r ≡ true → q r ≡ false)
      → IsFiled digest db
      → IsFiled digest (record db { rows = delete q db.rows })
  IsFiled-delete q db spares filed = (
    IsAscending-delete 0 q db.rows filed.0,
    All-delete (λ (r : Row). r.seq ≤ db.highest) q db.rows filed.1,
    rw (select-delete-none (in_chain chain_instance) q db.rows spares) filed.2,
  )

  pub marked-delete :
      (chain : String) (q : Row → Bool) (rows : List Row)
      → ((r : Row) → in_chain chain_instance r ≡ true → q r ≡ false)
      → marked chain (delete q rows) ≡ marked chain rows
  marked-delete chain q rows spares =
      ap end_named
        (fetch_last-delete (names chain) q rows (λ r named. spares r (ground (arith, named))))

  module _ (isprintable : Char → Bool) where
    marked-append_row-plain :
        (e : Entry) (db : AuditDb) (chain : String)
        → names_gap e ≡ false
        → marked chain (append_row digest isprintable e db).rows ≡ marked chain db.rows
    unfolding new_row row_values
    marked-append_row-plain e db chain plain =
        marked-append_row digest isprintable e db chain ∙ ground (arith, plain)

    HasStart-joined :
        (e : Entry) (db : AuditDb)
        → names_gap e ≡ false
        → HasStart e.chain db.rows
        → HasStart e.chain (append_row digest isprintable e db).rows
    HasStart-joined e db plain (start, linked, starts) =
        let (s, linked', same, starts') =
          restart start (marked e.chain db.rows) (select (in_chain e.chain) db.rows) linked
            starts in
        (
          s,
          IsLinked-append_row digest isprintable e db s linked' same,
          rw (marked-append_row-plain e db e.chain plain) starts',
        )

    -- A chain that the new row joins, and the others.
    HasStart-append_row :
        (e : Entry) (db : AuditDb) (chain : String)
        → names_gap e ≡ false
        → HasStart chain db.rows
        → HasStart chain (append_row digest isprintable e db).rows
    HasStart-append_row e db chain plain (start, linked, starts) =
        let same = marked-append_row-plain e db chain plain in
        elim (Bool-cases (str_eq e.chain chain)) [
          | inr other ↦ (
            start,
            rw (select-append_row-other digest isprintable e db chain other) linked,
            rw same starts,
          )
          | inl own ↦
              subst (λ c. HasStart c (append_row digest isprintable e db).rows)
                ((eq_iff e.chain chain).0 own)
                (HasStart-joined e db plain (
                  subst (λ c. HasStart c db.rows) (sym ((eq_iff e.chain chain).0 own))
                    (start, linked, starts)))
        ]

    pub IsWhole-append_row :
        (e : Entry) (db : AuditDb)
        → names_gap e ≡ false
        → IsWhole db
        → IsWhole (append_row digest isprintable e db)
    IsWhole-append_row e db plain (filed, whole) = (
      IsFiled-append_row digest isprintable e db filed,
      λ chain other. HasStart-append_row e db chain plain (whole chain other),
    )

    module _ (moment : ℕ) (p : Row → Bool) (r : Row) (batch : List Row) (db : AuditDb) where
      -- What the DELETE of the batch takes.
      abbrev goes : Row → Bool
      goes x = p x && leb x.seq (last_seq r batch)

      abbrev shortened : AuditDb
      shortened = record db { rows = delete goes db.rows }

      spared :
          ((x : Row) → in_chain chain_instance x ≡ true → p x ≡ false)
          → (x : Row) → in_chain chain_instance x ≡ true
          → goes x ≡ false
      spared spares x own = ground (arith, spares x own)

      HasStart-write_markers :
          (chain : String)
          → IsPrefix p db.rows
          → str_eq chain_instance chain ≡ false
          → select goes db.rows ≡ r ∷ batch
          → IsFiled digest db
          → IsFiled digest shortened
          → marked chain shortened.rows ≡ marked chain db.rows
          → HasStart chain db.rows
          → HasStart chain
              (write_markers digest isprintable moment
                (note_removed (r ∷ batch) nothing_removed)
                shortened).rows
      unfolding get
      HasStart-write_markers chain prefix other read filed filed' same (start, linked, starts) =
          let (t, prefixed) = prefix chain (last_seq r batch) other in
          let rest =
            IsLinked-prefix digest start 0 t goes (select (in_chain chain) db.rows)
              (IsAscending-select 0 (in_chain chain) db.rows filed.0) prefixed linked in
          let last = fetch_last (in_chain chain) (r ∷ batch) in
          rw
            (
              select-write_markers digest isprintable moment
                  (note_removed (r ∷ batch) nothing_removed) shortened chain other,
              select-delete (in_chain chain) goes goes db.rows (λ x own. refl),
            )
            (
              hash_or start last,
              subst (λ s. IsLinked digest s (delete goes (select (in_chain chain) db.rows)))
                  (ap (last_hash start) (
                      sym (select-select (in_chain chain) goes db.rows)
                      ∙ ap (select (in_chain chain)) read)
                    ∙ sym (last_hash-select (in_chain chain) start (r ∷ batch)))
                  rest,
              begins start last
                  (marked-write_markers digest isprintable moment
                      (note_removed (r ∷ batch) nothing_removed) shortened filed' chain
                    ∙ ap (λ o. first_some o (marked chain shortened.rows))
                        (get-note_removed chain (r ∷ batch) nothing_removed)
                    ∙ ap (first_some (first_some (hash_of last) none)) same)
                  starts,
            )

      pub IsWhole-commit_batch :
          ((x : Row) → in_chain chain_instance x ≡ true → p x ≡ false)
          → IsPrefix p db.rows
          → select goes db.rows ≡ r ∷ batch
          → IsWhole db
          → IsWhole (commit_batch digest isprintable moment p r batch db).db
      unfolding commit_batch
      IsWhole-commit_batch spares prefix read (filed, whole) =
          let filed' = IsFiled-delete goes db (spared spares) filed in
          (
            IsFiled-write_markers digest isprintable moment
                (note_removed (r ∷ batch) nothing_removed) shortened filed',
            λ chain other.
                HasStart-write_markers chain prefix other read filed filed'
                  (marked-delete chain goes db.rows (spared spares)) (whole chain other),
          )
