-- ===== src/Audit/Filed.antt =====
-- What a new row leaves of the table: the order, the instance chain, the other chains and the markers.
use Prim.Native.Char.{Char}
use nextcloud_mcp_connector.Base.{
  suc, ◌≤◌, String, ◌≡◌, refl, ap, sym, ◌∙◌, subst, Bool, false, Option, none, some, List, [], ◌∷◌,
  ◌++◌, arith, str_eq, eq_iff, eq_refl, All, All-append, Bool-cases, inl, inr, select, fetch_last,
  if◌then◌else◌,
}
use nextcloud_mcp_connector.Base.Selecting.{select-append, fetch_last-append, All-mono}
use nextcloud_mcp_connector.Audit.Rows.{
  Entry, Row, AuditDb, genesis, chain_instance, in_chain, row_values,
}
use nextcloud_mcp_connector.Audit.Chains.{Digest, new_row, append_row, end_or_genesis}
use nextcloud_mcp_connector.Audit.Markers.{or_else}
use nextcloud_mcp_connector.Audit.Verify.{names}
use nextcloud_mcp_connector.Audit.Linked.{
  IsAscending, IsAscending-append, IsLinked, IsLinked-append, last_hash, last_hash-select,
}

-- The end that the youngest marker of a chain names.
abbrev pub end_named : Option Row → Option String
end_named none = none
end_named (some r) = some (or_else "" r.columns.gap_hash)

abbrev pub marked : String → List Row → Option String
marked chain rows = end_named (fetch_last (names chain) rows)

pub end_or_genesis-last_hash :
    (p : Row → Bool) (rows : List Row)
    → end_or_genesis (fetch_last p rows) ≡ last_hash genesis (select p rows)
end_or_genesis-last_hash p rows = ground (arith, last_hash-select p genesis rows)

pub append_nil {ℓ} : {A : Type ℓ} (xs : List A) → xs ++ [] ≡ xs
append_nil [] = refl
append_nil (x ∷ xs) = ap (◌∷◌ x) (append_nil xs)

module _ (digest : Digest) where
  -- The rows ascend up to the highest number, and the instance chain begins at GENESIS.
  abbrev pub IsFiled : AuditDb → Type 0
  IsFiled db =
      IsAscending 0 db.rows
      × All (λ (r : Row). r.seq ≤ db.highest) db.rows
      × IsLinked digest genesis (select (in_chain chain_instance) db.rows)

  module _ (isprintable : Char → Bool) (e : Entry) (db : AuditDb) where
    abbrev added : Row
    added = new_row digest isprintable e db

    pub select-append_row :
        (chain : String)
        → select (in_chain chain) (append_row digest isprintable e db).rows
          ≡ select (in_chain chain) db.rows ++ (if str_eq e.chain chain then added ∷ [] else [])
    unfolding append_row new_row row_values
    select-append_row chain = ground (arith, select-append (in_chain chain) db.rows (added ∷ []))

    -- A chain that the new row joins.
    pub IsLinked-append_row :
        (start : String)
        → IsLinked digest start (select (in_chain e.chain) db.rows)
        → last_hash genesis (select (in_chain e.chain) db.rows)
          ≡ last_hash start (select (in_chain e.chain) db.rows)
        → IsLinked digest start
            (select (in_chain e.chain) (append_row digest isprintable e db).rows)
    unfolding new_row
    IsLinked-append_row start h same =
        rw (select-append_row e.chain, eq_refl e.chain)
          (IsLinked-append digest start (select (in_chain e.chain) db.rows) added h
            (end_or_genesis-last_hash (in_chain e.chain) db.rows ∙ same) refl)

    -- A chain that it does not join.
    pub select-append_row-other :
        (chain : String)
        → str_eq e.chain chain ≡ false
        → select (in_chain chain) (append_row digest isprintable e db).rows
          ≡ select (in_chain chain) db.rows
    select-append_row-other chain other =
        select-append_row chain ∙ rw other (append_nil (select (in_chain chain) db.rows))

    pub IsFiled-append_row : IsFiled db → IsFiled (append_row digest isprintable e db)
    unfolding append_row new_row
    IsFiled-append_row (ascends, below, linked) = (
      IsAscending-append 0 db.highest db.rows added (omega arith) ascends below (omega arith),
      All-append (λ (r : Row). r.seq ≤ suc db.highest) db.rows (added ∷ [])
          (All-mono (λ (r : Row). r.seq ≤ db.highest) (λ (r : Row). r.seq ≤ suc db.highest) db.rows
            (λ r le. omega (arith, le)) below)
          (omega arith, tt),
      elim (Bool-cases (str_eq e.chain chain_instance)) [
        | inl joins ↦
            subst
              (λ c.
                IsLinked digest genesis
                  (select (in_chain c) (append_row digest isprintable e db).rows))
              ((eq_iff e.chain chain_instance).0 joins)
              (IsLinked-append_row genesis
                (subst (λ c. IsLinked digest genesis (select (in_chain c) db.rows))
                  (sym ((eq_iff e.chain chain_instance).0 joins)) linked)
                refl)
        | inr other ↦ rw (select-append_row-other chain_instance other) linked
      ],
    )

    pub marked-append_row :
        (chain : String)
        → marked chain (append_row digest isprintable e db).rows
          ≡ (if names chain added then some (or_else "" e.gap_hash) else marked chain db.rows)
    unfolding append_row new_row row_values
    marked-append_row chain = ground (arith, fetch_last-append (names chain) db.rows added)
