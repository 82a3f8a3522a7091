-- ===== src/Audit/Chains.antt =====
-- audit/store.py: a new row at the end of its chain, and the chain of an account that goes. What
-- SHA-256 makes of the canonical form of a row and of the previous hash is a parameter.
use Prim.Native.Char.{Char}
use nextcloud_mcp_connector.Base.{
  ℕ, suc, String, Bool, Option, none, some, [], ◌∷◌, ◌++◌, count, delete, fetch_last,
}
use nextcloud_mcp_connector.Audit.Rows.{
  Entry, plain_entry, Row, AuditDb, genesis, actor_unknown, chain_instance, user_chain,
  kind_tombstone, in_chain, row_values,
}

abbrev pub Digest : Type 0
Digest = (seq : ℕ) → Entry → (previous : String) → String

-- The end of a chain, or GENESIS.
abbrev pub end_or_genesis : Option Row → String
end_or_genesis none = genesis
end_or_genesis (some r) = r.hash

-- What a marker says of the gap.
abbrev pub marker : (moment removed : ℕ) (gap_chain gap_hash : String) → Entry
marker moment removed gap_chain gap_hash = record (plain_entry chain_instance moment) {
  kind = kind_tombstone;
  actor = some actor_unknown;
  removed = some removed;
  gap_chain = some gap_chain;
  gap_hash = some gap_hash;
}

module _ (digest : Digest) (isprintable : Char → Bool) where
  unfoldable pub new_row : Entry → AuditDb → Row
  unfolding row_values
  new_row e db =
      let previous = end_or_genesis (fetch_last (in_chain e.chain) db.rows) in
      let values = row_values isprintable e in
      record {
        seq = suc db.highest;
        columns = values;
        prev_hash = previous;
        hash = digest (suc db.highest) values previous;
      }

  unfoldable pub append_row : Entry → AuditDb → AuditDb
  unfolding new_row
  append_row e db = record { rows = db.rows ++ (new_row e db ∷ []); highest = suc db.highest }

  -- The number of the row comes back.
  unfoldable pub append : Entry → AuditDb → ℕ × AuditDb
  unfolding append_row
  append e db = (suc db.highest, append_row e db)

  -- The marker in place of the chain that ended there.
  unfoldable pub replace_chain : (chain : String) (moment : ℕ) (end : Row) → AuditDb → ℕ × AuditDb
  unfolding append_row
  replace_chain chain moment end db =
      let removed = count (in_chain chain) db.rows in
      (
        removed,
        append_row (marker moment removed chain end.hash)
            (record db { rows = delete (in_chain chain) db.rows }),
      )

  unfoldable pub drop_user_chain : (nc_user : String) (moment : ℕ) → AuditDb → ℕ × AuditDb
  unfolding replace_chain
  drop_user_chain nc_user moment db = elim (fetch_last (in_chain (user_chain nc_user)) db.rows) [
    | none ↦ (0, db)
    | some end ↦ replace_chain (user_chain nc_user) moment end db
  ]
