-- ===== src/Audit/Answers.antt =====
-- audit/store.py: what the removal of an account leaves.
use Prim.Native.Char.{Char}
use Prim.Native.String.append
use nextcloud_mcp_connector.Base.{
  ℕ, suc, ◌<◌, ◌≤◌, String, ◌≡◌, refl, ap, ◌∙◌, Bool, false, some, [], arith, str_eq, eq_refl, All,
  count, select, fetch_last,
}
use nextcloud_mcp_connector.Base.Selecting.{All-mono}
use nextcloud_mcp_connector.Audit.Rows.{Entry, Row, AuditDb, chain_instance, user_chain, in_chain}
use nextcloud_mcp_connector.Audit.Chains.{Digest, append, replace_chain, drop_user_chain}
use nextcloud_mcp_connector.Audit.Linked.{IsAscending}
use nextcloud_mcp_connector.Audit.Filed.{marked}
use nextcloud_mcp_connector.Audit.Dropping.{
  user_chain_other, select-replace_chain, marked-replace_chain,
}
use nextcloud_mcp_connector.Audit.Commits.{Reach, Reach-IsWhole}
use nextcloud_mcp_connector.Audit.Reading.{without_prefix, account_of}

-- In a reachable log every number stands once, in ascending order, and the number of the next row is
-- above all of them.
append-fresh :
    (digest : Digest) (isprintable : Char → Bool) (e : Entry) (db : AuditDb)
    → Reach digest isprintable db
    → IsAscending 0 db.rows × All (λ (r : Row). r.seq < (append digest isprintable e db).0) db.rows
unfolding append
append-fresh digest isprintable e db reached =
    let filed = (Reach-IsWhole digest isprintable reached).0 in
    (
      filed.0,
      All-mono (λ (r : Row). r.seq ≤ db.highest) (λ (r : Row). r.seq < suc db.highest) db.rows
          (λ r le. omega (arith, le)) filed.1,
    )

drop_user_chain-replace_chain :
    (digest : Digest) (isprintable : Char → Bool) (nc_user : String) (moment : ℕ) (db : AuditDb)
    (end : Row)
    → fetch_last (in_chain (user_chain nc_user)) db.rows ≡ some end
    → drop_user_chain digest isprintable nc_user moment db
      ≡ replace_chain digest isprintable (user_chain nc_user) moment end db
unfolding drop_user_chain
drop_user_chain-replace_chain digest isprintable nc_user moment db end found =
    rw (drop_user_chain, found) refl

removed-replace_chain :
    (digest : Digest) (isprintable : Char → Bool) (chain : String) (moment : ℕ) (end : Row)
    (db : AuditDb)
    → (replace_chain digest isprintable chain moment end db).0 ≡ count (in_chain chain) db.rows
unfolding replace_chain
removed-replace_chain digest isprintable chain moment end db = refl

-- The removal of an account with rows answers how many they were; then its chain is empty, the
-- youngest marker for it names the hash of its last row, and the chains of all others are as before.
pub drop_user_chain-found :
    (digest : Digest) (isprintable : Char → Bool) (nc_user : String) (moment : ℕ) (db : AuditDb)
    (end : Row)
    → fetch_last (in_chain (user_chain nc_user)) db.rows ≡ some end
    → let result = drop_user_chain digest isprintable nc_user moment db in
      (result.0 ≡ count (in_chain (user_chain nc_user)) db.rows)
      × (select (in_chain (user_chain nc_user)) result.1.rows ≡ [])
      × (marked (user_chain nc_user) result.1.rows ≡ some end.hash)
      × ((other : String)
          → str_eq chain_instance other ≡ false
          → str_eq (user_chain nc_user) other ≡ false
          → select (in_chain other) result.1.rows ≡ select (in_chain other) db.rows)
drop_user_chain-found digest isprintable nc_user moment db end found =
    let c = user_chain nc_user in
    let own = user_chain_other nc_user in
    rw (drop_user_chain-replace_chain digest isprintable nc_user moment db end found) (
      removed-replace_chain digest isprintable c moment end db,
      rw (select-replace_chain digest isprintable moment c end db own c own, eq_refl c) refl,
      rw (marked-replace_chain digest isprintable moment c end db own c, eq_refl c) refl,
      λ other others apart.
          rw (select-replace_chain digest isprintable moment c end db own other others, apart) refl,
    )

-- The name of an account comes back out of the identifier of its chain.
account_of-user_chain : (nc_user : String) → account_of (user_chain nc_user) ≡ nc_user
unfolding account_of without_prefix
account_of-user_chain nc_user = ap account_of (
    append.cons "u" ":" nc_user
    ∙ ap (String.◌∷◌ "u") (append.cons ":" "" nc_user ∙ ap (String.◌∷◌ ":") (append.nil nc_user)))
