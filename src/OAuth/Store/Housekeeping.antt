-- ===== src/OAuth/Store/Housekeeping.antt =====
-- oauth/store.py, `purge_expired` and `wipe_all`. `oidc` says whether the store was opened with
-- the two OIDC tables.
use nextcloud_mcp_connector.Base.{
  ℕ, ◌+◌, Bool, ◌&&◌, not, str_eq, any, ltb, leb, delete, if◌then◌else◌,
}
use nextcloud_mcp_connector.OAuth.Rows.{Db, ClientRow, UserAccess, stale_access_ttl, empty_db}
use nextcloud_mcp_connector.OAuth.Store.Cascade.{delete_clients}
use nextcloud_mcp_connector.OAuth.Store.Purge.{purge_expired_rows}
use nextcloud_mcp_connector.OAuth.Store.Clients.{never_used_since, idle_since}
use nextcloud_mcp_connector.OAuth.Store.Authorizations.{account_of}

abbrev pub drop_expired_oidc : Bool → ℕ → Db → Db
drop_expired_oidc oidc moment db =
    if oidc
    then record db {
      oidc_transactions = delete (λ t. leb t.expires_at moment) db.oidc_transactions;
      oidc_proofs = delete (λ t. leb t.expires_at moment) db.oidc_proofs;
    }
    else db

-- A pause with nothing behind it.
abbrev pub is_stale : ℕ → Db → UserAccess → Bool
is_stale moment db u =
    ltb (u.disabled_at + stale_access_ttl) moment
    && not (any (λ a. str_eq (account_of a) u.nc_user) db.authorizations)

abbrev pub drop_stale_access : ℕ → Db → Db
drop_stale_access moment db = record db { user_access = delete (is_stale moment db) db.user_access }

-- NOT EXISTS (SELECT 1 FROM authorizations …)
abbrev pub has_no_connection : Db → ClientRow → Bool
has_no_connection db c = not (any (λ a. str_eq a.client_id c.client_id) db.authorizations)

abbrev pub drop_unused_clients : ℕ → Db → Db
drop_unused_clients moment db =
    delete_clients (λ c. never_used_since moment c && has_no_connection db c) db

abbrev pub drop_idle_clients : ℕ → Db → Db
drop_idle_clients moment db = delete_clients (λ c. idle_since moment c && has_no_connection db c) db

unfoldable pub purge_expired : (oidc : Bool) → ℕ → Db → Db
purge_expired oidc moment db = drop_idle_clients moment (
    drop_unused_clients moment
      (drop_stale_access moment (drop_expired_oidc oidc moment (purge_expired_rows moment db))))

unfoldable pub wipe_all : Db → Db
wipe_all db = empty_db
