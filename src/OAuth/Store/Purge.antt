-- ===== src/OAuth/Store/Purge.antt =====
-- oauth/store.py, `_purge_expired_rows`: every write drops what has run out.
use nextcloud_mcp_connector.Base.{ℕ, leb, delete}
use nextcloud_mcp_connector.OAuth.Rows.{Db}
use nextcloud_mcp_connector.OAuth.Store.Cascade.{delete_flows}

unfoldable pub purge_expired_rows : ℕ → Db → Db
unfolding delete_flows
purge_expired_rows moment db =
    let db' = delete_flows (λ f. leb f.expires_at moment) db in
    record db' {
      auth_codes = delete (λ c. leb c.expires_at moment) db'.auth_codes;
      refresh_tokens = delete (λ t. leb t.expires_at moment) db'.refresh_tokens;
      access_tokens = delete (λ t. leb t.expires_at moment) db'.access_tokens;
    }
