-- ===== src/OAuth/Store/Clients.antt =====
-- oauth/store.py, the clients.
use nextcloud_mcp_connector.Base.{
  ℕ, ◌+◌, String, Bool, false, ◌&&◌, ◌||◌, Option, none, some, List, [], ◌∷◌, ◌++◌, str_eq, ltb,
  is_none, if◌then◌else◌, select, order_by, fetch, update, take, map,
}
use nextcloud_mcp_connector.OAuth.Rows.{ClientRow, Db, unused_client_ttl, idle_client_ttl}
use nextcloud_mcp_connector.OAuth.Store.Cascade.{delete_clients, has_client}

-- INSERT … ON CONFLICT(client_id) DO UPDATE: the registration and use moments stay.
unfoldable pub save_client :
    (client_id metadata_json : String) (secret_hash : Option String) (allowed : Bool)
    (cimd_fetched_at cimd_expires_at : Option ℕ) (moment : ℕ)
    → Db
    → Db
save_client client_id metadata_json secret_hash allowed fetched expires moment db =
    if has_client db client_id
    then record db {
      clients =
          update (λ c. str_eq c.client_id client_id)
            (λ c. record c {
              client_secret_hash = secret_hash;
              metadata_json = metadata_json;
              allowed = allowed;
              cimd_fetched_at = fetched;
              cimd_expires_at = expires;
            })
            db.clients;
    }
    else record db {
      clients =
          db.clients
          ++ record {
            client_id = client_id;
            client_secret_hash = secret_hash;
            metadata_json = metadata_json;
            allowed = allowed;
            registered_at = moment;
            last_used_at = none;
            cimd_fetched_at = fetched;
            cimd_expires_at = expires;
          }
            ∷ [];
    }

unfoldable pub load_client : String → Db → Option ClientRow
load_client client_id db = fetch (λ c. str_eq c.client_id client_id) db.clients

unfoldable pub touch_client : String → ℕ → Db → Db
touch_client client_id moment db = record db {
  clients =
      update (λ c. str_eq c.client_id client_id) (λ c. record c { last_used_at = some moment })
        db.clients;
}

unfoldable pub delete_client : String → Db → Db
delete_client client_id db = delete_clients (λ c. str_eq c.client_id client_id) db

-- `last_used_at IS NULL AND registered_at < …`, `last_used_at IS NOT NULL AND last_used_at < …`
abbrev pub never_used_since : ℕ → ClientRow → Bool
never_used_since moment c =
    is_none c.last_used_at && ltb (c.registered_at + unused_client_ttl) moment

abbrev pub used_before : ℕ → Option ℕ → Bool
used_before moment none = false
used_before moment (some at) = ltb (at + idle_client_ttl) moment

abbrev pub idle_since : ℕ → ClientRow → Bool
idle_since moment c = used_before moment c.last_used_at

abbrev pub has_expired : ℕ → ClientRow → Bool
has_expired moment c =
    is_none c.cimd_fetched_at && (never_used_since moment c || idle_since moment c)

unfoldable pub expired_clients : (limit moment : ℕ) → Db → List String
unfolding order_by
expired_clients limit moment db =
    map (λ (c : ClientRow). c.client_id)
      (take limit (order_by (λ c. c.registered_at) (select (has_expired moment) db.clients)))
