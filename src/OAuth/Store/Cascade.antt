-- ===== src/OAuth/Store/Cascade.antt =====
-- The foreign keys of the schema, `ON DELETE CASCADE`, under `PRAGMA foreign_keys = ON`: what a
-- DELETE on a parent table takes along.
use nextcloud_mcp_connector.Base.{String, Bool, ◌&&◌, str_eq, any, delete}
use nextcloud_mcp_connector.OAuth.Rows.{Db, ClientRow, FlowRow, AuthorizationRow}

-- Whether the row under this key is one of those that go.
abbrev pub flow_goes : (FlowRow → Bool) → Db → String → Bool
flow_goes p db id = any (λ f. str_eq f.flow_id id && p f) db.flows

abbrev pub authorization_goes : (AuthorizationRow → Bool) → Db → String → Bool
authorization_goes p db id = any (λ a. str_eq a.auth_id id && p a) db.authorizations

abbrev pub client_goes : (ClientRow → Bool) → Db → String → Bool
client_goes p db id = any (λ c. str_eq c.client_id id && p c) db.clients

-- DELETE FROM flows WHERE p
unfoldable pub delete_flows : (FlowRow → Bool) → Db → Db
delete_flows p db = record db {
  flows = delete p db.flows;
  oidc_transactions = delete (λ t. flow_goes p db t.flow_id) db.oidc_transactions;
  oidc_proofs = delete (λ t. flow_goes p db t.flow_id) db.oidc_proofs;
}

-- DELETE FROM authorizations WHERE p
unfoldable pub delete_authorizations : (AuthorizationRow → Bool) → Db → Db
delete_authorizations p db = record db {
  authorizations = delete p db.authorizations;
  auth_codes = delete (λ c. authorization_goes p db c.auth_id) db.auth_codes;
  refresh_tokens = delete (λ t. authorization_goes p db t.auth_id) db.refresh_tokens;
  access_tokens = delete (λ t. authorization_goes p db t.auth_id) db.access_tokens;
}

-- DELETE FROM clients WHERE p
unfoldable pub delete_clients : (ClientRow → Bool) → Db → Db
delete_clients p db =
    let db' =
      delete_authorizations (λ a. client_goes p db a.client_id)
        (delete_flows (λ f. client_goes p db f.client_id) db) in
    record db' { clients = delete p db'.clients }

-- The keys that an INSERT is checked against.
abbrev pub has_client : Db → String → Bool
has_client db id = any (λ c. str_eq c.client_id id) db.clients

abbrev pub has_flow : Db → String → Bool
has_flow db id = any (λ f. str_eq f.flow_id id) db.flows

abbrev pub has_authorization : Db → String → Bool
has_authorization db id = any (λ a. str_eq a.auth_id id) db.authorizations

abbrev pub has_code : Db → String → Bool
has_code db digest = any (λ c. str_eq c.code_hash digest) db.auth_codes

abbrev pub has_refresh : Db → String → Bool
has_refresh db digest = any (λ t. str_eq t.token_hash digest) db.refresh_tokens

abbrev pub has_access : Db → String → Bool
has_access db digest = any (λ t. str_eq t.token_hash digest) db.access_tokens
