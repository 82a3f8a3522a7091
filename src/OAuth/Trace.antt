-- ===== src/OAuth/Trace.antt =====
-- Every statement of oauth/store.py that changes the file, as a step from one file to the next,
-- and the files that a deployment can reach from an empty one. A family is opened under a fresh
-- random name (`secrets.token_urlsafe` in oauth/provider.py); that is the premise of `opened`.
pub mod Linear
use nextcloud_mcp_connector.Base.{
  ℕ, String, ◌≡◌, refl, Bool, true, false, Option, none, some, any, List,
}
use nextcloud_mcp_connector.OAuth.Rows.{Db, empty_db}
use nextcloud_mcp_connector.OAuth.Store.Clients.{save_client, touch_client, delete_client}
use nextcloud_mcp_connector.OAuth.Store.Flows.{FlowRequest, create_flow, delete_flow, redeem_flow}
use nextcloud_mcp_connector.OAuth.Store.Authorizations.{
  Connection, create_authorization, delete_authorization, revoke_authorization, note_cleanup,
  clear_cleanup,
}
use nextcloud_mcp_connector.OAuth.Store.Access.{set_access}
use nextcloud_mcp_connector.OAuth.Store.Codes.{
  CodeBinding, create_auth_code, redeem_flow_for_code, redeem_auth_code,
}
use nextcloud_mcp_connector.OAuth.Store.Tokens.{
  create_access_token, create_refresh_token, redeem_refresh_token, revoke_family, in_family,
  RefreshRedemption,
}
use nextcloud_mcp_connector.OAuth.Store.Housekeeping.{purge_expired, wipe_all}
use nextcloud_mcp_connector.OAuth.Store.Oidc.{
  create_oidc_transaction, redeem_oidc_transaction, create_browser_proof, redeem_browser_proof,
  OidcTransaction,
}

module _ (token_hash : String → String) (encrypt : String → String → String)
    (decrypt : String → String → Option String) (oidc : Bool) where
  pub data Step (db : Db) : Db → Type 0 where
    saved :
        (id metadata : String) (secret : Option String) (allowed : Bool)
        (fetched expires : Option ℕ) (moment : ℕ)
        → Step db (save_client id metadata secret allowed fetched expires moment db)
    touched : (id : String) (moment : ℕ) → Step db (touch_client id moment db)
    client_deleted : (id : String) → Step db (delete_client id db)
    flow_created :
        (id poll_token : String) (r : FlowRequest) (moment : ℕ) {db' : Db}
        → create_flow encrypt id poll_token r moment db ≡ some db'
        → Step db db'
    flow_deleted : (id : String) → Step db (delete_flow id db)
    flow_redeemed : (id : String) (moment : ℕ) → Step db (redeem_flow id moment db).0
    authorized :
        (id password : String) (c : Connection) (moment : ℕ) {db' : Db}
        → create_authorization encrypt id password c moment db ≡ some db'
        → Step db db'
    authorization_deleted : (id : String) → Step db (delete_authorization id db)
    authorization_revoked : (id : String) (moment : ℕ) → Step db (revoke_authorization id moment db)
    noted : (id : String) (moment : ℕ) → Step db (note_cleanup id moment db)
    cleared : (id : String) → Step db (clear_cleanup id db)
    switched :
        (nc_user : String) (disabled : Bool) (moment : ℕ) {db' : Db}
        → set_access nc_user disabled moment db ≡ some db'
        → Step db db'
    code_created :
        (code id : String) (b : CodeBinding) (moment : ℕ) {db' : Db}
        → create_auth_code token_hash code id b moment db ≡ some db'
        → Step db db'
    flow_claimed :
        (id code : String) (b : CodeBinding) (moment : ℕ) {db' : Db} {won : Bool}
        → redeem_flow_for_code token_hash id code b moment db ≡ some (db', won)
        → Step db db'
    code_redeemed :
        (code : String) (moment : ℕ) → Step db (redeem_auth_code token_hash code moment db).0
    access_created :
        (token id family scopes resource : String) (moment : ℕ) {db' : Db}
        → create_access_token token_hash token id family scopes resource moment db ≡ some db'
        → Step db db'
    opened :
        (token id family : String) (moment : ℕ) {db' : Db}
        → any (in_family family) db.refresh_tokens ≡ false
        → create_refresh_token token_hash token id family moment db ≡ some db'
        → Step db db'
    rotated :
        (token successor : String) (moment : ℕ) {db' : Db} {r : RefreshRedemption}
        → redeem_refresh_token token_hash token successor moment db ≡ some (db', r)
        → Step db db'
    family_revoked : (family : String) (moment : ℕ) → Step db (revoke_family family moment db)
    purged : (moment : ℕ) → Step db (purge_expired oidc moment db)
    wiped : Step db (wipe_all db)
    sign_in_created :
        (state flow_id browser nonce verifier : String) (moment : ℕ) {db' : Db} {stored : Bool}
        → create_oidc_transaction token_hash encrypt oidc state flow_id browser nonce verifier
            moment db
          ≡ some (db', stored)
        → Step db db'
    sign_in_redeemed :
        (state browser : String) (moment : ℕ) {db' : Db} {found : Option OidcTransaction}
        → redeem_oidc_transaction token_hash decrypt oidc state browser moment db
          ≡ some (db', found)
        → Step db db'
    proof_created :
        (proof flow_id principal : String) (moment : ℕ) {db' : Db} {stored : Bool}
        → create_browser_proof token_hash oidc proof flow_id principal moment db
          ≡ some (db', stored)
        → Step db db'
    proof_redeemed :
        (proof flow_id : String) (moment : ℕ) {db' : Db} {found : Option String}
        → redeem_browser_proof token_hash oidc proof flow_id moment db ≡ some (db', found)
        → Step db db'

  -- Any sequence of steps, by whatever processes, in whatever order their transactions commit.
  pub data Reach (start : Db) : Db → Type 0 where
    here : Reach start start
    next : {db db' : Db} → Reach start db → Step db db' → Reach start db'
