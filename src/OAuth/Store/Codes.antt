-- ===== src/OAuth/Store/Codes.antt =====
-- oauth/store.py, the authorization codes. `token_hash` is the SHA-256 of the standard library.
use nextcloud_mcp_connector.Base.{
  ℕ, ◌+◌, String, Bool, true, false, ◌&&◌, ◌||◌, not, Option, none, some, ◌∷◌, [], ◌++◌, str_eq,
  ltb, ◌==◌, is_none, count, fetch, update, if◌then◌else◌,
}
use nextcloud_mcp_connector.OAuth.Rows.{Db, AuthCodeRow, auth_code_ttl}
use nextcloud_mcp_connector.OAuth.Store.Cascade.{has_code, has_authorization}
use nextcloud_mcp_connector.OAuth.Store.Purge.{purge_expired_rows}
use nextcloud_mcp_connector.OAuth.Store.Flows.{spend_flow}

-- What a code is bound to.
pub record CodeBinding : Type 0 where
  pub redirect_uri : String
  pub redirect_uri_explicit : Bool
  pub code_challenge : String
  pub resource : String

-- INSERT INTO auth_codes
unfoldable pub insert_code : (digest auth_id : String) → CodeBinding → ℕ → Db → Option Db
insert_code digest auth_id b moment db =
    if has_code db digest || not (has_authorization db auth_id)
    then none
    else some (record db {
      auth_codes =
          db.auth_codes
          ++ record {
            code_hash = digest;
            auth_id = auth_id;
            redirect_uri = b.redirect_uri;
            redirect_uri_explicit = b.redirect_uri_explicit;
            code_challenge = b.code_challenge;
            resource = b.resource;
            expires_at = moment + auth_code_ttl;
            used_at = none;
          }
            ∷ [];
    })

abbrev pub is_redeemable : String → ℕ → AuthCodeRow → Bool
is_redeemable digest moment c =
    str_eq c.code_hash digest && is_none c.used_at && ltb moment c.expires_at

module _ (token_hash : String → String) where
  unfoldable pub create_auth_code : (code auth_id : String) → CodeBinding → ℕ → Db → Option Db
  unfolding insert_code
  create_auth_code code auth_id b moment db =
      insert_code (token_hash code) auth_id b moment (purge_expired_rows moment db)

  -- The deletion of the flow is the claim; a lost claim writes nothing.
  unfoldable pub redeem_flow_for_code :
      (flow_id code : String) → CodeBinding → ℕ → Db → Option (Db × Bool)
  unfolding insert_code spend_flow
  redeem_flow_for_code flow_id code b moment db =
      let (db', spent) = spend_flow flow_id moment db in
      if spent
      then elim (insert_code (token_hash code) flow_id b moment (purge_expired_rows moment db')) [
        | none ↦ none
        | some db'' ↦ some (db'', true)
      ]
      else some (db', false)

  unfoldable pub load_auth_code : String → ℕ → Db → Option AuthCodeRow
  load_auth_code code moment db = fetch (is_redeemable (token_hash code) moment) db.auth_codes

  -- Compare and set: the row count of the UPDATE decides.
  unfoldable pub redeem_auth_code : String → ℕ → Db → Db × Option AuthCodeRow
  redeem_auth_code code moment db =
      let codes =
        update (is_redeemable (token_hash code) moment) (λ c. record c { used_at = some moment })
          db.auth_codes in
      if count (is_redeemable (token_hash code) moment) db.auth_codes == 1
      then (
        record db { auth_codes = codes },
        fetch (λ (c : AuthCodeRow). str_eq c.code_hash (token_hash code)) codes,
      )
      else (record db { auth_codes = codes }, none)
