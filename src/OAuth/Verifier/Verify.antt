-- ===== src/OAuth/Verifier/Verify.antt =====
-- oauth/verifier.py, `verify_token` and `resolve_identity`. `lookup` is the ClientLookup that is handed
-- in: whether the client may act, and its name. `readable` is whether the store could be opened and
-- read, `words_of` is `str.split`, `audience_ok` the SDK's check against the audience of this server.
use nextcloud_mcp_connector.Base.{
  ℕ, String, Bool, not, ◌||◌, Option, none, some, List, is_some, if◌then◌else◌,
}
use nextcloud_mcp_connector.Base.Dict.{Dict}
use nextcloud_mcp_connector.Base.Text.{is_empty}
use nextcloud_mcp_connector.OAuth.Rows.{Db, AuthorizationRow, AccessTokenRow}
use nextcloud_mcp_connector.OAuth.Store.Authorizations.{
  load_authorization, app_password, principal_of,
}
use nextcloud_mcp_connector.OAuth.Store.Tokens.{load_access_token}
use nextcloud_mcp_connector.OAuth.Verifier.Cache.{AccessGrant, Cached, cached, remember}

abbrev pub credential_app_password : String
credential_app_password = "app-password"

pub record OAuthIdentity : Type 0 where
  pub nc_user : String
  pub app_password : String
  pub auth_id : String
  pub client_id : String
  pub principal : String
  pub revoked : Bool
  pub client_name : String
  pub actor : String
  pub credential : String

pub record Verifier : Type 0 where
  pub db : Db
  pub cache : Dict Cached

module _ (token_hash : String → String) (audience_ok : String → Bool)
    (words_of : String → List String) (lookup : String → Db → Db × Option String) (ttl : ℕ) where
  abbrev pub grant_of :
      String → AccessTokenRow → AuthorizationRow → AuthorizationRow → String → AccessGrant
  grant_of token row owner a name = record {
    token = token;
    client_id = a.client_id;
    scopes = words_of row.scopes;
    expires_at = row.expires_at;
    resource = row.resource;
    subject = principal_of owner;
    auth_id = row.auth_id;
    client_name = name;
  }

  -- The checks behind the two reads; `owner` is the authorization that the token was joined with.
  unfoldable pub admit_token :
      (token : String) (tick : ℕ)
      → AccessTokenRow
      → AuthorizationRow
      → AuthorizationRow
      → Verifier
      → Verifier × Option AccessGrant
  unfolding remember
  admit_token token tick row owner a v =
      let (db, client) = lookup a.client_id v.db in
      if is_some a.revoked_at || (is_empty row.resource || not (audience_ok row.resource))
      then (v, none)
      else elim client [
        | none ↦ (record v { db = db }, none)
        | some name ↦
            let access = grant_of token row owner a name in
            (
              record { db = db; cache = remember ttl (token_hash token) access tick v.cache },
              some access,
            )
      ]

  -- What the store says of a token that is not cached.
  unfoldable pub verify_stored :
      (readable : Bool) (token : String) (now tick : ℕ) → Verifier → Verifier × Option AccessGrant
  unfolding admit_token
  verify_stored readable token now tick v =
      if not readable then (v, none) else elim (load_access_token token_hash token now v.db) [
        | none ↦ (v, none)
        | some (row, owner) ↦ elim (load_authorization row.auth_id v.db) [
          | none ↦ (v, none)
          | some a ↦ admit_token token tick row owner a v
        ]
      ]

  unfoldable pub verify_token :
      (readable : Bool) (token : String) (now tick : ℕ) → Verifier → Verifier × Option AccessGrant
  unfolding cached verify_stored
  verify_token readable token now tick v =
      let (cache, answer) = cached (token_hash token) tick v.cache in
      if is_empty token then (v, none) else elim answer [
        | some access ↦ (v, some access)
        | none ↦ verify_stored readable token now tick (record v { cache = cache })
      ]

-- Read fresh every time: the credential behind a verified token.
unfoldable pub resolve_identity :
    (decrypt : String → String → Option String) (readable : Bool)
    → AccessGrant
    → Db
    → Option OAuthIdentity
resolve_identity decrypt readable access db =
    if is_empty access.auth_id || not readable
    then none
    else elim (load_authorization access.auth_id db) [
      | none ↦ none
      | some a ↦ elim (app_password decrypt access.auth_id db) [
        | none ↦ none
        | some none ↦ none
        | some (some password) ↦
            if is_empty password
            then none
            else some (record {
              nc_user = a.nc_user;
              app_password = password;
              auth_id = access.auth_id;
              client_id = a.client_id;
              principal = principal_of a;
              revoked = is_some a.revoked_at;
              client_name = access.client_name;
              actor = "";
              credential = credential_app_password;
            })
      ]
    ]
