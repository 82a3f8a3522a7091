-- ===== src/OAuth/Store/Authorizations.antt =====
-- oauth/store.py, the authorizations, and oauth/principal.py, whose they are.
use nextcloud_mcp_connector.Base.{
  ℕ, ◌+◌, String, Bool, true, false, ◌&&◌, ◌||◌, not, Option, none, some, List, ◌∷◌, [], ◌++◌,
  str_eq, ltb, is_none, any, select, order_by, order_by_desc, take, fetch, update, if◌then◌else◌,
}
use nextcloud_mcp_connector.Base.Text.{is_blank, is_empty}
use nextcloud_mcp_connector.OAuth.Rows.{Db, AuthorizationRow, flow_ttl}
use nextcloud_mcp_connector.OAuth.Store.Cascade.{
  delete_authorizations, has_client, has_authorization, has_flow,
}

pub record Connection : Type 0 where
  pub client_id : String
  pub nc_user : String
  pub nc_account_id : String
  pub nc_display_name : Option String
  pub scopes : String
  pub resource : String

unfoldable pub create_authorization :
    (encrypt : String → String → String) (auth_id app_password : String) (c : Connection)
    (moment : ℕ)
    → Db
    → Option Db
create_authorization encrypt auth_id app_password c moment db =
    if is_blank c.nc_account_id || has_authorization db auth_id || not (has_client db c.client_id)
    then none
    else some (record db {
      authorizations =
          db.authorizations
          ++ record {
            auth_id = auth_id;
            client_id = c.client_id;
            nc_user = c.nc_user;
            nc_account_id = some c.nc_account_id;
            nc_display_name = c.nc_display_name;
            app_password_enc = encrypt auth_id app_password;
            scopes = c.scopes;
            resource = c.resource;
            created_at = moment;
            revoked_at = none;
            cleanup_at = none;
          }
            ∷ [];
    })

abbrev pub has_auth_id : String → AuthorizationRow → Bool
has_auth_id auth_id a = str_eq a.auth_id auth_id

unfoldable pub load_authorization : String → Db → Option AuthorizationRow
load_authorization auth_id db = fetch (has_auth_id auth_id) db.authorizations

-- The outer `none` is a raised `DecryptionRejected`.
unfoldable pub app_password :
    (decrypt : String → String → Option String) → String → Db → Option (Option String)
app_password decrypt auth_id db = elim (fetch (has_auth_id auth_id) db.authorizations) [
  | none ↦ some none
  | some a ↦ elim (decrypt auth_id a.app_password_enc) [
    | none ↦ none
    | some password ↦ some (some password)
  ]
]

unfoldable pub delete_authorization : String → Db → Db
delete_authorization auth_id db = delete_authorizations (has_auth_id auth_id) db

-- The first revocation time stands.
unfoldable pub revoke_authorization : String → ℕ → Db → Db
revoke_authorization auth_id moment db = record db {
  authorizations =
      update (λ a. has_auth_id auth_id a && is_none a.revoked_at)
        (λ a. record a { revoked_at = some moment }) db.authorizations;
}

unfoldable pub note_cleanup : String → ℕ → Db → Db
note_cleanup auth_id moment db = record db {
  authorizations =
      update (λ a. has_auth_id auth_id a && is_none a.cleanup_at)
        (λ a. record a { cleanup_at = some moment }) db.authorizations;
}

unfoldable pub clear_cleanup : String → Db → Db
clear_cleanup auth_id db = record db {
  authorizations =
      update (has_auth_id auth_id) (λ a. record a { cleanup_at = none }) db.authorizations;
}

-- LIMIT ?, where NULL travels as -1
abbrev pub capped {ℓ} : {A : Type ℓ} → Option ℕ → List A → List A
capped none rows = rows
capped (some n) rows = take n rows

unfoldable pub authorizations_of_client : String → Option ℕ → Db → List AuthorizationRow
unfolding order_by
authorizations_of_client client_id limit db =
    capped limit
      (order_by (λ a. a.created_at) (select (λ a. str_eq a.client_id client_id) db.authorizations))

-- COALESCE(nc_account_id, nc_user)
abbrev pub account_of : AuthorizationRow → String
account_of a = elim a.nc_account_id [ none ↦ a.nc_user | some id ↦ id ]

abbrev pub is_live_of : String → AuthorizationRow → Bool
is_live_of nc_user a = str_eq (account_of a) nc_user && is_none a.revoked_at

unfoldable pub authorizations_of_user : String → Db → List AuthorizationRow
unfolding order_by_desc is_blank
authorizations_of_user nc_user db =
    if is_blank nc_user
    then []
    else order_by_desc (λ a. a.created_at) (select (is_live_of nc_user) db.authorizations)

unfoldable pub binding_of : (principal client_id : String) → Db → Option AuthorizationRow
unfolding order_by_desc is_blank
binding_of principal client_id db =
    if is_blank principal || is_blank client_id
    then none
    else fetch (λ a. true)
        (order_by_desc (λ a. a.created_at)
          (select
            (λ a.
              str_eq (account_of a) principal
              && str_eq a.client_id client_id
              && is_none a.revoked_at)
            db.authorizations))

unfoldable pub all_authorizations : Db → List AuthorizationRow
unfolding order_by
all_authorizations db = order_by (λ a. a.created_at) db.authorizations

-- The condition of `abandoned_authorizations`.
unfoldable pub is_abandoned : List String → ℕ → Db → AuthorizationRow → Bool
is_abandoned except_clients moment db a =
    is_none a.revoked_at
    && not (has_flow db a.auth_id)
    && ltb (a.created_at + flow_ttl) moment
    && not (any (λ c. str_eq c a.client_id) except_clients)
    && not (any (λ c. str_eq c.auth_id a.auth_id) db.auth_codes)
    && not (any (λ t. str_eq t.auth_id a.auth_id) db.refresh_tokens)
    && not (any (λ t. str_eq t.auth_id a.auth_id) db.access_tokens)

unfoldable pub abandoned_authorizations :
    (limit moment : ℕ) (except_clients : List String) → Db → List AuthorizationRow
unfolding order_by is_abandoned
abandoned_authorizations limit moment except_clients db = take limit (
    order_by (λ a. a.created_at) (select (is_abandoned except_clients moment db) db.authorizations))

-- `principal_of`: the empty text counts as none
unfoldable pub principal_of : AuthorizationRow → String
principal_of a = elim a.nc_account_id [
  | none ↦ a.nc_user
  | some id ↦ if is_empty id then a.nc_user else id
]

unfoldable pub same_principal : (received expected : String) → Bool
same_principal received expected =
    if is_empty received || is_empty expected then false else str_eq received expected
