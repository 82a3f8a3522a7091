-- ===== src/OAuth/Store/Tokens.antt =====
-- oauth/store.py, the access tokens and the refresh tokens with their rotation.
use nextcloud_mcp_connector.Base.{
  ℕ, ◌+◌, String, Bool, ◌&&◌, ◌||◌, not, Option, none, some, List, ◌∷◌, [], ◌++◌, map, str_eq, ltb,
  ◌==◌, is_none, any, count, fetch, select, update, if◌then◌else◌,
}
use nextcloud_mcp_connector.OAuth.Rows.{
  Db, AuthorizationRow, AccessTokenRow, RefreshTokenRow, RefreshState, active, used, revoked,
  unknown, is_active, is_revoked, access_token_ttl, refresh_token_ttl,
}
use nextcloud_mcp_connector.OAuth.Store.Cascade.{has_access, has_authorization, has_refresh}
use nextcloud_mcp_connector.OAuth.Store.Purge.{purge_expired_rows}
use nextcloud_mcp_connector.OAuth.Store.Authorizations.{has_auth_id}

abbrev pub new_refresh_token : (digest auth_id family_id : String) → ℕ → RefreshTokenRow
new_refresh_token digest auth_id family_id moment = record {
  token_hash = digest;
  auth_id = auth_id;
  family_id = family_id;
  state = active;
  successor = none;
  issued_at = moment;
  used_at = none;
  expires_at = moment + refresh_token_ttl;
}

-- `_insert_refresh_token`
unfoldable pub insert_refresh_token : (digest auth_id family_id : String) → ℕ → Db → Option Db
insert_refresh_token digest auth_id family_id moment db =
    if has_refresh db digest || not (has_authorization db auth_id)
    then none
    else some (record db {
      refresh_tokens = db.refresh_tokens ++ new_refresh_token digest auth_id family_id moment ∷ [];
    })

-- REDEEM_OK, REDEEM_UNKNOWN, REDEEM_EXPIRED, REDEEM_REUSED, with the fields each one fills
pub data RefreshRedemption : Type 0 where
  redeem_ok : (auth_id family_id : String) → RefreshRedemption
  redeem_unknown : RefreshRedemption
  redeem_expired : (auth_id family_id : String) → RefreshRedemption
  redeem_reused :
      (auth_id family_id : String) (used_at : Option ℕ) (successor : Option String)
      → RefreshRedemption

-- What the row says of a redemption that changed nothing; `_checked_state` raises on a state
-- that is none of the three.
unfoldable pub refusal_of : RefreshTokenRow → RefreshState → Option RefreshRedemption
refusal_of t active = some (redeem_expired t.auth_id t.family_id)
refusal_of t (unknown text) = none
refusal_of t _ = some (redeem_reused t.auth_id t.family_id t.used_at t.successor)

-- The answer of a transaction that changed no row.
abbrev pub unchanged : Db → Option RefreshRedemption → Option (Db × RefreshRedemption)
unchanged db none = none
unchanged db (some r) = some (db, r)

abbrev pub rotates : String → ℕ → RefreshTokenRow → Bool
rotates digest moment t = str_eq t.token_hash digest && is_active t.state && ltb moment t.expires_at

abbrev pub has_digest : String → RefreshTokenRow → Bool
has_digest digest t = str_eq t.token_hash digest

abbrev pub spend : (successor : String) → ℕ → RefreshTokenRow → RefreshTokenRow
spend successor moment t = record t {
  state = used;
  used_at = some moment;
  successor = some successor;
}

-- An access token that the file calls valid.
abbrev pub is_valid : String → ℕ → AccessTokenRow → Bool
is_valid digest moment t =
    str_eq t.token_hash digest && is_none t.revoked_at && ltb moment t.expires_at

abbrev pub is_live_row : String → AuthorizationRow → Bool
is_live_row auth_id a = has_auth_id auth_id a && is_none a.revoked_at

-- JOIN authorizations AS a ON a.auth_id = t.auth_id … AND a.revoked_at IS NULL
unfoldable pub join_live :
    List AuthorizationRow → List AccessTokenRow → Option (AccessTokenRow × AuthorizationRow)
join_live authorizations [] = none
join_live authorizations (t ∷ ts) = elim (fetch (is_live_row t.auth_id) authorizations) [
  | none ↦ join_live authorizations ts
  | some a ↦ some (t, a)
]

module _ (token_hash : String → String) where
  unfoldable pub create_access_token :
      (token auth_id family_id scopes resource : String) → ℕ → Db → Option Db
  create_access_token token auth_id family_id scopes resource moment db =
      let db' = purge_expired_rows moment db in
      if has_access db' (token_hash token) || not (has_authorization db' auth_id)
      then none
      else some (record db' {
        access_tokens =
            db'.access_tokens
            ++ record {
              token_hash = token_hash token;
              auth_id = auth_id;
              family_id = family_id;
              scopes = scopes;
              resource = resource;
              expires_at = moment + access_token_ttl;
              revoked_at = none;
            }
              ∷ [];
      })

  -- The token with the authorization whose user it acts as.
  unfoldable pub load_access_token : String → ℕ → Db → Option (AccessTokenRow × AuthorizationRow)
  unfolding join_live
  load_access_token token moment db =
      join_live db.authorizations (select (is_valid (token_hash token) moment) db.access_tokens)

  unfoldable pub create_refresh_token : (token auth_id family_id : String) → ℕ → Db → Option Db
  unfolding insert_refresh_token
  create_refresh_token token auth_id family_id moment db =
      insert_refresh_token (token_hash token) auth_id family_id moment
        (purge_expired_rows moment db)

  -- The outer `none` is `_checked_state` raising.
  unfoldable pub load_refresh_token : String → Db → Option (Option RefreshTokenRow)
  load_refresh_token token db = elim (fetch (has_digest (token_hash token)) db.refresh_tokens) [
    | none ↦ some none
    | some t ↦ elim t.state [ unknown text ↦ none | _ ↦ some (some t) ]
  ]

  -- The row of the token after the UPDATE changed no row.
  unfoldable pub read_refusal : String → Db → Option RefreshRedemption
  unfolding refusal_of
  read_refusal token db = elim (fetch (has_digest (token_hash token)) db.refresh_tokens) [
    | none ↦ some redeem_unknown
    | some t ↦ refusal_of t t.state
  ]

  -- The successor is inserted in the transaction of the UPDATE.
  unfoldable pub rotate : (token successor : String) → ℕ → Db → Option (Db × RefreshRedemption)
  unfolding insert_refresh_token
  rotate token successor moment db =
      let tokens =
        update (rotates (token_hash token) moment) (spend (token_hash successor) moment)
          db.refresh_tokens in
      elim (fetch (has_digest (token_hash token)) tokens) [
        | none ↦ none
        | some t ↦
            elim (insert_refresh_token (token_hash successor) t.auth_id t.family_id moment
              (record db { refresh_tokens = tokens })) [
                | none ↦ none
                | some db' ↦ some (db', redeem_ok t.auth_id t.family_id)
              ]
      ]

  unfoldable pub redeem_refresh_token :
      (token successor : String) → ℕ → Db → Option (Db × RefreshRedemption)
  unfolding rotate read_refusal
  redeem_refresh_token token successor moment db =
      if count (rotates (token_hash token) moment) db.refresh_tokens == 1
      then rotate token successor moment db
      else unchanged db (read_refusal token db)

abbrev pub in_family : String → RefreshTokenRow → Bool
in_family family_id t = str_eq t.family_id family_id

unfoldable pub revoke_family : String → ℕ → Db → Db
revoke_family family_id moment db = record db {
  refresh_tokens =
      update (λ t. in_family family_id t && not (is_revoked t.state))
        (λ t. record t { state = revoked }) db.refresh_tokens;
  access_tokens =
      update (λ t. str_eq t.family_id family_id && is_none t.revoked_at)
        (λ t. record t { revoked_at = some moment }) db.access_tokens;
}

-- UNION: each family once
unfoldable pub distinct : List String → List String
distinct [] = []
distinct (f ∷ fs) = if any (λ g. str_eq g f) fs then distinct fs else f ∷ distinct fs

unfoldable pub families_of_authorization : String → Db → List String
unfolding distinct
families_of_authorization auth_id db = distinct (
    map (λ (t : RefreshTokenRow). t.family_id)
      (select (λ t. str_eq t.auth_id auth_id) db.refresh_tokens)
    ++ map (λ (t : AccessTokenRow). t.family_id)
        (select (λ t. str_eq t.auth_id auth_id) db.access_tokens))
