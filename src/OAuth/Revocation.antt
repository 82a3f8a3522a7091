-- ===== src/OAuth/Revocation.antt =====
-- The end of a family and of a connection (oauth/store.py): what still works afterwards.
use nextcloud_mcp_connector.Base.{
  ℕ, String, ◌≡◌, ◌≢◌, refl, subst, ap, ◌∙◌, ◌&&◌, not, none, some, List, [], ◌∷◌, arith, str_eq,
  eq_iff, is_none, update, select, fetch, All, if◌then◌else◌, Option-cases, inl, inr,
}
use nextcloud_mcp_connector.Base.Counting.{fetch-update, All-select-update}
use nextcloud_mcp_connector.OAuth.Rows.{
  Db, AuthorizationRow, AccessTokenRow, RefreshTokenRow, revoked, is_revoked,
}
use nextcloud_mcp_connector.OAuth.Store.Authorizations.{has_auth_id, revoke_authorization}
use nextcloud_mcp_connector.OAuth.Store.Tokens.{
  has_digest, in_family, is_valid, is_live_row, join_live, load_access_token, refusal_of,
  redeem_refresh_token, redeem_reused, revoke_family,
}
use nextcloud_mcp_connector.OAuth.Rotation.{IsLinear, IsLinear-revoke_family}
use nextcloud_mcp_connector.OAuth.Replay.{redeem-refused}

-- What holds of every candidate holds of the token that the join returns.
join_live_sound {κ} :
    (P : AccessTokenRow → Type κ) (authorizations : List AuthorizationRow)
    (tokens : List AccessTokenRow) (t : AccessTokenRow) (a : AuthorizationRow)
    → All P tokens
    → join_live authorizations tokens ≡ some (t, a)
    → P t
unfolding join_live
join_live_sound P authorizations [] t a h e = cc
join_live_sound P authorizations (x ∷ tokens) t a h e =
    elim (Option-cases (fetch (is_live_row x.auth_id) authorizations)) [
      | inl missing ↦ join_live_sound P authorizations tokens t a h.1 (rw (missing, join_live) at e)
      | inr (b, found) ↦ let same : x ≡ t = ground arith in subst P same h.0
    ]

-- The join finds nothing for a token whose authorization has no live row.
pub join_live-dead :
    (authorizations : List AuthorizationRow) (auth_id : String) (tokens : List AccessTokenRow)
    (t : AccessTokenRow) (a : AuthorizationRow)
    → fetch (is_live_row auth_id) authorizations ≡ none
    → join_live authorizations tokens ≡ some (t, a)
    → t.auth_id ≢ auth_id
unfolding join_live
join_live-dead authorizations auth_id [] t a dead e = cc
join_live-dead authorizations auth_id (x ∷ tokens) t a dead e =
    elim (Option-cases (fetch (is_live_row x.auth_id) authorizations)) [
      | inl missing ↦
          join_live-dead authorizations auth_id tokens t a dead (rw (missing, join_live) at e)
      | inr (b, found) ↦ λ same.
          let head : x ≡ t = ground arith in
          let still : fetch (is_live_row auth_id) authorizations ≡ some b =
            subst (λ id. fetch (is_live_row id) authorizations ≡ some b)
              (ap (λ (y : AccessTokenRow). y.auth_id) head ∙ same) found in
          cc
    ]

-- The rows of a revoked family are not valid any more.
not_in_family :
    (family_id digest : String) (moment at : ℕ) (rows : List AccessTokenRow)
    → All
        (λ t. t.family_id ≢ family_id)
        (select (is_valid digest at) (
          update
            (λ t. str_eq t.family_id family_id && is_none t.revoked_at)
            (λ t. record t { revoked_at = some moment })
            rows))
not_in_family family_id digest moment at rows =
    All-select-update (λ t. t.family_id ≢ family_id) (is_valid digest at)
      (λ t. str_eq t.family_id family_id && is_none t.revoked_at)
      (λ t. record t { revoked_at = some moment }) rows
      (λ x h same. ground (arith, eq_iff x.family_id family_id))

module _ (token_hash : String → String) (family_id : String) (moment : ℕ) (db : Db) where
  -- A refresh token that has a row, in a file whose digests are keys, is answered as used once its
  -- family is revoked, at any moment: it is never rotated again, and the file stays as it is.
  pub redeem-revoke_family :
      (token successor : String) (at : ℕ) (t : RefreshTokenRow)
      → IsLinear db.refresh_tokens
      → fetch (has_digest (token_hash token)) db.refresh_tokens ≡ some t
      → t.family_id ≡ family_id
      → redeem_refresh_token token_hash token successor at (revoke_family family_id moment db)
        ≡ some (
          revoke_family family_id moment db,
          redeem_reused t.auth_id t.family_id t.used_at t.successor,
        )
  unfolding refusal_of revoke_family
  redeem-revoke_family token successor at t linear found same =
      let kills = λ (r : RefreshTokenRow). in_family family_id r && not (is_revoked r.state) in
      let kill = λ (r : RefreshTokenRow). record r { state = revoked } in
      let after =
        fetch-update (has_digest (token_hash token)) kills kill db.refresh_tokens t (λ r. refl)
          found in
      redeem-refused token_hash token successor at (revoke_family family_id moment db)
        (if kills t then kill t else t) (IsLinear-revoke_family family_id moment db linear) after
        (ground (arith, eq_iff t.family_id family_id))
      ∙ ground (arith, eq_iff t.family_id family_id)

  -- After a family was revoked, an access token that is still valid is of another family.
  pub load_access_token-revoke_family :
      (token : String) (at : ℕ) (t : AccessTokenRow) (a : AuthorizationRow)
      → load_access_token token_hash token at (revoke_family family_id moment db) ≡ some (t, a)
      → t.family_id ≢ family_id
  unfolding load_access_token revoke_family
  load_access_token-revoke_family token at t a e =
      join_live_sound (λ t. t.family_id ≢ family_id) db.authorizations _ t a
        (not_in_family family_id (token_hash token) moment at db.access_tokens) e

pub dead_after_revocation :
    (auth_id : String) (moment : ℕ) (rows : List AuthorizationRow)
    → fetch (is_live_row auth_id) (
        update
          (λ a. has_auth_id auth_id a && is_none a.revoked_at)
          (λ a. record a { revoked_at = some moment })
          rows)
      ≡ none
dead_after_revocation auth_id moment [] = refl
dead_after_revocation auth_id moment (a ∷ rows) =
    ground (arith, dead_after_revocation auth_id moment rows)

-- After an authorization was revoked, an access token that is still valid belongs to another one,
-- whatever the token's own row says.
pub load_access_token-revoke_authorization :
    (token_hash : String → String) (auth_id : String) (moment : ℕ) (db : Db) (token : String)
    (at : ℕ) (t : AccessTokenRow) (a : AuthorizationRow)
    → load_access_token token_hash token at (revoke_authorization auth_id moment db) ≡ some (t, a)
    → t.auth_id ≢ auth_id
unfolding load_access_token revoke_authorization
load_access_token-revoke_authorization token_hash auth_id moment db token at t a e =
    join_live-dead _ auth_id _ t a (dead_after_revocation auth_id moment db.authorizations) e
