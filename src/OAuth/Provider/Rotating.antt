-- ===== src/OAuth/Provider/Rotating.antt =====
-- What an answered rotation leaves behind (oauth/provider.py, `exchange_refresh_token`).
use nextcloud_mcp_connector.Base.{
  ℕ, String, ◌≡◌, refl, Bool, true, false, ◌||◌, not, Option, none, some, List, [], ◌∷◌, arith,
  Bool-cases, Option-cases, inl, inr,
}
use nextcloud_mcp_connector.Base.Dict.{get}
use nextcloud_mcp_connector.Base.Text.{is_empty, strip, join_words}
use nextcloud_mcp_connector.OAuth.Rows.{Db, AuthorizationRow, RefreshTokenRow}
use nextcloud_mcp_connector.OAuth.Store.Clients.{touch_client}
use nextcloud_mcp_connector.OAuth.Store.Authorizations.{load_authorization}
use nextcloud_mcp_connector.OAuth.Store.Tokens.{
  create_access_token, load_refresh_token, redeem_refresh_token, RefreshRedemption, redeem_ok,
  redeem_reused, redeem_unknown, redeem_expired,
}
use nextcloud_mcp_connector.OAuth.Provider.Policy.{ClientPolicy, get_client}
use nextcloud_mcp_connector.OAuth.Provider.Exchange.{
  OAuthToken, Process, issued, hold, held_answer, inside_grace, issue, answer_rotation,
  answer_redemption, rotate_for, rotate_known, exchange_refresh_token,
}

module _ (token_hash : String → String) (now : ℕ) (p p' : Process) (token : OAuthToken) where
  -- Nothing is held for the presented token, so what is answered was issued now.
  held-none : (digest : String) → get p.held digest ≡ none → held_answer digest now p ≡ (p, none)
  unfolding held_answer
  held-none digest absent = ground (arith, absent)

  -- The parts of an answered rotation.
  pub from_rotation :
      (client_id presented access successor A F scopes resource : String)
      → answer_rotation token_hash client_id presented access successor A F scopes resource now p
        ≡ (p', issued token)
      → (db : Db) × (create_access_token token_hash access A F scopes resource now
            (touch_client client_id now p.db)
          ≡ some db)
        × (p' ≡ hold (token_hash presented) token now (record p { db = db }))
  unfolding answer_rotation issue
  from_rotation client_id presented access successor A F scopes resource e =
      elim (Option-cases (
        create_access_token token_hash access A F scopes resource now
          (touch_client client_id now p.db))) [
            | inl taken ↦ ground (arith, taken)
            | inr (db, created) ↦ (db, created, ground (arith, created))
          ]

  pub from_redemption :
      (client_id presented access successor scopes resource : String) (r : RefreshRedemption)
      → get p.held (token_hash presented) ≡ none
      → answer_redemption token_hash client_id presented access successor scopes resource r now p
        ≡ (p', issued token)
      → (A : String) × (F : String) × (r ≡ redeem_ok A F)
        × (answer_rotation token_hash client_id presented access successor A F scopes resource now p
            ≡ (p', issued token))
  unfolding answer_redemption
  from_redemption client_id presented access successor scopes resource (redeem_ok A F) absent e =
      (A, F, refl, e)
  from_redemption client_id presented access successor scopes resource (redeem_reused A F u s)
        absent e =
      elim (Bool-cases (inside_grace u now)) [
        | inl early ↦ ground (arith, early, held-none (token_hash presented) absent)
        | inr late ↦ ground (arith, late)
      ]
  from_redemption client_id presented access successor scopes resource redeem_unknown absent e =
      ground arith
  from_redemption client_id presented access successor scopes resource (redeem_expired A F) absent
        e =
      ground arith

  module _ (policy : ClientPolicy) (redirect_uris_of : String → Option (List String))
      (audience_ok : String → Bool) (client_id presented access successor : String)
      (scopes : List String) where
    abbrev granted : AuthorizationRow → String
    granted a = elim scopes [ [] ↦ a.scopes | s ∷ ss ↦ join_words (s ∷ ss) ]

    pub from_rotate_for :
        (a : AuthorizationRow)
        → rotate_for token_hash policy redirect_uris_of audience_ok client_id presented access
            successor scopes a now p
          ≡ (p', issued token)
        → (is_empty (strip a.resource) ≡ false)
          × (audience_ok (strip a.resource) ≡ true)
          × ((db : Db) × (r : RefreshRedemption) × (redeem_refresh_token token_hash presented
                  successor now p.db
                ≡ some (db, r))
              × (answer_redemption token_hash client_id presented access successor
                    (granted a)
                    (strip a.resource)
                    r
                    now
                    (record p { db = db })
                  ≡ (p', issued token)))
    unfolding rotate_for
    from_rotate_for a e =
        elim (Bool-cases (is_empty (strip a.resource) || not (audience_ok (strip a.resource)))) [
          | inl refused ↦ ground (arith, refused)
          | inr meant ↦
              elim (Option-cases (redeem_refresh_token token_hash presented successor now p.db)) [
                | inl broke ↦ ground (arith, meant, broke)
                | inr ((db, r), done) ↦ (
                  ground (arith, meant),
                  ground (arith, meant),
                  (db, r, done, ground (arith, meant, done)),
                )
              ]
        ]

    pub from_exchange :
        get_client policy redirect_uris_of client_id now p.db ≡ (p.db, true)
        → exchange_refresh_token token_hash policy redirect_uris_of audience_ok client_id presented
            access successor scopes now p
          ≡ (p', issued token)
        → (t : RefreshTokenRow) × (a : AuthorizationRow) × (load_refresh_token token_hash presented
              p.db
            ≡ some (some t))
          × (load_authorization t.auth_id p.db ≡ some a)
          × (a.revoked_at ≡ none)
          × (rotate_for token_hash policy redirect_uris_of audience_ok client_id presented access
                successor scopes a now p
              ≡ (p', issued token))
    unfolding exchange_refresh_token rotate_known
    from_exchange known e = elim (Option-cases (load_refresh_token token_hash presented p.db)) [
      | inl broke ↦ ground (arith, known, broke)
      | inr (row, read) ↦ elim (Option-cases row) [
        | inl missing ↦ ground (arith, known, read, missing)
        | inr (t, present) ↦ elim (Option-cases (load_authorization t.auth_id p.db)) [
          | inl gone ↦ ground (arith, known, read, present, gone)
          | inr (a, found) ↦ elim (Option-cases a.revoked_at) [
            | inr (at, dead) ↦ ground (arith, known, read, present, found, dead)
            | inl live ↦ (
              t,
              a,
              ground (arith, read, present),
              found,
              live,
              ground (arith, known, read, present, found, live),
            )
          ]
        ]
      ]
    ]
