-- ===== src/OAuth/Provider/Reuse.antt =====
-- What a refresh token that is presented again costs (oauth/provider.py, `exchange_refresh_token`).
use nextcloud_mcp_connector.Base.{
  ℕ, ◌<◌, String, ◌≡◌, ◌∙◌, Bool, true, false, Option, none, some, List, [], ◌∷◌, arith, eq_iff,
  fetch, refl, subst, sym, any, update, ◌&&◌, not, str_eq, is_none,
}
use nextcloud_mcp_connector.Base.Dict.{get}
use nextcloud_mcp_connector.Base.Text.{is_empty, strip, join_words}
use nextcloud_mcp_connector.OAuth.Rows.{
  AuthorizationRow, RefreshTokenRow, AccessTokenRow, used, is_revoked,
}
use nextcloud_mcp_connector.OAuth.Store.Authorizations.{
  load_authorization, has_auth_id, revoke_authorization, note_cleanup,
}
use nextcloud_mcp_connector.OAuth.Store.Tokens.{
  has_digest, in_family, revoke_family, load_refresh_token, redeem_refresh_token, redeem_reused,
  refusal_of,
}
use nextcloud_mcp_connector.OAuth.Rotation.{IsLinear}
use nextcloud_mcp_connector.OAuth.Replay.{redeem-refused}
use nextcloud_mcp_connector.OAuth.Provider.Policy.{ClientPolicy, get_client}
use nextcloud_mcp_connector.OAuth.Provider.Exchange.{
  Held, Answer, Process, issued, invalid_grant, held_answer, inside_grace, end_connection_of,
  answer_redemption, rotate_for, rotate_known, exchange_refresh_token,
}

any-update_own {ℓ} :
    {A : Type ℓ} (p : A → Bool) (f : A → A) (rows : List A)
    → ((x : A) → p (f x) ≡ false)
    → any p (update p f rows) ≡ false
any-update_own p f [] h = refl
any-update_own p f (x ∷ rows) h = ground (arith, any-update_own p f rows h, h x)

any-update_other {ℓ} :
    {A : Type ℓ} (p q : A → Bool) (f : A → A) (rows : List A)
    → ((x : A) → p (f x) ≡ p x)
    → any p rows ≡ false
    → any p (update q f rows) ≡ false
any-update_other p q f [] h none_met = refl
any-update_other p q f (x ∷ rows) h none_met =
    ground (arith, any-update_other p q f rows h, h x, none_met)

abbrev is_live_refresh : String → RefreshTokenRow → Bool
is_live_refresh family_id t = in_family family_id t && not (is_revoked t.state)

abbrev is_live_access : String → AccessTokenRow → Bool
is_live_access family_id t = str_eq t.family_id family_id && is_none t.revoked_at

-- Every token row of the family and every row of the authorization is revoked, and both caches of
-- the process are empty.
abbrev pub IsEnded : (auth_id family_id : String) → Process → Type 0
IsEnded auth_id family_id p =
    (any (λ a. has_auth_id auth_id a && is_none a.revoked_at) p.db.authorizations ≡ false)
    × (any (is_live_refresh family_id) p.db.refresh_tokens ≡ false)
    × (any (is_live_access family_id) p.db.access_tokens ≡ false)
    × (p.held ≡ [])
    × (p.cache ≡ [])

IsEnded-end_connection_of :
    (auth_id family_id : String) (now : ℕ) (p : Process)
    → IsEnded auth_id family_id (end_connection_of auth_id (family_id ∷ []) now p)
unfolding end_connection_of note_cleanup revoke_authorization revoke_family
IsEnded-end_connection_of auth_id family_id now p = (
  any-update_other (λ (a : AuthorizationRow). has_auth_id auth_id a && is_none a.revoked_at) _ _ _
      (λ x. refl)
      (any-update_own (λ (a : AuthorizationRow). has_auth_id auth_id a && is_none a.revoked_at) _
        p.db.authorizations (λ x. ground arith)),
  any-update_own (is_live_refresh family_id) _ p.db.refresh_tokens (λ x. ground arith),
  any-update_own (is_live_access family_id) _ p.db.access_tokens (λ x. ground arith),
  refl,
  refl,
)

module _ (token_hash : String → String) (policy : ClientPolicy)
    (redirect_uris_of : String → Option (List String)) (audience_ok : String → Bool)
    (client_id presented access successor : String) (scopes : List String) (now : ℕ) (p : Process)
    (t : RefreshTokenRow) (a : AuthorizationRow)
    (known : get_client policy redirect_uris_of client_id now p.db ≡ (p.db, true))
    (linear : IsLinear p.db.refresh_tokens)
    (found : fetch (has_digest (token_hash presented)) p.db.refresh_tokens ≡ some t)
    (spent : t.state ≡ used) (connection : load_authorization t.auth_id p.db ≡ some a)
    (live : a.revoked_at ≡ none) (audience : is_empty (strip a.resource) ≡ false)
    (ours : audience_ok (strip a.resource) ≡ true) where
  redeem-spent :
      redeem_refresh_token token_hash presented successor now p.db
      ≡ some (p.db, redeem_reused t.auth_id t.family_id t.used_at t.successor)
  unfolding refusal_of
  redeem-spent =
      redeem-refused token_hash presented successor now p.db t linear found (ground arith)
      ∙ ground arith

  behind_the_check :
      exchange_refresh_token token_hash policy redirect_uris_of audience_ok client_id presented
        access successor scopes now p
      ≡ rotate_known token_hash policy redirect_uris_of audience_ok client_id presented access
          successor scopes now p
  unfolding exchange_refresh_token
  behind_the_check = simp known

  loads : load_refresh_token token_hash presented p.db ≡ some (some t)
  unfolding load_refresh_token
  loads = ground arith

  reaches_rotate_for :
      rotate_known token_hash policy redirect_uris_of audience_ok client_id presented access
        successor scopes now p
      ≡ rotate_for token_hash policy redirect_uris_of audience_ok client_id presented access
          successor scopes a now p
  unfolding rotate_known
  reaches_rotate_for = ground (arith, loads, connection, live)

  asks_the_store :
      rotate_for token_hash policy redirect_uris_of audience_ok client_id presented access successor
        scopes a now p
      ≡ answer_redemption token_hash client_id presented access successor
          (elim scopes [ [] ↦ a.scopes | s ∷ ss ↦ join_words (s ∷ ss) ])
          (strip a.resource)
          (redeem_reused t.auth_id t.family_id t.used_at t.successor)
          now
          p
  unfolding rotate_for
  asks_the_store = simp (audience, ours, redeem-spent)

  answers_spent :
      exchange_refresh_token token_hash policy redirect_uris_of audience_ok client_id presented
        access successor scopes now p
      ≡ answer_redemption token_hash client_id presented access successor
          (elim scopes [ [] ↦ a.scopes | s ∷ ss ↦ join_words (s ∷ ss) ])
          (strip a.resource)
          (redeem_reused t.auth_id t.family_id t.used_at t.successor)
          now
          p
  answers_spent = behind_the_check ∙ reaches_rotate_for ∙ asks_the_store

  answers_late :
      inside_grace t.used_at now ≡ false
      → exchange_refresh_token token_hash policy redirect_uris_of audience_ok client_id presented
          access successor scopes now p
        ≡ (end_connection_of t.auth_id (t.family_id ∷ []) now p, invalid_grant)
  unfolding answer_redemption
  answers_late late = answers_spent ∙ simp late

  -- A spent refresh token that is presented outside the grace window, by an admitted client of a
  -- live connection of this server's audience, in a file whose digests are keys, is answered
  -- invalid_grant; then every token row of its family and every row of its authorization is revoked,
  -- and both caches of the process are empty.
  pub exchange-replay :
      inside_grace t.used_at now ≡ false
      → let result =
          exchange_refresh_token token_hash policy redirect_uris_of audience_ok client_id presented
            access successor scopes now p in
        (result.1 ≡ invalid_grant) × IsEnded t.auth_id t.family_id result.0
  exchange-replay late =
      subst (λ (r : Process × Answer). (r.1 ≡ invalid_grant) × IsEnded t.auth_id t.family_id r.0)
        (sym (answers_late late)) (refl, IsEnded-end_connection_of t.auth_id t.family_id now p)

  -- A spent refresh token that is presented again inside the grace window, by an admitted client of
  -- a live connection of this server's audience, gets the answer that is held for it, and nothing
  -- changes: no second pair is issued and no family is revoked.
  pub exchange-retry :
      (entry : Held)
      → inside_grace t.used_at now ≡ true
      → get p.held (token_hash presented) ≡ some entry
      → entry.digest ≡ token_hash presented
      → now < entry.expires_at
      → exchange_refresh_token token_hash policy redirect_uris_of audience_ok client_id presented
          access successor scopes now p
        ≡ (p, issued entry.answer)
  unfolding answer_redemption held_answer
  exchange-retry entry early held same fresh =
      answers_spent ∙ ground (arith, early, held, eq_iff entry.digest (token_hash presented))

  -- Inside the grace window a process that holds no answer for the spent token refuses the request
  -- and leaves the family alone.
  pub exchange-lost_retry :
      inside_grace t.used_at now ≡ true
      → get p.held (token_hash presented) ≡ none
      → exchange_refresh_token token_hash policy redirect_uris_of audience_ok client_id presented
          access successor scopes now p
        ≡ (p, invalid_grant)
  unfolding answer_redemption held_answer
  exchange-lost_retry early held = answers_spent ∙ ground (arith, early, held)
