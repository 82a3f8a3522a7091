-- ===== src/OAuth/Provider/Ending.antt =====
-- The end of a connection (oauth/provider.py, `end_connection` and `_end_connection`).
use nextcloud_mcp_connector.Base.{
  ℕ, String, ◌≡◌, ◌≢◌, ◌⊎◌, refl, Bool, true, false, ◌||◌, not, Option, none, some, List, [], ◌∷◌,
  arith, is_some, fetch, update, Bool-cases, Option-cases, inl, inr,
}
use nextcloud_mcp_connector.Base.Text.{is_empty}
use nextcloud_mcp_connector.OAuth.Rows.{Db, AuthorizationRow, AccessTokenRow}
use nextcloud_mcp_connector.OAuth.Store.Authorizations.{
  load_authorization, revoke_authorization, note_cleanup, clear_cleanup, app_password, principal_of,
  same_principal,
}
use nextcloud_mcp_connector.OAuth.Store.Tokens.{
  is_live_row, load_access_token, families_of_authorization,
}
use nextcloud_mcp_connector.OAuth.Revocation.{dead_after_revocation, join_live-dead}
use nextcloud_mcp_connector.OAuth.Provider.Exchange.{
  Process, revoke_families, end_connection_of, hand_back, end_connection,
}

-- A change that leaves the test of each row alone brings no row back.
fetch-update_of_none {ℓ} :
    {A : Type ℓ} (p q : A → Bool) (f : A → A) (rows : List A)
    → ((x : A) → p (f x) ≡ p x)
    → fetch p rows ≡ none
    → fetch p (update q f rows) ≡ none
fetch-update_of_none p q f [] keeps h = refl
fetch-update_of_none p q f (x ∷ rows) keeps h =
    ground (arith, keeps x, fetch-update_of_none p q f rows keeps)

-- The authorization is not live any more.
abbrev pub IsDead : String → Db → Type 0
IsDead auth_id db = fetch (is_live_row auth_id) db.authorizations ≡ none

IsDead-end_connection_of :
    (auth_id : String) (families : List String) (now : ℕ) (p : Process)
    → IsDead auth_id (end_connection_of auth_id families now p).db
unfolding end_connection_of note_cleanup revoke_authorization
IsDead-end_connection_of auth_id families now p =
    fetch-update_of_none (is_live_row auth_id) _ _ _ (λ x. refl)
      (dead_after_revocation auth_id now (revoke_families families now p.db).authorizations)

module _ (decrypt : String → String → Option String) (deleted : Bool) where
  -- Handing the app password back clears the note at most.
  hand_back-cases :
      (auth_id : String) (p : Process)
      → (hand_back decrypt deleted auth_id p ≡ p)
        ⊎ (hand_back decrypt deleted auth_id p ≡ record p { db = clear_cleanup auth_id p.db })
  unfolding hand_back
  hand_back-cases auth_id p = elim (Option-cases (load_authorization auth_id p.db)) [
    | inl missing ↦ inl (ground (arith, missing))
    | inr (a, found) ↦ elim (Option-cases (app_password decrypt auth_id p.db)) [
      | inl refused ↦ inl (ground (arith, found, refused))
      | inr (secret, opened) ↦ elim (Option-cases secret) [
        | inl absent ↦ inl (ground (arith, found, opened, absent))
        | inr (password, present) ↦ elim (Bool-cases (is_empty password || not deleted)) [
          | inl keeps ↦ inl (ground (arith, found, opened, present, keeps))
          | inr gone ↦ inr (ground (arith, found, opened, present, gone))
        ]
      ]
    ]
  ]

  IsDead-hand_back :
      (auth_id : String) (p : Process)
      → IsDead auth_id p.db
      → IsDead auth_id (hand_back decrypt deleted auth_id p).db
  unfolding clear_cleanup
  IsDead-hand_back auth_id p dead = elim (hand_back-cases auth_id p) [
    | inl same ↦ rw same dead
    | inr cleared ↦ rw cleared (fetch-update_of_none (is_live_row auth_id) _ _ _ (λ x. refl) dead)
  ]

  caches-hand_back :
      (auth_id : String) (p : Process)
      → ((hand_back decrypt deleted auth_id p).cache ≡ p.cache)
        × ((hand_back decrypt deleted auth_id p).held ≡ p.held)
  caches-hand_back auth_id p = elim (hand_back-cases auth_id p) [
    | inl same ↦ (rw same refl, rw same refl)
    | inr cleared ↦ (rw cleared refl, rw cleared refl)
  ]

  module _ (nc_user auth_id : String) (now : ℕ) (p p' : Process) where
    -- Where the account page is answered that nothing ended, nothing changed: no row and no cache.
    pub end_connection-refused :
        end_connection decrypt deleted nc_user auth_id now p ≡ (p', false) → p' ≡ p
    unfolding end_connection
    end_connection-refused e = elim (Option-cases (load_authorization auth_id p.db)) [
      | inl missing ↦ ground (arith, missing)
      | inr (a, found) ↦
          elim (Bool-cases
            (is_some a.revoked_at || not (same_principal nc_user (principal_of a)))) [
              | inl refused ↦ ground (arith, found, refused)
              | inr meant ↦ ground (arith, found, meant)
            ]
    ]

    ended_process :
        end_connection decrypt deleted nc_user auth_id now p ≡ (p', true)
        → ((a : AuthorizationRow) × (load_authorization auth_id p.db ≡ some a)
            × (same_principal nc_user (principal_of a) ≡ true)
            × (a.revoked_at ≡ none))
          × (p'
              ≡ hand_back decrypt deleted auth_id
                  (end_connection_of auth_id (families_of_authorization auth_id p.db) now p))
    unfolding end_connection
    ended_process e = elim (Option-cases (load_authorization auth_id p.db)) [
      | inl missing ↦ ground (arith, missing)
      | inr (a, found) ↦
          elim (Bool-cases
            (is_some a.revoked_at || not (same_principal nc_user (principal_of a)))) [
              | inl refused ↦ ground (arith, found, refused)
              | inr meant ↦ (
                (a, found, ground (arith, meant), ground (arith, meant)),
                ground (arith, found, meant),
              )
            ]
    ]

    -- After the end of a connection no access token of it is valid, at any later moment, whatever
    -- its own row says and whether or not the app password could be handed back.
    pub load_access_token-end_connection :
        (token_hash : String → String) (token : String) (at : ℕ) (t : AccessTokenRow)
        (a : AuthorizationRow)
        → end_connection decrypt deleted nc_user auth_id now p ≡ (p', true)
        → load_access_token token_hash token at p'.db ≡ some (t, a)
        → t.auth_id ≢ auth_id
    unfolding load_access_token end_connection_of
    load_access_token-end_connection token_hash token at t a ended loaded =
        let (_, after) = ended_process ended in
        let ending = end_connection_of auth_id (families_of_authorization auth_id p.db) now p in
        let dead : IsDead auth_id p'.db = rw after (
          IsDead-hand_back auth_id ending
            (IsDead-end_connection_of auth_id (families_of_authorization auth_id p.db) now p)) in
        join_live-dead p'.db.authorizations auth_id _ t a dead loaded

    -- Only the live connection of the account that asks is ended, and both caches of the process
    -- are empty when the answer is given.
    pub end_connection-ended :
        end_connection decrypt deleted nc_user auth_id now p ≡ (p', true)
        → ((a : AuthorizationRow) × (load_authorization auth_id p.db ≡ some a)
            × (same_principal nc_user (principal_of a) ≡ true)
            × (a.revoked_at ≡ none))
          × (p'.held ≡ [])
          × (p'.cache ≡ [])
    unfolding end_connection_of
    end_connection-ended ended =
        let (owned, after) = ended_process ended in
        let ending = end_connection_of auth_id (families_of_authorization auth_id p.db) now p in
        let (cache, held) = caches-hand_back auth_id ending in
        (owned, rw after held, rw after cache)
