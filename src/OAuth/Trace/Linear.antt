-- ===== src/OAuth/Trace/Linear.antt =====
-- No family of refresh tokens ever has a second active token.
use nextcloud_mcp_connector.Base.{
  ℕ, String, ◌≡◌, ◌⊎◌, refl, ◌∙◌, Bool, true, false, Option, some, any, delete, List, [], ◌∷◌,
  arith, Option-cases, inl, inr,
}
use nextcloud_mcp_connector.OAuth.Rows.{Db, ClientRow, RefreshTokenRow}
use nextcloud_mcp_connector.OAuth.Store.Cascade.{
  delete_clients, delete_authorizations, delete_flows,
}
use nextcloud_mcp_connector.OAuth.Store.Purge.{purge_expired_rows}
use nextcloud_mcp_connector.OAuth.Store.Clients.{save_client, touch_client, delete_client}
use nextcloud_mcp_connector.OAuth.Store.Flows.{
  FlowRequest, create_flow, delete_flow, redeem_flow, spend_flow,
}
use nextcloud_mcp_connector.OAuth.Store.Authorizations.{
  Connection, create_authorization, delete_authorization, revoke_authorization, note_cleanup,
  clear_cleanup,
}
use nextcloud_mcp_connector.OAuth.Store.Access.{set_access}
use nextcloud_mcp_connector.OAuth.Store.Codes.{
  CodeBinding, insert_code, create_auth_code, redeem_flow_for_code, redeem_auth_code,
}
use nextcloud_mcp_connector.OAuth.Store.Tokens.{
  create_access_token, create_refresh_token, in_family,
}
use nextcloud_mcp_connector.OAuth.Store.Housekeeping.{purge_expired, wipe_all}
use nextcloud_mcp_connector.OAuth.Store.Oidc.{
  create_oidc_transaction, redeem_oidc_transaction, create_browser_proof, redeem_browser_proof,
  OidcTransaction,
}
use nextcloud_mcp_connector.OAuth.Rotation.{
  IsLinear, IsLinear-nil, IsLinear-delete, IsLinear-insert, IsLinear-redeem_refresh_token,
  IsLinear-revoke_family,
}
use nextcloud_mcp_connector.OAuth.Trace.{
  Step, saved, touched, client_deleted, flow_created, flow_deleted, flow_redeemed, authorized,
  authorization_deleted, authorization_revoked, noted, cleared, switched, code_created,
  flow_claimed, code_redeemed, access_created, opened, rotated, family_revoked, purged, wiped,
  sign_in_created, sign_in_redeemed, proof_created, proof_redeemed, Reach, here, next,
}

-- The invariant of a file.
abbrev pub IsLinearDb : Db → Type 0
IsLinearDb db = IsLinear db.refresh_tokens

any-delete :
    (p q : RefreshTokenRow → Bool) (rows : List RefreshTokenRow)
    → any p rows ≡ false
    → any p (delete q rows) ≡ false
any-delete p q [] h = refl
any-delete p q (t ∷ rows) h = ground (arith, any-delete p q rows)

IsLinear-delete_clients :
    (p : ClientRow → Bool) (db : Db) → IsLinearDb db → IsLinearDb (delete_clients p db)
unfolding delete_clients delete_authorizations delete_flows
IsLinear-delete_clients p db h = IsLinear-delete _ db.refresh_tokens h

IsLinear-purge : (moment : ℕ) (db : Db) → IsLinearDb db → IsLinearDb (purge_expired_rows moment db)
unfolding purge_expired_rows
IsLinear-purge moment db h = IsLinear-delete _ db.refresh_tokens h

IsLinear-purge_expired :
    (oidc : Bool) (moment : ℕ) (db : Db) → IsLinearDb db → IsLinearDb (purge_expired oidc moment db)
unfolding purge_expired
IsLinear-purge_expired true moment db h =
    IsLinear-delete_clients _ _ (IsLinear-delete_clients _ _ (IsLinear-purge moment db h))
IsLinear-purge_expired false moment db h =
    IsLinear-delete_clients _ _ (IsLinear-delete_clients _ _ (IsLinear-purge moment db h))

fresh_after_purge :
    (moment : ℕ) (db : Db) (family : String)
    → any (in_family family) db.refresh_tokens ≡ false
    → any (in_family family) (purge_expired_rows moment db).refresh_tokens ≡ false
unfolding purge_expired_rows
fresh_after_purge moment db family h = any-delete (in_family family) _ db.refresh_tokens h

-- A step that leaves the table alone, but for the rows that have run out.
after_purge :
    (moment : ℕ) (db db' : Db)
    → IsLinearDb db
    → db'.refresh_tokens ≡ (purge_expired_rows moment db).refresh_tokens
    → IsLinearDb db'
after_purge moment db db' h e = rw e (IsLinear-purge moment db h)

untouched : (db db' : Db) → IsLinearDb db → db'.refresh_tokens ≡ db.refresh_tokens → IsLinearDb db'
untouched db db' h e = rw e h

module _ (token_hash : String → String) (encrypt : String → String → String)
    (decrypt : String → String → Option String) (oidc : Bool) where
  kept_by_create_flow :
      (id poll_token : String) (r : FlowRequest) (moment : ℕ) (db db' : Db)
      → create_flow encrypt id poll_token r moment db ≡ some db'
      → db'.refresh_tokens ≡ (purge_expired_rows moment db).refresh_tokens
  unfolding create_flow
  kept_by_create_flow id poll_token r moment db db' e = ground arith

  kept_by_authorize :
      (id password : String) (c : Connection) (moment : ℕ) (db db' : Db)
      → create_authorization encrypt id password c moment db ≡ some db'
      → db'.refresh_tokens ≡ db.refresh_tokens
  unfolding create_authorization
  kept_by_authorize id password c moment db db' e = ground arith

  kept_by_switch :
      (nc_user : String) (disabled : Bool) (moment : ℕ) (db db' : Db)
      → set_access nc_user disabled moment db ≡ some db'
      → db'.refresh_tokens ≡ db.refresh_tokens
  unfolding set_access
  kept_by_switch nc_user disabled moment db db' e = ground arith

  kept_by_insert_code :
      (digest id : String) (b : CodeBinding) (moment : ℕ) (db db' : Db)
      → insert_code digest id b moment db ≡ some db'
      → db'.refresh_tokens ≡ db.refresh_tokens
  unfolding insert_code
  kept_by_insert_code digest id b moment db db' e = ground arith

  refresh-spend_flow :
      (id : String) (moment : ℕ) (db : Db)
      → (purge_expired_rows moment (spend_flow id moment db).0).refresh_tokens
        ≡ (purge_expired_rows moment db).refresh_tokens
  unfolding purge_expired_rows spend_flow
  refresh-spend_flow id moment db = refl

  -- A lost claim writes nothing there, and a claim that won purges and adds a code.
  kept_by_claim :
      (id code : String) (b : CodeBinding) (moment : ℕ) (db db' : Db) (won : Bool)
      → redeem_flow_for_code token_hash id code b moment db ≡ some (db', won)
      → (db'.refresh_tokens ≡ (spend_flow id moment db).0.refresh_tokens)
        ⊎ (db'.refresh_tokens
            ≡ (purge_expired_rows moment (spend_flow id moment db).0).refresh_tokens)
  unfolding redeem_flow_for_code
  kept_by_claim id code b moment db db' won e =
      let start = purge_expired_rows moment (spend_flow id moment db).0 in
      elim (Option-cases (insert_code (token_hash code) id b moment start)) [
        | inl failed ↦ ground arith
        | inr (db'', inserted) ↦
            ground (arith, kept_by_insert_code (token_hash code) id b moment start db'' inserted)
      ]

  kept_by_access :
      (token id family scopes resource : String) (moment : ℕ) (db db' : Db)
      → create_access_token token_hash token id family scopes resource moment db ≡ some db'
      → db'.refresh_tokens ≡ (purge_expired_rows moment db).refresh_tokens
  unfolding create_access_token
  kept_by_access token id family scopes resource moment db db' e = ground arith

  kept_by_sign_in :
      (state flow_id browser nonce verifier : String) (moment : ℕ) (db db' : Db) (stored : Bool)
      → create_oidc_transaction token_hash encrypt oidc state flow_id browser nonce verifier moment
          db
        ≡ some (db', stored)
      → db'.refresh_tokens ≡ db.refresh_tokens
  unfolding create_oidc_transaction
  kept_by_sign_in state flow_id browser nonce verifier moment db db' stored e = ground arith

  kept_by_redeemed_sign_in :
      (state browser : String) (moment : ℕ) (db db' : Db) (found : Option OidcTransaction)
      → redeem_oidc_transaction token_hash decrypt oidc state browser moment db ≡ some (db', found)
      → db'.refresh_tokens ≡ db.refresh_tokens
  unfolding redeem_oidc_transaction
  kept_by_redeemed_sign_in state browser moment db db' found e = ground arith

  kept_by_proof :
      (proof flow_id principal : String) (moment : ℕ) (db db' : Db) (stored : Bool)
      → create_browser_proof token_hash oidc proof flow_id principal moment db ≡ some (db', stored)
      → db'.refresh_tokens ≡ db.refresh_tokens
  unfolding create_browser_proof
  kept_by_proof proof flow_id principal moment db db' stored e = ground arith

  kept_by_redeemed_proof :
      (proof flow_id : String) (moment : ℕ) (db db' : Db) (found : Option String)
      → redeem_browser_proof token_hash oidc proof flow_id moment db ≡ some (db', found)
      → db'.refresh_tokens ≡ db.refresh_tokens
  unfolding redeem_browser_proof
  kept_by_redeemed_proof proof flow_id moment db db' found e = ground arith

  claimed :
      (id code : String) (b : CodeBinding) (moment : ℕ) (db db' : Db) (won : Bool)
      → redeem_flow_for_code token_hash id code b moment db ≡ some (db', won)
      → IsLinearDb db
      → IsLinearDb db'
  unfolding spend_flow delete_flows
  claimed id code b moment db db' won e h = elim (kept_by_claim id code b moment db db' won e) [
    | inl lost ↦ untouched db db' h lost
    | inr spent ↦ after_purge moment db db' h (spent ∙ refresh-spend_flow id moment db)
  ]

  -- Each step keeps the invariant.
  pub Step-IsLinearDb :
      {db db' : Db} → Step token_hash encrypt decrypt oidc db db' → IsLinearDb db → IsLinearDb db'
  unfolding save_client touch_client delete_client delete_flow delete_flows redeem_flow spend_flow
      delete_authorization delete_authorizations revoke_authorization note_cleanup clear_cleanup
      redeem_auth_code create_auth_code create_refresh_token wipe_all
  Step-IsLinearDb {db} (saved id metadata secret allowed fetched expires moment) h = ground arith
  Step-IsLinearDb (touched id moment) h = h
  Step-IsLinearDb {db} (client_deleted id) h = IsLinear-delete_clients _ db h
  Step-IsLinearDb {db} {db'} (flow_created id p r moment e) h =
      after_purge moment db db' h (kept_by_create_flow id p r moment db db' e)
  Step-IsLinearDb (flow_deleted id) h = h
  Step-IsLinearDb (flow_redeemed id moment) h = h
  Step-IsLinearDb {db} {db'} (authorized id p c moment e) h =
      untouched db db' h (kept_by_authorize id p c moment db db' e)
  Step-IsLinearDb {db} (authorization_deleted id) h = IsLinear-delete _ db.refresh_tokens h
  Step-IsLinearDb (authorization_revoked id moment) h = h
  Step-IsLinearDb (noted id moment) h = h
  Step-IsLinearDb (cleared id) h = h
  Step-IsLinearDb {db} {db'} (switched u d moment e) h =
      untouched db db' h (kept_by_switch u d moment db db' e)
  Step-IsLinearDb {db} {db'} (code_created code id b moment e) h =
      after_purge moment db db' h
        (kept_by_insert_code (token_hash code) id b moment (purge_expired_rows moment db) db' e)
  Step-IsLinearDb {db} {db'} (flow_claimed id code b moment {won} e) h =
      claimed id code b moment db db' won e h
  Step-IsLinearDb {db} (code_redeemed code moment) h = ground arith
  Step-IsLinearDb {db} {db'} (access_created t id f sc r moment e) h =
      after_purge moment db db' h (kept_by_access t id f sc r moment db db' e)
  Step-IsLinearDb {db} {db'} (opened token id family moment fresh e) h =
      IsLinear-insert (token_hash token) id family moment (purge_expired_rows moment db) db'
        (IsLinear-purge moment db h) (fresh_after_purge moment db family fresh) e
  Step-IsLinearDb {db} {db'} (rotated token successor moment {r} e) h =
      IsLinear-redeem_refresh_token token_hash token successor moment db db' r h e
  Step-IsLinearDb {db} (family_revoked family moment) h = IsLinear-revoke_family family moment db h
  Step-IsLinearDb {db} (purged moment) h = IsLinear-purge_expired oidc moment db h
  Step-IsLinearDb wiped h = IsLinear-nil
  Step-IsLinearDb {db} {db'} (sign_in_created s f b n v moment {stored} e) h =
      untouched db db' h (kept_by_sign_in s f b n v moment db db' stored e)
  Step-IsLinearDb {db} {db'} (sign_in_redeemed s b moment {found} e) h =
      untouched db db' h (kept_by_redeemed_sign_in s b moment db db' found e)
  Step-IsLinearDb {db} {db'} (proof_created p f principal moment {stored} e) h =
      untouched db db' h (kept_by_proof p f principal moment db db' stored e)
  Step-IsLinearDb {db} {db'} (proof_redeemed p f moment {found} e) h =
      untouched db db' h (kept_by_redeemed_proof p f moment db db' found e)

  -- From a file in which no digest has two refresh-token rows and no family has two active tokens,
  -- every sequence of store transactions leads to such a file, as long as a new family is opened
  -- under an id that no row has.
  pub Reach-IsLinearDb :
      {start db : Db}
      → Reach token_hash encrypt decrypt oidc start db
      → IsLinearDb start
      → IsLinearDb db
  Reach-IsLinearDb here h = h
  Reach-IsLinearDb (next r step) h = Step-IsLinearDb step (Reach-IsLinearDb r h)
