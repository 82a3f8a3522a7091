-- ===== src/OAuth/Store/Oidc.antt =====
-- oauth/store.py, the standalone OIDC browser identity.
use nextcloud_mcp_connector.Base.{
  ℕ, ◌+◌, String, Bool, true, false, ◌&&◌, ◌||◌, not, Option, none, some, ◌∷◌, [], ◌++◌, str_eq,
  ltb, leb, is_none, any, min, count, fetch, delete, if◌then◌else◌,
}
use nextcloud_mcp_connector.Base.Text.{is_blank, is_empty, concat}
use nextcloud_mcp_connector.OAuth.Rows.{
  Db, AuthorizationRow, OidcTransactionRow, OidcProofRow, oidc_ttl, oidc_transactions_per_browser,
}
use nextcloud_mcp_connector.OAuth.Store.Flows.{is_running}
use nextcloud_mcp_connector.OAuth.Store.Authorizations.{has_auth_id}

-- a.revoked_at IS NULL AND a.nc_account_id IS NOT NULL AND a.nc_account_id != ''
abbrev pub names_account : AuthorizationRow → Bool
names_account a = elim a.nc_account_id [ none ↦ false | some id ↦ not (is_empty id) ]

abbrev pub may_sign_in : String → AuthorizationRow → Bool
may_sign_in flow_id a = has_auth_id flow_id a && is_none a.revoked_at && names_account a

-- `_oidc_aad`
abbrev pub oidc_aad : (table field row_key : String) → String
oidc_aad table field row_key =
    concat "oidc_" (concat table (concat ":" (concat field (concat ":" row_key))))

pub record OidcTransaction : Type 0 where
  pub flow_id : String
  pub nonce : String
  pub code_verifier : String
  pub expires_at : ℕ

abbrev pub is_proof : (digest flow_id : String) → ℕ → OidcProofRow → Bool
is_proof digest flow_id moment p =
    str_eq p.proof_hash digest && str_eq p.flow_id flow_id && ltb moment p.expires_at

module _ (token_hash : String → String) where
  module _ (encrypt : String → String → String) where
    -- The body of the transaction, for a store that was opened with the OIDC tables.
    unfoldable pub insert_oidc_transaction :
        (state flow_id browser_handle nonce code_verifier : String) → ℕ → Db → Option (Db × Bool)
    insert_oidc_transaction state flow_id browser_handle nonce code_verifier moment db =
        let digest = token_hash state in
        let browser = token_hash browser_handle in
        let open_rows = delete (λ t. leb t.expires_at moment) db.oidc_transactions in
        let db' = record db { oidc_transactions = open_rows } in
        if leb oidc_transactions_per_browser (count (λ t. str_eq t.browser_hash browser) open_rows)
        then some (db', false)
        else elim (fetch (is_running flow_id moment) db.flows) [
          | none ↦ some (db', false)
          | some f ↦
              if any (may_sign_in flow_id) db.authorizations
              then if any (λ t. str_eq t.state_hash digest) open_rows
                then none
                else some (
                  record db {
                    oidc_transactions =
                        open_rows
                        ++ record {
                          state_hash = digest;
                          flow_id = f.flow_id;
                          browser_hash = browser;
                          nonce_enc = encrypt (oidc_aad "transactions" "nonce" digest) nonce;
                          verifier_enc =
                              encrypt (oidc_aad "transactions" "verifier" digest) code_verifier;
                          created_at = moment;
                          expires_at = min f.expires_at (moment + oidc_ttl);
                        }
                          ∷ [];
                  },
                  true,
                )
              else some (db', false)
        ]

    -- `_require_oidc` raises where the tables are missing.
    unfoldable pub create_oidc_transaction :
        (oidc : Bool) (state flow_id browser_handle nonce code_verifier : String)
        → ℕ
        → Db
        → Option (Db × Bool)
    unfolding insert_oidc_transaction
    create_oidc_transaction oidc state flow_id browser_handle nonce code_verifier moment db =
        if oidc
        then insert_oidc_transaction state flow_id browser_handle nonce code_verifier moment db
        else none

  -- What a found row is worth: every refusal is the same `none`.
  unfoldable pub open_transaction :
      (decrypt : String → String → Option String) (digest browser_handle : String)
      → ℕ
      → OidcTransactionRow
      → Option OidcTransaction
  open_transaction decrypt digest browser_handle moment t =
      if leb t.expires_at moment || not (str_eq t.browser_hash (token_hash browser_handle))
      then none
      else elim (decrypt (oidc_aad "transactions" "nonce" digest) t.nonce_enc) [
        | none ↦ none
        | some nonce ↦ elim (decrypt (oidc_aad "transactions" "verifier" digest) t.verifier_enc) [
          | none ↦ none
          | some verifier ↦ some (record {
            flow_id = t.flow_id;
            nonce = nonce;
            code_verifier = verifier;
            expires_at = t.expires_at;
          })
        ]
      ]

  -- The row goes as soon as its state is known, whatever follows.
  unfoldable pub redeem_oidc_transaction :
      (decrypt : String → String → Option String) (oidc : Bool) (state browser_handle : String)
      → ℕ
      → Db
      → Option (Db × Option OidcTransaction)
  unfolding open_transaction
  redeem_oidc_transaction decrypt oidc state browser_handle moment db =
      if oidc
      then elim (fetch (λ t. str_eq t.state_hash (token_hash state)) db.oidc_transactions) [
        | none ↦ some (db, none)
        | some t ↦ some (
          record db {
            oidc_transactions =
                delete (λ t. str_eq t.state_hash (token_hash state)) db.oidc_transactions;
          },
          open_transaction decrypt (token_hash state) browser_handle moment t,
        )
      ]
      else none

  -- An earlier proof of the flow is replaced.
  unfoldable pub create_browser_proof :
      (oidc : Bool) (proof_handle flow_id principal : String) → ℕ → Db → Option (Db × Bool)
  unfolding is_blank
  create_browser_proof oidc proof_handle flow_id principal moment db =
      let others = delete (λ p. str_eq p.flow_id flow_id) db.oidc_proofs in
      let db' = record db { oidc_proofs = others } in
      if not oidc || is_blank principal
      then none
      else elim (fetch (is_running flow_id moment) db.flows) [
        | none ↦ some (db', false)
        | some f ↦
            if any (λ p. str_eq p.proof_hash (token_hash proof_handle)) others
            then none
            else some (
              record db {
                oidc_proofs =
                    others
                    ++ record {
                      proof_hash = token_hash proof_handle;
                      flow_id = f.flow_id;
                      principal = principal;
                      created_at = moment;
                      expires_at = min f.expires_at (moment + oidc_ttl);
                    }
                      ∷ [];
              },
              true,
            )
      ]

  unfoldable pub browser_proof_principal :
      (oidc : Bool) (proof_handle flow_id : String) → ℕ → Db → Option (Option String)
  browser_proof_principal oidc proof_handle flow_id moment db =
      if oidc
      then elim (fetch (is_proof (token_hash proof_handle) flow_id moment) db.oidc_proofs) [
        | none ↦ some none
        | some p ↦ some (some p.principal)
      ]
      else none

  unfoldable pub redeem_browser_proof :
      (oidc : Bool) (proof_handle flow_id : String) → ℕ → Db → Option (Db × Option String)
  redeem_browser_proof oidc proof_handle flow_id moment db =
      if oidc
      then elim (fetch (is_proof (token_hash proof_handle) flow_id moment) db.oidc_proofs) [
        | none ↦ some (db, none)
        | some p ↦ some (
          record db {
            oidc_proofs =
                delete (λ p. str_eq p.proof_hash (token_hash proof_handle)) db.oidc_proofs;
          },
          some p.principal,
        )
      ]
      else none
