-- ===== src/OAuth/Provider/Retry.antt =====
-- A rotation and the retry of it (oauth/provider.py, `exchange_refresh_token`).
use nextcloud_mcp_connector.Base.{
  ℕ, ◌+◌, ◌≤◌, ◌<◌, String, ◌≡◌, refl, sym, ap, subst, ◌∙◌, Bool, true, false, Option, none, some,
  List, [], ◌∷◌, arith, eq_refl, leb, fetch, delete, update, Bool-cases, Option-cases, inl, inr,
}
use nextcloud_mcp_connector.Base.Dict.{get, get-put}
use nextcloud_mcp_connector.Base.Text.{is_empty, strip}
use nextcloud_mcp_connector.OAuth.Rows.{Db, AuthorizationRow, RefreshTokenRow, rotation_grace}
use nextcloud_mcp_connector.OAuth.Store.Clients.{touch_client}
use nextcloud_mcp_connector.OAuth.Store.Cascade.{delete_flows}
use nextcloud_mcp_connector.OAuth.Store.Purge.{purge_expired_rows}
use nextcloud_mcp_connector.OAuth.Store.Authorizations.{load_authorization}
use nextcloud_mcp_connector.OAuth.Store.Tokens.{
  has_digest, rotates, spend, rotate, read_refusal, insert_refresh_token, create_access_token,
  load_refresh_token, redeem_refresh_token, RefreshRedemption, redeem_ok,
}
use nextcloud_mcp_connector.OAuth.Rotation.{
  IsLinear, IsLinear-delete, IsLinear-redeem_refresh_token,
}
use nextcloud_mcp_connector.OAuth.Replay.{redeem-refused, refusal-ne-ok, spent_row}
use nextcloud_mcp_connector.OAuth.Provider.Policy.{ClientPolicy, get_client}
use nextcloud_mcp_connector.OAuth.Provider.Exchange.{
  OAuthToken, Held, Process, issued, hold, inside_grace, exchange_refresh_token,
}
use nextcloud_mcp_connector.OAuth.Provider.Rotating.{
  from_exchange, from_rotate_for, from_redemption, from_rotation,
}
use nextcloud_mcp_connector.OAuth.Provider.Reuse.{exchange-retry}

-- A row that a DELETE does not name is found after it.
fetch-delete {ℓ} :
    {A : Type ℓ} (p q : A → Bool) (rows : List A) (t : A)
    → fetch p rows ≡ some t
    → q t ≡ false
    → fetch p (delete q rows) ≡ some t
fetch-delete p q [] t found kept = cc
fetch-delete p q (x ∷ rows) t found kept = elim (Bool-cases (p x)) [
  | inl hit ↦ let same : x ≡ t = ground arith in ground (arith, hit, same, ap q same)
  | inr miss ↦ ground (arith, miss, fetch-delete p q rows t)
]

created_rows :
    (token_hash : String → String) (access A F scopes resource client_id : String) (now : ℕ)
    (db db' : Db)
    → create_access_token token_hash access A F scopes resource now (touch_client client_id now db)
      ≡ some db'
    → (db'.refresh_tokens ≡ delete (λ t. leb t.expires_at now) db.refresh_tokens)
      × (db'.authorizations ≡ db.authorizations)
unfolding create_access_token touch_client purge_expired_rows delete_flows
created_rows token_hash access A F scopes resource client_id now db db' e =
    (ground arith, ground arith)

authorizations-rotate :
    (token_hash : String → String) (token successor : String) (moment : ℕ) (db db' : Db)
    (r : RefreshRedemption)
    → rotate token_hash token successor moment db ≡ some (db', r)
    → db'.authorizations ≡ db.authorizations
unfolding rotate insert_refresh_token
authorizations-rotate token_hash token successor moment db db' r e =
    elim (Option-cases (
      fetch (has_digest (token_hash token)) (
        update (rotates (token_hash token) moment) (spend (token_hash successor) moment)
          db.refresh_tokens))) [
            | inl missing ↦ ground (arith, missing)
            | inr (t, found) ↦ ground (arith, found)
          ]

authorizations-redeem :
    (token_hash : String → String) (token successor : String) (moment : ℕ) (db db' : Db)
    (r : RefreshRedemption)
    → redeem_refresh_token token_hash token successor moment db ≡ some (db', r)
    → db'.authorizations ≡ db.authorizations
unfolding redeem_refresh_token
authorizations-redeem token_hash token successor moment db db' r e =
    elim (Option-cases (read_refusal token_hash token db)) [
      | inl broke ↦
          ground (arith, broke, authorizations-rotate token_hash token successor moment db db' r)
      | inr (s, told) ↦
          ground (arith, told, authorizations-rotate token_hash token successor moment db db' r)
    ]

loaded_row :
    (token_hash : String → String) (token : String) (db : Db) (t : RefreshTokenRow)
    → load_refresh_token token_hash token db ≡ some (some t)
    → fetch (has_digest (token_hash token)) db.refresh_tokens ≡ some t
unfolding load_refresh_token
loaded_row token_hash token db t e = ground arith

get-hold :
    (digest : String) (token : OAuthToken) (now : ℕ) (p : Process)
    → get (hold digest token now p).held digest
      ≡ some (record { digest = digest; answer = token; expires_at = now + rotation_grace })
unfolding hold
get-hold digest token now p =
    let entry : Held = record {
      digest = digest;
      answer = token;
      expires_at = now + rotation_grace;
    } in
    ground
      (arith, get-put [] digest digest entry, get-put p.held digest digest entry, eq_refl digest)

-- The rotation that is found in a redemption that went through.
rotated_once :
    (token_hash : String → String) (token successor : String) (moment : ℕ) (db db' : Db)
    (A F : String) (t : RefreshTokenRow)
    → IsLinear db.refresh_tokens
    → fetch (has_digest (token_hash token)) db.refresh_tokens ≡ some t
    → redeem_refresh_token token_hash token successor moment db ≡ some (db', redeem_ok A F)
    → (fetch (has_digest (token_hash token)) db'.refresh_tokens
        ≡ some (spend (token_hash successor) moment t))
      × (leb t.expires_at moment ≡ false)
rotated_once token_hash token successor moment db db' A F t linear found e =
    elim (Bool-cases (rotates (token_hash token) moment t)) [
      | inl turns ↦ (
        (spent_row token_hash token successor moment db db' A F linear e t found turns).0,
        ground (arith, turns),
      )
      | inr still ↦ absurd (
          refusal-ne-ok t t.state db db' A F
            (sym (redeem-refused token_hash token successor moment db t linear found still) ∙ e))
    ]

-- What a process is that has just rotated a token and holds the answer.
record HasRotated (token_hash : String → String) (audience_ok : String → Bool)
    (presented successor : String) (now : ℕ) (token : OAuthToken) (p : Process)
    (t : RefreshTokenRow) (a : AuthorizationRow) : Type 0 where
  linear : IsLinear p.db.refresh_tokens
  found :
      fetch (has_digest (token_hash presented)) p.db.refresh_tokens
      ≡ some (spend (token_hash successor) now t)
  connection : load_authorization t.auth_id p.db ≡ some a
  live : a.revoked_at ≡ none
  audience : is_empty (strip a.resource) ≡ false
  ours : audience_ok (strip a.resource) ≡ true
  held :
      get p.held (token_hash presented)
      ≡ some (record {
        digest = token_hash presented;
        answer = token;
        expires_at = now + rotation_grace;
      })

module _ (token_hash : String → String) (policy : ClientPolicy)
    (redirect_uris_of : String → Option (List String)) (audience_ok : String → Bool)
    (client_id presented access successor : String) (scopes : List String) (now : ℕ)
    (p p' : Process) (token : OAuthToken) (linear : IsLinear p.db.refresh_tokens)
    (known : get_client policy redirect_uris_of client_id now p.db ≡ (p.db, true))
    (unanswered : get p.held (token_hash presented) ≡ none)
    (first : exchange_refresh_token token_hash policy redirect_uris_of audience_ok client_id
        presented access successor scopes now p
      ≡ (p', issued token)) where
  rotated_process :
      (t : RefreshTokenRow) × (a : AuthorizationRow) × HasRotated token_hash audience_ok presented
        successor now token p' t a
  unfolding load_authorization hold
  rotated_process =
      let (t, a, read, connection, live, asked) =
        from_exchange token_hash now p p' token policy redirect_uris_of audience_ok client_id
          presented access successor scopes known first in
      let (audience, ours, (db1, r, redeemed, answered)) =
        from_rotate_for token_hash now p p' token policy redirect_uris_of audience_ok client_id
          presented access successor scopes a asked in
      let q : Process = record p { db = db1 } in
      let (A, F, ok, rotation) =
        from_redemption token_hash now q p' token client_id presented access successor _
          (strip a.resource) r unanswered answered in
      let (db2, created, end) =
        from_rotation token_hash now q p' token client_id presented access successor A F _
          (strip a.resource) rotation in
      let redeemed_ok : redeem_refresh_token token_hash presented successor now p.db
          ≡ some (db1, redeem_ok A F) =
        subst (λ r. redeem_refresh_token token_hash presented successor now p.db ≡ some (db1, r)) ok
          redeemed in
      let (spent, lasts) =
        rotated_once token_hash presented successor now p.db db1 A F t linear
          (loaded_row token_hash presented p.db t read) redeemed_ok in
      let (rows, kept) =
        created_rows token_hash access A F _ (strip a.resource) client_id now db1 db2 created in
      (
        t,
        a,
        rw end (record {
          linear = rw rows (
              IsLinear-delete _ db1.refresh_tokens (
                IsLinear-redeem_refresh_token token_hash presented successor now p.db db1
                  (redeem_ok A F) linear redeemed_ok));
          found =
              rw rows (
                fetch-delete (has_digest (token_hash presented)) _ db1.refresh_tokens _ spent
                  lasts);
          connection =
              rw
                (
                  kept,
                  authorizations-redeem token_hash presented successor now p.db db1 (redeem_ok A F)
                      redeemed_ok,
                )
                connection;
          live = live;
          audience = audience;
          ours = ours;
          held = get-hold (token_hash presented) token now (record q { db = db2 });
        }),
      )

  -- A rotation that was answered can be repeated inside the grace window: whoever presents the same
  -- token again, as an admitted client, gets the same answer, and the process does not change. The
  -- file's digests are keys, and the process held no answer for the token before.
  pub exchange-exchange :
      (access' successor' : String) (scopes' : List String) (now' : ℕ)
      → get_client policy redirect_uris_of client_id now' p'.db ≡ (p'.db, true)
      → now ≤ now'
      → now' < now + rotation_grace
      → exchange_refresh_token token_hash policy redirect_uris_of audience_ok client_id presented
          access' successor' scopes' now' p'
        ≡ (p', issued token)
  unfolding inside_grace
  exchange-exchange access' successor' scopes' now' known' after within =
      let (t, a, h) = rotated_process in
      exchange-retry token_hash policy redirect_uris_of audience_ok client_id presented access'
        successor' scopes' now' p' (spend (token_hash successor) now t) a known' h.linear h.found
        refl h.connection h.live h.audience h.ours
        (record {
          digest = token_hash presented;
          answer = token;
          expires_at = now + rotation_grace;
        })
        (ground arith) h.held refl within
