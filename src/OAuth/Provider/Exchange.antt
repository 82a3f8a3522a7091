-- ===== src/OAuth/Provider/Exchange.antt =====
-- oauth/provider.py: the two grants and the end of a connection. Random
-- values (`secrets.token_urlsafe`) are arguments; `audience_ok` is the SDK's
-- `check_resource_allowed` against the audience of this server; `decrypt` is that of oauth/crypto.py.
use nextcloud_mcp_connector.Base.{
  ℕ, ◌+◌, ◌-◌, String, Bool, true, false, not, ◌&&◌, ◌||◌, Option, none, some, List, [], ◌∷◌,
  str_eq, leb, is_some, length, if◌then◌else◌,
}
use nextcloud_mcp_connector.Base.Dict.{Dict, get, put, remove}
use nextcloud_mcp_connector.Base.Text.{is_empty, strip, join_words}
use nextcloud_mcp_connector.OAuth.Rows.{Db, AuthorizationRow, rotation_grace, access_token_ttl}
use nextcloud_mcp_connector.OAuth.Store.Clients.{touch_client}
use nextcloud_mcp_connector.OAuth.Store.Authorizations.{
  load_authorization, revoke_authorization, note_cleanup, clear_cleanup, app_password, principal_of,
  same_principal,
}
use nextcloud_mcp_connector.OAuth.Store.Codes.{redeem_auth_code}
use nextcloud_mcp_connector.OAuth.Store.Tokens.{
  create_access_token, create_refresh_token, load_refresh_token, redeem_refresh_token,
  revoke_family, families_of_authorization, RefreshRedemption, redeem_ok, redeem_reused,
}
use nextcloud_mcp_connector.OAuth.Provider.Policy.{ClientPolicy, get_client}

pub record OAuthToken : Type 0 where
  pub access_token : String
  pub expires_in : ℕ
  pub scope : String
  pub refresh_token : String

pub record Held : Type 0 where
  pub digest : String
  pub answer : OAuthToken
  pub expires_at : ℕ

-- One process: the file it shares, its held answers, and the verifier's cache of digests.
pub record Process : Type 0 where
  pub db : Db
  pub held : Dict Held
  pub cache : Dict ℕ

abbrev pub held_answer_limit : ℕ
held_answer_limit = 256

-- TokenError, or an exception of the store.
pub data Answer : Type 0 where
  issued : OAuthToken → Answer
  invalid_client invalid_target invalid_grant : Answer
  raised : Answer

unfoldable pub hold : String → OAuthToken → ℕ → Process → Process
hold digest answer now p =
    let kept = if leb held_answer_limit (length p.held) then [] else p.held in
    record p {
      held =
          put kept digest
            (record { digest = digest; answer = answer; expires_at = now + rotation_grace });
    }

unfoldable pub held_answer : String → ℕ → Process → Process × Option OAuthToken
held_answer digest now p = elim (get p.held digest) [
  | none ↦ (p, none)
  | some entry ↦
      if leb entry.expires_at now
      then (record p { held = remove p.held digest }, none)
      else if str_eq entry.digest digest
      then (p, some entry.answer)
      else (p, none)
]

unfoldable pub inside_grace : Option ℕ → ℕ → Bool
inside_grace none now = false
inside_grace (some used_at) now = leb used_at now && leb (now - used_at) rotation_grace

abbrev pub revoke_families : List String → ℕ → Db → Db
revoke_families [] now db = db
revoke_families (f ∷ fs) now db = revoke_families fs now (revoke_family f now db)

-- `_end_connection`: the families, the authorization, the note, then both caches.
unfoldable pub end_connection_of :
    (auth_id : String) (families : List String) → ℕ → Process → Process
end_connection_of auth_id families now p = record {
  db =
      note_cleanup auth_id now
        (revoke_authorization auth_id now (revoke_families families now p.db));
  held = [];
  cache = [];
}

-- `_hand_back`: `deleted` is whether Nextcloud deleted the app password.
unfoldable pub hand_back :
    (decrypt : String → String → Option String) (deleted : Bool) (auth_id : String)
    → Process
    → Process
hand_back decrypt deleted auth_id p = elim (load_authorization auth_id p.db) [
  | none ↦ p
  | some a ↦ elim (app_password decrypt auth_id p.db) [
    | none ↦ p
    | some none ↦ p
    | some (some password) ↦
        if is_empty password || not deleted then p else record p { db = clear_cleanup auth_id p.db }
  ]
]

-- `end_connection` of the connections page: only the owner's own, live connection ends.
unfoldable pub end_connection :
    (decrypt : String → String → Option String) (deleted : Bool) (nc_user auth_id : String)
    → ℕ
    → Process
    → Process × Bool
unfolding end_connection_of hand_back
end_connection decrypt deleted nc_user auth_id now p = elim (load_authorization auth_id p.db) [
  | none ↦ (p, false)
  | some a ↦
      if is_some a.revoked_at || not (same_principal nc_user (principal_of a))
      then (p, false)
      else (
        hand_back decrypt deleted auth_id
            (end_connection_of auth_id (families_of_authorization auth_id p.db) now p),
        true,
      )
]

module _ (token_hash : String → String) where
  -- `_issue`
  unfoldable pub issue :
      (access refresh auth_id family_id scopes resource : String) → ℕ → Process → Process × Answer
  issue access refresh auth_id family_id scopes resource now p =
      elim (create_access_token token_hash access auth_id family_id scopes resource now p.db) [
        | none ↦ (p, raised)
        | some db ↦ (
          record p { db = db },
          issued (record {
            access_token = access;
            expires_in = access_token_ttl;
            scope = scopes;
            refresh_token = refresh;
          }),
        )
      ]

  -- A rotation that went through: touched, issued, and held for the window.
  unfoldable pub answer_rotation :
      (client_id presented access successor auth_id family_id scopes resource : String)
      → ℕ
      → Process
      → Process × Answer
  unfolding issue hold
  answer_rotation client_id presented access successor auth_id family_id scopes resource now p =
      let touched = record p { db = touch_client client_id now p.db } in
      let (p', answer) = issue access successor auth_id family_id scopes resource now touched in
      elim answer [
        | issued token ↦ (hold (token_hash presented) token now p', issued token)
        | other ↦ (p', other)
      ]

  -- What the redemption was decides the answer.
  unfoldable pub answer_redemption :
      (client_id presented access successor scopes resource : String)
      → RefreshRedemption
      → ℕ
      → Process
      → Process × Answer
  unfolding answer_rotation held_answer inside_grace end_connection_of
  answer_redemption client_id presented access successor scopes resource (redeem_ok a f) now p =
      answer_rotation client_id presented access successor a f scopes resource now p
  answer_redemption client_id presented access successor scopes resource
        (redeem_reused a f used_at _) now p =
      if inside_grace used_at now
      then (let (p', held) = held_answer (token_hash presented) now p in
          elim held [ none ↦ (p', invalid_grant) | some answer ↦ (p', issued answer) ])
      else (end_connection_of a (f ∷ []) now p, invalid_grant)
  answer_redemption client_id presented access successor scopes resource _ now p =
      (p, invalid_grant)

  module _ (policy : ClientPolicy) (redirect_uris_of : String → Option (List String))
      (audience_ok : String → Bool) where
    -- The part of `exchange_refresh_token` behind the client check and the two reads.
    unfoldable pub rotate_for :
        (client_id presented access successor : String) (scopes : List String)
        → AuthorizationRow
        → ℕ
        → Process
        → Process × Answer
    unfolding answer_redemption strip join_words
    rotate_for client_id presented access successor scopes a now p =
        let resource = strip a.resource in
        let granted : String = elim scopes [ [] ↦ a.scopes | s ∷ ss ↦ join_words (s ∷ ss) ] in
        if is_empty resource || not (audience_ok resource)
        then (p, invalid_target)
        else elim (redeem_refresh_token token_hash presented successor now p.db) [
          | none ↦ (p, raised)
          | some (db, r) ↦
              answer_redemption client_id presented access successor granted resource r now
                (record p { db = db })
        ]

    -- What follows the client check.
    unfoldable pub rotate_known :
        (client_id presented access successor : String) (scopes : List String)
        → ℕ
        → Process
        → Process × Answer
    unfolding rotate_for
    rotate_known client_id presented access successor scopes now p =
        elim (load_refresh_token token_hash presented p.db) [
          | none ↦ (p, raised)
          | some none ↦ (p, invalid_grant)
          | some (some row) ↦ elim (load_authorization row.auth_id p.db) [
            | none ↦ (p, invalid_grant)
            | some a ↦
                if is_some a.revoked_at
                then (p, invalid_grant)
                else rotate_for client_id presented access successor scopes a now p
          ]
        ]

    unfoldable pub exchange_refresh_token :
        (client_id presented access successor : String) (scopes : List String)
        → ℕ
        → Process
        → Process × Answer
    unfolding rotate_known get_client
    exchange_refresh_token client_id presented access successor scopes now p =
        let (db, known) = get_client policy redirect_uris_of client_id now p.db in
        let checked = record p { db = db } in
        if known
        then rotate_known client_id presented access successor scopes now checked
        else (checked, invalid_client)

    -- The code is spent in its own transaction; the tokens come after it.
    unfoldable pub exchange_authorization_code :
        (client_id code resource access refresh family : String) (scopes : List String)
        → ℕ
        → Process
        → Process × Answer
    unfolding get_client issue strip join_words
    exchange_authorization_code client_id code resource access refresh family scopes now p =
        let audience = strip resource in
        let (db, known) = get_client policy redirect_uris_of client_id now p.db in
        let (db', spent) = redeem_auth_code token_hash code now db in
        if is_empty audience || not (audience_ok audience)
        then (p, invalid_target)
        else if not known
        then (record p { db = db }, invalid_client)
        else elim spent [
          | none ↦ (record p { db = db' }, invalid_grant)
          | some row ↦ elim (create_refresh_token token_hash refresh row.auth_id family now db') [
            | none ↦ (record p { db = db' }, raised)
            | some db'' ↦
                issue access refresh row.auth_id family (join_words scopes) audience now
                  (record p { db = touch_client client_id now db'' })
          ]
        ]
