-- ===== src/OAuth/Rows.antt =====
-- The tables of oauth/store.py: the lifetimes, the rows, and the file as one record.
-- A moment is a count of whole seconds; `int(time.time())` is never negative.
use nextcloud_mcp_connector.Base.{ℕ, String, Bool, true, false, Option, List, []}

-- AUTH_CODE_TTL, ACCESS_TOKEN_TTL, REFRESH_TOKEN_TTL, FLOW_TTL, OIDC_TTL
abbrev pub auth_code_ttl : ℕ
auth_code_ttl = 60

abbrev pub access_token_ttl : ℕ
access_token_ttl = 3600

abbrev pub refresh_token_ttl : ℕ
refresh_token_ttl = 2592000

abbrev pub flow_ttl : ℕ
flow_ttl = 1200

abbrev pub oidc_ttl : ℕ
oidc_ttl = 300

abbrev pub oidc_transactions_per_browser : ℕ
oidc_transactions_per_browser = 3

abbrev pub rotation_grace : ℕ
rotation_grace = 10

abbrev pub unused_client_ttl : ℕ
unused_client_ttl = 86400

abbrev pub idle_client_ttl : ℕ
idle_client_ttl = 7776000

abbrev pub stale_access_ttl : ℕ
stale_access_ttl = 7776000

-- The `state` column of a refresh token: the three words of STATES, or any other text.
pub data RefreshState : Type 0 where
  active used revoked : RefreshState
  unknown : String → RefreshState

abbrev pub is_active : RefreshState → Bool
is_active active = true
is_active _ = false

abbrev pub is_revoked : RefreshState → Bool
is_revoked revoked = true
is_revoked _ = false

pub record ClientRow : Type 0 where
  pub client_id : String
  pub client_secret_hash : Option String
  pub metadata_json : String
  pub allowed : Bool
  pub registered_at : ℕ
  pub last_used_at : Option ℕ
  pub cimd_fetched_at : Option ℕ
  pub cimd_expires_at : Option ℕ

pub record FlowRow : Type 0 where
  pub flow_id : String
  pub client_id : String
  pub redirect_uri : String
  pub redirect_uri_explicit : Bool
  pub code_challenge : String
  pub state : Option String
  pub scopes : String
  pub resource : String
  pub poll_token_enc : String
  pub poll_url : Option String
  pub expires_at : ℕ

pub record AuthorizationRow : Type 0 where
  pub auth_id : String
  pub client_id : String
  pub nc_user : String
  pub nc_account_id : Option String
  pub nc_display_name : Option String
  pub app_password_enc : String
  pub scopes : String
  pub resource : String
  pub created_at : ℕ
  pub revoked_at : Option ℕ
  pub cleanup_at : Option ℕ

pub record UserAccess : Type 0 where
  pub nc_user : String
  pub disabled_at : ℕ

pub record AuthCodeRow : Type 0 where
  pub code_hash : String
  pub auth_id : String
  pub redirect_uri : String
  pub redirect_uri_explicit : Bool
  pub code_challenge : String
  pub resource : String
  pub expires_at : ℕ
  pub used_at : Option ℕ

pub record RefreshTokenRow : Type 0 where
  pub token_hash : String
  pub auth_id : String
  pub family_id : String
  pub state : RefreshState
  pub successor : Option String
  pub issued_at : ℕ
  pub used_at : Option ℕ
  pub expires_at : ℕ

pub record AccessTokenRow : Type 0 where
  pub token_hash : String
  pub auth_id : String
  pub family_id : String
  pub scopes : String
  pub resource : String
  pub expires_at : ℕ
  pub revoked_at : Option ℕ

pub record OidcTransactionRow : Type 0 where
  pub state_hash : String
  pub flow_id : String
  pub browser_hash : String
  pub nonce_enc : String
  pub verifier_enc : String
  pub created_at : ℕ
  pub expires_at : ℕ

pub record OidcProofRow : Type 0 where
  pub proof_hash : String
  pub flow_id : String
  pub principal : String
  pub created_at : ℕ
  pub expires_at : ℕ

pub record Db : Type 0 where
  pub clients : List ClientRow
  pub flows : List FlowRow
  pub authorizations : List AuthorizationRow
  pub user_access : List UserAccess
  pub auth_codes : List AuthCodeRow
  pub refresh_tokens : List RefreshTokenRow
  pub access_tokens : List AccessTokenRow
  pub oidc_transactions : List OidcTransactionRow
  pub oidc_proofs : List OidcProofRow

abbrev pub empty_db : Db
empty_db = record {
  clients = [];
  flows = [];
  authorizations = [];
  user_access = [];
  auth_codes = [];
  refresh_tokens = [];
  access_tokens = [];
  oidc_transactions = [];
  oidc_proofs = [];
}
