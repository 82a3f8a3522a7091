-- ===== src/OAuth/Store/Flows.antt =====
-- oauth/store.py, the flows. `encrypt` and `decrypt` are those of oauth/crypto.py under the data
-- key of the store, each with the additional data first; `decrypt` gives `none` where it raises.
use nextcloud_mcp_connector.Base.{
  ℕ, ◌+◌, String, Bool, true, ◌&&◌, ◌||◌, not, Option, none, some, ◌∷◌, [], ◌++◌, str_eq, ltb, ◌==◌,
  count, fetch, if◌then◌else◌,
}
use nextcloud_mcp_connector.Base.Text.{is_empty}
use nextcloud_mcp_connector.OAuth.Rows.{Db, FlowRow, flow_ttl}
use nextcloud_mcp_connector.OAuth.Store.Cascade.{delete_flows, has_client, has_flow}
use nextcloud_mcp_connector.OAuth.Store.Purge.{purge_expired_rows}

-- The fields of `create_flow` that are stored as they come.
pub record FlowRequest : Type 0 where
  pub client_id : String
  pub redirect_uri : String
  pub redirect_uri_explicit : Bool
  pub code_challenge : String
  pub state : Option String
  pub scopes : String
  pub resource : String
  pub poll_url : String

unfoldable pub create_flow :
    (encrypt : String → String → String) (flow_id poll_token : String) (r : FlowRequest)
    (moment : ℕ)
    → Db
    → Option Db
unfolding purge_expired_rows
create_flow encrypt flow_id poll_token r moment db =
    let db' = purge_expired_rows moment db in
    if has_flow db' flow_id || not (has_client db' r.client_id)
    then none
    else some (record db' {
      flows =
          db'.flows
          ++ record {
            flow_id = flow_id;
            client_id = r.client_id;
            redirect_uri = r.redirect_uri;
            redirect_uri_explicit = r.redirect_uri_explicit;
            code_challenge = r.code_challenge;
            state = r.state;
            scopes = r.scopes;
            resource = r.resource;
            poll_token_enc = encrypt flow_id poll_token;
            poll_url = some r.poll_url;
            expires_at = moment + flow_ttl;
          }
            ∷ [];
    })

abbrev pub is_running : String → ℕ → FlowRow → Bool
is_running flow_id moment f = str_eq f.flow_id flow_id && ltb moment f.expires_at

-- `not row[10]`: NULL or the empty text
abbrev pub lacks_poll_url : FlowRow → Bool
lacks_poll_url f = elim f.poll_url [ none ↦ true | some url ↦ is_empty url ]

-- The row with its decrypted poll token; the outer `none` is a raised `DecryptionRejected`.
unfoldable pub load_flow :
    (decrypt : String → String → Option String) (flow_id : String) (moment : ℕ)
    → Db
    → Option (Option (FlowRow × String))
load_flow decrypt flow_id moment db = elim (fetch (is_running flow_id moment) db.flows) [
  | none ↦ some none
  | some f ↦ if lacks_poll_url f then some none else elim (decrypt f.flow_id f.poll_token_enc) [
    | none ↦ none
    | some token ↦ some (some (f, token))
  ]
]

unfoldable pub delete_flow : String → Db → Db
delete_flow flow_id db = delete_flows (λ f. str_eq f.flow_id flow_id) db

-- `_spend_flow`: the row count of the DELETE says who deleted it.
unfoldable pub spend_flow : String → ℕ → Db → Db × Bool
spend_flow flow_id moment db =
    (delete_flows (is_running flow_id moment) db, count (is_running flow_id moment) db.flows == 1)

unfoldable pub redeem_flow : String → ℕ → Db → Db × Bool
unfolding spend_flow
redeem_flow flow_id moment db = spend_flow flow_id moment db
