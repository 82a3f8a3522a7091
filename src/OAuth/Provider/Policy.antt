-- ===== src/OAuth/Provider/Policy.antt =====
-- oauth/registry.py, `ClientPolicy`, and oauth/provider.py, `get_client` as the token paths ask it
-- (`may_fetch=False`). `redirect_uris_of` is the SDK's reading of the stored registration, `none`
-- where it refuses. Of the returned model the callers here read only whether there is one, so the
-- address that `also_accepting` may add to it is left out.
use nextcloud_mcp_connector.Base.{
  ℕ, ◌+◌, String, Bool, true, false, not, ◌&&◌, ◌||◌, Option, none, some, List, [], ◌∷◌, str_eq,
  ltb, is_none, is_some, any, if◌then◌else◌,
}
use nextcloud_mcp_connector.Base.Text.{is_empty}
use nextcloud_mcp_connector.OAuth.Rows.{
  Db, ClientRow, AuthorizationRow, unused_client_ttl, idle_client_ttl,
}
use nextcloud_mcp_connector.OAuth.Store.Clients.{load_client, delete_client}
use nextcloud_mcp_connector.OAuth.Store.Authorizations.{
  authorizations_of_client, delete_authorization,
}

pub record ClientPolicy : Type 0 where
  pub dcr_enabled : Bool
  pub allowlist_only : Bool
  pub allowed : List String
  pub cimd_enabled : Bool

unfoldable pub listed : ClientPolicy → String → List String → Bool
listed p client_id redirect_uris =
    (not (is_empty client_id) && any (λ a. str_eq a client_id) p.allowed)
    || any (λ uri. any (λ a. str_eq a uri) p.allowed) redirect_uris

unfoldable pub allows : ClientPolicy → String → List String → Bool
unfolding listed
allows p client_id redirect_uris =
    if not p.allowlist_only then true else listed p client_id redirect_uris

-- `_has_expired`
unfoldable pub registration_expired : ℕ → Option ℕ → ℕ → Bool
registration_expired registered_at none moment = ltb (registered_at + unused_client_ttl) moment
registration_expired registered_at (some at) moment = ltb (at + idle_client_ttl) moment

-- `_resolve_cimd` without a fetch: a stale row keeps answering, a missing one is a refusal.
unfoldable pub resolve_stored : ClientPolicy → Option ClientRow → Option ClientRow
resolve_stored p none = none
resolve_stored p (some row) =
    if is_some row.cimd_fetched_at && not p.cimd_enabled then none else some row

-- `_hand_back_client`: whatever Nextcloud answers, the rows go.
abbrev pub delete_each : List AuthorizationRow → Db → Db
delete_each [] db = db
delete_each (a ∷ rows) db = delete_each rows (delete_authorization a.auth_id db)

unfoldable pub hand_back_client : String → Db → Db
hand_back_client client_id db = delete_each (authorizations_of_client client_id none db) db

module _ (policy : ClientPolicy) (redirect_uris_of : String → Option (List String)) where
  -- The checks on a row that was found.
  unfoldable pub admit : (client_id : String) → ℕ → ClientRow → Db → Db × Bool
  unfolding allows registration_expired hand_back_client
  admit client_id moment row db = elim (redirect_uris_of row.metadata_json) [
    | none ↦ (db, false)
    | some uris ↦
        if not row.allowed || not (allows policy client_id uris)
        then (db, false)
        else if is_none row.cimd_fetched_at
            && registration_expired row.registered_at row.last_used_at moment
        then (delete_client client_id (hand_back_client client_id db), false)
        else (db, true)
  ]

  -- Whether this client may still act. An expired registration goes, with its connections.
  unfoldable pub get_client : String → ℕ → Db → Db × Bool
  unfolding admit resolve_stored
  get_client client_id moment db = elim (resolve_stored policy (load_client client_id db)) [
    | none ↦ (db, false)
    | some row ↦ admit client_id moment row db
  ]
