-- ===== src/Tests/Store.antt =====
-- Runs of the store (oauth/store.py).
use nextcloud_mcp_connector.Base.{◌≡◌, ◌≢◌, refl, true, false, none, some, [], ◌∷◌, arith}
use nextcloud_mcp_connector.Base.Text.{is_blank}
use nextcloud_mcp_connector.OAuth.Rows.{Db, empty_db}
use nextcloud_mcp_connector.OAuth.Store.Purge.{purge_expired_rows}
use nextcloud_mcp_connector.OAuth.Store.Cascade.{delete_flows}
use nextcloud_mcp_connector.OAuth.Store.Clients.{save_client}
use nextcloud_mcp_connector.OAuth.Store.Authorizations.{create_authorization, revoke_authorization}
use nextcloud_mcp_connector.OAuth.Store.Codes.{
  redeem_auth_code, load_auth_code, redeem_flow_for_code, insert_code,
}
use nextcloud_mcp_connector.OAuth.Store.Flows.{spend_flow}
use nextcloud_mcp_connector.OAuth.Store.Tokens.{
  create_refresh_token, insert_refresh_token, redeem_refresh_token, redeem_ok, redeem_reused,
  rotate, revoke_family, load_access_token,
}
use nextcloud_mcp_connector.OAuth.Rotation.{IsLinear, IsLinear-nil}
use nextcloud_mcp_connector.OAuth.Replay.{redeem-redeem}
use nextcloud_mcp_connector.OAuth.Revocation.{
  redeem-revoke_family, load_access_token-revoke_family, load_access_token-revoke_authorization,
}
use nextcloud_mcp_connector.OAuth.SingleUse.{redeem-redeem_auth_code, redeem-redeem_flow_for_code}
use nextcloud_mcp_connector.OAuth.Trace.{Reach, here, next, saved, authorized, opened, rotated}
use nextcloud_mcp_connector.OAuth.Trace.Linear.{IsLinearDb, Reach-IsLinearDb}
use nextcloud_mcp_connector.Tests.Samples.{
  plain, seal, unseal, other_authorization, other_access_token, the_code, the_flow, first_token,
  db_authorized, db_open, db_rotated, db_two,
}

to_open : Reach plain seal unseal true empty_db db_open
unfolding save_client create_authorization create_refresh_token insert_refresh_token
    purge_expired_rows delete_flows is_blank
to_open =
    next
      (next (next here (saved "c" "{}" none true none none 0)) (
        authorized "a" "pw"
          (record {
            client_id = "c";
            nc_user = "u";
            nc_account_id = "u";
            nc_display_name = none;
            scopes = "mcp";
            resource = "https://s";
          })
          0 {db' = db_authorized} refl))
      (opened "t" "a" "f" 1 {db' = db_open} refl refl)

rotation : redeem_refresh_token plain "t" "t2" 5 db_open ≡ some (db_rotated, redeem_ok "a" "f")
unfolding redeem_refresh_token rotate insert_refresh_token
rotation = refl

to_rotated : Reach plain seal unseal true empty_db db_rotated
to_rotated = next to_open (rotated "t" "t2" 5 rotation)

Reach-IsLinearDb_example : IsLinearDb db_rotated
Reach-IsLinearDb_example = Reach-IsLinearDb plain seal unseal true to_rotated IsLinear-nil

pub IsLinear-open : IsLinear db_open.refresh_tokens
IsLinear-open = Reach-IsLinearDb plain seal unseal true to_open IsLinear-nil

pub IsLinear-rotated : IsLinear db_rotated.refresh_tokens
IsLinear-rotated = Reach-IsLinearDb plain seal unseal true to_rotated IsLinear-nil

redeem-redeem_example :
    redeem_refresh_token plain "t" "t3" 9 db_rotated
    ≡ some (db_rotated, redeem_reused "a" "f" (some 5) (some "t2"))
redeem-redeem_example =
    redeem-redeem plain "t" "t2" 5 db_open db_rotated "a" "f" IsLinear-open rotation "t3" 9

redeem-revoke_family_example :
    redeem_refresh_token plain "t" "t2" 9 (revoke_family "f" 7 db_open)
    ≡ some (revoke_family "f" 7 db_open, redeem_reused "a" "f" none none)
redeem-revoke_family_example =
    redeem-revoke_family plain "f" 7 db_open "t" "t2" 9 first_token IsLinear-open refl refl

still_loads :
    load_access_token plain "y" 9 (revoke_family "f" 7 db_two)
    ≡ some (other_access_token, other_authorization)
unfolding load_access_token revoke_family
still_loads = refl

load_access_token-revoke_family_example : other_access_token.family_id ≢ "f"
load_access_token-revoke_family_example =
    load_access_token-revoke_family plain "f" 7 db_two "y" 9 other_access_token other_authorization
      still_loads

loads_other :
    load_access_token plain "y" 9 (revoke_authorization "a" 7 db_two)
    ≡ some (other_access_token, other_authorization)
unfolding load_access_token revoke_authorization
loads_other = refl

load_access_token-revoke_authorization_example : other_access_token.auth_id ≢ "a"
load_access_token-revoke_authorization_example =
    load_access_token-revoke_authorization plain "a" 7 db_two "y" 9 other_access_token
      other_authorization loads_other

abbrev db_code : Db
db_code = record db_open { auth_codes = the_code ∷ [] }

abbrev db_spent : Db
db_spent = record db_open { auth_codes = record the_code { used_at = some 7 } ∷ [] }

code_spent :
    redeem_auth_code plain "k" 7 db_code ≡ (db_spent, some (record the_code { used_at = some 7 }))
unfolding redeem_auth_code
code_spent = refl

redeem-redeem_auth_code_example :
    (load_auth_code plain "k" 8 db_spent ≡ none)
    × ((redeem_auth_code plain "k" 8 db_spent).1 ≡ none)
redeem-redeem_auth_code_example =
    redeem-redeem_auth_code plain "k" 7 db_code db_spent (record the_code { used_at = some 7 })
      (omega arith) code_spent 8

abbrev db_flow : Db
db_flow = record db_open { flows = the_flow ∷ [] }

abbrev db_claimed : Db
db_claimed = record db_open { auth_codes = record the_code { expires_at = 67 } ∷ [] }

flow_claim :
    redeem_flow_for_code plain "a" "k"
      (record {
        redirect_uri = "https://r";
        redirect_uri_explicit = true;
        code_challenge = "q";
        resource = "https://s";
      })
      7
      db_flow
    ≡ some (db_claimed, true)
unfolding redeem_flow_for_code spend_flow insert_code purge_expired_rows delete_flows
flow_claim = refl

redeem-redeem_flow_for_code_example :
    redeem_flow_for_code plain "a" "k2"
      (record {
        redirect_uri = "https://r";
        redirect_uri_explicit = true;
        code_challenge = "q";
        resource = "https://s";
      })
      8
      db_claimed
    ≡ some ((spend_flow "a" 8 db_claimed).0, false)
redeem-redeem_flow_for_code_example =
    redeem-redeem_flow_for_code plain "a" "k"
      (record {
        redirect_uri = "https://r";
        redirect_uri_explicit = true;
        code_challenge = "q";
        resource = "https://s";
      })
      7 db_flow db_claimed (omega arith) flow_claim "k2"
      (record {
        redirect_uri = "https://r";
        redirect_uri_explicit = true;
        code_challenge = "q";
        resource = "https://s";
      })
      8
