-- ===== src/Tests/Provider.antt =====
-- Runs of the token endpoint (oauth/provider.py).
use nextcloud_mcp_connector.Base.{
  ℕ, ◌<◌, String, ◌≡◌, ◌≢◌, refl, Bool, true, false, Option, none, some, List, [], ◌∷◌, arith,
}
use nextcloud_mcp_connector.Base.Dict.{get, put}
use nextcloud_mcp_connector.Base.Text.{is_empty, strip, lstrip, rstrip, is_space}
use nextcloud_mcp_connector.OAuth.Rows.{Db, AuthorizationRow}
use nextcloud_mcp_connector.OAuth.Store.Clients.{load_client, touch_client}
use nextcloud_mcp_connector.OAuth.Store.Purge.{purge_expired_rows}
use nextcloud_mcp_connector.OAuth.Store.Authorizations.{
  load_authorization, same_principal, principal_of, revoke_authorization, note_cleanup,
  clear_cleanup, app_password,
}
use nextcloud_mcp_connector.OAuth.Store.Tokens.{
  load_refresh_token, redeem_refresh_token, create_access_token, spend, load_access_token,
  revoke_family, families_of_authorization,
}
use nextcloud_mcp_connector.OAuth.Provider.Policy.{
  ClientPolicy, get_client, admit, allows, resolve_stored, registration_expired,
}
use nextcloud_mcp_connector.OAuth.Provider.Exchange.{
  OAuthToken, Answer, Process, issued, invalid_grant, inside_grace, end_connection_of, hand_back,
  exchange_refresh_token, end_connection,
}
use nextcloud_mcp_connector.OAuth.Provider.Reuse.{
  IsEnded, exchange-replay, exchange-retry, exchange-lost_retry,
}
use nextcloud_mcp_connector.OAuth.Provider.Ending.{
  end_connection-refused, end_connection-ended, load_access_token-end_connection,
}
use nextcloud_mcp_connector.OAuth.Provider.Retry.{exchange-exchange}
use nextcloud_mcp_connector.Tests.Samples.{
  db_open, the_client, the_access_token, plain, unseal, the_authorization, other_authorization,
  other_access_token, first_token, db_rotated, db_two,
}
use nextcloud_mcp_connector.Tests.Store.{IsLinear-rotated, IsLinear-open}

abbrev open_policy : ClientPolicy
open_policy = record {
  dcr_enabled = true;
  allowlist_only = false;
  allowed = [];
  cimd_enabled = true;
}

abbrev uris_of : String → Option (List String)
uris_of metadata = some ("https://r" ∷ [])

abbrev any_audience : String → Bool
any_audience resource = true

abbrev the_answer : OAuthToken
the_answer = record { access_token = "x"; expires_in = 3600; scope = "mcp"; refresh_token = "t2" }

-- One rotation at 5, whose answer is held until 15.
abbrev running : Process
running = record {
  db = db_rotated;
  held = ("t", record { digest = "t"; answer = the_answer; expires_at = 15 }) ∷ [];
  cache = ("x", 9) ∷ [];
}

abbrev restarted : Process
restarted = record { db = db_rotated; held = []; cache = [] }

admitted :
    (now : ℕ) → now < 86400 → get_client open_policy uris_of "c" now db_rotated ≡ (db_rotated, true)
unfolding get_client admit allows resolve_stored registration_expired load_client
admitted now early = ground arith

loaded : load_authorization "a" db_rotated ≡ some the_authorization
unfolding load_authorization
loaded = refl

audience : is_empty (strip "https://s") ≡ false
unfolding strip lstrip rstrip is_space
audience = refl

late : inside_grace (some 5) 99 ≡ false
unfolding inside_grace
late = refl

early : inside_grace (some 5) 9 ≡ true
unfolding inside_grace
early = refl

still_held :
    get running.held "t" ≡ some (record { digest = "t"; answer = the_answer; expires_at = 15 })
unfolding get
still_held = refl

nothing_held : get restarted.held "t" ≡ none
unfolding get
nothing_held = refl

abbrev replayed : Process × Answer
replayed =
    exchange_refresh_token plain open_policy uris_of any_audience "c" "t" "y" "t3" [] 99 running

exchange-replay_example : (replayed.1 ≡ invalid_grant) × IsEnded "a" "f" replayed.0
exchange-replay_example =
    exchange-replay plain open_policy uris_of any_audience "c" "t" "y" "t3" [] 99 running
      (spend "t2" 5 first_token) the_authorization (admitted 99 (omega arith)) IsLinear-rotated refl
      refl loaded refl audience refl late

exchange-retry_example :
    exchange_refresh_token plain open_policy uris_of any_audience "c" "t" "y" "t3" [] 9 running
    ≡ (running, issued the_answer)
exchange-retry_example =
    exchange-retry plain open_policy uris_of any_audience "c" "t" "y" "t3" [] 9 running
      (spend "t2" 5 first_token) the_authorization (admitted 9 (omega arith)) IsLinear-rotated refl
      refl loaded refl audience refl (record { digest = "t"; answer = the_answer; expires_at = 15 })
      early still_held refl (omega arith)

exchange-lost_retry_example :
    exchange_refresh_token plain open_policy uris_of any_audience "c" "t" "y" "t3" [] 9 restarted
    ≡ (restarted, invalid_grant)
exchange-lost_retry_example =
    exchange-lost_retry plain open_policy uris_of any_audience "c" "t" "y" "t3" [] 9 restarted
      (spend "t2" 5 first_token) the_authorization (admitted 9 (omega arith)) IsLinear-rotated refl
      refl loaded refl audience refl early nothing_held

abbrev two : Process
two = record { db = db_two; held = []; cache = ("x", 9) ∷ ("y", 9) ∷ [] }

abbrev two_after : Process
two_after =
    hand_back unseal true "a" (end_connection_of "a" (families_of_authorization "a" db_two) 50 two)

ended : end_connection unseal true "u" "a" 50 two ≡ (two_after, true)
unfolding end_connection load_authorization same_principal principal_of
ended = refl

foreign : end_connection unseal true "v" "a" 50 two ≡ (two, false)
unfolding end_connection load_authorization same_principal principal_of
foreign = refl

end_connection-refused_example : two ≡ two
end_connection-refused_example = end_connection-refused unseal true "v" "a" 50 two two foreign

end_connection-ended_example :
    ((a : AuthorizationRow) × (load_authorization "a" db_two ≡ some a)
      × (same_principal "u" (principal_of a) ≡ true)
      × (a.revoked_at ≡ none))
    × (two_after.held ≡ [])
    × (two_after.cache ≡ [])
end_connection-ended_example = end_connection-ended unseal true "u" "a" 50 two two_after ended

loads_other :
    load_access_token plain "y" 60 two_after.db ≡ some (other_access_token, other_authorization)
unfolding load_access_token hand_back end_connection_of load_authorization note_cleanup
    revoke_authorization families_of_authorization revoke_family app_password clear_cleanup
loads_other = refl

load_access_token-end_connection_example : other_access_token.auth_id ≢ "a"
load_access_token-end_connection_example =
    load_access_token-end_connection unseal true "u" "a" 50 two two_after plain "y" 60
      other_access_token other_authorization ended loads_other

abbrev before : Process
before = record { db = db_open; held = []; cache = [] }

abbrev rotated_db : Db
rotated_db = record db_rotated {
  clients = record the_client { last_used_at = some 5 } ∷ [];
  access_tokens = record the_access_token { expires_at = 3605 } ∷ [];
}

abbrev rotated_process : Process
rotated_process = record {
  db = rotated_db;
  held = ("t", record { digest = "t"; answer = the_answer; expires_at = 15 }) ∷ [];
  cache = [];
}

known_before : get_client open_policy uris_of "c" 5 db_open ≡ (db_open, true)
unfolding get_client admit allows resolve_stored registration_expired load_client
known_before = refl

known_after : get_client open_policy uris_of "c" 9 rotated_db ≡ (rotated_db, true)
unfolding get_client admit allows resolve_stored registration_expired load_client
known_after = refl

first_answer :
    exchange_refresh_token plain open_policy uris_of any_audience "c" "t" "x" "t2" [] 5 before
    ≡ (rotated_process, issued the_answer)
unfolding exchange_refresh_token load_client load_refresh_token load_authorization
    redeem_refresh_token create_access_token purge_expired_rows touch_client put
first_answer = refl

nothing_before : get before.held "t" ≡ none
unfolding get
nothing_before = refl

exchange-exchange_example :
    exchange_refresh_token plain open_policy uris_of any_audience "c" "t" "y" "t3" [] 9
      rotated_process
    ≡ (rotated_process, issued the_answer)
exchange-exchange_example =
    exchange-exchange plain open_policy uris_of any_audience "c" "t" "x" "t2" [] 5 before
      rotated_process the_answer IsLinear-open known_before nothing_before first_answer "y" "t3" []
      9 known_after (omega arith) (omega arith)
