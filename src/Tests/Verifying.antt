-- ===== src/Tests/Verifying.antt =====
-- Runs of the token verifier (oauth/verifier.py).
use nextcloud_mcp_connector.Base.{
  ◌≤◌, String, ◌≡◌, ◌≢◌, refl, Bool, true, Option, some, List, [], ◌∷◌, arith, length,
}
use nextcloud_mcp_connector.Base.Dict.{Dict, get, put}
use nextcloud_mcp_connector.OAuth.Rows.{Db}
use nextcloud_mcp_connector.OAuth.Store.Authorizations.{
  revoke_authorization, load_authorization, principal_of,
}
use nextcloud_mcp_connector.OAuth.Store.Tokens.{load_access_token}
use nextcloud_mcp_connector.OAuth.Verifier.Cache.{AccessGrant, Cached, cache_limit}
use nextcloud_mcp_connector.OAuth.Verifier.Verify.{Verifier, verify_token}
use nextcloud_mcp_connector.OAuth.Verifier.Answers.{
  IsGranted, verify_token-IsGranted, verify_token-revoke_authorization, length-verify_token,
}
use nextcloud_mcp_connector.Tests.Samples.{plain, db_two}

abbrev any_audience : String → Bool
any_audience resource = true

abbrev one_word : String → List String
one_word text = text ∷ []

abbrev known_client : String → Db → Db × Option String
known_client client_id db = (db, some "Assistant")

abbrev empty_cache : Verifier
empty_cache = record { db = db_two; cache = [] }

abbrev other_grant : AccessGrant
other_grant = record {
  token = "y";
  client_id = "c";
  scopes = "mcp" ∷ [];
  expires_at = 3600;
  resource = "https://s";
  subject = "u";
  auth_id = "b";
  client_name = "Assistant";
}

abbrev other_cached : Dict Cached
other_cached = ("y", record { digest = "y"; access = other_grant; expires_at = 105 }) ∷ []

accepted :
    verify_token plain any_audience one_word known_client 5 true "y" 9 100 empty_cache
    ≡ (record { db = db_two; cache = other_cached }, some other_grant)
unfolding verify_token get load_access_token load_authorization put principal_of
accepted = refl

nothing_cached : (entry : Cached) → get [] "y" ≡ some entry → entry.expires_at ≤ 100
unfolding get
nothing_cached entry h = cc

verify_token-IsGranted_example :
    IsGranted plain any_audience one_word known_client 5 true "y" 9 100 empty_cache other_grant
verify_token-IsGranted_example =
    verify_token-IsGranted plain any_audience one_word known_client 5 true "y" 9 100 empty_cache
      (record { db = db_two; cache = other_cached }) other_grant nothing_cached accepted

accepted_other :
    verify_token plain any_audience one_word known_client 5 true "y" 9 100
      (record { db = revoke_authorization "a" 7 db_two; cache = [] })
    ≡ (record { db = revoke_authorization "a" 7 db_two; cache = other_cached }, some other_grant)
unfolding verify_token revoke_authorization get load_access_token load_authorization put
    principal_of
accepted_other = refl

verify_token-revoke_authorization_example : other_grant.auth_id ≢ "a"
verify_token-revoke_authorization_example =
    verify_token-revoke_authorization plain any_audience one_word known_client 5 true "y" 9 100 "a"
      7 db_two (record { db = revoke_authorization "a" 7 db_two; cache = other_cached }) other_grant
      accepted_other

length-verify_token_example :
    length
      ((verify_token plain any_audience one_word known_client 5 true "y" 9 100 empty_cache).0.cache)
    ≤ cache_limit
length-verify_token_example =
    length-verify_token plain any_audience one_word known_client 5 true "y" 9 100 empty_cache
      (omega arith)
