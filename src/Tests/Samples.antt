-- ===== src/Tests/Samples.antt =====
-- The rows of one connection that the runs use, with a hash and a cipher that change nothing.
use nextcloud_mcp_connector.Base.{String, true, Option, none, some, [], ◌∷◌}
use nextcloud_mcp_connector.OAuth.Rows.{
  Db, ClientRow, FlowRow, AuthorizationRow, AuthCodeRow, RefreshTokenRow, AccessTokenRow, empty_db,
}
use nextcloud_mcp_connector.OAuth.Store.Tokens.{new_refresh_token, spend}

abbrev pub plain : String → String
plain text = text

abbrev pub seal : String → String → String
seal aad text = text

abbrev pub unseal : String → String → Option String
unseal aad text = some text

abbrev pub the_client : ClientRow
the_client = record {
  client_id = "c";
  client_secret_hash = none;
  metadata_json = "{}";
  allowed = true;
  registered_at = 0;
  last_used_at = none;
  cimd_fetched_at = none;
  cimd_expires_at = none;
}

abbrev pub the_authorization : AuthorizationRow
the_authorization = record {
  auth_id = "a";
  client_id = "c";
  nc_user = "u";
  nc_account_id = some "u";
  nc_display_name = none;
  app_password_enc = "pw";
  scopes = "mcp";
  resource = "https://s";
  created_at = 0;
  revoked_at = none;
  cleanup_at = none;
}

abbrev pub the_access_token : AccessTokenRow
the_access_token = record {
  token_hash = "x";
  auth_id = "a";
  family_id = "f";
  scopes = "mcp";
  resource = "https://s";
  expires_at = 3600;
  revoked_at = none;
}

-- An access token of another connection.
abbrev pub other_authorization : AuthorizationRow
other_authorization = record the_authorization { auth_id = "b" }

abbrev pub other_access_token : AccessTokenRow
other_access_token = record the_access_token { token_hash = "y"; auth_id = "b"; family_id = "g" }

abbrev pub the_code : AuthCodeRow
the_code = record {
  code_hash = "k";
  auth_id = "a";
  redirect_uri = "https://r";
  redirect_uri_explicit = true;
  code_challenge = "q";
  resource = "https://s";
  expires_at = 60;
  used_at = none;
}

abbrev pub the_flow : FlowRow
the_flow = record {
  flow_id = "a";
  client_id = "c";
  redirect_uri = "https://r";
  redirect_uri_explicit = true;
  code_challenge = "q";
  state = none;
  scopes = "mcp";
  resource = "https://s";
  poll_token_enc = "p";
  poll_url = some "https://n";
  expires_at = 600;
}

abbrev pub db_client : Db
db_client = record empty_db { clients = the_client ∷ [] }

abbrev pub db_authorized : Db
db_authorized = record db_client { authorizations = the_authorization ∷ [] }

abbrev pub first_token : RefreshTokenRow
first_token = new_refresh_token "t" "a" "f" 1

abbrev pub db_open : Db
db_open = record db_authorized { refresh_tokens = first_token ∷ [] }

abbrev pub db_rotated : Db
db_rotated = record db_authorized {
  refresh_tokens = spend "t2" 5 first_token ∷ new_refresh_token "t2" "a" "f" 5 ∷ [];
}

-- Two connections, each with an access token.
abbrev pub db_two : Db
db_two = record db_open {
  authorizations = the_authorization ∷ other_authorization ∷ [];
  access_tokens = the_access_token ∷ other_access_token ∷ [];
}
