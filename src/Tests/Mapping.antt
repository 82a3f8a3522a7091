-- ===== src/Tests/Mapping.antt =====
-- Runs of the claim mapping (oauth/mapping.py).
use nextcloud_mcp_connector.Base.{ℕ, String, ◌≡◌, ◌↔◌, refl, some, none}
use nextcloud_mcp_connector.OAuth.Mapping.{
  MappingSettings, account_id_v1, ClaimValue, text, principal_from_claims, IsUserId,
}
use nextcloud_mcp_connector.OAuth.UserIds.{principal_from_claims-account}

abbrev by_account : MappingSettings
by_account = record { strategy = account_id_v1; account_claim = "uid"; oidc_provider_id = none }

abbrev alice_everywhere : String → ClaimValue
alice_everywhere name = text "alice"

abbrev no_digest : ℕ → String → String
no_digest provider sub = sub

principal_from_claims-account_example :
    (principal_from_claims no_digest alice_everywhere by_account ≡ some "alice")
    ↔ ((text "alice" ≡ text "alice") × IsUserId "alice")
principal_from_claims-account_example =
    principal_from_claims-account no_digest by_account "alice" refl alice_everywhere
