-- ===== src/OAuth/Mapping.antt =====
-- oauth/mapping.py: from the claims of an exchanged token to a principal. What the sub profile derives
-- (SHA-256 of provider and subject, oauth/oidc.py) is a parameter.
use Prim.Native.Char.{Char, code}
use Prim.Native.String.{[], ◌∷◌}
use nextcloud_mcp_connector.Base.{
  ℕ, suc, ◌≤◌, String, ◌≡◌, ◌≢◌, Bool, false, not, ◌||◌, Option, none, some, ltb, ◌==◌, str_eq,
  if◌then◌else◌,
}
use nextcloud_mcp_connector.Base.Text.{is_empty, strip}

abbrev pub max_principal_length : ℕ
max_principal_length = 64

abbrev pub max_subject_length : ℕ
max_subject_length = 255

-- MAPPING_STRATEGIES
pub data Strategy : Type 0 where
  account_id_v1 user_oidc_sub_v1 : Strategy

pub record MappingSettings : Type 0 where
  pub strategy : Strategy
  pub account_claim : String
  pub oidc_provider_id : Option ℕ

-- What an operator may have set as the provider: nothing, a whole number, or another value.
pub data ProviderId : Type 0 where
  unset : ProviderId
  whole_number : ℕ → ProviderId
  other : ProviderId

-- `__post_init__`; none is a ValueError.
unfoldable pub provider_of : Strategy → ProviderId → Option (Option ℕ)
provider_of user_oidc_sub_v1 (whole_number n) = if ltb 0 n then some (some n) else none
provider_of user_oidc_sub_v1 _ = none
provider_of account_id_v1 unset = some none
provider_of account_id_v1 _ = none

unfoldable pub settings_of :
    Strategy → (account_claim : String) → ProviderId → Option MappingSettings
unfolding provider_of strip
settings_of strategy claim provider =
    if is_empty claim || not (str_eq claim (strip claim))
    then none
    else elim (provider_of strategy provider) [
      | none ↦ none
      | some id ↦
          some (record { strategy = strategy; account_claim = claim; oidc_provider_id = id })
    ]

-- The value of a claim: absent, a text, a text with a lone surrogate, or no text.
pub data ClaimValue : Type 0 where
  absent : ClaimValue
  text : String → ClaimValue
  broken_text : ClaimValue
  no_text : ClaimValue

abbrev pub is_control : Char → Bool
is_control c = ltb (code c) 32 || code c == 127

-- `\ / < > : " | ? *`
abbrev pub is_forbidden : Char → Bool
is_forbidden c =
    code c == 92
    || code c == 47
    || code c == 60
    || code c == 62
    || code c == 58
    || code c == 34
    || code c == 124
    || code c == 63
    || code c == 42

unfoldable pub any_char : (Char → Bool) → String → Bool
any_char p [] = false
any_char p (c ∷ s) = p c || any_char p s

unfoldable pub char_count : String → ℕ
char_count [] = 0
char_count (c ∷ s) = suc (char_count s)

module _ (derive : (provider_id : ℕ) → (sub : String) → String) where
  -- The sub profile judges the length and derives.
  unfoldable pub from_subject : Option ℕ → String → Option String
  unfolding char_count
  from_subject provider value =
      if ltb max_subject_length (char_count value)
      then none
      else elim provider [ none ↦ none | some n ↦ some (derive n value) ]

  -- The account profile judges the rules of a user id.
  unfoldable pub from_account : String → Option String
  unfolding any_char char_count strip
  from_account value =
      if not (str_eq value (strip value))
      then none
      else if any_char is_forbidden value
      then none
      else if ltb max_principal_length (char_count value)
      then none
      else some value

  unfoldable pub judge : MappingSettings → String → Option String
  unfolding from_subject from_account any_char
  judge settings value =
      if is_empty value
      then none
      else if any_char is_control value
      then none
      else elim settings.strategy [
        | user_oidc_sub_v1 ↦ from_subject settings.oidc_provider_id value
        | account_id_v1 ↦ from_account value
      ]

  unfoldable pub judge_claim : MappingSettings → ClaimValue → Option String
  unfolding judge
  judge_claim settings (text value) = judge settings value
  judge_claim settings _ = none

  unfoldable pub principal_from_claims : (String → ClaimValue) → MappingSettings → Option String
  unfolding judge_claim
  principal_from_claims claims settings = judge_claim settings (claims settings.account_claim)

-- A text of printing characters that Nextcloud allows in a user id.
abbrev pub IsName : String → Type 0
IsName [] = Unit
IsName (c ∷ s) = (32 ≤ code c) × (code c ≢ 127) × (is_forbidden c ≡ false) × IsName s

abbrev pub IsUserId : String → Type 0
unfolding char_count strip
IsUserId s = (is_empty s ≡ false) × (strip s ≡ s) × (char_count s ≤ max_principal_length) × IsName s
