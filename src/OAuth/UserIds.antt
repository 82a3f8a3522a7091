-- ===== src/OAuth/UserIds.antt =====
-- oauth/mapping.py: which principals the account profile answers.
use Prim.Native.String.{[], ◌∷◌}
use nextcloud_mcp_connector.Base.{
  ℕ, String, ◌≡◌, ◌↔◌, refl, ap, sym, subst, ◌∙◌, false, none, some, arith, eq_iff, if◌then◌else◌,
}
use nextcloud_mcp_connector.Base.Text.{is_empty, strip}
use nextcloud_mcp_connector.OAuth.Mapping.{
  MappingSettings, account_id_v1, ClaimValue, absent, text, broken_text, no_text, is_control,
  is_forbidden, any_char, from_account, judge, judge_claim, principal_from_claims, IsName, IsUserId,
}

IsName-any_char :
    (s : String) → any_char is_control s ≡ false → any_char is_forbidden s ≡ false → IsName s
unfolding any_char
IsName-any_char [] plain allowed = tt
IsName-any_char (c ∷ s) plain allowed = (
  ground (arith, plain),
  λ deleted. ground (arith, plain, deleted),
  ground (arith, allowed),
  IsName-any_char s (ground (arith, plain)) (ground (arith, allowed)),
)

any_char-IsName :
    (s : String) → IsName s → (any_char is_control s ≡ false) × (any_char is_forbidden s ≡ false)
unfolding any_char
any_char-IsName [] name = (refl, refl)
any_char-IsName (c ∷ s) (plain, kept, allowed, rest) =
    let below = any_char-IsName s rest in
    (ground (arith, plain, kept, below.0), ground (arith, allowed, below.1))

abbrev text_in : ClaimValue → String
text_in (text v) = v
text_in _ = ""

module _ (derive : (provider_id : ℕ) → (sub : String) → String) (settings : MappingSettings)
    (p : String) (account : settings.strategy ≡ account_id_v1) where
  -- The account profile after the two common guards.
  judge-from_account :
      (v : String)
      → judge derive settings v ≡ (
          if is_empty v
          then none
          else if any_char is_control v
          then none
          else from_account derive v)
  unfolding judge
  judge-from_account v = rw account refl

  sound :
      (v : String)
      → (if is_empty v then none else if any_char is_control v then none else from_account derive v)
        ≡ some p
      → (v ≡ p) × IsUserId v
  unfolding from_account
  sound v found =
      let trimmed = (eq_iff v (strip v)).0 (ground (arith, found)) in
      (
        ground (arith, found),
        (
          ground (arith, found),
          sym trimmed,
          ground (arith, found),
          IsName-any_char v (ground (arith, found)) (ground (arith, found)),
        ),
      )

  complete :
      (v : String)
      → IsUserId v
      → (if is_empty v then none else if any_char is_control v then none else from_account derive v)
        ≡ some v
  unfolding from_account
  complete v (filled, trimmed, short, name) =
      let plain = any_char-IsName v name in
      ground (arith, filled, (eq_iff v (strip v)).1 (sym trimmed), short, plain.0, plain.1)

  judge-account : (v : String) → (judge derive settings v ≡ some p) ↔ ((v ≡ p) × IsUserId v)
  judge-account v = (
    λ found. sound v (sym (judge-from_account v) ∙ found),
    λ (same, fits). judge-from_account v ∙ complete v fits ∙ ap some same,
  )

  judge_claim-account :
      (v : ClaimValue) → (judge_claim derive settings v ≡ some p) ↔ ((v ≡ text p) × IsUserId p)
  unfolding judge_claim
  judge_claim-account (text v) = (
    λ found.
        let answer = (judge-account v).0 found in
        (ap text answer.0, subst IsUserId answer.0 answer.1),
    λ (same, fits).
        (judge-account v).1 (ap text_in same, subst IsUserId (sym (ap text_in same)) fits),
  )
  judge_claim-account absent = (λ found. cc, λ (same, fits). cc)
  judge_claim-account broken_text = (λ found. cc, λ (same, fits). cc)
  judge_claim-account no_text = (λ found. cc, λ (same, fits). cc)

  -- Under the account profile the principal is exactly the text of the configured claim, unchanged,
  -- where that text is a user id of Nextcloud: not empty, without whitespace at its ends, of at most
  -- MAX_PRINCIPAL_LENGTH characters, none of them a control character or a forbidden one.
  pub principal_from_claims-account :
      (claims : String → ClaimValue)
      → (principal_from_claims derive claims settings ≡ some p)
        ↔ ((claims settings.account_claim ≡ text p) × IsUserId p)
  unfolding principal_from_claims
  principal_from_claims-account claims = judge_claim-account (claims settings.account_claim)
