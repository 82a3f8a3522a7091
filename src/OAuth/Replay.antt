-- ===== src/OAuth/Replay.antt =====
-- What the redemption of a refresh token answers (oauth/store.py), on every branch.
use nextcloud_mcp_connector.Base.{
  ℕ, ◌≤◌, String, ◌≡◌, sym, ap, ◌∙◌, Bool, true, false, none, some, List, [], ◌∷◌, ◌++◌, arith,
  str_eq, count, fetch, if◌then◌else◌, Bool-cases, Option-cases, inl, inr,
}
use nextcloud_mcp_connector.Base.Counting.{count_mono}
use nextcloud_mcp_connector.OAuth.Rows.{
  Db, RefreshTokenRow, RefreshState, active, used, revoked, unknown,
}
use nextcloud_mcp_connector.OAuth.Store.Tokens.{
  rotates, has_digest, spend, rotate, refusal_of, unchanged, redeem_refresh_token, redeem_ok,
  redeem_unknown, redeem_reused,
}
use nextcloud_mcp_connector.OAuth.Rotation.{
  IsLinear, IsLinear-redeem_refresh_token, fetch-rotated, insert-eq-some, rotate-eq-some,
}

rotates_digest :
    (digest : String) (moment : ℕ) (t : RefreshTokenRow)
    → rotates digest moment t ≡ true
    → has_digest digest t ≡ true
rotates_digest digest moment t h = ground arith

-- The digest is a key, so the row count of the UPDATE is the answer of the one row.
pub count-rotates :
    (digest : String) (moment : ℕ) (rows : List RefreshTokenRow) (t : RefreshTokenRow)
    → count (has_digest digest) rows ≤ 1
    → fetch (has_digest digest) rows ≡ some t
    → count (rotates digest moment) rows ≡ (if rotates digest moment t then 1 else 0)
count-rotates digest moment [] t one found = cc
count-rotates digest moment (x ∷ rows) t one found =
    elim (Bool-cases (str_eq x.token_hash digest)) [
      | inl same ↦ ground (
        arith,
        count_mono (rotates digest moment) (has_digest digest) rows
            (λ (y : RefreshTokenRow) (h : rotates digest moment y ≡ true).
              rotates_digest digest moment y h),
      )
      | inr other ↦ ground (arith, count-rotates digest moment rows t)
    ]

count-rotates_of_none :
    (digest : String) (moment : ℕ) (rows : List RefreshTokenRow)
    → fetch (has_digest digest) rows ≡ none
    → count (rotates digest moment) rows ≡ 0
count-rotates_of_none digest moment [] found = omega arith
count-rotates_of_none digest moment (x ∷ rows) found =
    ground (arith, count-rotates_of_none digest moment rows)

fetch-append :
    (p : RefreshTokenRow → Bool) (rows more : List RefreshTokenRow) (t : RefreshTokenRow)
    → fetch p rows ≡ some t
    → fetch p (rows ++ more) ≡ some t
fetch-append p [] more t h = cc
fetch-append p (x ∷ rows) more t h = ground (arith, fetch-append p rows more t)

module _ (token_hash : String → String) (token successor : String) (moment : ℕ) (db : Db) where
  -- A value that was never issued, or whose row is gone.
  pub redeem-unknown :
      fetch (has_digest (token_hash token)) db.refresh_tokens ≡ none
      → redeem_refresh_token token_hash token successor moment db ≡ some (db, redeem_unknown)
  unfolding redeem_refresh_token
  redeem-unknown missing =
      let counted = count-rotates_of_none (token_hash token) moment db.refresh_tokens missing in
      ground arith

  module _ (t : RefreshTokenRow) (linear : IsLinear db.refresh_tokens)
      (found : fetch (has_digest (token_hash token)) db.refresh_tokens ≡ some t) where
    -- Where the row does not rotate, the file stays and the row says why.
    pub redeem-refused :
        rotates (token_hash token) moment t ≡ false
        → redeem_refresh_token token_hash token successor moment db
          ≡ unchanged db (refusal_of t t.state)
    unfolding redeem_refresh_token
    redeem-refused still =
        let counted =
          count-rotates (token_hash token) moment db.refresh_tokens t
            (linear.one_row (token_hash token)) found in
        ground arith

    pub redeem-rotates :
        rotates (token_hash token) moment t ≡ true
        → redeem_refresh_token token_hash token successor moment db
          ≡ rotate token_hash token successor moment db
    unfolding redeem_refresh_token
    redeem-rotates turns =
        let counted =
          count-rotates (token_hash token) moment db.refresh_tokens t
            (linear.one_row (token_hash token)) found in
        ground arith

-- What a refusal reads from the row is never a success.
pub refusal-ne-ok :
    (t : RefreshTokenRow) (state : RefreshState) (db db' : Db) (auth_id family_id : String)
    → unchanged db (refusal_of t state) ≡ some (db', redeem_ok auth_id family_id)
    → ⊥
unfolding refusal_of
refusal-ne-ok t active db db' a f e = cc
refusal-ne-ok t used db db' a f e = cc
refusal-ne-ok t revoked db db' a f e = cc
refusal-ne-ok t (unknown text) db db' a f e = cc

module _ (token_hash : String → String) (token successor : String) (moment : ℕ) (db db' : Db)
    (auth_id family_id : String) (linear : IsLinear db.refresh_tokens)
    (e : redeem_refresh_token token_hash token successor moment db
      ≡ some (db', redeem_ok auth_id family_id)) where
  -- The row that a rotation has spent.
  pub spent_row :
      (t : RefreshTokenRow)
      → fetch (has_digest (token_hash token)) db.refresh_tokens ≡ some t
      → rotates (token_hash token) moment t ≡ true
      → (fetch (has_digest (token_hash token)) db'.refresh_tokens
          ≡ some (spend (token_hash successor) moment t))
        × (t.auth_id ≡ auth_id)
        × (t.family_id ≡ family_id)
  spent_row t found turns =
      let d = token_hash token in
      let counted = count-rotates d moment db.refresh_tokens t (linear.one_row d) found in
      let (t', found', _, after) =
        fetch-rotated d (token_hash successor) moment db.refresh_tokens (linear.one_row d)
          (ground arith) in
      let same : t' ≡ t = ground arith in
      let turned : rotate token_hash token successor moment db
          ≡ some (db', redeem_ok auth_id family_id) =
        sym (redeem-rotates token_hash token successor moment db t linear found turns) ∙ e in
      let (r, inserted) =
        rotate-eq-some token_hash token successor moment db db' (redeem_ok auth_id family_id)
          (spend (token_hash successor) moment t') after turned in
      let (_, rows) =
        insert-eq-some (token_hash successor) t'.auth_id t'.family_id moment _ db' inserted in
      (
        rw rows (
            fetch-append (has_digest d) _ _ _
              (after ∙ ap (λ x. some (spend (token_hash successor) moment x)) same)),
        ground arith,
        ground arith,
      )

  pub rotated_row :
      (t : RefreshTokenRow) × (fetch (has_digest (token_hash token)) db'.refresh_tokens
        ≡ some (spend (token_hash successor) moment t))
      × (t.auth_id ≡ auth_id)
      × (t.family_id ≡ family_id)
  rotated_row = elim (Option-cases (fetch (has_digest (token_hash token)) db.refresh_tokens)) [
    | inl missing ↦ cc (redeem-unknown token_hash token successor moment db missing)
    | inr (t, found) ↦ elim (Bool-cases (rotates (token_hash token) moment t)) [
      | inl turns ↦ let (after, a, f) = spent_row t found turns in (t, after, a, f)
      | inr still ↦ absurd (
          refusal-ne-ok t t.state db db' auth_id family_id
            (sym (redeem-refused token_hash token successor moment db t linear found still) ∙ e))
    ]
  ]

  -- A token that was rotated, in a file whose digests are keys: whoever presents it next to the file
  -- that the rotation left, at whatever moment and with whatever successor, is told that it was used,
  -- when, and which successor it has. The file stays as it is.
  pub redeem-redeem :
      (successor' : String) (moment' : ℕ)
      → redeem_refresh_token token_hash token successor' moment' db'
        ≡ some (db', redeem_reused auth_id family_id (some moment) (some (token_hash successor)))
  unfolding refusal_of
  redeem-redeem successor' moment' =
      let (t, found, a, f) = rotated_row in
      redeem-refused token_hash token successor' moment' db' (spend (token_hash successor) moment t)
        (IsLinear-redeem_refresh_token token_hash token successor moment db db'
          (redeem_ok auth_id family_id) linear e)
        found (ground arith)
      ∙ cc
