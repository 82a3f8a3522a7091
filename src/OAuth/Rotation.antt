-- ===== src/OAuth/Rotation.antt =====
-- The rotation of refresh tokens (oauth/store.py): a family has one active token at most.
use nextcloud_mcp_connector.Base.{
  ℕ, ◌+◌, ◌≤◌, String, ◌≡◌, refl, Bool, true, false, ◌&&◌, not, some, List, [], ◌∷◌, ◌++◌, arith,
  str_eq, eq_iff, any, count, update, fetch, delete, if◌then◌else◌, Bool-cases, inl, inr,
}
use nextcloud_mcp_connector.Base.Counting.{
  count-append, count-delete-le, count-update-le, count-update, count-eq-zero, count_mono,
  update_of_count_zero,
}
use nextcloud_mcp_connector.OAuth.Rows.{Db, RefreshTokenRow, revoked, is_active, is_revoked}
use nextcloud_mcp_connector.OAuth.Store.Tokens.{
  new_refresh_token, insert_refresh_token, rotates, has_digest, spend, in_family, rotate,
  redeem_refresh_token, revoke_family, redeem_ok, RefreshRedemption,
}

-- An active token of this family.
abbrev pub is_live_in : String → RefreshTokenRow → Bool
is_live_in family_id t = in_family family_id t && is_active t.state

-- The digest is the primary key, and no family has a second active token.
pub record IsLinear (rows : List RefreshTokenRow) : Type 0 where
  pub one_row : (digest : String) → count (has_digest digest) rows ≤ 1
  pub one_live : (family_id : String) → count (is_live_in family_id) rows ≤ 1

pub IsLinear-nil : IsLinear []
IsLinear-nil = record { one_row = λ d. omega arith; one_live = λ f. omega arith }

pub IsLinear-delete :
    (q : RefreshTokenRow → Bool) (rows : List RefreshTokenRow)
    → IsLinear rows
    → IsLinear (delete q rows)
IsLinear-delete q rows h = record {
  one_row = λ d. omega (arith, count-delete-le (has_digest d) q rows, h.one_row d);
  one_live = λ f. omega (arith, count-delete-le (is_live_in f) q rows, h.one_live f);
}

-- The row of a token that rotates, once the UPDATE has run.
module _ (digest successor : String) (moment : ℕ) where
  rotates_at_most :
      (rows : List RefreshTokenRow)
      → count (rotates digest moment) rows ≤ count (has_digest digest) rows
  rotates_at_most rows =
      count_mono (rotates digest moment) (has_digest digest) rows (λ t h. ground arith)

  rotating_head :
      (t : RefreshTokenRow) (rows : List RefreshTokenRow)
      → count (has_digest digest) (t ∷ rows) ≤ 1
      → count (rotates digest moment) (t ∷ rows) ≡ 1
      → str_eq t.token_hash digest ≡ true
      → rotates digest moment t ≡ true
  rotating_head t rows one hit same = ground (arith, rotates_at_most rows)

  pub fetch-rotated :
      (rows : List RefreshTokenRow)
      → count (has_digest digest) rows ≤ 1
      → count (rotates digest moment) rows ≡ 1
      → (t : RefreshTokenRow) × (fetch (has_digest digest) rows ≡ some t)
        × (rotates digest moment t ≡ true)
        × (fetch (has_digest digest) (update (rotates digest moment) (spend successor moment) rows)
            ≡ some (spend successor moment t))
  fetch-rotated [] one hit = absurd (omega arith)
  fetch-rotated (x ∷ rows) one hit = elim (Bool-cases (str_eq x.token_hash digest)) [
    | inl same ↦
        let e : rotates digest moment x ≡ true = rotating_head x rows one hit same in
        (x, ground arith, e, ground arith)
    | inr other ↦
        let (t, found, e, after) = fetch-rotated rows (ground arith) (ground arith) in
        (t, rw other found, e, ground arith)
  ]

  -- The UPDATE takes the one active token out of the family of its row, and of no other.
  pub count-rotated :
      (rows : List RefreshTokenRow) (t : RefreshTokenRow) (family_id : String)
      → count (has_digest digest) rows ≤ 1
      → count (rotates digest moment) rows ≡ 1
      → fetch (has_digest digest) rows ≡ some t
      → count (is_live_in family_id) (update (rotates digest moment) (spend successor moment) rows)
          + (if in_family family_id t then 1 else 0)
        ≡ count (is_live_in family_id) rows
  count-rotated [] t f one hit found = absurd (omega arith)
  count-rotated (x ∷ rows) t f one hit found = elim (Bool-cases (str_eq x.token_hash digest)) [
    | inl same ↦
        let e : rotates digest moment x ≡ true = rotating_head x rows one hit same in
        let z : count (rotates digest moment) rows ≡ 0 = ground (arith, rotates_at_most rows) in
        let u = update_of_count_zero (rotates digest moment) (spend successor moment) rows z in
        ground arith
    | inr other ↦ ground (arith, count-rotated rows t f)
  ]

-- A row may be added where its digest is new and its family has no active token.
IsLinear-append :
    (rows : List RefreshTokenRow) (t : RefreshTokenRow)
    → ((d : String) → count (has_digest d) rows ≤ 1)
    → ((f : String) → count (is_live_in f) rows + (if in_family f t then 1 else 0) ≤ 1)
    → count (has_digest t.token_hash) rows ≡ 0
    → IsLinear (rows ++ t ∷ [])
IsLinear-append rows t one live fresh = record {
  one_row = λ d.
      ground
        (arith, count-append (has_digest d) rows (t ∷ []), one d, fresh, eq_iff t.token_hash d);
  one_live = λ f. ground (arith, count-append (is_live_in f) rows (t ∷ []), live f);
}

pub insert-eq-some :
    (digest auth_id family_id : String) (moment : ℕ) (db db' : Db)
    → insert_refresh_token digest auth_id family_id moment db ≡ some db'
    → (any (has_digest digest) db.refresh_tokens ≡ false)
      × (db'.refresh_tokens
          ≡ db.refresh_tokens ++ new_refresh_token digest auth_id family_id moment ∷ [])
unfolding insert_refresh_token
insert-eq-some digest auth_id family_id moment db db' e = ground arith

live_at_most :
    (family_id : String) (rows : List RefreshTokenRow)
    → count (is_live_in family_id) rows ≤ count (in_family family_id) rows
live_at_most f rows = count_mono (is_live_in f) (in_family f) rows (λ t h. ground arith)

-- Where no row names the family, none is active in it under an equal name.
no_live :
    (family_id f : String) (rows : List RefreshTokenRow)
    → any (in_family family_id) rows ≡ false
    → str_eq family_id f ≡ true
    → count (is_live_in f) rows ≡ 0
no_live family_id f rows fresh same =
    rw (← (eq_iff family_id f).0 same)
      (omega (arith, live_at_most family_id rows, count-eq-zero (in_family family_id) rows fresh))

-- Opening a family that no row names.
pub IsLinear-insert :
    (digest auth_id family_id : String) (moment : ℕ) (db db' : Db)
    → IsLinear db.refresh_tokens
    → any (in_family family_id) db.refresh_tokens ≡ false
    → insert_refresh_token digest auth_id family_id moment db ≡ some db'
    → IsLinear db'.refresh_tokens
IsLinear-insert digest auth_id family_id moment db db' h fresh e =
    let (new, rows) = insert-eq-some digest auth_id family_id moment db db' e in
    rw rows (
      IsLinear-append db.refresh_tokens (new_refresh_token digest auth_id family_id moment)
        h.one_row (λ f. ground (arith, h.one_live f, no_live family_id f db.refresh_tokens fresh))
        (count-eq-zero (has_digest digest) db.refresh_tokens new))

pub rotate-eq-some :
    (token_hash : String → String) (token successor : String) (moment : ℕ) (db db' : Db)
    (r : RefreshRedemption) (t : RefreshTokenRow)
    → fetch (has_digest (token_hash token)) (
        update
          (rotates (token_hash token) moment)
          (spend (token_hash successor) moment)
          db.refresh_tokens)
      ≡ some t
    → rotate token_hash token successor moment db ≡ some (db', r)
    → (r ≡ redeem_ok t.auth_id t.family_id)
      × (insert_refresh_token (token_hash successor) t.auth_id t.family_id moment (record db {
        refresh_tokens =
            update
              (rotates (token_hash token) moment)
              (spend (token_hash successor) moment)
              db.refresh_tokens;
      })
          ≡ some db')
unfolding rotate
rotate-eq-some token_hash token successor moment db db' r t found e = ground arith

pub IsLinear-rotate :
    (token_hash : String → String) (token successor : String) (moment : ℕ) (db db' : Db)
    (r : RefreshRedemption)
    → IsLinear db.refresh_tokens
    → count (rotates (token_hash token) moment) db.refresh_tokens ≡ 1
    → rotate token_hash token successor moment db ≡ some (db', r)
    → IsLinear db'.refresh_tokens
IsLinear-rotate token_hash token successor moment db db' r h hit e =
    let d = token_hash token in
    let (t, found, _, after) =
      fetch-rotated d (token_hash successor) moment db.refresh_tokens (h.one_row d) hit in
    let (_, inserted) =
      rotate-eq-some token_hash token successor moment db db' r
        (spend (token_hash successor) moment t) after e in
    let (new, rows) =
      insert-eq-some (token_hash successor) t.auth_id t.family_id moment _ db' inserted in
    rw rows (
      IsLinear-append _ (new_refresh_token (token_hash successor) t.auth_id t.family_id moment)
        (λ k.
          rw
            (count-update (has_digest k) (rotates d moment) (spend (token_hash successor) moment)
              db.refresh_tokens (λ x. refl))
            (h.one_row k))
        (λ f. omega (
          arith,
          count-rotated d (token_hash successor) moment db.refresh_tokens t f (h.one_row d) hit
              found,
          h.one_live f,
        ))
        (count-eq-zero (has_digest (token_hash successor)) _ new))

pub IsLinear-redeem_refresh_token :
    (token_hash : String → String) (token successor : String) (moment : ℕ) (db db' : Db)
    (r : RefreshRedemption)
    → IsLinear db.refresh_tokens
    → redeem_refresh_token token_hash token successor moment db ≡ some (db', r)
    → IsLinear db'.refresh_tokens
unfolding redeem_refresh_token
IsLinear-redeem_refresh_token token_hash token successor moment db db' r h e =
    ground (arith, IsLinear-rotate token_hash token successor moment db db' r h)

pub IsLinear-revoke_family :
    (family_id : String) (moment : ℕ) (db : Db)
    → IsLinear db.refresh_tokens
    → IsLinear (revoke_family family_id moment db).refresh_tokens
unfolding revoke_family
IsLinear-revoke_family family_id moment db h = record {
  one_row = λ d.
      rw
        (count-update (has_digest d) (λ t. in_family family_id t && not (is_revoked t.state))
          (λ t. record t { state = revoked }) db.refresh_tokens (λ x. refl))
        (h.one_row d);
  one_live = λ f. omega (
    arith,
    count-update-le (is_live_in f) (λ t. in_family family_id t && not (is_revoked t.state))
        (λ t. record t { state = revoked }) db.refresh_tokens (λ x a b. ground arith),
    h.one_live f,
  );
}
