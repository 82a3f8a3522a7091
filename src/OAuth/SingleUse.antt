-- ===== src/OAuth/SingleUse.antt =====
-- Codes and flows are good for one decision (oauth/store.py). `code_hash` and `flow_id` are primary
-- keys, so no two rows carry one value; the theorems take that as a hypothesis on the file.
use nextcloud_mcp_connector.Base.{
  ℕ, ◌≤◌, String, ◌≡◌, refl, Bool, true, false, none, some, List, [], ◌∷◌, arith, str_eq, leb,
  count, update, delete, Bool-cases, inl, inr,
}
use nextcloud_mcp_connector.Base.Counting.{
  count_mono, count-update, count-delete-le, fetch_of_count_zero,
}
use nextcloud_mcp_connector.OAuth.Rows.{Db, AuthCodeRow, FlowRow}
use nextcloud_mcp_connector.OAuth.Store.Purge.{purge_expired_rows}
use nextcloud_mcp_connector.OAuth.Store.Flows.{is_running, spend_flow}
use nextcloud_mcp_connector.OAuth.Store.Codes.{
  CodeBinding, is_redeemable, load_auth_code, redeem_auth_code, redeem_flow_for_code,
}

abbrev pub has_code_hash : String → AuthCodeRow → Bool
has_code_hash digest c = str_eq c.code_hash digest

abbrev pub has_flow_id : String → FlowRow → Bool
has_flow_id id f = str_eq f.flow_id id

abbrev mark : ℕ → AuthCodeRow → AuthCodeRow
mark moment c = record c { used_at = some moment }

redeemable_at_most :
    (digest : String) (moment : ℕ) (codes : List AuthCodeRow)
    → count (is_redeemable digest moment) codes ≤ count (has_code_hash digest) codes
redeemable_at_most digest moment codes =
    count_mono (is_redeemable digest moment) (has_code_hash digest) codes (λ c h. ground arith)

running_flow :
    (id : String) (moment : ℕ) (f : FlowRow)
    → is_running id moment f ≡ true
    → has_flow_id id f ≡ true
running_flow id moment f h = ground arith

-- Once the UPDATE has changed the one row of the code, no row of it is redeemable.
none_redeemable :
    (digest : String) (moment moment' : ℕ) (codes : List AuthCodeRow)
    → count (has_code_hash digest) codes ≤ 1
    → count (is_redeemable digest moment) codes ≡ 1
    → count
        (is_redeemable digest moment')
        (update (is_redeemable digest moment) (mark moment) codes)
      ≡ 0
none_redeemable digest moment moment' [] one hit = absurd (omega arith)
none_redeemable digest moment moment' (c ∷ codes) one hit =
    elim (Bool-cases (has_code_hash digest c)) [
      | inl same ↦
          let rest = update (is_redeemable digest moment) (mark moment) codes in
          ground (
            arith,
            redeemable_at_most digest moment codes,
            redeemable_at_most digest moment' rest,
            count-update (has_code_hash digest) (is_redeemable digest moment) (mark moment) codes
                (λ (x : AuthCodeRow). refl),
          )
      | inr other ↦ ground (arith, none_redeemable digest moment moment' codes)
    ]

module _ (token_hash : String → String) (code : String) (moment : ℕ) (db db' : Db)
    (row : AuthCodeRow) (key : count (has_code_hash (token_hash code)) db.auth_codes ≤ 1)
    (e : redeem_auth_code token_hash code moment db ≡ (db', some row)) where
  spent : (moment' : ℕ) → count (is_redeemable (token_hash code) moment') db'.auth_codes ≡ 0
  unfolding redeem_auth_code
  spent moment' = ground (arith, none_redeemable (token_hash code) moment moment' db.auth_codes key)

  -- A code that was redeemed, in a file where its hash is a key, is refused from then on, at every
  -- moment: it is neither read back nor redeemed a second time.
  pub redeem-redeem_auth_code :
      (moment' : ℕ)
      → (load_auth_code token_hash code moment' db' ≡ none)
        × ((redeem_auth_code token_hash code moment' db').1 ≡ none)
  unfolding redeem_auth_code load_auth_code
  redeem-redeem_auth_code moment' =
      (fetch_of_count_zero _ db'.auth_codes (spent moment'), ground (arith, spent moment'))

no_flow_left :
    (id : String) (moment moment' : ℕ) (flows : List FlowRow)
    → count (has_flow_id id) flows ≤ 1
    → count (is_running id moment) flows ≡ 1
    → count (is_running id moment') (delete (is_running id moment) flows) ≡ 0
no_flow_left id moment moment' [] one hit = absurd (omega arith)
no_flow_left id moment moment' (f ∷ flows) one hit = elim (Bool-cases (has_flow_id id f)) [
  | inl same ↦ ground (
    arith,
    count_mono (is_running id moment) (has_flow_id id) flows
        (λ (x : FlowRow) (h : is_running id moment x ≡ true). running_flow id moment x h),
    count_mono (is_running id moment') (has_flow_id id) flows
        (λ (x : FlowRow) (h : is_running id moment' x ≡ true). running_flow id moment' x h),
    count-delete-le (is_running id moment') (is_running id moment) flows,
  )
  | inr other ↦ ground (arith, no_flow_left id moment moment' flows)
]

module _ (token_hash : String → String) (id code : String) (b : CodeBinding) (moment : ℕ)
    (db db' : Db) (key : count (has_flow_id id) db.flows ≤ 1)
    (e : redeem_flow_for_code token_hash id code b moment db ≡ some (db', true)) where
  claimed_flow :
      (count (is_running id moment) db.flows ≡ 1)
      × (db'.flows ≡ delete (λ f. leb f.expires_at moment) (delete (is_running id moment) db.flows))
  unfolding redeem_flow_for_code purge_expired_rows
  claimed_flow = ground arith

  -- One flow gives one code: once it has been claimed, in a file where its id is a key, every later
  -- claim, whatever code it brings and at whatever moment, is lost.
  pub redeem-redeem_flow_for_code :
      (code' : String) (b' : CodeBinding) (moment' : ℕ)
      → redeem_flow_for_code token_hash id code' b' moment' db'
        ≡ some ((spend_flow id moment' db').0, false)
  unfolding redeem_flow_for_code spend_flow
  redeem-redeem_flow_for_code code' b' moment' =
      let (hit, flows) = claimed_flow in
      let gone : count (is_running id moment') db'.flows ≡ 0 = rw flows (
        omega (
          arith,
          count-delete-le (is_running id moment') (λ f. leb f.expires_at moment)
              (delete (is_running id moment) db.flows),
          no_flow_left id moment moment' db.flows key hit,
        )) in
      ground arith
