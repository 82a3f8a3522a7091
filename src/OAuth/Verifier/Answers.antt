-- ===== src/OAuth/Verifier/Answers.antt =====
-- What a verified token stands for (oauth/verifier.py).
use nextcloud_mcp_connector.Base.{
  ℕ, suc, ◌+◌, ◌≤◌, String, ◌≡◌, ◌≢◌, sym, ◌∙◌, Bool, true, not, ◌||◌, Option, none, some, List, [],
  ◌∷◌, arith, str_eq, leb, length, is_some, Bool-cases, Option-cases, inl, inr,
}
use nextcloud_mcp_connector.Base.Dict.{Dict, get, put, remove}
use nextcloud_mcp_connector.Base.Text.{is_empty}
use nextcloud_mcp_connector.OAuth.Rows.{Db, AuthorizationRow, AccessTokenRow}
use nextcloud_mcp_connector.OAuth.Store.Authorizations.{load_authorization, revoke_authorization}
use nextcloud_mcp_connector.OAuth.Store.Tokens.{load_access_token}
use nextcloud_mcp_connector.OAuth.Revocation.{load_access_token-revoke_authorization}
use nextcloud_mcp_connector.OAuth.Verifier.Cache.{
  AccessGrant, Cached, cache_limit, cached, remember,
}
use nextcloud_mcp_connector.OAuth.Verifier.Verify.{
  Verifier, grant_of, admit_token, verify_stored, verify_token,
}

length-put {ℓ} :
    {V : Type ℓ} (d : Dict V) (k : String) (v : V) → length (put d k v) ≤ suc (length d)
unfolding put
length-put [] k v = omega arith
length-put ((j, w) ∷ d) k v = ground (arith, length-put d k v)

length-remove {ℓ} : {V : Type ℓ} (d : Dict V) (k : String) → length (remove d k) ≤ length d
unfolding remove
length-remove [] k = omega arith
length-remove ((j, w) ∷ d) k = ground (arith, length-remove d k)

length-remember :
    (ttl : ℕ) (digest : String) (access : AccessGrant) (tick : ℕ) (d : Dict Cached)
    → length (remember ttl digest access tick d) ≤ cache_limit
unfolding remember
length-remember ttl digest access tick d =
    let entry : Cached = record { digest = digest; access = access; expires_at = tick + ttl } in
    ground (arith, length-put [] digest entry, length-put d digest entry)

length-cached :
    (digest : String) (tick : ℕ) (d : Dict Cached) → length ((cached digest tick d).0) ≤ length d
unfolding cached
length-cached digest tick d = elim (Option-cases (get d digest)) [
  | inl missing ↦ ground (arith, missing)
  | inr (entry, found) ↦ elim (Bool-cases (leb entry.expires_at tick)) [
    | inl old ↦ ground (arith, found, old, length-remove d digest)
    | inr young ↦ elim (Bool-cases (str_eq entry.digest digest)) [
      | inl same ↦ ground (arith, found, young, same)
      | inr other ↦ ground (arith, found, young, other)
    ]
  ]
]

module _ (token_hash : String → String) (audience_ok : String → Bool)
    (words_of : String → List String) (lookup : String → Db → Db × Option String) (ttl : ℕ)
    (readable : Bool) (token : String) (now tick : ℕ) where
  -- The evidence for a fresh answer.
  abbrev pub IsGranted : Verifier → AccessGrant → Type 0
  IsGranted v access =
      (row : AccessTokenRow) × (owner : AuthorizationRow) × (a : AuthorizationRow)
      × (load_access_token token_hash token now v.db ≡ some (row, owner))
      × (load_authorization row.auth_id v.db ≡ some a)
      × (a.revoked_at ≡ none)
      × (audience_ok row.resource ≡ true)
      × (access.auth_id ≡ row.auth_id)

  IsGranted-by_store :
      (v v' : Verifier) (access : AccessGrant)
      → verify_stored token_hash audience_ok words_of lookup ttl readable token now tick v
        ≡ (v', some access)
      → IsGranted v access
  unfolding verify_stored admit_token
  IsGranted-by_store v v' access e = elim (Bool-cases readable) [
    | inr closed ↦ ground (arith, closed)
    | inl legible ↦ elim (Option-cases (load_access_token token_hash token now v.db)) [
      | inl unknown ↦ ground (arith, legible, unknown)
      | inr ((row, owner), loaded) ↦ elim (Option-cases (load_authorization row.auth_id v.db)) [
        | inl gone ↦ ground (arith, legible, loaded, gone)
        | inr (a, found) ↦
            elim (Bool-cases
              (is_some a.revoked_at || (is_empty row.resource || not (audience_ok row.resource)))) [
                | inl refused ↦ ground (arith, legible, loaded, found, refused)
                | inr meant ↦ elim (Option-cases ((lookup a.client_id v.db).1)) [
                  | inl blocked ↦ ground (arith, legible, loaded, found, meant, blocked)
                  | inr (name, known) ↦ (
                    row,
                    owner,
                    a,
                    loaded,
                    found,
                    ground (arith, meant),
                    ground (arith, meant),
                    ground (arith, legible, loaded, found, meant, known),
                  )
                ]
              ]
      ]
    ]
  ]

  -- An entry that has run out, or was never there, answers nothing.
  cached-none :
      (d : Dict Cached)
      → ((entry : Cached) → get d (token_hash token) ≡ some entry → entry.expires_at ≤ tick)
      → (cached (token_hash token) tick d).1 ≡ none
  unfolding cached
  cached-none d over = elim (Option-cases (get d (token_hash token))) [
    | inl missing ↦ ground (arith, missing)
    | inr (entry, found) ↦ ground (arith, found, over entry found)
  ]

  -- A token that is accepted, where the cache has no entry for it whose window is still open, is
  -- valid in the file at this moment: its row loads, its connection is there and not revoked, its
  -- audience is this server's, and the answer names that connection.
  pub verify_token-IsGranted :
      (v v' : Verifier) (access : AccessGrant)
      → ((entry : Cached) → get v.cache (token_hash token) ≡ some entry → entry.expires_at ≤ tick)
      → verify_token token_hash audience_ok words_of lookup ttl readable token now tick v
        ≡ (v', some access)
      → IsGranted v access
  unfolding verify_token
  verify_token-IsGranted v v' access over e =
      let absent = cached-none v.cache over in
      elim (Bool-cases (is_empty token)) [
        | inl empty ↦ ground (arith, empty)
        | inr given ↦
            IsGranted-by_store (record v { cache = (cached (token_hash token) tick v.cache).0 }) v'
              access (ground (arith, absent, given))
      ]

  -- When a connection was revoked and the cache was emptied with it, no token of that connection
  -- is accepted any more.
  pub verify_token-revoke_authorization :
      (auth_id : String) (moment : ℕ) (db : Db) (v' : Verifier) (access : AccessGrant)
      → verify_token token_hash audience_ok words_of lookup ttl readable token now tick
          (record { db = revoke_authorization auth_id moment db; cache = [] })
        ≡ (v', some access)
      → access.auth_id ≢ auth_id
  unfolding get
  verify_token-revoke_authorization auth_id moment db v' access e =
      let v : Verifier = record { db = revoke_authorization auth_id moment db; cache = [] } in
      let (row, owner, a, loaded, _, _, _, named) =
        verify_token-IsGranted v v' access (λ entry h. cc) e in
      let apart =
        load_access_token-revoke_authorization token_hash auth_id moment db token now row owner
          loaded in
      λ same. apart (sym named ∙ same)

  length-verify_stored :
      (v : Verifier)
      → length v.cache ≤ cache_limit
      → length (
          (verify_stored token_hash audience_ok words_of lookup ttl readable token now tick
            v).0.cache)
        ≤ cache_limit
  unfolding verify_stored admit_token
  length-verify_stored v few = elim (Bool-cases readable) [
    | inr closed ↦ ground (arith, closed)
    | inl legible ↦ elim (Option-cases (load_access_token token_hash token now v.db)) [
      | inl unknown ↦ ground (arith, legible, unknown)
      | inr ((row, owner), loaded) ↦ elim (Option-cases (load_authorization row.auth_id v.db)) [
        | inl gone ↦ ground (arith, legible, loaded, gone)
        | inr (a, found) ↦
            elim (Bool-cases
              (is_some a.revoked_at || (is_empty row.resource || not (audience_ok row.resource)))) [
                | inl refused ↦ ground (arith, legible, loaded, found, refused)
                | inr meant ↦ elim (Option-cases ((lookup a.client_id v.db).1)) [
                  | inl blocked ↦ ground (arith, legible, loaded, found, meant, blocked)
                  | inr (name, known) ↦ ground (
                    arith,
                    legible,
                    loaded,
                    found,
                    meant,
                    known,
                    length-remember ttl (token_hash token)
                        (grant_of token_hash audience_ok words_of lookup ttl token row owner a name)
                        tick v.cache,
                  )
                ]
              ]
      ]
    ]
  ]

  -- The cache never outgrows its limit.
  pub length-verify_token :
      (v : Verifier)
      → length v.cache ≤ cache_limit
      → length (
          (verify_token token_hash audience_ok words_of lookup ttl readable token now tick
            v).0.cache)
        ≤ cache_limit
  unfolding verify_token
  length-verify_token v few =
      let shorter = length-cached (token_hash token) tick v.cache in
      elim (Bool-cases (is_empty token)) [
        | inl empty ↦ ground (arith, empty)
        | inr given ↦ elim (Option-cases ((cached (token_hash token) tick v.cache).1)) [
          | inr (access, hit) ↦ ground (arith, given, hit, shorter)
          | inl miss ↦ ground (
            arith,
            given,
            miss,
            length-verify_stored (record v { cache = (cached (token_hash token) tick v.cache).0 })
                (omega (arith, shorter)),
          )
        ]
      ]
