-- ===== src/OAuth/Verifier/Cache.antt =====
-- oauth/verifier.py, `_cached`, `_remember` and `invalidate`. The monotonic clock counts in ticks,
-- `ttl` of them to VALIDATION_CACHE_TTL.
use nextcloud_mcp_connector.Base.{
  ℕ, ◌+◌, String, Option, none, some, List, [], str_eq, leb, length, if◌then◌else◌,
}
use nextcloud_mcp_connector.Base.Dict.{Dict, get, put, remove}

abbrev pub cache_limit : ℕ
cache_limit = 1024

-- The `AccessToken` of the SDK, with the two claims as fields.
pub record AccessGrant : Type 0 where
  pub token : String
  pub client_id : String
  pub scopes : List String
  pub expires_at : ℕ
  pub resource : String
  pub subject : String
  pub auth_id : String
  pub client_name : String

pub record Cached : Type 0 where
  pub digest : String
  pub access : AccessGrant
  pub expires_at : ℕ

unfoldable pub cached :
    (digest : String) (tick : ℕ) → Dict Cached → Dict Cached × Option AccessGrant
cached digest tick cache = elim (get cache digest) [
  | none ↦ (cache, none)
  | some entry ↦
      if leb entry.expires_at tick
      then (remove cache digest, none)
      else if str_eq entry.digest digest
      then (cache, some entry.access)
      else (cache, none)
]

unfoldable pub remember :
    (ttl : ℕ) (digest : String) (access : AccessGrant) (tick : ℕ) → Dict Cached → Dict Cached
remember ttl digest access tick cache =
    let kept = if leb cache_limit (length cache) then [] else cache in
    put kept digest (record { digest = digest; access = access; expires_at = tick + ttl })

abbrev pub invalidate : Dict Cached → Dict Cached
invalidate cache = []
