-- ===== src/Exclusion/Flight.antt =====
-- nextcloud/exclusion.py, `load_scope` and what it runs: the listing of the tags, one report for each
-- spelling, one listing again. The clock counts in ticks, `ttl` of them to TTL_SECONDS. What
-- Nextcloud answers is a parameter; where the deadline of the flight strikes, the calls under way end
-- in `deadline`.
use nextcloud_mcp_connector.Base.{
  ℕ, ◌-◌, String, Bool, true, false, not, ◌&&◌, ◌||◌, Option, none, some, List, [], ◌∷◌, all, any,
  str_eq, ltb, ◌==◌, if◌then◌else◌,
}
use nextcloud_mcp_connector.Exclusion.Scope.{
  Tag, TaggedSet, TagScope, Why, timeout, unreachable, status, stale_twice, unparsable,
  nothing_tagged, refused, active_scope,
}

-- How a call of Nextcloud ends: with a value or with one of the exceptions that `load_scope` maps.
pub data Call (A : Type 0) : Type 0 where
  answered : A → Call A
  timed_out : Call A
  deadline : Call A
  http_error : Call A
  tool_error : Call A
  value_error : Call A

pub record TagListing : Type 0 where
  pub status : ℕ
  pub tags : List Tag

-- What the first and the second listing answer, and the reports of the first and second round.
pub record Nextcloud : Type 0 where
  pub list_tags : (again : Bool) → Call TagListing
  pub tagged_nodes : (again : Bool) → String → Call TaggedSet

pub record Key : Type 0 where
  pub base_url : String
  pub user : String

abbrev pub same_key : Key → Key → Bool
same_key j k = str_eq j.base_url k.base_url && str_eq j.user k.user

pub record Entry : Type 0 where
  pub stored_at : ℕ
  pub ids : List String

abbrev pub Cache : Type 0
Cache = Key → Option Entry

abbrev pub clear_cache : Cache
clear_cache key = none

unfoldable pub cached_ids : (ttl now : ℕ) → Key → Cache → Option (List String)
cached_ids ttl now key cache = elim (cache key) [
  | none ↦ none
  | some entry ↦ if ltb (now - entry.stored_at) ttl then some entry.ids else none
]

unfoldable pub store_ids : (now : ℕ) → Key → List String → Cache → Cache
store_ids now key [] cache = cache
store_ids now key (i ∷ ids) cache =
    λ k. if same_key key k then some (record { stored_at = now; ids = i ∷ ids }) else cache k

unfoldable pub drop_ids : Key → Cache → Cache
drop_ids key cache = λ k. if same_key key k then none else cache k

-- The mapping of the exceptions.
unfoldable pub why_of : {A : Type 0} → Call A → Why
why_of (answered x) = unparsable
why_of timed_out = timeout
why_of deadline = timeout
why_of http_error = unreachable
why_of tool_error = unparsable
why_of value_error = unparsable

-- What the listing decides: a scope at once, or the ids to ask for.
pub data Fresh : Type 0 where
  decided : TagScope → Fresh
  asks : List String → Fresh

unfoldable pub keep_ids : (now : ℕ) (key : Key) (ids : List String) → Cache → Cache × Fresh
unfolding store_ids
keep_ids now key [] cache = (cache, decided nothing_tagged)
keep_ids now key (i ∷ ids) cache = (store_ids now key (i ∷ ids) cache, asks (i ∷ ids))

unfoldable pub read_listing :
    (ids_of : List Tag → Option (List String)) (now : ℕ) (key : Key)
    → Call TagListing
    → Cache
    → Cache × Fresh
unfolding keep_ids why_of
read_listing ids_of now key (answered listing) cache =
    if not (listing.status == 207)
    then (cache, decided (refused status))
    else elim (ids_of listing.tags) [
      | none ↦ (cache, decided (refused unparsable))
      | some ids ↦ keep_ids now key ids cache
    ]
read_listing ids_of now key raised cache = (cache, decided (refused (why_of raised)))

-- `_report_all`: every report ends, then the first failure is raised.
pub data Reports : Type 0 where
  collected : List TaggedSet → Reports
  failed : Why → Reports

unfoldable pub with_answer : TaggedSet → Reports → Reports
with_answer s (collected sets) = collected (s ∷ sets)
with_answer s (failed why) = failed why

unfoldable pub collect : (String → Call TaggedSet) → List String → Reports
unfolding with_answer why_of
collect ask [] = collected []
collect ask (i ∷ ids) =
    let rest = collect ask ids in
    elim (ask i) [ answered s ↦ with_answer s rest | raised ↦ failed (why_of raised) ]

abbrev pub is_cut : {A : Type 0} → Call A → Bool
is_cut deadline = true
is_cut _ = false

unfoldable pub report_all : (String → Call TaggedSet) → List String → Reports
unfolding collect
report_all ask ids = if any (λ i. is_cut (ask i)) ids then failed timeout else collect ask ids

abbrev pub is_fine : TaggedSet → Bool
is_fine s = s.status == 207

abbrev pub is_fine_or_stale : TaggedSet → Bool
is_fine_or_stale s = s.status == 207 || s.status == 412

-- `statuses == {207}`
abbrev pub all_fine : List TaggedSet → Bool
all_fine [] = false
all_fine (s ∷ sets) = all is_fine (s ∷ sets)

-- The second round: what is stale again stays forgotten.
unfoldable pub second_round : (key : Key) → Reports → Cache → Cache × TagScope
unfolding active_scope drop_ids
second_round key (failed why) cache = (cache, refused why)
second_round key (collected sets) cache =
    if all_fine sets
    then (cache, active_scope sets)
    else if all is_fine_or_stale sets
    then (drop_ids key cache, refused stale_twice)
    else (cache, refused status)

-- What the second listing leads to.
unfoldable pub after_second : Nextcloud → Key → Cache × Fresh → Cache × TagScope
unfolding second_round report_all
after_second nc key (cache, decided scope) = (cache, scope)
after_second nc key (cache, asks ids) =
    second_round key (report_all (nc.tagged_nodes true) ids) cache

module _ (ids_of : List Tag → Option (List String)) where
  -- At least one id went stale: forget the ids, list once more, ask again.
  unfoldable pub list_again : Nextcloud → (now : ℕ) → Key → Cache → Cache × TagScope
  unfolding read_listing after_second drop_ids
  list_again nc now key cache =
      after_second nc key (read_listing ids_of now key (nc.list_tags true) (drop_ids key cache))

  unfoldable pub first_round : Nextcloud → (now : ℕ) → Key → Reports → Cache → Cache × TagScope
  unfolding list_again active_scope
  first_round nc now key (failed why) cache = (cache, refused why)
  first_round nc now key (collected sets) cache =
      if all_fine sets
      then (cache, active_scope sets)
      else if all is_fine_or_stale sets
      then list_again nc now key cache
      else (cache, refused status)

  -- What the cached ids or the first listing lead to.
  unfoldable pub after_first : Nextcloud → (now : ℕ) → Key → Cache × Fresh → Cache × TagScope
  unfolding first_round report_all
  after_first nc now key (cache, decided scope) = (cache, scope)
  after_first nc now key (cache, asks ids) =
      first_round nc now key (report_all (nc.tagged_nodes false) ids) cache

  -- `_flight` under `load_scope`
  unfoldable pub load_scope : (ttl : ℕ) → Nextcloud → (now : ℕ) → Key → Cache → Cache × TagScope
  unfolding after_first cached_ids read_listing
  load_scope ttl nc now key cache = elim (cached_ids ttl now key cache) [
    | some ids ↦ after_first nc now key (cache, asks ids)
    | none ↦ after_first nc now key (read_listing ids_of now key (nc.list_tags false) cache)
  ]
