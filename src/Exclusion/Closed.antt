-- ===== src/Exclusion/Closed.antt =====
-- What each answer of the flight rests on (nextcloud/exclusion.py, `load_scope`).
use nextcloud_mcp_connector.Base.{
  length, ◌≤◌, ℕ, String, ◌≡◌, refl, Bool, true, false, Option, none, some, List, [], ◌∷◌, all, All,
  arith, ◌==◌, Bool-cases, Option-cases, inl, inr,
}
use nextcloud_mcp_connector.Exclusion.Scope.{
  exclude_tag_ids, Tag, TaggedSet, TagScope, active, unverifiable, nothing_tagged, all_nodes,
  active_scope,
}
use nextcloud_mcp_connector.Exclusion.Flight.{
  Nextcloud, Key, Cache, TagListing, Call, answered, timed_out, deadline, http_error, tool_error,
  value_error, Fresh, decided, asks, Reports, collected, failed, keep_ids, read_listing,
  after_second, after_first, report_all, all_fine, is_fine_or_stale, second_round, list_again,
  first_round, load_scope, cached_ids, drop_ids,
}
use nextcloud_mcp_connector.Exclusion.Spellings.{AreSpellings, exclude_tag_ids-AreSpellings}
use nextcloud_mcp_connector.Exclusion.United.{
  unite-withholds, unite-closed, IsReported, report_all-IsReported,
}

module _ (casefold : String → String) (int_of : String → Option ℕ) (text_of : ℕ → String)
    (nc : Nextcloud) (ttl now : ℕ) (key : Key) (kept : Cache) where
  abbrev ids_of : List Tag → Option (List String)
  ids_of = exclude_tag_ids casefold int_of text_of

  -- A listing that was answered with 207 and whose tags the ids account for.
  abbrev pub AreListed : (again : Bool) → List String → Type 0
  AreListed again ids =
      (listing : TagListing) × (nc.list_tags again ≡ answered listing)
      × (listing.status ≡ 207)
      × AreSpellings casefold int_of text_of listing.tags ids

  -- Whose ids a round asks for: those of its own listing, answered with 207, or in the first round
  -- those of the cache.
  pub data AreIds : (again : Bool) → List String → Type 0 where
    of_listing : {again : Bool} {ids : List String} → AreListed again ids → AreIds again ids
    of_cache : {ids : List String} → cached_ids ttl now key kept ≡ some ids → AreIds false ids

  -- What an answer rests on.
  pub data IsJustified : TagScope → Type 0 where
    -- it could not be verified, and the caller has to withhold
    withheld : {scope : TagScope} → scope.state ≡ unverifiable → IsJustified scope
    -- a listing was answered with 207 and carried no spelling of the tag
    untagged_listing : (again : Bool) → AreListed again [] → IsJustified nothing_tagged
    -- the report on every id of a round was answered with 207, and all that they named is withheld
    tagged_sets :
        {scope : TagScope} (again : Bool) (ids : List String)
        → AreIds again ids
        → 1 ≤ length ids
        → scope.state ≡ active
        → All (IsReported (nc.tagged_nodes again) scope) ids
        → IsJustified scope

  IsJustified-active_scope :
      (again : Bool) (ids : List String) (sets : List TaggedSet)
      → AreIds again ids
      → report_all (nc.tagged_nodes again) ids ≡ collected sets
      → all_fine sets ≡ true
      → IsJustified (active_scope sets)
  unfolding active_scope
  IsJustified-active_scope again ids sets listed reported fine =
      elim (unite-closed (all_nodes sets) _ refl) [
        | inl mapped ↦
            let (some_ids, all_reported) =
              report_all-IsReported (nc.tagged_nodes again) (active_scope sets) ids sets reported
                fine (unite-withholds (all_nodes sets) _ mapped) in
            tagged_sets again ids listed some_ids mapped all_reported
        | inr foreign ↦ withheld (rw foreign refl)
      ]

  IsJustified-second_round :
      (ids : List String) (r : Reports) (cache : Cache)
      → AreIds true ids
      → report_all (nc.tagged_nodes true) ids ≡ r
      → IsJustified ((second_round key r cache).1)
  unfolding second_round
  IsJustified-second_round ids (failed why) cache listed e = withheld refl
  IsJustified-second_round ids (collected sets) cache listed e = elim (Bool-cases (all_fine sets)) [
    | inl fine ↦ rw fine (IsJustified-active_scope true ids sets listed e fine)
    | inr spoiled ↦ elim (Bool-cases (all is_fine_or_stale sets)) [
      | inl stale ↦ rw (spoiled, stale) (withheld refl)
      | inr bad ↦ rw (spoiled, bad) (withheld refl)
    ]
  ]

  -- What a listing decided, or the ids that it gave.
  IsSound : (again : Bool) → Fresh → Type 0
  IsSound again (decided scope) = IsJustified scope
  IsSound again (asks ids) = AreIds again ids

  -- The ids of a listing that was answered with 207.
  IsSound-ids :
      (again : Bool) (listing : TagListing) (ids : List String) (cache : Cache)
      → nc.list_tags again ≡ answered listing
      → listing.status ≡ 207
      → ids_of listing.tags ≡ some ids
      → IsSound again ((keep_ids now key ids cache).1)
  unfolding IsSound keep_ids
  IsSound-ids again listing [] cache e fine read =
      untagged_listing again (
        listing,
        e,
        fine,
        exclude_tag_ids-AreSpellings casefold int_of text_of listing.tags [] read,
      )
  IsSound-ids again listing (i ∷ ids) cache e fine read = of_listing (
    listing,
    e,
    fine,
    exclude_tag_ids-AreSpellings casefold int_of text_of listing.tags (i ∷ ids) read,
  )

  IsSound-read_listing :
      (again : Bool) (call : Call TagListing) (cache : Cache)
      → nc.list_tags again ≡ call
      → IsSound again ((read_listing ids_of now key call cache).1)
  unfolding IsSound read_listing
  IsSound-read_listing again (answered listing) cache e =
      elim (Bool-cases (listing.status == 207)) [
        | inr other ↦ rw other (withheld refl)
        | inl fine ↦ rw fine (elim (Option-cases (ids_of listing.tags)) [
          | inl garbled ↦ rw garbled (withheld refl)
          | inr (ids, read) ↦ rw read (IsSound-ids again listing ids cache e (ground arith) read)
        ])
      ]
  IsSound-read_listing again timed_out cache e = withheld refl
  IsSound-read_listing again deadline cache e = withheld refl
  IsSound-read_listing again http_error cache e = withheld refl
  IsSound-read_listing again tool_error cache e = withheld refl
  IsSound-read_listing again value_error cache e = withheld refl

  IsJustified-after_second :
      (r : Cache × Fresh) → IsSound true (r.1) → IsJustified ((after_second nc key r).1)
  unfolding after_second IsSound
  IsJustified-after_second (cache, decided scope) sound = sound
  IsJustified-after_second (cache, asks ids) sound =
      IsJustified-second_round ids (report_all (nc.tagged_nodes true) ids) cache sound refl

  IsJustified-list_again : (cache : Cache) → IsJustified ((list_again ids_of nc now key cache).1)
  unfolding list_again
  IsJustified-list_again cache =
      IsJustified-after_second
        (read_listing ids_of now key (nc.list_tags true) (drop_ids key cache))
        (IsSound-read_listing true (nc.list_tags true) (drop_ids key cache) refl)

  IsJustified-first_round :
      (ids : List String) (r : Reports) (cache : Cache)
      → AreIds false ids
      → report_all (nc.tagged_nodes false) ids ≡ r
      → IsJustified ((first_round ids_of nc now key r cache).1)
  unfolding first_round
  IsJustified-first_round ids (failed why) cache listed e = withheld refl
  IsJustified-first_round ids (collected sets) cache listed e = elim (Bool-cases (all_fine sets)) [
    | inl fine ↦ rw fine (IsJustified-active_scope false ids sets listed e fine)
    | inr spoiled ↦ elim (Bool-cases (all is_fine_or_stale sets)) [
      | inl stale ↦ rw (spoiled, stale) (IsJustified-list_again cache)
      | inr bad ↦ rw (spoiled, bad) (withheld refl)
    ]
  ]

  IsJustified-after_first :
      (r : Cache × Fresh) → IsSound false (r.1) → IsJustified ((after_first ids_of nc now key r).1)
  unfolding after_first IsSound
  IsJustified-after_first (cache, decided scope) sound = sound
  IsJustified-after_first (cache, asks ids) sound =
      IsJustified-first_round ids (report_all (nc.tagged_nodes false) ids) cache sound refl

  load_scope-miss :
      cached_ids ttl now key kept ≡ none
      → load_scope ids_of ttl nc now key kept
        ≡ after_first ids_of nc now key (read_listing ids_of now key (nc.list_tags false) kept)
  unfolding load_scope
  load_scope-miss miss = ground (arith, miss)

  load_scope-hit :
      (ids : List String)
      → cached_ids ttl now key kept ≡ some ids
      → load_scope ids_of ttl nc now key kept ≡ after_first ids_of nc now key (kept, asks ids)
  unfolding load_scope
  load_scope-hit ids hit = ground (arith, hit)

  IsSound-asks : (ids : List String) → AreIds false ids → IsSound false (asks ids)
  unfolding IsSound
  IsSound-asks ids listed = listed

  -- Every answer of the flight is justified. It says that nothing is tagged only where a listing was
  -- answered with 207 and none of its tags spells the exclusion tag. It is active only where, for every
  -- id of one listing that was answered with 207, or of the cache, at least one, the report of one
  -- round was answered with 207; the ids of a listing have, for each tag that spells the exclusion
  -- tag, the number of a tag of the same name that is not above its own; and each node of those
  -- reports is withheld by its path and by its file id. Anything else cannot be verified.
  pub load_scope-IsJustified : IsJustified ((load_scope ids_of ttl nc now key kept).1)
  load_scope-IsJustified = elim (Option-cases (cached_ids ttl now key kept)) [
    | inl miss ↦ rw (load_scope-miss miss) (
        IsJustified-after_first (read_listing ids_of now key (nc.list_tags false) kept)
          (IsSound-read_listing false (nc.list_tags false) kept refl))
    | inr (ids, hit) ↦
        rw (load_scope-hit ids hit)
          (IsJustified-after_first (kept, asks ids) (IsSound-asks ids (of_cache hit)))
  ]
