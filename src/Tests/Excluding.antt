-- ===== src/Tests/Excluding.antt =====
-- Runs of the exclusion guard (nextcloud/exclusion.py).
use nextcloud_mcp_connector.Base.{
  ℕ, String, ◌≡◌, refl, Bool, true, false, Option, none, some, [], ◌∷◌, All,
}
use nextcloud_mcp_connector.Exclusion.Scope.{
  TagScope, active, excludes, ancestors, within, among, TaggedSet, nothing_tagged, exclude_tag_ids,
}
use nextcloud_mcp_connector.Exclusion.Flight.{
  Call, answered, Nextcloud, TagListing, Key, clear_cache, load_scope,
}
use nextcloud_mcp_connector.Exclusion.Guard.{
  Guard, new_guard, arrives, takes_lock, lands, step, arrive, take_lock, land, bind_key, Reach,
  fresh, after,
}
use nextcloud_mcp_connector.Exclusion.Closed.{IsJustified, load_scope-IsJustified}
use nextcloud_mcp_connector.Exclusion.Parents.{ancestors-root}
use nextcloud_mcp_connector.Exclusion.Withheld.{excludes-within}
use nextcloud_mcp_connector.Exclusion.Shared.{Reach-shared}
use nextcloud_mcp_connector.Tests.Samples.{plain}

abbrev the_key : Key
the_key = record { base_url = "https://n"; user = "u" }

-- Every tag has the number 7.
abbrev int_of : String → Option ℕ
int_of text = some 7

abbrev text_of : ℕ → String
text_of n = "7"

abbrev the_listing : Bool → Call TagListing
the_listing again =
    answered (record { status = 207; tags = record { id = "7"; name = " kein-ki" } ∷ [] })

-- The first report is stale, the second names one folder.
abbrev the_reports : Bool → String → Call TaggedSet
the_reports false id = answered (record { status = 412; nodes = [] })
the_reports true id = answered (record {
  status = 207;
  nodes = record { path = some "/A"; fileid = "3"; is_collection = true } ∷ [];
})

abbrev the_cloud : Nextcloud
the_cloud = record { list_tags = the_listing; tagged_nodes = the_reports }

load_scope-IsJustified_example :
    IsJustified plain int_of text_of the_cloud 60 5 the_key clear_cache
      ((load_scope (exclude_tag_ids plain int_of text_of) 60 the_cloud 5 the_key clear_cache).1)
load_scope-IsJustified_example =
    load_scope-IsJustified plain int_of text_of the_cloud 60 5 the_key clear_cache

-- Two callers: one flies, both get what it brought.
abbrev bound_guard : Guard
bound_guard = record new_guard { key = some the_key }

abbrev landed : Guard
landed = record bound_guard { scope = some nothing_tagged; waiting = 1 }

two_callers : Reach landed (nothing_tagged ∷ [])
unfolding step arrive take_lock land bind_key
two_callers =
    after {g = record bound_guard { waiting = 1; flying = true }} {a = some nothing_tagged}
      (after {g = record bound_guard { waiting = 2 }} {a = none}
        (after {g = record bound_guard { waiting = 1 }} {a = none}
          (after {g' = record bound_guard { waiting = 1 }} {a = none} fresh (arrives the_key) refl)
          (arrives the_key) refl)
        takes_lock refl)
      (lands nothing_tagged) refl

second_served : step takes_lock landed ≡ some (record landed { waiting = 0 }, some nothing_tagged)
unfolding step take_lock
second_served = refl

both_served : Reach (record landed { waiting = 0 }) (nothing_tagged ∷ nothing_tagged ∷ [])
both_served = after {a = some nothing_tagged} two_callers takes_lock second_served

Reach-shared_example :
    All (λ s. some nothing_tagged ≡ some s) (nothing_tagged ∷ nothing_tagged ∷ [])
Reach-shared_example =
    Reach-shared (record landed { waiting = 0 }) (nothing_tagged ∷ nothing_tagged ∷ []) both_served

ancestors-root_example : among "/" (ancestors "/A/b.txt") ≡ true
ancestors-root_example = ancestors-root "/A/b.txt" refl

abbrev tagged_folder : TagScope
tagged_folder = record nothing_tagged { state = active; paths = "/A" ∷ []; has_folders = true }

folder_above : within "/A/b.txt" "/A" ≡ true
unfolding within
folder_above = refl

excludes-within_example : excludes tagged_folder (some "/A/b.txt") none ≡ some true
excludes-within_example =
    excludes-within tagged_folder "/A/b.txt" "/A" none refl refl refl folder_above refl
