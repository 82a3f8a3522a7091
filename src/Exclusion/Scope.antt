-- ===== src/Exclusion/Scope.antt =====
-- nextcloud/exclusion.py, the answer as a value: `ancestors`, `TagScope`, `_active`, and the names of
-- the tag. `casefold`, `int_of` (`int(text)`, `none` where it raises) and `text_of` (`str(number)`)
-- are Python's.
use nextcloud_mcp_connector.Base.{
  ℕ, zero, suc, String, Bool, true, false, not, ◌&&◌, ◌||◌, Option, none, some, List, [], ◌∷◌, ◌++◌,
  map, str_eq, ltb, any, order_by, if◌then◌else◌,
}
use Prim.Native.Char.{code}
use nextcloud_mcp_connector.Base.{◌==◌}
use nextcloud_mcp_connector.Base.Dict.{Dict, get, put}
use nextcloud_mcp_connector.Base.Text.{strip, text_length}

abbrev pub exclude_tag : String
exclude_tag = "kein-ki"

pub record Tag : Type 0 where
  pub id : String
  pub name : String

pub record TaggedNode : Type 0 where
  pub path : Option String
  pub fileid : String
  pub is_collection : Bool

pub record TaggedSet : Type 0 where
  pub status : ℕ
  pub nodes : List TaggedNode

pub data State : Type 0 where
  untagged active unverifiable : State

pub data Why : Type 0 where
  timeout unreachable status stale_twice unparsable foreign_href : Why

pub record TagScope : Type 0 where
  pub state : State
  pub paths : List String
  pub fileids : List String
  pub has_folders : Bool
  pub reason : Option Why

abbrev pub nothing_tagged : TagScope
nothing_tagged = record {
  state = untagged;
  paths = [];
  fileids = [];
  has_folders = false;
  reason = none;
}

abbrev pub refused : Why → TagScope
refused reason = record {
  state = unverifiable;
  paths = [];
  fileids = [];
  has_folders = false;
  reason = some reason;
}

module _ (casefold : String → String) where
  abbrev pub is_exclude_name : String → Bool
  is_exclude_name name = str_eq (casefold (strip name)) exclude_tag

  -- The lowest number of every spelling; the outer `none` is a raised ValueError.
  unfoldable pub lowest_ids : (int_of : String → Option ℕ) → List Tag → Dict ℕ → Option (Dict ℕ)
  lowest_ids int_of [] lowest = some lowest
  lowest_ids int_of (tag ∷ tags) lowest =
      let skipped = lowest_ids int_of tags lowest in
      if not (is_exclude_name tag.name) then skipped else elim (int_of tag.id) [
        | none ↦ none
        | some number ↦ elim (get lowest tag.name) [
          | none ↦ lowest_ids int_of tags (put lowest tag.name number)
          | some least ↦
              if ltb number least
              then lowest_ids int_of tags (put lowest tag.name number)
              else skipped
        ]
      ]

  unfoldable pub exclude_tag_ids :
      (int_of : String → Option ℕ) (text_of : ℕ → String) → List Tag → Option (List String)
  unfolding lowest_ids order_by
  exclude_tag_ids int_of text_of tags = elim (lowest_ids int_of tags []) [
    | none ↦ none
    | some lowest ↦ some (map text_of (order_by (λ n. n) (map (λ (e : String × ℕ). e.1) lowest)))
  ]

-- What stands before the last slash, `none` where there is none.
unfoldable pub before_last_slash : String → Option String
before_last_slash String.[] = none
before_last_slash (String.◌∷◌ c s) = elim (before_last_slash s) [
  | some head ↦ some (String.◌∷◌ c head)
  | none ↦ if code c == 47 then some String.[] else none
]

-- `path.rsplit("/", 1)[0] or "/"`
unfoldable pub parent : String → String
unfolding before_last_slash
parent path = elim (before_last_slash path) [
  | none ↦ if str_eq path "" then "/" else path
  | some head ↦ if str_eq head "" then "/" else head
]

-- The loop of `ancestors`, on fuel.
unfoldable pub ancestors_within : (fuel : ℕ) → String → List String
unfolding parent
ancestors_within zero path = path ∷ []
ancestors_within (suc fuel) path =
    let rest = ancestors_within fuel (parent path) in
    if str_eq path "" || str_eq path "/" then path ∷ [] else path ∷ rest

unfoldable pub ancestors : String → List String
unfolding ancestors_within
ancestors path = ancestors_within (text_length path) path

abbrev pub is_absolute : String → Bool
is_absolute String.[] = false
is_absolute (String.◌∷◌ c s) = code c == 47

-- `path.startswith(root + "/")`
unfoldable pub begins_below : (root path : String) → Bool
begins_below String.[] String.[] = false
begins_below String.[] (String.◌∷◌ d s) = code d == 47
begins_below (String.◌∷◌ c root) String.[] = false
begins_below (String.◌∷◌ c root) (String.◌∷◌ d s) =
    let rest = begins_below root s in code c == code d && rest

-- nextcloud/clients/dav.py
unfoldable pub within : (path root : String) → Bool
unfolding begins_below
within path root = str_eq root "/" || str_eq path root || begins_below root path

abbrev pub among : String → List String → Bool
among a texts = any (λ b. str_eq b a) texts

abbrev pub asks_wrongly : Option String → Option String → Bool
asks_wrongly none none = true
asks_wrongly none (some fileid) = false
asks_wrongly (some path) fileid = not (is_absolute path)

abbrev pub names_file : TagScope → Option String → Bool
names_file scope none = false
names_file scope (some fileid) = among fileid scope.fileids

abbrev pub covers : TagScope → Option String → Bool
covers scope none = false
covers scope (some path) = any (λ a. among a scope.paths) (ancestors path)

-- `none` is a raised ValueError: "could not check" is never an answer.
unfoldable pub excludes : TagScope → (path fileid : Option String) → Option Bool
unfolding ancestors
excludes scope path fileid = elim scope.state [
  | unverifiable ↦ none
  | untagged ↦ some false
  | active ↦
      if asks_wrongly path fileid
      then none
      else if names_file scope fileid
      then some true
      else some (covers scope path)
]

-- `_active`: the union, or a refusal at the first node that has no path.
unfoldable pub unite_nodes : List TaggedNode → TagScope → TagScope
unite_nodes [] scope = scope
unite_nodes (node ∷ nodes) scope = elim node.path [
  | none ↦ refused foreign_href
  | some path ↦ unite_nodes nodes (record scope {
    paths = path ∷ scope.paths;
    fileids = node.fileid ∷ scope.fileids;
    has_folders = scope.has_folders || node.is_collection;
  })
]

abbrev pub all_nodes : List TaggedSet → List TaggedNode
all_nodes [] = []
all_nodes (s ∷ sets) = s.nodes ++ all_nodes sets

unfoldable pub active_scope : List TaggedSet → TagScope
unfolding unite_nodes
active_scope sets =
    unite_nodes (all_nodes sets)
      (record { state = active; paths = []; fileids = []; has_folders = false; reason = none })
