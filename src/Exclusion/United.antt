-- ===== src/Exclusion/United.antt =====
-- What the reports of a round (nextcloud/exclusion.py, `_report_all`) leave to withhold.
use nextcloud_mcp_connector.Base.{
  length, ◌≤◌, ◌++◌, String, ◌≡◌, refl, subst, sym, ◌⊎◌, true, ◌||◌, some, List, [], ◌∷◌, all, All,
  arith, eq_refl, Option-cases, inl, inr,
}
use nextcloud_mcp_connector.Exclusion.Scope.{
  TaggedNode, TaggedSet, TagScope, active, foreign_href, refused, among, unite_nodes, all_nodes,
}
use nextcloud_mcp_connector.Exclusion.Flight.{
  Call, answered, timed_out, deadline, http_error, tool_error, value_error, Reports, collected,
  failed, with_answer, why_of, collect, is_fine, report_all, all_fine,
}

-- A node that the scope withholds, by its path and by its file id.
abbrev pub IsWithheld : TagScope → TaggedNode → Type 0
IsWithheld scope node =
    ((path : String) × (node.path ≡ some path) × (among path scope.paths ≡ true))
    × (among node.fileid scope.fileids ≡ true)

unite-grows :
    (nodes : List TaggedNode) (scope : TagScope) (path : String)
    → among path scope.paths ≡ true
    → (unite_nodes nodes scope).state ≡ active
    → among path (unite_nodes nodes scope).paths ≡ true
unfolding unite_nodes
unite-grows [] scope path known e = known
unite-grows (node ∷ nodes) scope path known e = elim (Option-cases node.path) [
  | inl foreign ↦ ground (arith, foreign)
  | inr (p, mapped) ↦
      let next : TagScope = record scope {
        paths = p ∷ scope.paths;
        fileids = node.fileid ∷ scope.fileids;
        has_folders = scope.has_folders || node.is_collection;
      } in
      ground (arith, mapped, unite-grows nodes next path (ground arith))
]

unite-grows_ids :
    (nodes : List TaggedNode) (scope : TagScope) (id : String)
    → among id scope.fileids ≡ true
    → (unite_nodes nodes scope).state ≡ active
    → among id (unite_nodes nodes scope).fileids ≡ true
unfolding unite_nodes
unite-grows_ids [] scope id known e = known
unite-grows_ids (node ∷ nodes) scope id known e = elim (Option-cases node.path) [
  | inl foreign ↦ ground (arith, foreign)
  | inr (p, mapped) ↦
      let next : TagScope = record scope {
        paths = p ∷ scope.paths;
        fileids = node.fileid ∷ scope.fileids;
        has_folders = scope.has_folders || node.is_collection;
      } in
      ground (arith, mapped, unite-grows_ids nodes next id (ground arith))
]

pub unite-withholds :
    (nodes : List TaggedNode) (scope : TagScope)
    → (unite_nodes nodes scope).state ≡ active
    → All (IsWithheld (unite_nodes nodes scope)) nodes
unfolding unite_nodes
unite-withholds [] scope e = tt
unite-withholds (node ∷ nodes) scope e = elim (Option-cases node.path) [
  | inl foreign ↦ ground (arith, foreign)
  | inr (p, mapped) ↦
      let next : TagScope = record scope {
        paths = p ∷ scope.paths;
        fileids = node.fileid ∷ scope.fileids;
        has_folders = scope.has_folders || node.is_collection;
      } in
      let step : unite_nodes (node ∷ nodes) scope ≡ unite_nodes nodes next =
        ground (arith, mapped) in
      let still : (unite_nodes nodes next).state ≡ active = rw (step) at e in
      subst (λ r. All (IsWithheld r) (node ∷ nodes)) (sym step)
        (
          (
            (p, mapped, unite-grows nodes next p (ground (arith, eq_refl p)) still),
            unite-grows_ids nodes next node.fileid (ground (arith, eq_refl node.fileid)) still,
          ),
          unite-withholds nodes next still,
        )
]

pub unite-closed :
    (nodes : List TaggedNode) (scope : TagScope)
    → scope.state ≡ active
    → ((unite_nodes nodes scope).state ≡ active) ⊎ (unite_nodes nodes scope ≡ refused foreign_href)
unfolding unite_nodes
unite-closed [] scope e = inl e
unite-closed (node ∷ nodes) scope e = elim (Option-cases node.path) [
  | inl foreign ↦ inr (ground (arith, foreign))
  | inr (p, mapped) ↦
      let next : TagScope = record scope {
        paths = p ∷ scope.paths;
        fileids = node.fileid ∷ scope.fileids;
        has_folders = scope.has_folders || node.is_collection;
      } in
      let step : unite_nodes (node ∷ nodes) scope ≡ unite_nodes nodes next =
        ground (arith, mapped) in
      rw step (unite-closed nodes next e)
]

-- The report on an id was answered with 207, and every node that it names is withheld.
abbrev pub IsReported : (String → Call TaggedSet) → TagScope → String → Type 0
IsReported ask scope id =
    (s : TaggedSet) × (ask id ≡ answered s) × (s.status ≡ 207) × All (IsWithheld scope) s.nodes

-- The first answer of a collection.
first_answer :
    (c : Call TaggedSet) (r : Reports) (sets : List TaggedSet)
    → elim c [ answered s ↦ with_answer s r | raised ↦ failed (why_of raised) ] ≡ collected sets
    → (s : TaggedSet) × (rest : List TaggedSet) × (c ≡ answered s)
      × (r ≡ collected rest)
      × (s ∷ rest ≡ sets)
unfolding with_answer
first_answer (answered s) (collected rest) sets e = (s, rest, refl, refl, cc)
first_answer (answered s) (failed why) sets e = cc
first_answer timed_out r sets e = cc
first_answer deadline r sets e = cc
first_answer http_error r sets e = cc
first_answer tool_error r sets e = cc
first_answer value_error r sets e = cc

All-split :
    (P : TaggedNode → Type 0) (xs ys : List TaggedNode) → All P (xs ++ ys) → All P xs × All P ys
All-split P [] ys h = (tt, h)
All-split P (x ∷ xs) ys h = let (own, rest) = All-split P xs ys h.1 in ((h.0, own), rest)

some_id :
    (ask : String → Call TaggedSet) (ids : List String) (sets : List TaggedSet)
    → collect ask ids ≡ collected sets
    → all_fine sets ≡ true
    → 1 ≤ length ids
unfolding collect
some_id ask [] [] e fine = cc
some_id ask [] (s ∷ sets) e fine = cc
some_id ask (i ∷ ids) sets e fine = omega arith

all-all_fine : (sets : List TaggedSet) → all_fine sets ≡ true → all is_fine sets ≡ true
all-all_fine [] fine = cc
all-all_fine (s ∷ sets) fine = fine

module _ (ask : String → Call TaggedSet) (scope : TagScope) where
  collect-IsReported :
      (ids : List String) (sets : List TaggedSet)
      → collect ask ids ≡ collected sets
      → all is_fine sets ≡ true
      → All (IsWithheld scope) (all_nodes sets)
      → All (IsReported ask scope) ids
  unfolding collect
  collect-IsReported [] sets e fine kept = tt
  collect-IsReported (i ∷ ids) sets e fine kept =
      let (s, rest, own, later, same) = first_answer (ask i) (collect ask ids) sets e in
      let fine' = subst (λ k. all is_fine k ≡ true) (sym same) fine in
      let (here, there) =
        All-split (IsWithheld scope) s.nodes (all_nodes rest)
          (subst (λ k. All (IsWithheld scope) (all_nodes k)) (sym same) kept) in
      (
        (s, own, ground (arith, fine'), here),
        collect-IsReported ids rest later (ground (arith, fine')) there,
      )

  -- Where all reports are collected and fine, there is one on each id, and there is an id.
  pub report_all-IsReported :
      (ids : List String) (sets : List TaggedSet)
      → report_all ask ids ≡ collected sets
      → all_fine sets ≡ true
      → All (IsWithheld scope) (all_nodes sets)
      → (1 ≤ length ids) × All (IsReported ask scope) ids
  unfolding report_all
  report_all-IsReported ids sets e fine kept =
      let collected_all : collect ask ids ≡ collected sets = ground (arith, e) in
      (
        some_id ask ids sets collected_all fine,
        collect-IsReported ids sets collected_all (all-all_fine sets fine) kept,
      )
