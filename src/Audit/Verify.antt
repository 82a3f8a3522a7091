-- ===== src/Audit/Verify.antt =====
-- audit/store.py, `_explained_gaps`, `_first_finding` and `AuditStore.verify_chains`. The batches of
-- `fetchmany` together are the rows of the chain.
use nextcloud_mcp_connector.Base.{
  ℕ, String, Bool, not, ◌&&◌, Option, none, some, List, [], ◌∷◌, any, map, str_eq, select,
  if◌then◌else◌,
}
use nextcloud_mcp_connector.Base.Text.{sorted}
use nextcloud_mcp_connector.Audit.Rows.{Row, AuditDb, chain_instance, genesis, in_chain, names_gap}
use nextcloud_mcp_connector.Audit.Chains.{Digest}
use nextcloud_mcp_connector.Audit.Markers.{or_else}

pub data FindingKind : Type 0 where
  finding_modified finding_missing : FindingKind

pub record ChainFinding : Type 0 where
  pub chain : String
  pub kind : FindingKind
  pub seq : ℕ
  pub next_seq : Option ℕ

abbrev pub names : String → Row → Bool
names chain r =
    in_chain chain_instance r
    && names_gap r.columns
    && str_eq (or_else "" r.columns.gap_chain) chain

-- `explained.get(chain, set())`: the ends that the markers of the instance chain name.
abbrev pub explained_gaps : String → List Row → List String
explained_gaps chain rows = map (λ r. or_else "" r.columns.gap_hash) (select (names chain) rows)

-- `SELECT DISTINCT chain … ORDER BY chain`
unfoldable pub distinct : List String → List String
distinct [] = []
distinct (s ∷ texts) = let rest = distinct texts in if any (str_eq s) rest then rest else s ∷ rest

unfoldable pub chains_of : List Row → List String
unfolding distinct sorted
chains_of rows = sorted (distinct (map (λ r. r.columns.chain) rows))

module _ (digest : Digest) where
  -- The row carries its own hash over its own fields.
  abbrev pub is_intact : Row → Bool
  is_intact r = str_eq (digest r.seq r.columns r.prev_hash) r.hash

  module _ (chain : String) (explained : List String) where
    abbrev pub modified : Row → ChainFinding
    modified r = record { chain = chain; kind = finding_modified; seq = r.seq; next_seq = none }

    abbrev pub missing : ℕ → Option ℕ → ChainFinding
    missing seq next = record { chain = chain; kind = finding_missing; seq = seq; next_seq = next }

    -- The rows behind the first one.
    unfoldable pub walk_on : (expected : String) (previous : ℕ) → List Row → Option ChainFinding
    walk_on expected previous [] = none
    walk_on expected previous (r ∷ rows) =
        let rest = walk_on r.hash r.seq rows in
        if not (is_intact r)
        then some (modified r)
        else if not (str_eq r.prev_hash expected)
        then some (missing previous (some r.seq))
        else rest

    abbrev pub is_explained : String → Bool
    is_explained h = any (str_eq h) explained

    unfoldable pub walk : List Row → Option ChainFinding
    unfolding walk_on
    walk [] = none
    walk (r ∷ rows) =
        if not (is_intact r)
        then some (modified r)
        else if not (str_eq r.prev_hash genesis) && not (is_explained r.prev_hash)
        then some (missing r.seq none)
        else walk_on r.hash r.seq rows

  unfoldable pub first_finding : List Row → String → Option ChainFinding
  unfolding walk
  first_finding rows chain = walk chain (explained_gaps chain rows) (select (in_chain chain) rows)

  -- The loop over the chains.
  unfoldable pub findings_of : List Row → List String → List ChainFinding
  unfolding first_finding
  findings_of rows [] = []
  findings_of rows (chain ∷ chains) =
      let rest = findings_of rows chains in
      elim (first_finding rows chain) [ none ↦ rest | some f ↦ f ∷ rest ]

  unfoldable pub verify_chains : AuditDb → List ChainFinding
  unfolding findings_of chains_of
  verify_chains db = findings_of db.rows (chains_of db.rows)
