-- ===== src/Audit/Found.antt =====
-- audit/store.py, `_first_finding` and `verify_chains`: what a check finds and what it does not.
use Prim.Native.Char.{Char}
use nextcloud_mcp_connector.Base.{
  String, ◌≡◌, refl, subst, ◌≢◌, ◌↔◌, inl, inr, Bool, true, none, some, List, [], ◌∷◌, ◌++◌, map,
  arith, any, str_eq, eq_iff, eq_refl, Bool-cases, Option-cases, select, fetch_last,
}
use nextcloud_mcp_connector.Audit.Rows.{Row, AuditDb, genesis, chain_instance, in_chain}
use nextcloud_mcp_connector.Audit.Chains.{Digest}
use nextcloud_mcp_connector.Audit.Markers.{or_else}
use nextcloud_mcp_connector.Audit.Verify.{
  names, explained_gaps, modified, missing, first_finding, findings_of, chains_of, verify_chains,
}
use nextcloud_mcp_connector.Audit.Linked.{IsLinked}
use nextcloud_mcp_connector.Audit.Filed.{end_named}
use nextcloud_mcp_connector.Audit.Whole.{IsWhole}
use nextcloud_mcp_connector.Audit.Commits.{Reach, Reach-IsWhole}
use nextcloud_mcp_connector.Audit.Walking.{
  intact, unequal, BeginsWell, walk-BeginsWell, BeginsWell-walk, walk-modified, walk-missing,
}

-- The end that the youngest marker names is one of those that the markers explain.
is_explained-marked :
    (p : Row → Bool) (h : String) (rows : List Row)
    → end_named (fetch_last p rows) ≡ some h
    → any (str_eq h) (map (λ r. or_else "" r.columns.gap_hash) (select p rows)) ≡ true
is_explained-marked p h [] named = cc
is_explained-marked p h (r ∷ rows) named =
    ground (arith, named, is_explained-marked p h rows, eq_refl h, Option-cases (fetch_last p rows))

module _ (digest : Digest) where
  first_finding-BeginsWell :
      (rows : List Row) (chain : String)
      → BeginsWell digest chain (explained_gaps chain rows) (select (in_chain chain) rows)
      → first_finding digest rows chain ≡ none
  unfolding first_finding
  first_finding-BeginsWell rows chain h =
      walk-BeginsWell digest chain (explained_gaps chain rows) (select (in_chain chain) rows) h

  -- A chain has no finding exactly where its rows are linked, each with its own hash, from GENESIS or
  -- from an end that a marker of the instance chain names.
  pub first_finding-none :
      (rows : List Row) (chain : String)
      → (first_finding digest rows chain ≡ none)
        ↔ BeginsWell digest chain (explained_gaps chain rows) (select (in_chain chain) rows)
  unfolding first_finding
  first_finding-none rows chain = (
    BeginsWell-walk digest chain (explained_gaps chain rows) (select (in_chain chain) rows),
    first_finding-BeginsWell rows chain,
  )

  findings_of-quiet :
      (rows : List Row) (chains : List String)
      → ((chain : String) → first_finding digest rows chain ≡ none)
      → findings_of digest rows chains ≡ []
  unfolding findings_of
  findings_of-quiet rows [] quiet = refl
  findings_of-quiet rows (chain ∷ chains) quiet =
      rw (findings_of, quiet chain) (findings_of-quiet rows chains quiet)

  BeginsWell-IsWhole :
      (db : AuditDb) (chain : String)
      → IsWhole digest db
      → BeginsWell digest chain (explained_gaps chain db.rows) (select (in_chain chain) db.rows)
  BeginsWell-IsWhole db chain (filed, whole) = elim (Bool-cases (str_eq chain_instance chain)) [
    | inl same ↦ (
      genesis,
      subst (λ c. IsLinked digest genesis (select (in_chain c) db.rows))
          ((eq_iff chain_instance chain).0 same) filed.2,
      inl refl,
    )
    | inr other ↦
        let (start, linked, starts) = whole chain other in
        (
          start,
          linked,
          elim starts [
            | inl at_genesis ↦ inl at_genesis
            | inr named ↦ inr (is_explained-marked (names chain) start db.rows named)
          ],
        )
  ]

  verify_chains-IsWhole : (db : AuditDb) → IsWhole digest db → verify_chains digest db ≡ []
  unfolding verify_chains
  verify_chains-IsWhole db whole =
      findings_of-quiet db.rows (chains_of db.rows)
        (λ chain. first_finding-BeginsWell db.rows chain (BeginsWell-IsWhole db chain whole))

  -- After any sequence of commits, also between two batches of a sweep, a check finds nothing. Callers
  -- append no marker of their own.
  pub verify_chains-Reach :
      (isprintable : Char → Bool) (db : AuditDb)
      → Reach digest isprintable db
      → verify_chains digest db ≡ []
  verify_chains-Reach isprintable db reached =
      verify_chains-IsWhole db (Reach-IsWhole digest isprintable reached)

  -- Where the rows of a chain before one row are linked from a good start and that row does not carry
  -- the hash of its own columns, the finding of the chain is that row, as changed.
  pub first_finding-changed :
      (rows : List Row) (chain : String) (before behind : List Row) (r : Row)
      → select (in_chain chain) rows ≡ before ++ (r ∷ behind)
      → BeginsWell digest chain (explained_gaps chain rows) before
      → digest r.seq r.columns r.prev_hash ≢ r.hash
      → first_finding digest rows chain ≡ some (modified digest chain (explained_gaps chain rows) r)
  unfolding first_finding
  first_finding-changed rows chain before behind r at well changed = rw at (
      walk-modified digest chain (explained_gaps chain rows) before behind r well
        (unequal (digest r.seq r.columns r.prev_hash) r.hash changed))

  -- Where the rows of a chain up to one row are linked from a good start and the row behind it is its
  -- own but does not point at it, the finding of the chain is the gap between the two.
  pub first_finding-gap :
      (rows : List Row) (chain : String) (before behind : List Row) (x y : Row)
      → select (in_chain chain) rows ≡ before ++ (x ∷ y ∷ behind)
      → BeginsWell digest chain (explained_gaps chain rows) (before ++ (x ∷ []))
      → digest y.seq y.columns y.prev_hash ≡ y.hash
      → y.prev_hash ≢ x.hash
      → first_finding digest rows chain
        ≡ some (missing digest chain (explained_gaps chain rows) x.seq (some y.seq))
  unfolding first_finding
  first_finding-gap rows chain before behind x y at well own apart = rw at (
      walk-missing digest chain (explained_gaps chain rows) before behind x y well
        (intact digest y own) (unequal y.prev_hash x.hash apart))
