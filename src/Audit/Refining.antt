-- ===== src/Audit/Refining.antt =====
-- audit/store.py: the commits keep the promise of Audit/Ledger.
use Prim.Native.Char.{Char}
use nextcloud_mcp_connector.Base.{Bool}
use nextcloud_mcp_connector.Audit.Rows.{AuditDb}
use nextcloud_mcp_connector.Audit.Chains.{Digest}
use nextcloud_mcp_connector.Audit.Commits.{Step, appends, drops, expires_batch, trims_batch}
use nextcloud_mcp_connector.Audit.Ledger.{Commit, records, removes, expires_rows, trims_rows}

module _ (digest : Digest) (isprintable : Char → Bool) where
  -- What was asked of the log in a step.
  abbrev pub commit_of : {db db' : AuditDb} → Step digest isprintable db db' → Commit
  commit_of (appends db e plain) = records e
  commit_of (drops db nc_user moment) = removes nc_user
  commit_of (expires_batch db moment window c committed) = expires_rows moment window
  commit_of (trims_batch db moment c committed) = trims_rows
