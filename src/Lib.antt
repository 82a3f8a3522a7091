-- ===== src/Lib.antt =====
-- The verification library of the Nextcloud MCP connector: the parts of src/mcp_connector that decide
-- who may act, for how long and how often, and which files a tool may not see.
--
-- The program is a server of MCP tools in front of a Nextcloud. Assistants sign in through its own
-- OAuth authorization server. oauth/provider.py answers the token endpoint; it keeps nothing of its
-- own but two caches and does everything else as transactions on one SQLite file, oauth/store.py.
-- oauth/throttle.py stands in front of its routes. A tool call asks nextcloud/exclusion.py which nodes
-- carry the tag `kein-ki` and withholds them. audit/store.py keeps a hash chain of what was called.
--
-- - Base: what the components share. Base/Tables is SQL on a list of rows (SELECT, UPDATE, DELETE,
--   COUNT), Base/Counting its laws, Base/Dict a Python dict, Base/Text Python's text operations.
-- - OAuth/Rows and OAuth/Store/*: src/mcp_connector/oauth/store.py. A Db is the nine tables; each
--   method of OAuthStore is one function of the same name, whose `none` is an exception with the
--   transaction rolled back. Store/Cascade is ON DELETE CASCADE and the keys an INSERT is checked
--   against. Moments are seconds. oauth/principal.py stands in Store/Authorizations.
-- - OAuth/Trace: the transactions as steps, in any order, with arbitrary arguments; OAuth/Rotation
--   and OAuth/Trace/Linear carry the invariant of the refresh tokens over them. OAuth/Replay,
--   OAuth/Revocation and OAuth/SingleUse are about single methods.
-- - OAuth/Provider/*: src/mcp_connector/oauth/provider.py and ClientPolicy of oauth/registry.py. A
--   Process is the file with the two caches of one process. Random values are arguments.
-- - OAuth/Verifier/*: src/mcp_connector/oauth/verifier.py. Cache holds the positive answers, Verify the
--   two methods that the transport asks.
-- - OAuth/Mapping: src/mcp_connector/oauth/mapping.py, the settings of a profile and the claims it reads.
-- - Throttle/*: src/mcp_connector/oauth/throttle.py. Counters holds the class Throttle, Wrapper the
--   class Throttled and source_of. The monotonic clock counts in ticks, since answers are rounded up.
-- - Exclusion/*: src/mcp_connector/nextcloud/exclusion.py. Scope holds TagScope and the names of the
--   tag, Flight load_scope with the cache of ids, Guard the class ExclusionGuard cut at its awaits.
--   `within` of nextcloud/clients/dav.py, the rule of what lies in a path, stands in Scope.
-- - Audit/*: src/mcp_connector/audit/store.py and text.py. Rows holds the constants, an Entry and a row
--   of the table, Chains the transaction that appends and the removal of an account, Markers
--   _note_removed and _write_markers, Sweep the two loops of the sweep batch by batch, Verify the check
--   of the chains, Reading the readings. An AuditDb is the table in ascending order of its numbers with the
--   counter of AUTOINCREMENT. A digest is its hexadecimal text. Audit/Ledger is what the log promises,
--   Audit/Commits the transactions as steps. Audit/Refusals is audit/refusals.py with known_reason of
--   errors.py. The other files of Audit are proofs.
-- - Ids/*: src/mcp_connector/ids.py. Codec holds the encoders and parse.
-- - Tests/*: the theorems applied to concrete inputs.
--
-- Parameters stand for what is not of this program or only computes: the SHA-256 of a token and of a
-- counter's key, the cipher of the store, the SDK's reading of a registration and its audience check,
-- the answers of Nextcloud, casefold, int and str of Python, and of the audit log SHA-256 over the JSON
-- of a row, str.isprintable and what SQLite answers about its pages.
--
-- Bounds: the loop of `ancestors` runs on as much fuel as the path has characters, since the parent of
-- an absolute path is shorter than the path, or is `/`, where the loop ends. The retention sweep
-- runs on one more round than the table has rows, since every round takes a row or is the last.
--
-- Not modelled: the SQLite connection and the form tokens of the store, the authorization and consent
-- pages, the revocation and registration endpoints, the recording of tool calls, the connection and the
-- free pages of the audit log's SQLite file, the document readers, the ExApp pages, the HTTP clients and the tools themselves.
pub mod Base
pub mod OAuth
pub mod Throttle
pub mod Exclusion
pub mod Audit
pub mod Ids
pub mod Tests
