-- ===== src/Audit/Ledger.antt =====
-- What the audit log promises of the chains of accounts: for each of them a list of entries that grows
-- at its end, is given up from its beginning, or goes as a whole. Numbers and hashes are forgotten.
use nextcloud_mcp_connector.Base.{
  ℕ, ◌+◌, ◌≤◌, String, ◌≡◌, false, Option, none, some, List, [], ◌∷◌, ◌++◌, map, str_eq, All, count,
  select, if◌then◌else◌,
}
use nextcloud_mcp_connector.Base.Text.{text_length}
use nextcloud_mcp_connector.Audit.Rows.{
  Entry, Row, AuditDb, chain_instance, user_chain, in_chain, sweep_batch_rows,
}
use nextcloud_mcp_connector.Audit.Sweep.{is_sweepable}
use nextcloud_mcp_connector.Audit.Tally.{sum_by}

-- The entries of each chain, and how many entries all accounts have together.
pub record Ledger : Type 0 where
  pub entries : (chain : String) → List Entry
  pub size : ℕ

-- What a caller asks of the log in one transaction.
pub data Commit : Type 0 where
  records : Entry → Commit
  removes : (nc_user : String) → Commit
  expires_rows : (moment window : ℕ) → Commit
  trims_rows : Commit

-- Every chain but the instance chain.
abbrev pub EveryAccount : ((chain : String) → Type 0) → Type 0
EveryAccount P = (chain : String) → str_eq chain_instance chain ≡ false → P chain

-- A name that is kept has at most so many characters, and no name comes from nowhere.
abbrev pub IsCleaned : (limit : ℕ) (given kept : Option String) → Type 0
IsCleaned limit given none = Unit
IsCleaned limit none (some name) = ⊥
IsCleaned limit (some raw) (some name) = text_length name ≤ limit

-- What is kept of an entry: every column as it was given but the two names, which may be cut, and the
-- parameters, which may change their order.
abbrev pub IsKeptAs : (given kept : Entry) → Type 0
IsKeptAs given kept =
    (kept
      ≡ record given { actor = kept.actor; client_name = kept.client_name; params = kept.params })
    × IsCleaned 64 given.actor kept.actor
    × IsCleaned 80 given.client_name kept.client_name
    × ((weight : String → ℕ) → sum_by weight kept.params ≡ sum_by weight given.params)

abbrev pub IsExpired : (moment window : ℕ) → Entry → Type 0
IsExpired moment window e = e.at + window ≤ moment

-- Each chain gives up a first part, whose entries meet the condition; all that went are between one
-- entry and one batch.
abbrev pub GivesUp : (Entry → Type 0) → (before now : Ledger) → Type 0
GivesUp P before now =
    EveryAccount
      (λ c. (gone : List Entry) × (before.entries c ≡ gone ++ now.entries c) × All P gone)
    × ((n : ℕ) × (1 ≤ n) × (n ≤ sweep_batch_rows) × (now.size + n ≡ before.size))

-- What each commit promises.
abbrev pub Keeps : Commit → (before now : Ledger) → Type 0
Keeps (records e) before now =
    (kept : Entry) × IsKeptAs e kept
    × EveryAccount (λ c.
      now.entries c
      ≡ (if str_eq e.chain c then before.entries c ++ (kept ∷ []) else before.entries c))
Keeps (removes nc_user) before now =
    EveryAccount
      (λ c. now.entries c ≡ (if str_eq (user_chain nc_user) c then [] else before.entries c))
Keeps (expires_rows moment window) before now = GivesUp (IsExpired moment window) before now
Keeps trims_rows before now = GivesUp (λ e. Unit) before now

-- The entries that a table holds of each chain.
abbrev pub ledger_of : AuditDb → Ledger
ledger_of db = record {
  entries = λ chain. map (λ (r : Row). r.columns) (select (in_chain chain) db.rows);
  size = count is_sweepable db.rows;
}
