-- ===== src/Audit/Reading.antt =====
-- audit/store.py: the schedule of the sweeps and what is read of the log.
use Prim.Native.Char.{code}
use nextcloud_mcp_connector.Base.{
  ℕ, ◌+◌, ◌*◌, ◌%◌, min, max, String, Bool, true, not, ◌&&◌, Option, none, some, List, [], ◌∷◌,
  ◌++◌, map, str_eq, leb, ◌==◌, is_none, length, count, select, fetch_last, take, if◌then◌else◌,
}
use nextcloud_mcp_connector.Audit.Rows.{
  Entry, Row, AuditDb, user_chain_prefix, in_chain, kind_tombstone, day_seconds,
}
use nextcloud_mcp_connector.Audit.Markers.{or_else}
use nextcloud_mcp_connector.Audit.Sweep.{Pages, used_bytes, is_sweepable}
use nextcloud_mcp_connector.Audit.Verify.{chains_of}

abbrev pub read_limit_max : ℕ
read_limit_max = 5000

abbrev pub sweep_every : ℕ
sweep_every = 500

abbrev pub sweep_user_check_every : ℕ
sweep_user_check_every = 20

unfoldable pub should_sweep : ℕ → Bool
should_sweep seq = seq % sweep_every == 0

unfoldable pub should_check_accounts : ℕ → Bool
should_check_accounts seq = seq % (sweep_every * sweep_user_check_every) == 0

-- A limit from outside may be negative.
pub data ℤ : Type 0 where
  pos : ℕ → ℤ
  negsuc : ℕ → ℤ

-- `max(1, min(limit, READ_LIMIT_MAX))`
unfoldable pub bounded : ℤ → ℕ
bounded (pos n) = max 1 (min n read_limit_max)
bounded (negsuc n) = 1

-- `? IS NULL OR …`
abbrev pub unset_or {ℓ} : {A : Type ℓ} → (A → Bool) → Option A → Bool
unset_or p none = true
unset_or p (some a) = p a

-- The condition of _READ_ROWS.
abbrev pub is_read : (chain : Option String) (since until : Option ℕ) → Row → Bool
is_read chain since until r =
    unset_or (λ c. in_chain c r) chain
    && unset_or (λ m. leb m r.columns.at) since
    && unset_or (λ m. leb r.columns.at m) until

-- `ORDER BY seq DESC` of rows in ascending order
unfoldable pub descending : List Row → List Row
descending [] = []
descending (r ∷ rows) = descending rows ++ (r ∷ [])

unfoldable pub read_entries :
    (chain : Option String) (since until : Option ℕ) (limit : ℤ) → AuditDb → List Row
unfolding bounded descending
read_entries chain since until limit db =
    take (bounded limit) (descending (select (is_read chain since until) db.rows))

-- `_entry_of_row`
abbrev pub entry_of_row : Option Row → Option Entry
entry_of_row none = none
entry_of_row (some r) = some r.columns

unfoldable pub last_entry : (chain : String) (kind : Option String) → AuditDb → Option Entry
last_entry chain kind db =
    entry_of_row
      (fetch_last (λ r. in_chain chain r && unset_or (λ k. str_eq r.columns.kind k) kind) db.rows)

-- `chain.removeprefix("u:")`, none where the prefix is missing.
unfoldable pub without_prefix : (prefix chain : String) → Option String
without_prefix String.[] chain = some chain
without_prefix (String.◌∷◌ c prefix) String.[] = none
without_prefix (String.◌∷◌ c prefix) (String.◌∷◌ d chain) =
    if code c == code d then without_prefix prefix chain else none

unfoldable pub account_of : String → String
unfolding without_prefix
account_of chain = or_else chain (without_prefix user_chain_prefix chain)

-- `MAX(at)` of the rows of a chain
unfoldable pub youngest : List Row → ℕ
youngest [] = 0
youngest (r ∷ rows) = max r.columns.at (youngest rows)

-- `HAVING MAX(at) <= moment - silence_days * _DAY_SECONDS`, the difference written as a sum.
abbrev pub is_silent : (moment silence_days : ℕ) → List Row → String → Bool
unfolding youngest
is_silent moment silence_days rows chain =
    leb (youngest (select (in_chain chain) rows) + silence_days * day_seconds) moment

abbrev pub keep_chains : (String → Bool) → List String → List String
keep_chains p [] = []
keep_chains p (c ∷ chains) = if p c then c ∷ keep_chains p chains else keep_chains p chains

abbrev pub is_some_text : Option String → Bool
is_some_text o = not (is_none o)

unfoldable pub silent_users : (moment silence_days : ℕ) → AuditDb → List String
unfolding chains_of account_of is_silent
silent_users moment silence_days db = map account_of (
    keep_chains
      (λ c.
        is_some_text (without_prefix user_chain_prefix c)
        && is_silent moment silence_days db.rows c)
      (chains_of db.rows))

pub record StoreOverview : Type 0 where
  pub chains : ℕ
  pub entries : ℕ
  pub tombstones : ℕ
  pub explained_entries : ℕ
  pub used_bytes : ℕ
  pub sweepable_entries : ℕ

abbrev pub is_tombstone : Row → Bool
is_tombstone r = str_eq r.columns.kind kind_tombstone

-- `COALESCE(SUM(removed), 0)`
unfoldable pub sum_removed : List Row → ℕ
sum_removed [] = 0
sum_removed (r ∷ rows) = or_else 0 r.columns.removed + sum_removed rows

unfoldable pub overview : Pages → AuditDb → StoreOverview
unfolding chains_of sum_removed
overview pages db = record {
  chains = length (chains_of db.rows);
  entries = length db.rows;
  tombstones = count is_tombstone db.rows;
  explained_entries = sum_removed (select is_tombstone db.rows);
  used_bytes = used_bytes pages;
  sweepable_entries = count is_sweepable db.rows;
}
