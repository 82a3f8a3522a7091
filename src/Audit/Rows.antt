-- ===== src/Audit/Rows.antt =====
-- audit/store.py: the identifiers of the chains, the kinds of a row, a row on its way in and a row
-- of the table. A moment is a count of whole seconds.
use Prim.Native.Char.{Char}
use nextcloud_mcp_connector.Base.{
  ℕ, String, Bool, ◌&&◌, Option, none, some, List, [], str_eq, is_some, if◌then◌else◌,
}
use nextcloud_mcp_connector.Base.Text.{concat, is_empty, sorted}
use nextcloud_mcp_connector.Audit.Printable.{printable}

-- RETENTION_DAYS, SIZE_LIMIT_BYTES, USER_SILENCE_DAYS, SWEEP_BATCH_ROWS, SWEEP_MAX_ROUNDS
abbrev pub retention_days : ℕ
retention_days = 180

abbrev pub size_limit_bytes : ℕ
size_limit_bytes = 100000000

abbrev pub user_silence_days : ℕ
user_silence_days = 30

abbrev pub sweep_batch_rows : ℕ
sweep_batch_rows = 5000

abbrev pub sweep_max_rounds : ℕ
sweep_max_rounds = 20

abbrev pub day_seconds : ℕ
day_seconds = 86400

abbrev pub client_name_limit : ℕ
client_name_limit = 80

abbrev pub actor_limit : ℕ
actor_limit = 64

-- A digest is kept as its hexadecimal text.
abbrev pub genesis : String
genesis = "0000000000000000000000000000000000000000000000000000000000000000"

abbrev pub actor_unknown : String
actor_unknown = "unknown"

abbrev pub chain_instance : String
chain_instance = "i:instance"

abbrev pub user_chain_prefix : String
user_chain_prefix = "u:"

abbrev pub chain_exchange : String
chain_exchange = "x:exchange"

abbrev pub user_chain : String → String
user_chain nc_user = concat user_chain_prefix nc_user

abbrev pub kind_call : String
kind_call = "call"

abbrev pub kind_tombstone : String
kind_tombstone = "tombstone"

abbrev pub kind_switch : String
kind_switch = "switch"

pub record Entry : Type 0 where
  pub chain : String
  pub kind : String
  pub at : ℕ
  pub actor : Option String
  pub nc_user : Option String
  pub tool : Option String
  pub client_id : Option String
  pub auth_id : Option String
  pub client_name : Option String
  pub outcome : Option String
  pub reason : Option String
  pub duration_ms : Option ℕ
  pub params : List String
  pub removed : Option ℕ
  pub gap_chain : Option String
  pub gap_hash : Option String

-- The defaults of an Entry.
abbrev pub plain_entry : (chain : String) (at : ℕ) → Entry
plain_entry chain at = record {
  chain = chain;
  kind = kind_call;
  at = at;
  actor = none;
  nc_user = none;
  tool = none;
  client_id = none;
  auth_id = none;
  client_name = none;
  outcome = none;
  reason = none;
  duration_ms = none;
  params = [];
  removed = none;
  gap_chain = none;
  gap_hash = none;
}

-- A row: the columns between `seq` and the two hashes are those of an Entry.
pub record Row : Type 0 where
  pub seq : ℕ
  pub columns : Entry
  pub prev_hash : String
  pub hash : String

-- The table in ascending order of `seq`, and the highest number ever handed out (sqlite_sequence).
pub record AuditDb : Type 0 where
  pub rows : List Row
  pub highest : ℕ

abbrev pub empty_log : AuditDb
empty_log = record { rows = []; highest = 0 }

-- `WHERE chain = ?`
abbrev pub in_chain : String → Row → Bool
in_chain chain r = str_eq r.columns.chain chain

-- A marker for a gap: a tombstone that names the chain and the end of what went.
abbrev pub names_gap : Entry → Bool
names_gap e = str_eq e.kind kind_tombstone && is_some e.gap_chain && is_some e.gap_hash

-- `value or None`
abbrev pub or_none : String → Option String
or_none value = if is_empty value then none else some value

module _ (isprintable : Char → Bool) where
  unfoldable pub clean_client_name : Option String → Option String
  unfolding printable
  clean_client_name none = none
  clean_client_name (some value) = or_none (printable isprintable client_name_limit value)

  unfoldable pub clean_actor : Option String → Option String
  unfolding printable
  clean_actor none = none
  clean_actor (some value) = or_none (printable isprintable actor_limit value)

  -- The columns of the new row; `seq` stands beside them.
  unfoldable pub row_values : Entry → Entry
  unfolding clean_client_name clean_actor sorted
  row_values e = record e {
    actor = clean_actor e.actor;
    client_name = clean_client_name e.client_name;
    params = sorted e.params;
  }
