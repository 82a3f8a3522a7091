-- ===== src/Audit/Markers.antt =====
-- audit/store.py, `_note_removed` and `_write_markers`: one marker for each chain that lost rows, and
-- the markers at the end of the instance chain absorbed into the new ones.
use Prim.Native.Char.{Char}
use nextcloud_mcp_connector.Base.{
  ℕ, ◌+◌, String, Bool, true, false, ◌&&◌, Option, none, some, List, [], ◌∷◌, map, any, is_some,
  select, delete, ◌==◌, if◌then◌else◌,
}
use nextcloud_mcp_connector.Base.Dict.{Dict, get, put}
use nextcloud_mcp_connector.Base.Text.{sorted}
use nextcloud_mcp_connector.Audit.Rows.{Entry, Row, AuditDb, chain_instance, in_chain, names_gap}
use nextcloud_mcp_connector.Audit.Chains.{Digest, marker, append_row}

abbrev pub or_else {ℓ} : {A : Type ℓ} → A → Option A → A
or_else a none = a
or_else a (some b) = b

-- The dictionaries `ends` and `counts` of one batch.
pub record Removed : Type 0 where
  pub ends : Dict String
  pub counts : Dict ℕ

abbrev pub nothing_removed : Removed
nothing_removed = record { ends = []; counts = [] }

unfoldable pub note_row : Row → Removed → Removed
unfolding get put
note_row r t = record {
  ends = put t.ends r.columns.chain r.hash;
  counts = put t.counts r.columns.chain (or_else 0 (get t.counts r.columns.chain) + 1);
}

unfoldable pub note_removed : List Row → Removed → Removed
unfolding note_row
note_removed [] t = t
note_removed (r ∷ batch) t = note_removed batch (note_row r t)

-- The walk over the end of the instance chain.
pub record Marks : Type 0 where
  pub ends : Dict String
  pub counts : Dict ℕ
  pub ats : Dict ℕ
  pub superseded : List ℕ

-- `dict.fromkeys(ends, moment)`
abbrev pub from_keys : Dict String → ℕ → Dict ℕ
from_keys ends moment = map (λ (kv : String × String). (kv.0, moment)) ends

abbrev pub new_marks : ℕ → Removed → Marks
new_marks moment t = record {
  ends = t.ends;
  counts = t.counts;
  ats = from_keys t.ends moment;
  superseded = [];
}

-- One marker of the run, for the chain that it names and with the end that it names.
unfoldable pub absorb_marker : Row → (gap_chain gap_hash : String) → Marks → Marks
unfolding get put
absorb_marker r gap_chain gap_hash m =
    let counts =
      put m.counts gap_chain (or_else 0 (get m.counts gap_chain) + or_else 0 r.columns.removed) in
    if is_some (get m.ends gap_chain)
    then record m { counts = counts; superseded = r.seq ∷ m.superseded }
    else record {
      ends = put m.ends gap_chain gap_hash;
      counts = counts;
      ats = put m.ats gap_chain r.columns.at;
      superseded = r.seq ∷ m.superseded;
    }

unfoldable pub absorb_row : Row → Marks → Marks
unfolding absorb_marker
absorb_row r m = absorb_marker r (or_else "" r.columns.gap_chain) (or_else "" r.columns.gap_hash) m

-- The loop takes the newest row first and stops at the first that is no marker: what the later rows
-- give, and whether the loop is still running.
unfoldable pub absorb : Marks → List Row → Marks × Bool
unfolding absorb_row
absorb m [] = (m, true)
absorb m (r ∷ rows) =
    let later = absorb m rows in
    if later.1 && names_gap r.columns then (absorb_row r later.0, true) else (later.0, false)

-- `seq` is among the superseded ones.
abbrev pub among : ℕ → List ℕ → Bool
among n ns = any (λ m. n == m) ns

abbrev pub is_superseded : Marks → Row → Bool
is_superseded m r = in_chain chain_instance r && among r.seq m.superseded

abbrev pub keys {ℓ} : {A : Type ℓ} → Dict A → List String
keys d = map (λ kv. kv.0) d

-- The marker of one chain.
abbrev pub marker_of : Marks → String → Entry
marker_of m chain =
    marker (or_else 0 (get m.ats chain)) (or_else 0 (get m.counts chain)) chain
      (or_else "" (get m.ends chain))

module _ (digest : Digest) (isprintable : Char → Bool) where
  -- The new markers, chain by chain.
  unfoldable pub append_markers : Marks → List String → AuditDb → AuditDb
  unfolding append_row get
  append_markers m [] db = db
  append_markers m (chain ∷ chains) db =
      append_markers m chains (append_row digest isprintable (marker_of m chain) db)

  unfoldable pub replace_markers : Marks → AuditDb → AuditDb
  unfolding append_markers sorted
  replace_markers m db =
      append_markers m (sorted (keys m.ends))
        (record db { rows = delete (is_superseded m) db.rows })

  unfoldable pub write_markers : (moment : ℕ) → Removed → AuditDb → AuditDb
  unfolding replace_markers absorb
  write_markers moment t db =
      replace_markers ((absorb (new_marks moment t) (select (in_chain chain_instance) db.rows)).0)
        db
