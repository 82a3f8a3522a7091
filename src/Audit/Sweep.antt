-- ===== src/Audit/Sweep.antt =====
-- audit/store.py, `_sweep_expired`, `_sweep_over_limit` and `AuditStore.sweep`: rows give way in
-- batches, each committed with the markers that explain it. A difference of moments is written as a
-- sum, since it may be negative. What SQLite answers about its pages is a parameter.
use Prim.Native.Char.{Char}
use nextcloud_mcp_connector.Base.{
  ℕ, zero, suc, ◌+◌, ◌-◌, ◌*◌, String, Bool, true, false, not, ◌&&◌, Option, none, some, List, [],
  ◌∷◌, ltb, leb, any, str_eq, length, fetch, select, delete, take, if◌then◌else◌,
}
use nextcloud_mcp_connector.Audit.Rows.{
  Row, AuditDb, chain_instance, in_chain, day_seconds, sweep_batch_rows, sweep_max_rounds,
}
use nextcloud_mcp_connector.Audit.Chains.{Digest}
use nextcloud_mcp_connector.Audit.Markers.{nothing_removed, note_removed, write_markers, keys}

-- `at > cutoff`, the cutoff being the moment less so many seconds.
abbrev pub is_young : (moment window : ℕ) → Row → Bool
is_young moment window r = ltb moment (r.columns.at + window)

abbrev pub seq_or : ℕ → Option Row → ℕ
seq_or n none = n
seq_or n (some r) = r.seq

-- _EXPIRED_PREFIX: the rows are in ascending order, so the first young row has the least number.
abbrev pub in_expired_prefix : (moment window : ℕ) → List Row → Row → Bool
in_expired_prefix moment window rows r =
    ltb r.seq (
      seq_or (r.seq + 1) (fetch (λ s. in_chain r.columns.chain s && is_young moment window s) rows))

-- `WHERE chain <> ?`
abbrev pub is_sweepable : Row → Bool
is_sweepable r = not (in_chain chain_instance r)

-- The condition of _EXPIRED_ROWS.
abbrev pub expires : (moment window : ℕ) → List Row → Row → Bool
expires moment window rows r = is_sweepable r && in_expired_prefix moment window rows r

-- `batch[-1][0]`
abbrev pub last_seq : Row → List Row → ℕ
last_seq r [] = r.seq
last_seq r (s ∷ batch) = last_seq s batch

-- What one batch does, once it is committed.
pub record Committed : Type 0 where
  pub db : AuditDb
  pub went : ℕ
  pub chains : List String

-- How far a sweep has come: the rows that went, and the chains that lost some.
pub record Progress : Type 0 where
  pub db : AuditDb
  pub went : ℕ
  pub affected : List String

-- `affected.update(chains)`
unfoldable pub update_set : List String → List String → List String
update_set [] affected = affected
update_set (c ∷ chains) affected =
    let rest = update_set chains affected in if any (str_eq c) rest then rest else c ∷ rest

unfoldable pub advance : Progress → Committed → Progress
unfolding update_set
advance p c = record {
  db = c.db;
  went = p.went + c.went;
  affected = update_set c.chains p.affected;
}

pub record Pages : Type 0 where
  pub page_count : ℕ
  pub page_size : ℕ
  pub freelist_count : ℕ

abbrev pub used_bytes : Pages → ℕ
used_bytes p = (p.page_count - p.freelist_count) * p.page_size

pub record SweepReport : Type 0 where
  pub expired : ℕ
  pub trimmed : ℕ
  pub tombstones : ℕ
  pub used_bytes_after : ℕ

module _ (digest : Digest) (isprintable : Char → Bool) (moment : ℕ) where
  unfoldable pub commit_batch : (Row → Bool) → Row → List Row → AuditDb → Committed
  unfolding note_removed write_markers
  commit_batch p r batch db =
      let t = note_removed (r ∷ batch) nothing_removed in
      record {
        db =
            write_markers digest isprintable moment t
              (record db { rows = delete (λ x. p x && leb x.seq (last_seq r batch)) db.rows });
        went = length (r ∷ batch);
        chains = keys t.ends;
      }

  -- `if not batch`
  unfoldable pub commit_read : (Row → Bool) → List Row → AuditDb → Option Committed
  unfolding commit_batch
  commit_read p [] db = none
  commit_read p (r ∷ batch) db = some (commit_batch p r batch db)

module _ (digest : Digest) (isprintable : Char → Bool) (batch_rows moment : ℕ) where
  -- The transaction of one batch: the first rows that meet the condition, if there are any.
  unfoldable pub sweep_batch : (List Row → Row → Bool) → AuditDb → Option Committed
  unfolding commit_read
  sweep_batch p db =
      commit_read digest isprintable moment (p db.rows)
        (take batch_rows (select (p db.rows) db.rows)) db

  unfoldable pub sweep_expired : (fuel window : ℕ) → Progress → Progress
  unfolding sweep_batch advance
  sweep_expired zero window p = p
  sweep_expired (suc fuel) window p = elim (sweep_batch (expires moment window) p.db) [
    | none ↦ p
    | some c ↦ sweep_expired fuel window (advance p c)
  ]

  -- The pages are measured before each round.
  unfoldable pub sweep_over_limit :
      (rounds : ℕ) (pages : ℕ → Pages) (size_limit : ℕ) → Progress → Progress
  unfolding sweep_batch advance
  sweep_over_limit zero pages size_limit p = p
  sweep_over_limit (suc rounds) pages size_limit p =
      elim (leb (used_bytes (pages rounds)) size_limit) [
        | true ↦ p
        | false ↦ elim (sweep_batch (λ rows. is_sweepable) p.db) [
          | none ↦ p
          | some c ↦ sweep_over_limit rounds pages size_limit (advance p c)
        ]
      ]

abbrev pub swept : AuditDb → Progress
swept db = record { db = db; went = 0; affected = [] }

-- Each batch of expired rows takes at least one row, so as many rounds as rows are enough.
module _ (digest : Digest) (isprintable : Char → Bool) (moment days : ℕ) where
  unfoldable pub expired_part : AuditDb → Progress
  unfolding sweep_expired
  expired_part db =
      sweep_expired digest isprintable sweep_batch_rows moment (suc (length db.rows))
        (days * day_seconds) (swept db)

  unfoldable pub sweep :
      (size_limit : ℕ) (pages : ℕ → Pages) (after : Pages) → AuditDb → SweepReport × AuditDb
  unfolding expired_part sweep_over_limit
  sweep size_limit pages after db =
      let first = expired_part db in
      let second =
        sweep_over_limit digest isprintable sweep_batch_rows moment sweep_max_rounds pages
          size_limit (record first { went = 0 }) in
      (
        record {
          expired = first.went;
          trimmed = second.went;
          tombstones = length second.affected;
          used_bytes_after = used_bytes after;
        },
        second.db,
      )
