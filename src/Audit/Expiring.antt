-- ===== src/Audit/Expiring.antt =====
-- audit/store.py, `_sweep_expired`: the loop ends, and nothing that has expired is left.
use Prim.Native.Char.{Char}
use nextcloud_mcp_connector.Base.{
  ℕ, zero, suc, ◌*◌, ◌<◌, String, ◌≡◌, refl, ◌∙◌, subst, inl, inr, Bool, true, false, ◌&&◌, none,
  some, List, [], ◌∷◌, arith, ltb, leb, length, str_eq, Bool-cases, Option-cases, count, select,
  delete, fetch, take,
}
use nextcloud_mcp_connector.Base.Counting.{
  count-append, count-delete-none, count-delete-lt, All-fetch, All-select-nil, fetch_head,
  count-length, fetch_sound,
}
use nextcloud_mcp_connector.Base.Text.{sorted}
use nextcloud_mcp_connector.Audit.Rows.{
  Row, AuditDb, chain_instance, in_chain, row_values, day_seconds, sweep_batch_rows,
}
use nextcloud_mcp_connector.Audit.Chains.{Digest, new_row, append_row}
use nextcloud_mcp_connector.Audit.Markers.{
  Marks, Removed, new_marks, nothing_removed, note_removed, marker_of, absorb, keys, is_superseded,
  append_markers, replace_markers, write_markers,
}
use nextcloud_mcp_connector.Audit.Sweep.{
  last_seq, seq_or, is_young, is_sweepable, expires, Committed, Progress, commit_batch, commit_read,
  sweep_batch, sweep_expired, advance, swept, expired_part,
}
use nextcloud_mcp_connector.Audit.Linked.{IsAscending, All-IsAscending}
use nextcloud_mcp_connector.Audit.Batches.{select-batch, expires-chain, first_young}
use nextcloud_mcp_connector.Audit.Whole.{IsWhole}
use nextcloud_mcp_connector.Audit.Commits.{
  IfAny, IsWhole-expired_batch, Reach, Reach-IsWhole, Reach-expired_part,
}

module _ (digest : Digest) (isprintable : Char → Bool) where
  count-append_markers :
      (m : Marks) (chains : List String) (db : AuditDb)
      → count is_sweepable (append_markers digest isprintable m chains db).rows
        ≡ count is_sweepable db.rows
  unfolding append_markers append_row new_row row_values
  count-append_markers m [] db = refl
  count-append_markers m (c ∷ chains) db =
      count-append_markers m chains (append_row digest isprintable (marker_of m c) db)
      ∙ count-append is_sweepable db.rows (new_row digest isprintable (marker_of m c) db ∷ [])
      ∙ omega arith

  -- The markers are not among the rows that a sweep may take.
  pub count-write_markers :
      (moment : ℕ) (t : Removed) (db : AuditDb)
      → count is_sweepable (write_markers digest isprintable moment t db).rows
        ≡ count is_sweepable db.rows
  unfolding write_markers replace_markers
  count-write_markers moment t db =
      let m = (absorb (new_marks moment t) (select (in_chain chain_instance) db.rows)).0 in
      count-append_markers m (sorted (keys m.ends))
        (record db { rows = delete (is_superseded m) db.rows })
      ∙ count-delete-none is_sweepable (is_superseded m) db.rows (λ x gone. ground (arith, gone))

  module _ (n moment : ℕ) (db : AuditDb) (ascends : IsAscending 0 db.rows) where
    count-commit_read :
        (p : Row → Bool) (batch : List Row)
        → ((x : Row) → p x ≡ true → is_sweepable x ≡ true)
        → take n (select p db.rows) ≡ batch
        → IfAny
            (λ (c : Committed). count is_sweepable c.db.rows < count is_sweepable db.rows)
            (commit_read digest isprintable moment p batch db)
    unfolding commit_read commit_batch
    count-commit_read p [] spares read = tt
    count-commit_read p (r ∷ batch) spares read =
        let goes = (λ (x : Row). p x && leb x.seq (last_seq r batch)) in
        ground (
          arith,
          count-write_markers moment (note_removed (r ∷ batch) nothing_removed)
              (record db { rows = delete goes db.rows }),
          count-delete-lt is_sweepable goes db.rows batch r
              (λ x gone. spares x (ground (arith, gone)))
              (select-batch p n db.rows r batch ascends read),
        )

    -- Each batch takes at least one row.
    count-sweep_batch :
        (window : ℕ)
        → IfAny
            (λ (c : Committed). count is_sweepable c.db.rows < count is_sweepable db.rows)
            (sweep_batch digest isprintable n moment (expires moment window) db)
    unfolding sweep_batch
    count-sweep_batch window =
        count-commit_read (expires moment window db.rows)
          (take n (select (expires moment window db.rows) db.rows)) (λ x gone. ground (arith, gone))
          refl

  sweep_expired-enough :
      (moment window fuel : ℕ) (p : Progress)
      → IsWhole digest p.db
      → count is_sweepable p.db.rows < fuel
      → sweep_batch digest isprintable sweep_batch_rows moment
          (expires moment window)
          (sweep_expired digest isprintable sweep_batch_rows moment fuel window p).db
        ≡ none
  unfolding sweep_expired advance
  sweep_expired-enough moment window zero p whole lt = absurd (omega (arith, lt))
  sweep_expired-enough moment window (suc fuel) p whole lt =
      elim (Option-cases
        (sweep_batch digest isprintable sweep_batch_rows moment (expires moment window) p.db)) [
          | inl done ↦ rw (sweep_expired, done) done
          | inr (c, committed) ↦
              rw (sweep_expired, committed)
                (sweep_expired-enough moment window fuel (advance p c)
                  (subst (IfAny (λ (d : Committed). IsWhole digest d.db)) committed (
                    IsWhole-expired_batch digest isprintable sweep_batch_rows moment p.db whole
                      window))
                  (omega (
                    arith,
                    lt,
                    subst
                        (IfAny (λ (d : Committed).
                          count is_sweepable d.db.rows < count is_sweepable p.db.rows))
                        committed (count-sweep_batch sweep_batch_rows moment p.db whole.0.0 window),
                  )))
        ]

  nothing_taken :
      (n moment : ℕ) (p : Row → Bool) (rows : List Row) (db : AuditDb)
      → commit_read digest isprintable moment p (take (suc n) rows) db ≡ none
      → rows ≡ []
  unfolding commit_read
  nothing_taken n moment p [] db done = refl
  nothing_taken n moment p (r ∷ rows) db done = cc

  -- The batch is empty exactly where nothing is left to take.
  none_left :
      (n moment : ℕ) (p : List Row → Row → Bool) (db : AuditDb)
      → sweep_batch digest isprintable (suc n) moment p db ≡ none
      → select (p db.rows) db.rows ≡ []
  unfolding sweep_batch
  none_left n moment p db done =
      nothing_taken n moment (p db.rows) (select (p db.rows) db.rows) db done

  nothing_left :
      (moment days : ℕ) (db : AuditDb)
      → Reach digest isprintable db
      → let q = expired_part digest isprintable moment days db in
        select (expires moment (days * day_seconds) q.db.rows) q.db.rows ≡ []
  unfolding expired_part
  nothing_left moment days db reached =
      none_left 4999 moment (expires moment (days * day_seconds))
        (expired_part digest isprintable moment days db).db
        (sweep_expired-enough moment (days * day_seconds) (suc (length db.rows)) (swept db)
          (Reach-IsWhole digest isprintable reached)
          (omega (arith, count-length is_sweepable db.rows)))

module _ (moment window : ℕ) where
  behind_old :
      (chain : String) (x : Row) (rows : List Row)
      → IsAscending x.seq rows
      → is_young moment window x ≡ false
      → ltb x.seq (seq_or (suc x.seq) (first_young moment window (x ∷ rows) chain)) ≡ true
  behind_old chain x rows ascends past =
      elim (Option-cases (first_young moment window rows chain)) [
        | inl nothing ↦ ground (arith, past, nothing)
        | inr (s, found) ↦ ground (
          arith,
          past,
          found,
          All-fetch (λ (y : Row). x.seq < y.seq) (λ y. in_chain chain y && is_young moment window y)
              rows s (All-IsAscending x.seq rows ascends) found,
        )
      ]

  -- A first row of a chain that is not young stands before the first young one.
  old_head :
      (chain : String) (b : ℕ) (rows : List Row) (r : Row)
      → IsAscending b rows
      → fetch (in_chain chain) rows ≡ some r
      → is_young moment window r ≡ false
      → ltb r.seq (seq_or (suc r.seq) (first_young moment window rows chain)) ≡ true
  old_head chain b [] r ascends found old = cc
  old_head chain b (x ∷ rows) r ascends found old = elim (Bool-cases (in_chain chain x)) [
    | inl own ↦
        subst
          (λ (y : Row).
            is_young moment window y ≡ false
            → ltb y.seq (seq_or (suc y.seq) (first_young moment window (x ∷ rows) chain)) ≡ true)
          (fetch_head (in_chain chain) x rows r own found)
          (λ past. behind_old chain x rows ascends.1 past) old
    | inr other ↦ ground (arith, other, found, old_head chain x.seq rows r ascends.1)
  ]

-- A retention sweep ends with no expired row at the head of a chain: the first row of every chain but
-- the instance chain is younger than the window, whatever the log was reached by.
pub expired_part-head :
    (digest : Digest) (isprintable : Char → Bool) (moment days : ℕ) (db : AuditDb)
    → Reach digest isprintable db
    → (chain : String) (r : Row) → str_eq chain_instance chain ≡ false
    → fetch (in_chain chain) (expired_part digest isprintable moment days db).db.rows ≡ some r
    → is_young moment (days * day_seconds) r ≡ true
expired_part-head digest isprintable moment days db reached chain r other first =
    let p = expired_part digest isprintable moment days db in
    let window = days * day_seconds in
    let whole =
      Reach-IsWhole digest isprintable
        (Reach-expired_part digest isprintable moment days db reached) in
    let spent =
      All-fetch (λ (x : Row). expires moment window p.db.rows x ≡ false) (in_chain chain) p.db.rows
        r
        (All-select-nil (expires moment window p.db.rows) p.db.rows
          (nothing_left digest isprintable moment days db reached))
        first in
    elim (Bool-cases (is_young moment window r)) [
      | inl young ↦ young
      | inr past ↦ ground (
        arith,
        spent,
        expires-chain moment window p.db.rows chain r other
            (fetch_sound (in_chain chain) p.db.rows r first),
        old_head moment window chain 0 p.db.rows r whole.0.0 first past,
      )
    ]
