-- ===== src/Audit/Balance.antt =====
-- audit/store.py, `AuditStore.sweep`: what a sweep reports is what it took, and the markers say so.
use Prim.Native.Char.{Char}
use nextcloud_mcp_connector.Base.{
  ℕ, zero, suc, ◌+◌, ◌*◌, ◌≡◌, refl, ap, subst, Bool, true, ◌&&◌, List, [], ◌∷◌, arith, leb, length,
  Bool-cases, Option-cases, inl, inr, count, select, delete, take,
}
use nextcloud_mcp_connector.Base.Counting.{count-delete-select}
use nextcloud_mcp_connector.Audit.Rows.{
  Row, AuditDb, sweep_batch_rows, sweep_max_rounds, day_seconds,
}
use nextcloud_mcp_connector.Audit.Chains.{Digest}
use nextcloud_mcp_connector.Audit.Markers.{nothing_removed, note_removed}
use nextcloud_mcp_connector.Audit.Sweep.{
  last_seq, is_sweepable, expires, Committed, Progress, Pages, used_bytes, commit_batch,
  commit_read, sweep_batch, sweep_expired, sweep_over_limit, advance, swept, expired_part, sweep,
}
use nextcloud_mcp_connector.Audit.Linked.{IsAscending, IsAscending-delete}
use nextcloud_mcp_connector.Audit.Batches.{select-batch}
use nextcloud_mcp_connector.Audit.Commits.{
  IfAny, Reach, commits, expires_batch, trims_batch, Reach-IsWhole, Reach-expired_part,
}
use nextcloud_mcp_connector.Audit.Expiring.{count-write_markers}
use nextcloud_mcp_connector.Audit.Tally.{sum_by-delete}
use nextcloud_mcp_connector.Audit.Accounted.{
  stands_for, explained_rows, explained-write_markers, HasKeys-note_removed, total-note_removed,
}

-- So many rows went, and the markers stand for so many more.
abbrev pub IsBalanced : (before now : AuditDb) (went : ℕ) → Type 0
IsBalanced before now went =
    (count is_sweepable now.rows + went ≡ count is_sweepable before.rows)
    × (explained_rows now.rows ≡ explained_rows before.rows + went)

-- A row that may go stands for nothing.
sweepable_alone : (r : Row) → is_sweepable r ≡ true → stands_for r ≡ 0
sweepable_alone r goes = ground (arith, goes)

count-true {ℓ} : {A : Type ℓ} (xs : List A) → count (λ x. true) xs ≡ length xs
count-true [] = refl
count-true (x ∷ xs) = omega (arith, count-true xs)

module _ (digest : Digest) (isprintable : Char → Bool) where
  module _ (n moment : ℕ) (db : AuditDb) (ascends : IsAscending 0 db.rows) where
    balance-commit_read :
        (p : Row → Bool) (batch : List Row)
        → ((x : Row) → p x ≡ true → is_sweepable x ≡ true)
        → take n (select p db.rows) ≡ batch
        → IfAny
            (λ (c : Committed). IsBalanced db c.db c.went)
            (commit_read digest isprintable moment p batch db)
    unfolding commit_read commit_batch
    balance-commit_read p [] spares read = tt
    balance-commit_read p (r ∷ batch) spares read =
        let goes = (λ (x : Row). p x && leb x.seq (last_seq r batch)) in
        let rest = record db { rows = delete goes db.rows } in
        let t = note_removed (r ∷ batch) nothing_removed in
        (
          omega (
            arith,
            count-write_markers digest isprintable moment t rest,
            count-delete-select is_sweepable goes db.rows
                (λ x gone. spares x (ground (arith, gone))),
            ap (count (λ (x : Row). true)) (select-batch p n db.rows r batch ascends read),
            count-true (r ∷ batch),
          ),
          omega (
            arith,
            explained-write_markers digest isprintable moment t rest
                (IsAscending-delete 0 goes db.rows ascends)
                (HasKeys-note_removed (r ∷ batch) nothing_removed (refl, tt)),
            sum_by-delete stands_for goes db.rows
                (λ x gone. sweepable_alone x (spares x (ground (arith, gone)))),
            total-note_removed (r ∷ batch) nothing_removed,
          ),
        )

    pub balance-expired_batch :
        (window : ℕ)
        → IfAny
            (λ (c : Committed). IsBalanced db c.db c.went)
            (sweep_batch digest isprintable n moment (expires moment window) db)
    unfolding sweep_batch
    balance-expired_batch window =
        balance-commit_read (expires moment window db.rows)
          (take n (select (expires moment window db.rows) db.rows)) (λ x gone. ground (arith, gone))
          refl

    pub balance-oldest_batch :
        IfAny
          (λ (c : Committed). IsBalanced db c.db c.went)
          (sweep_batch digest isprintable n moment (λ rows. is_sweepable) db)
    unfolding sweep_batch
    balance-oldest_batch =
        balance-commit_read is_sweepable (take n (select is_sweepable db.rows)) (λ x gone. gone)
          refl

  -- From one state of a sweep to a later one.
  abbrev Continues : Progress → Progress → Type 0
  Continues p q =
      (count is_sweepable q.db.rows + q.went ≡ count is_sweepable p.db.rows + p.went)
      × (explained_rows q.db.rows + p.went ≡ explained_rows p.db.rows + q.went)

  continue :
      (p q : Progress) (c : Committed)
      → IsBalanced p.db c.db c.went
      → Continues (advance p c) q
      → Continues p q
  unfolding advance
  continue p q c step rest = (omega (arith, step.0, rest.0), omega (arith, step.1, rest.1))

  module _ (moment : ℕ) where
    balance-sweep_expired :
        (fuel window : ℕ) (p : Progress)
        → Reach digest isprintable p.db
        → Continues p (sweep_expired digest isprintable sweep_batch_rows moment fuel window p)
    unfolding sweep_expired advance
    balance-sweep_expired zero window p reached = (refl, refl)
    balance-sweep_expired (suc fuel) window p reached =
        elim (Option-cases
          (sweep_batch digest isprintable sweep_batch_rows moment (expires moment window) p.db)) [
            | inl done ↦ rw (sweep_expired, done) (refl, refl)
            | inr (c, committed) ↦
                rw (sweep_expired, committed)
                  (continue p
                    (sweep_expired digest isprintable sweep_batch_rows moment fuel window
                      (advance p c))
                    c
                    (subst (IfAny (λ (d : Committed). IsBalanced p.db d.db d.went)) committed (
                      balance-expired_batch sweep_batch_rows moment p.db
                        (Reach-IsWhole digest isprintable reached).0.0 window))
                    (balance-sweep_expired fuel window (advance p c)
                      (commits reached (expires_batch p.db moment window c committed))))
          ]

    balance-sweep_over_limit :
        (rounds size_limit : ℕ) (pages : ℕ → Pages) (p : Progress)
        → Reach digest isprintable p.db
        → Continues p
            (sweep_over_limit digest isprintable sweep_batch_rows moment rounds pages size_limit p)
    unfolding sweep_over_limit advance
    balance-sweep_over_limit zero size_limit pages p reached = (refl, refl)
    balance-sweep_over_limit (suc rounds) size_limit pages p reached =
        elim (Bool-cases (leb (used_bytes (pages rounds)) size_limit)) [
          | inl fits ↦ rw (sweep_over_limit, fits) (refl, refl)
          | inr over ↦
              elim (Option-cases (
                sweep_batch digest isprintable sweep_batch_rows moment (λ rows. is_sweepable)
                  p.db)) [
                    | inl done ↦ rw (sweep_over_limit, over, done) (refl, refl)
                    | inr (c, committed) ↦
                        rw (sweep_over_limit, over, committed)
                          (continue p
                            (sweep_over_limit digest isprintable sweep_batch_rows moment rounds
                              pages size_limit (advance p c))
                            c
                            (subst (IfAny (λ (d : Committed). IsBalanced p.db d.db d.went))
                              committed
                              (balance-oldest_batch sweep_batch_rows moment p.db
                                (Reach-IsWhole digest isprintable reached).0.0))
                            (balance-sweep_over_limit rounds size_limit pages (advance p c)
                              (commits reached (trims_batch p.db moment c committed))))
                  ]
        ]

    -- A sweep of a reachable log loses no count: the rows that it reports as expired and as trimmed are
    -- those that are missing outside the instance chain, and the markers of the instance chain stand
    -- for exactly so many rows more than before.
    pub sweep-balance :
        (days size_limit : ℕ) (pages : ℕ → Pages) (measured : Pages) (db : AuditDb)
        → Reach digest isprintable db
        → let result = sweep digest isprintable moment days size_limit pages measured db in
          (count is_sweepable result.1.rows + (result.0.expired + result.0.trimmed)
            ≡ count is_sweepable db.rows)
          × (explained_rows result.1.rows
              ≡ explained_rows db.rows + (result.0.expired + result.0.trimmed))
    unfolding sweep expired_part
    sweep-balance days size_limit pages measured db reached =
        let first = expired_part digest isprintable moment days db in
        let one =
          balance-sweep_expired (suc (length db.rows)) (days * day_seconds) (swept db) reached in
        let two =
          balance-sweep_over_limit sweep_max_rounds size_limit pages (record first { went = 0 })
            (Reach-expired_part digest isprintable moment days db reached) in
        (omega (arith, one.0, two.0), omega (arith, one.1, two.1))
