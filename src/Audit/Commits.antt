-- ===== src/Audit/Commits.antt =====
-- audit/store.py: the commits of the log in any order, a sweep being a sequence of them.
use Prim.Native.Char.{Char}
use nextcloud_mcp_connector.Base.{
  ℕ, zero, suc, ◌*◌, String, ◌≡◌, refl, subst, inl, inr, Bool, true, false, Option, none, some,
  List, [], ◌∷◌, arith, leb, length, Bool-cases, Option-cases, select, take,
}
use nextcloud_mcp_connector.Audit.Rows.{
  Entry, Row, AuditDb, empty_log, genesis, chain_instance, in_chain, names_gap, day_seconds,
  sweep_batch_rows, sweep_max_rounds,
}
use nextcloud_mcp_connector.Audit.Chains.{Digest, append, drop_user_chain}
use nextcloud_mcp_connector.Audit.Sweep.{
  is_sweepable, expires, Committed, Progress, Pages, used_bytes, commit_read, sweep_batch,
  sweep_expired, sweep_over_limit, advance, swept, expired_part, sweep,
}
use nextcloud_mcp_connector.Audit.Batches.{
  select-batch, IsPrefix, is_sweepable-IsPrefix, expires-IsPrefix,
}
use nextcloud_mcp_connector.Audit.Whole.{IsWhole, IsWhole-append_row, IsWhole-commit_batch}
use nextcloud_mcp_connector.Audit.Dropping.{IsWhole-drop_user_chain}

-- What holds of the value, if there is one.
abbrev pub IfAny {ℓ κ} : {A : Type ℓ} → (A → Type κ) → Option A → Type κ
IfAny P none = Unit
IfAny P (some a) = P a

module _ (digest : Digest) (isprintable : Char → Bool) where
  -- Each commit of a sweep.
  IsWhole-commit_read :
      (n moment : ℕ) (p : Row → Bool) (batch : List Row) (db : AuditDb)
      → ((x : Row) → in_chain chain_instance x ≡ true → p x ≡ false)
      → IsPrefix p db.rows
      → take n (select p db.rows) ≡ batch
      → IsWhole digest db
      → IfAny
          (λ (c : Committed). IsWhole digest c.db)
          (commit_read digest isprintable moment p batch db)
  unfolding commit_read
  IsWhole-commit_read n moment p [] db spares prefix read whole = tt
  IsWhole-commit_read n moment p (r ∷ batch) db spares prefix read whole =
      IsWhole-commit_batch digest isprintable moment p r batch db spares prefix
        (select-batch p n db.rows r batch whole.0.0 read) whole

  module _ (n moment : ℕ) (db : AuditDb) (whole : IsWhole digest db) where
    pub IsWhole-expired_batch :
        (window : ℕ)
        → IfAny
            (λ (c : Committed). IsWhole digest c.db)
            (sweep_batch digest isprintable n moment (expires moment window) db)
    unfolding sweep_batch
    IsWhole-expired_batch window =
        IsWhole-commit_read n moment (expires moment window db.rows)
          (take n (select (expires moment window db.rows) db.rows)) db
          (λ x own. ground (arith, own)) (expires-IsPrefix moment window db.rows) refl whole

    pub IsWhole-oldest_batch :
        IfAny
          (λ (c : Committed). IsWhole digest c.db)
          (sweep_batch digest isprintable n moment (λ rows. is_sweepable) db)
    unfolding sweep_batch
    IsWhole-oldest_batch =
        IsWhole-commit_read n moment is_sweepable (take n (select is_sweepable db.rows)) db
          (λ x own. ground (arith, own)) (is_sweepable-IsPrefix db.rows) refl whole

  -- The commits of the log, each with any arguments. A caller appends no marker of its own.
  pub data Step : AuditDb → AuditDb → Type 0 where
    appends :
        (db : AuditDb) (e : Entry)
        → names_gap e ≡ false
        → Step db (append digest isprintable e db).1
    drops :
        (db : AuditDb) (nc_user : String) (moment : ℕ)
        → Step db (drop_user_chain digest isprintable nc_user moment db).1
    expires_batch :
        (db : AuditDb) (moment window : ℕ) (c : Committed)
        → sweep_batch digest isprintable sweep_batch_rows moment (expires moment window) db ≡ some c
        → Step db c.db
    trims_batch :
        (db : AuditDb) (moment : ℕ) (c : Committed)
        → sweep_batch digest isprintable sweep_batch_rows moment (λ rows. is_sweepable) db ≡ some c
        → Step db c.db

  pub data Reach : AuditDb → Type 0 where
    fresh : Reach empty_log
    commits : {db db' : AuditDb} → Reach db → Step db db' → Reach db'

  IsWhole-Step : {db db' : AuditDb} → Step db db' → IsWhole digest db → IsWhole digest db'
  unfolding append
  IsWhole-Step (appends db e plain) whole = IsWhole-append_row digest isprintable e db plain whole
  IsWhole-Step (drops db nc_user moment) whole =
      IsWhole-drop_user_chain digest isprintable nc_user moment db whole
  IsWhole-Step (expires_batch db moment window c committed) whole =
      subst (IfAny (λ (d : Committed). IsWhole digest d.db)) committed
        (IsWhole-expired_batch sweep_batch_rows moment db whole window)
  IsWhole-Step (trims_batch db moment c committed) whole =
      subst (IfAny (λ (d : Committed). IsWhole digest d.db)) committed
        (IsWhole-oldest_batch sweep_batch_rows moment db whole)

  -- Every commit leaves whole chains.
  pub Reach-IsWhole : {db : AuditDb} → Reach db → IsWhole digest db
  Reach-IsWhole fresh = ((tt, tt, tt), λ chain other. (genesis, tt, inl refl))
  Reach-IsWhole (commits before step) = IsWhole-Step step (Reach-IsWhole before)

  module _ (moment : ℕ) where
    Reach-sweep_expired :
        (fuel window : ℕ) (p : Progress)
        → Reach p.db
        → Reach (sweep_expired digest isprintable sweep_batch_rows moment fuel window p).db
    unfolding sweep_expired advance
    Reach-sweep_expired zero window p before = before
    Reach-sweep_expired (suc fuel) window p before =
        elim (Option-cases
          (sweep_batch digest isprintable sweep_batch_rows moment (expires moment window) p.db)) [
            | inl done ↦ rw (sweep_expired, done) before
            | inr (c, committed) ↦
                rw (sweep_expired, committed)
                  (Reach-sweep_expired fuel window (advance p c)
                    (commits before (expires_batch p.db moment window c committed)))
          ]

    Reach-sweep_over_limit :
        (rounds size_limit : ℕ) (pages : ℕ → Pages) (p : Progress)
        → Reach p.db
        → Reach
            (sweep_over_limit digest isprintable sweep_batch_rows moment rounds pages size_limit
              p).db
    unfolding sweep_over_limit advance
    Reach-sweep_over_limit zero size_limit pages p before = before
    Reach-sweep_over_limit (suc rounds) size_limit pages p before =
        elim (Bool-cases (leb (used_bytes (pages rounds)) size_limit)) [
          | inl fits ↦ rw (sweep_over_limit, fits) before
          | inr over ↦
              elim (Option-cases (
                sweep_batch digest isprintable sweep_batch_rows moment (λ rows. is_sweepable)
                  p.db)) [
                    | inl done ↦ rw (sweep_over_limit, over, done) before
                    | inr (c, committed) ↦
                        rw (sweep_over_limit, over, committed)
                          (Reach-sweep_over_limit rounds size_limit pages (advance p c)
                            (commits before (trims_batch p.db moment c committed)))
                  ]
        ]

    pub Reach-expired_part :
        (days : ℕ) (db : AuditDb)
        → Reach db
        → Reach (expired_part digest isprintable moment days db).db
    unfolding expired_part
    Reach-expired_part days db before =
        Reach-sweep_expired (suc (length db.rows)) (days * day_seconds) (swept db) before

    -- A whole sweep is a sequence of commits.
    pub Reach-sweep :
        (days size_limit : ℕ) (pages : ℕ → Pages) (after : Pages) (db : AuditDb)
        → Reach db
        → Reach (sweep digest isprintable moment days size_limit pages after db).1
    unfolding sweep
    Reach-sweep days size_limit pages after db before =
        Reach-sweep_over_limit sweep_max_rounds size_limit pages
          (record (expired_part digest isprintable moment days db) { went = 0 })
          (Reach-expired_part days db before)
