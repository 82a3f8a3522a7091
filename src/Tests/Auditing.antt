-- ===== src/Tests/Auditing.antt =====
-- Runs of the audit log (audit/store.py).
use Prim.Native.Char.{Char}
use nextcloud_mcp_connector.Base.{
  ◌+◌, ℕ, ◌*◌, String, ◌≡◌, ◌↔◌, refl, Bool, true, false, none, some, List, [], ◌∷◌, ◌==◌, arith,
  inl, if◌then◌else◌, eq_iff, count, select, str_eq, fetch,
}
use nextcloud_mcp_connector.Audit.Rows.{
  Entry, plain_entry, Row, AuditDb, empty_log, genesis, user_chain, in_chain, chain_instance,
  day_seconds,
}
use nextcloud_mcp_connector.Audit.Chains.{Digest, append, new_row, drop_user_chain}
use nextcloud_mcp_connector.Audit.Filed.{marked}
use nextcloud_mcp_connector.Audit.Sweep.{
  Pages, SweepReport, is_sweepable, sweep, is_young, expired_part,
}
use nextcloud_mcp_connector.Audit.Verify.{
  first_finding, explained_gaps, verify_chains, modified, missing,
}
use nextcloud_mcp_connector.Audit.Walking.{BeginsWell}
use nextcloud_mcp_connector.Audit.Commits.{Reach, fresh, commits, appends, drops}
use nextcloud_mcp_connector.Audit.Found.{
  verify_chains-Reach, first_finding-none, first_finding-changed, first_finding-gap,
}
use nextcloud_mcp_connector.Audit.Expiring.{expired_part-head}
use nextcloud_mcp_connector.Audit.Accounted.{explained_rows}
use nextcloud_mcp_connector.Audit.Balance.{sweep-balance}
use nextcloud_mcp_connector.Audit.Refusals.{known_reason}
use nextcloud_mcp_connector.Audit.Attempts.{
  Attempt, pending, spoken_in_run, windows_after, spoken_in_run-attempts,
}
use nextcloud_mcp_connector.Base.Dict.{get}
use nextcloud_mcp_connector.Audit.Reading.{negsuc, read_entries}
use nextcloud_mcp_connector.Audit.Answers.{drop_user_chain-found}
use nextcloud_mcp_connector.Audit.Readers.{IsAnswer, read_entries-IsAnswer}

-- Three digests are enough for three rows.
abbrev digest : Digest
digest seq e previous = if seq == 1 then "h1" else if seq == 2 then "h2" else "h3"

abbrev prints : Char → Bool
prints c = true

abbrev call_of : (nc_user : String) (at : ℕ) → Entry
call_of nc_user at = record (plain_entry (user_chain nc_user) at) { tool = some "list" }

abbrev one_call : AuditDb
one_call = (append digest prints (call_of "a" 5) empty_log).1

abbrev two_calls : AuditDb
two_calls = (append digest prints (call_of "a" 90000000) one_call).1

-- Two calls of one account.
reached : Reach digest prints two_calls
reached =
    commits (commits fresh (appends empty_log (call_of "a" 5) refl))
      (appends one_call (call_of "a" 90000000) refl)

abbrev account_gone : AuditDb
account_gone = (drop_user_chain digest prints "a" 100000000 two_calls).1

verify_chains-Reach_example : verify_chains digest account_gone ≡ []
verify_chains-Reach_example =
    verify_chains-Reach digest prints account_gone (commits reached (drops two_calls "a" 100000000))

abbrev row_of : (seq : ℕ) (previous hash : String) → Row
row_of seq previous hash = record {
  seq = seq;
  columns = call_of "a" 5;
  prev_hash = previous;
  hash = hash;
}

abbrev whole_rows : List Row
whole_rows = row_of 1 genesis "h1" ∷ row_of 2 "h1" "h2" ∷ []

first_finding-none_example :
    (first_finding digest whole_rows "u:a" ≡ none)
    ↔ BeginsWell digest "u:a" (explained_gaps "u:a" whole_rows) whole_rows
first_finding-none_example = first_finding-none digest whole_rows "u:a"

-- The second row was changed.
abbrev changed_rows : List Row
changed_rows = row_of 1 genesis "h1" ∷ row_of 2 "h1" "h7" ∷ row_of 3 "h7" "h3" ∷ []

first_finding-changed_example :
    first_finding digest changed_rows "u:a"
    ≡ some (modified digest "u:a" (explained_gaps "u:a" changed_rows) (row_of 2 "h1" "h7"))
first_finding-changed_example =
    first_finding-changed digest changed_rows "u:a" (row_of 1 genesis "h1" ∷ [])
      (row_of 3 "h7" "h3" ∷ []) (row_of 2 "h1" "h7") refl (genesis, (refl, refl, tt), inl refl)
      (λ (same : "h2" ≡ "h7"). ground (arith, (eq_iff "h2" "h7").1 same))

-- The second of three rows is gone.
abbrev rows_with_gap : List Row
rows_with_gap = row_of 1 genesis "h1" ∷ row_of 3 "h2" "h3" ∷ []

first_finding-gap_example :
    first_finding digest rows_with_gap "u:a"
    ≡ some (missing digest "u:a" (explained_gaps "u:a" rows_with_gap) 1 (some 3))
first_finding-gap_example =
    first_finding-gap digest rows_with_gap "u:a" [] [] (row_of 1 genesis "h1") (row_of 3 "h2" "h3")
      refl (genesis, (refl, refl, tt), inl refl) refl
      (λ (same : "h2" ≡ "h1"). ground (arith, (eq_iff "h2" "h1").1 same))

-- The first call is older than 180 days, the second is not.
abbrev young_call : Row
unfolding new_row
young_call = new_row digest prints (call_of "a" 90000000) one_call

first_left :
    fetch (in_chain "u:a") (expired_part digest prints 100000000 180 two_calls).db.rows
    ≡ some young_call
unfolding expired_part append
first_left = refl

expired_part-head_example : is_young 100000000 (180 * day_seconds) young_call ≡ true
expired_part-head_example =
    expired_part-head digest prints 100000000 180 two_calls reached "u:a" young_call refl first_left

drop_user_chain-found_example :
    ((drop_user_chain digest prints "a" 100000000 two_calls).0
      ≡ count (in_chain "u:a") two_calls.rows)
    × (select (in_chain "u:a") account_gone.rows ≡ [])
    × (marked "u:a" account_gone.rows ≡ some "h2")
    × ((other : String)
        → str_eq chain_instance other ≡ false
        → str_eq "u:a" other ≡ false
        → select (in_chain other) account_gone.rows ≡ select (in_chain other) two_calls.rows)
unfolding append
drop_user_chain-found_example =
    drop_user_chain-found digest prints "a" 100000000 two_calls young_call refl

read_entries-IsAnswer_example :
    IsAnswer
      (some "u:a")
      none
      none
      (negsuc 0)
      (read_entries (some "u:a") none none (negsuc 0) two_calls)
      two_calls.rows
read_entries-IsAnswer_example =
    read_entries-IsAnswer (some "u:a") none none (negsuc 0) digest prints two_calls reached

abbrev one_page : Pages
one_page = record { page_count = 1; page_size = 4096; freelist_count = 0 }

abbrev swept_log : SweepReport × AuditDb
swept_log = sweep digest prints 100000000 180 100000000 (λ round. one_page) one_page two_calls

sweep-balance_example :
    (count is_sweepable swept_log.1.rows + (swept_log.0.expired + swept_log.0.trimmed)
      ≡ count is_sweepable two_calls.rows)
    × (explained_rows swept_log.1.rows
        ≡ explained_rows two_calls.rows + (swept_log.0.expired + swept_log.0.trimmed))
sweep-balance_example =
    sweep-balance digest prints 100000000 180 100000000 (λ round. one_page) one_page two_calls
      reached

-- Three attempts of one reason, the last one after the window.
abbrev three_attempts : List Attempt
three_attempts =
    record { reason = "exchange_key"; at = 10 }
    ∷ record { reason = "exchange_key"; at = 20 }
    ∷ record { reason = "exchange_key"; at = 400 }
    ∷ []

spoken_in_run-attempts_example :
    spoken_in_run "exchange_key" three_attempts []
      + pending (get (windows_after three_attempts []) "exchange_key")
    ≡ 3
unfolding known_reason get
spoken_in_run-attempts_example = spoken_in_run-attempts "exchange_key" three_attempts []
