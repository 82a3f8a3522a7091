-- ===== src/Tests/Throttling.antt =====
-- Runs of the throttle (oauth/throttle.py).
use nextcloud_mcp_connector.Base.{
  ℕ, ◌+◌, ◌*◌, ◌≤◌, String, ◌≡◌, ◌≢◌, ◌↔◌, refl, eq_iff, true, false, none, some, [], ◌∷◌, arith,
  length,
}
use nextcloud_mcp_connector.Base.Dict.{Dict, get}
use nextcloud_mcp_connector.Throttle.Counters.{
  Counter, Throttle, default_throttle, source_limit, key_of, whole, wait_for, wait_of, retry_after,
  record_attempt, forgive,
}
use nextcloud_mcp_connector.Throttle.Wrapper.{Route, handle}
use nextcloud_mcp_connector.Throttle.Waiting.{wait_for-enough, IsExhausted, retry_after-IsExhausted}
use nextcloud_mcp_connector.Throttle.Counting.{length-record_attempt, forgive-record_attempt}
use nextcloud_mcp_connector.Throttle.Attempts.{attempts, retry_after-attempts}
use nextcloud_mcp_connector.Throttle.Serving.{handle-other_account}
use nextcloud_mcp_connector.Tests.Samples.{plain}

-- Ticks of a millisecond.
abbrev usual : Throttle
usual = default_throttle 1000

abbrev three_seen : Dict Counter
three_seen =
    ("token\0eve", record { seen = 3; until = 300000 })
    ∷ ("token\0\0all", record { seen = 7; until = 300000 })
    ∷ []

abbrev full_counter : Counter
full_counter = record { seen = 10; until = 300000 }

unseen : get {V = Counter} [] "token\0eve" ≡ none
unfolding get
unseen = refl

seen_here : get three_seen "token\0eve" ≡ some (record { seen = 3; until = 300000 })
unfolding get
seen_here = refl

seen_there : get three_seen "token\0\0all" ≡ some (record { seen = 7; until = 300000 })
unfolding get
seen_there = refl

own_key_apart : key_of plain "token" "eve" ≢ whole plain "token"
own_key_apart = ground (arith, eq_iff "token\0eve" "token\0\0all")

accounts_apart : key_of plain "account" "eve" ≢ key_of plain "account" "ann"
accounts_apart = ground (arith, eq_iff "account\0eve" "account\0ann")

waits : wait_for 1000 1500 10 (some full_counter) ≡ some 299
unfolding wait_for wait_of
waits = refl

wait_for-enough_example : wait_for 1000 (1500 + 299 * 1000) 10 (some full_counter) ≡ none
wait_for-enough_example = wait_for-enough 1000 1500 10 299 (some full_counter) (omega arith) waits

retry_after-IsExhausted_example :
    (retry_after plain usual "token" "eve" (some 3) true 1500 three_seen ≢ 0)
    ↔ IsExhausted plain usual "token" "eve" (some 3) true 1500 three_seen
retry_after-IsExhausted_example =
    retry_after-IsExhausted plain usual "token" "eve" (some 3) true 1500 three_seen

retry_after-attempts_example :
    retry_after plain usual "token" "eve"
      (some 3)
      true
      9000
      (attempts plain usual "token" "eve" true (1000 ∷ 2000 ∷ 3000 ∷ []) [])
    ≢ 0
retry_after-attempts_example =
    retry_after-attempts plain usual "token" "eve" true (some 3) 1000 9000 (2000 ∷ 3000 ∷ []) []
      unseen (omega arith) (omega arith, omega arith) (omega arith) (omega arith) (omega arith)

length-record_attempt_example :
    length (record_attempt plain usual "token" "eve" true 1500 three_seen) ≤ source_limit + 1
length-record_attempt_example = length-record_attempt plain usual "token" "eve" true 1500 three_seen

forgive-record_attempt_example :
    (get
        (forgive plain "token" "eve"
          (record_attempt plain usual "token" "eve" true 1500 three_seen))
        "token\0eve"
      ≡ some (record { seen = 3; until = 300000 }))
    × (get
          (forgive plain "token" "eve"
            (record_attempt plain usual "token" "eve" true 1500 three_seen))
          "token\0\0all"
        ≡ some (record { seen = 8; until = 300000 }))
forgive-record_attempt_example =
    forgive-record_attempt plain usual "token" "eve" 1500 three_seen
      (record { seen = 3; until = 300000 }) (record { seen = 7; until = 300000 }) own_key_apart
      (omega arith) seen_here seen_there (omega arith) (omega arith)

abbrev counted_route : Route String
counted_route = record {
  path_class = "flow";
  machine = true;
  count_all = true;
  limit = some 20;
  identity = none;
  applies = none;
  source = plain;
}

abbrev account_route : Route String
account_route = record {
  path_class = "account";
  machine = false;
  count_all = false;
  limit = none;
  identity = some plain;
  applies = none;
  source = plain;
}

abbrev answers : ℕ → String → ℕ
answers status request = status

handle-other_account_example :
    retry_after plain usual "account" "ann" none false 7
      ((handle plain usual account_route (answers 500) "eve" 5 6 (λ d. d) three_seen).0)
    ≡ retry_after plain usual "account" "ann" none false 7 three_seen
handle-other_account_example =
    handle-other_account plain usual account_route plain (answers 500) "eve" "ann" 5 6 7 three_seen
      refl (omega arith) accounts_apart
