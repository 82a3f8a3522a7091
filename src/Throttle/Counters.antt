-- ===== src/Throttle/Counters.antt =====
-- oauth/throttle.py, `Throttle`. The monotonic clock counts in ticks, `per_second` of them to a
-- second, since the answer is rounded up to whole seconds. `digest` is the hexadecimal SHA-256.
use nextcloud_mcp_connector.Base.{
  ℕ, ◌+◌, ◌-◌, ◌*◌, ◌/◌, max, String, Bool, not, Option, none, some, [], ltb, leb, length, select,
  if◌then◌else◌,
}
use nextcloud_mcp_connector.Base.Dict.{Dict, get, put}
use nextcloud_mcp_connector.Base.Text.{concat}

abbrev pub failure_limit : ℕ
failure_limit = 10

abbrev pub flow_limit : ℕ
flow_limit = 20

abbrev pub path_ceiling : ℕ
path_ceiling = 200

abbrev pub exchange_limit : ℕ
exchange_limit = 30

abbrev pub window_seconds : ℕ
window_seconds = 300

abbrev pub source_limit : ℕ
source_limit = 4096

-- The source no request can write.
abbrev pub whole_class : String
whole_class = "\0all"

-- One window: how many attempts were seen in it, and when it ends.
pub record Counter : Type 0 where
  pub seen : ℕ
  pub until : ℕ

pub record Throttle : Type 0 where
  pub limit : ℕ
  pub ceiling : ℕ
  pub window : ℕ
  pub per_second : ℕ

-- What the constructor takes where nothing is said.
abbrev pub default_throttle : ℕ → Throttle
default_throttle per_second = record {
  limit = failure_limit;
  ceiling = path_ceiling;
  window = window_seconds;
  per_second = per_second;
}

-- `self._limit if limit is None else limit`
abbrev pub own_bound : Throttle → Option ℕ → ℕ
own_bound t none = t.limit
own_bound t (some n) = n

-- `max(1, math.ceil(counter.until - now))`
unfoldable pub wait_of : (per_second until now : ℕ) → ℕ
wait_of per_second until now = max 1 ((until - now + (per_second - 1)) / per_second)

-- What one pair of counter and bound answers: a wait, or `none` where the caller may go on.
unfoldable pub wait_for : (per_second now bound : ℕ) → Option Counter → Option ℕ
unfolding wait_of
wait_for per_second now bound none = none
wait_for per_second now bound (some c) =
    if leb c.until now
    then none
    else if leb bound c.seen
    then some (wait_of per_second c.until now)
    else none

-- One attempt on one counter: a window that is over, or was never opened, starts at one.
unfoldable pub count_one : (now length_of : ℕ) → String → Dict Counter → Dict Counter
count_one now length_of key counters = elim (get counters key) [
  | none ↦ put counters key (record { seen = 1; until = now + length_of })
  | some c ↦
      if leb c.until now
      then put counters key (record { seen = 1; until = now + length_of })
      else put counters key (record c { seen = c.seen + 1 })
]

-- `_sweep`
unfoldable pub sweep : ℕ → Dict Counter → Dict Counter
sweep now counters =
    if ltb (length counters) source_limit
    then counters
    else (let live = select (λ (e : String × Counter). not (leb e.1.until now)) counters in
        if leb source_limit (length live) then [] else live)

module _ (digest : String → String) where
  abbrev pub key_of : (path_class source : String) → String
  key_of path_class source = digest (concat path_class (concat "\0" source))

  abbrev pub whole : (path_class : String) → String
  whole path_class = key_of path_class whole_class

  -- Seconds to wait, or 0. The source's own counter is asked first.
  unfoldable pub retry_after :
      Throttle
      → (path_class source : String) (limit : Option ℕ) (shared : Bool) (now : ℕ) → Dict Counter
      → ℕ
  unfolding wait_for
  retry_after t path_class source limit shared now counters =
      elim (wait_for t.per_second now (own_bound t limit)
        (get counters (key_of path_class source))) [
          | some wait ↦ wait
          | none ↦
              if shared
              then elim (wait_for t.per_second now t.ceiling (get counters (whole path_class))) [
                | some wait ↦ wait
                | none ↦ 0
              ]
              else 0
        ]

  unfoldable pub record_attempt :
      Throttle
      → (path_class source : String) (shared : Bool) (now : ℕ) → Dict Counter
      → Dict Counter
  unfolding sweep count_one
  record_attempt t path_class source shared now counters =
      let ticks = t.window * t.per_second in
      let own = count_one now ticks (key_of path_class source) (sweep now counters) in
      if shared then count_one now ticks (whole path_class) own else own

  -- One counted failure is paid back, and never more.
  unfoldable pub forgive : (path_class source : String) → Dict Counter → Dict Counter
  forgive path_class source counters = elim (get counters (key_of path_class source)) [
    | none ↦ counters
    | some c ↦
        if ltb 0 c.seen
        then put counters (key_of path_class source) (record c { seen = c.seen - 1 })
        else counters
  ]
