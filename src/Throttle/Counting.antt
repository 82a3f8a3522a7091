-- ===== src/Throttle/Counting.antt =====
-- What attempts do to the counters (oauth/throttle.py, `record_attempt`, `forgive`, `_sweep`).
use nextcloud_mcp_connector.Base.{
  ℕ, suc, ◌+◌, ◌-◌, ◌*◌, ◌≤◌, ◌<◌, String, ◌≡◌, ◌≢◌, ◌∙◌, Bool, true, false, Option, none, some, [],
  ◌∷◌, arith, str_eq, eq_iff, eq_refl, ap, leb, length, if◌then◌else◌, Bool-cases, Option-cases,
  inl, inr,
}
use nextcloud_mcp_connector.Base.Dict.{Dict, get, put, get-put}
use nextcloud_mcp_connector.Throttle.Counters.{
  Counter, Throttle, source_limit, count_one, sweep, key_of, whole, record_attempt, forgive,
}

length-put {ℓ} :
    {V : Type ℓ} (d : Dict V) (k : String) (v : V) → length (put d k v) ≤ suc (length d)
unfolding put
length-put [] k v = omega arith
length-put ((j, w) ∷ d) k v = ground (arith, length-put d k v)

pub length-count_one :
    (now ticks : ℕ) (key : String) (d : Dict Counter)
    → length (count_one now ticks key d) ≤ suc (length d)
unfolding count_one
length-count_one now ticks key d = elim (Option-cases (get d key)) [
  | inl missing ↦
      ground (arith, missing, length-put d key (record { seen = 1; until = now + ticks }))
  | inr (c, found) ↦ ground (
    arith,
    found,
    length-put d key (record { seen = 1; until = now + ticks }),
    length-put d key (record c { seen = c.seen + 1 }),
  )
]

length-sweep : (now : ℕ) (d : Dict Counter) → length (sweep now d) < source_limit
unfolding sweep
length-sweep now d = ground arith

-- Whatever was counted before, no more than one counter over the limit of the sweep is kept: the
-- sweep runs before an attempt adds its two.
pub length-record_attempt :
    (digest : String → String) (t : Throttle) (path_class source : String) (shared : Bool) (now : ℕ)
    (d : Dict Counter)
    → length (record_attempt digest t path_class source shared now d) ≤ source_limit + 1
unfolding record_attempt
length-record_attempt digest t path_class source shared now d =
    let ticks = t.window * t.per_second in
    let key = key_of digest path_class source in
    let own = count_one now ticks key (sweep now d) in
    ground (
      arith,
      length-sweep now d,
      length-count_one now ticks key (sweep now d),
      length-count_one now ticks (whole digest path_class) own,
    )

-- What a counter is after one attempt.
abbrev pub tallied : (now ticks : ℕ) → Option Counter → Counter
tallied now ticks none = record { seen = 1; until = now + ticks }
tallied now ticks (some c) =
    if leb c.until now
    then record { seen = 1; until = now + ticks }
    else record c { seen = c.seen + 1 }

pub get-count_one :
    (now ticks : ℕ) (key j : String) (d : Dict Counter)
    → get (count_one now ticks key d) j
      ≡ (if str_eq key j then some (tallied now ticks (get d key)) else get d j)
unfolding count_one
get-count_one now ticks key j d = elim (Option-cases (get d key)) [
  | inl missing ↦
      ground (arith, missing, get-put d key j (record { seen = 1; until = now + ticks }))
  | inr (c, found) ↦ ground (
    arith,
    found,
    get-put d key j (record { seen = 1; until = now + ticks }),
    get-put d key j (record c { seen = c.seen + 1 }),
  )
]

pub sweep-few : (now : ℕ) (d : Dict Counter) → length d < source_limit → sweep now d ≡ d
unfolding sweep
sweep-few now d few = ground arith

-- One success pays back one attempt.
abbrev pub paid_back : Counter → Counter
paid_back c = record c { seen = c.seen - 1 }

get-put_same : (d : Dict Counter) (key : String) (c : Counter) → get (put d key c) key ≡ some c
get-put_same d key c = ground (arith, get-put d key key c, eq_refl key)

get-forgive :
    (digest : String → String) (path_class source j : String) (d : Dict Counter) (c : Counter)
    → get d j ≡ some c
    → get (forgive digest path_class source d) j
      ≡ some (if str_eq (key_of digest path_class source) j then paid_back c else c)
unfolding forgive
get-forgive digest path_class source j d c found =
    let key = key_of digest path_class source in
    elim (Bool-cases (str_eq key j)) [
      | inl same ↦
          let here : get d key ≡ some c = ap (get d) ((eq_iff key j).0 same) ∙ found in
          ground (arith, here, same, get-put d key j (paid_back c))
      | inr other ↦ elim (Option-cases (get d key)) [
        | inl missing ↦ ground (arith, missing, other)
        | inr (own, present) ↦ ground (arith, present, other, get-put d key j (paid_back own))
      ]
    ]

-- A refused request that is followed by one success leaves the source where it was, and costs the
-- whole class one attempt all the same: both windows are open and the two keys differ.
pub forgive-record_attempt :
    (digest : String → String) (t : Throttle) (path_class source : String) (now : ℕ)
    (d : Dict Counter) (own everyone : Counter)
    → key_of digest path_class source ≢ whole digest path_class
    → length d < source_limit
    → get d (key_of digest path_class source) ≡ some own
    → get d (whole digest path_class) ≡ some everyone
    → now < own.until
    → now < everyone.until
    → (get
          (forgive digest path_class source (record_attempt digest t path_class source true now d))
          (key_of digest path_class source)
        ≡ some own)
      × (get
            (forgive digest path_class source
              (record_attempt digest t path_class source true now d))
            (whole digest path_class)
          ≡ some (record everyone { seen = everyone.seen + 1 }))
unfolding record_attempt
forgive-record_attempt digest t path_class source now d own everyone apart few here there early
      open_too =
    let ticks = t.window * t.per_second in
    let key = key_of digest path_class source in
    let all = whole digest path_class in
    let swept = sweep-few now d few in
    let once = record own { seen = own.seen + 1 } in
    let first = count_one now ticks key d in
    let kept : get (count_one now ticks all first) key ≡ some once = ground (
      arith,
      get-count_one now ticks all key first,
      get-count_one now ticks key key d,
      here,
      eq_refl key,
      eq_iff all key,
    ) in
    let added : get (count_one now ticks all first) all
        ≡ some (record everyone { seen = everyone.seen + 1 }) =
      ground (
        arith,
        get-count_one now ticks all all first,
        get-count_one now ticks key all d,
        there,
        eq_refl all,
        eq_iff key all,
      ) in
    (
      get-forgive digest path_class source key _ once (rw swept kept) ∙ ground (arith, eq_refl key),
      get-forgive digest path_class source all _ (record everyone { seen = everyone.seen + 1 })
            (rw swept added)
          ∙ ground (arith, eq_iff key all),
    )

-- What is counted or paid back for one source alone leaves every other counter alone.
module _ (digest : String → String) (path_class source j : String) (d : Dict Counter)
    (apart : str_eq (key_of digest path_class source) j ≡ false) where
  pub get-forgive_other : get (forgive digest path_class source d) j ≡ get d j
  unfolding forgive
  get-forgive_other =
      let key = key_of digest path_class source in
      elim (Option-cases (get d key)) [
        | inl missing ↦ ground (arith, missing)
        | inr (own, present) ↦ ground (arith, present, apart, get-put d key j (paid_back own))
      ]

  pub get-record_other :
      (t : Throttle) (now : ℕ)
      → length d < source_limit
      → get (record_attempt digest t path_class source false now d) j ≡ get d j
  unfolding record_attempt
  get-record_other t now few =
      let swept = sweep-few now d few in
      rw swept ground (
        arith,
        apart,
        get-count_one now (t.window * t.per_second) (key_of digest path_class source) j d,
      )
