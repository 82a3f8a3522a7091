-- ===== src/Throttle/Attempts.antt =====
-- What a run of attempts leads to (oauth/throttle.py, `record_attempt` and `retry_after`).
use nextcloud_mcp_connector.Base.{
  ℕ, suc, ◌+◌, ◌*◌, ◌≤◌, ◌<◌, String, ◌≡◌, ◌≢◌, refl, Bool, Option, none, some, List, [], ◌∷◌,
  arith, str_eq, eq_iff, eq_refl, ap, length, All, Bool-cases, inl, inr,
}
use nextcloud_mcp_connector.Base.Dict.{Dict, get}
use nextcloud_mcp_connector.Throttle.Counters.{
  Counter, Throttle, source_limit, own_bound, count_one, key_of, whole, retry_after, record_attempt,
}
use nextcloud_mcp_connector.Throttle.Waiting.{retry_after-IsExhausted}
use nextcloud_mcp_connector.Throttle.Counting.{length-count_one, get-count_one, sweep-few}

-- The counter of a key holds at least so many attempts, in a window that ends then.
abbrev pub HasSeen : (key : String) (seen until : ℕ) → Dict Counter → Type 0
HasSeen key seen until d =
    (c : Counter) × (get d key ≡ some c) × (c.until ≡ until) × (seen ≤ c.seen)

module _ (key : String) (seen until now ticks : ℕ) (d : Dict Counter) (early : now < until) where
  HasSeen-count_one :
      HasSeen key seen until d → HasSeen key (suc seen) until (count_one now ticks key d)
  HasSeen-count_one (c, found, ends, enough) = (
    record c { seen = c.seen + 1 },
    ground (arith, get-count_one now ticks key key d, found, eq_refl key),
    ends,
    omega arith,
  )

  -- Whatever key is counted, no attempt of this one is forgotten.
  HasSeen-count_any :
      (j : String) → HasSeen key seen until d → HasSeen key seen until (count_one now ticks j d)
  HasSeen-count_any j (c, found, ends, enough) = elim (Bool-cases (str_eq j key)) [
    | inl same ↦ (
      record c { seen = c.seen + 1 },
      ground (
        arith,
        get-count_one now ticks j key d,
        found,
        eq_iff j key,
        ap (get d) ((eq_iff j key).0 same),
      ),
      ends,
      omega arith,
    )
    | inr other ↦ (c, ground (arith, get-count_one now ticks j key d, found), ends, enough)
  ]

HasSeen-more :
    (key : String) (m n until : ℕ) (d : Dict Counter)
    → n ≤ m
    → HasSeen key m until d
    → HasSeen key n until d
HasSeen-more key m n until d le (c, found, ends, enough) = (c, found, ends, omega arith)

module _ (digest : String → String) (t : Throttle) (path_class source : String)
    (shared : Bool) where
  abbrev own_key : String
  own_key = key_of digest path_class source

  HasSeen-record_attempt :
      (seen until now : ℕ) (d : Dict Counter)
      → HasSeen own_key seen until d
      → now < until
      → length d < source_limit
      → HasSeen own_key (suc seen) until (record_attempt digest t path_class source shared now d)
  unfolding record_attempt
  HasSeen-record_attempt seen until now d has early few =
      let ticks = t.window * t.per_second in
      let own = HasSeen-count_one own_key seen until now ticks d early has in
      let swept = sweep-few now d few in
      elim (Bool-cases shared) [
        | inr alone ↦ rw (alone, swept) own
        | inl joint ↦
            rw (joint, swept)
              (HasSeen-count_any own_key (suc seen) until now ticks (count_one now ticks own_key d)
                early (whole digest path_class) own)
      ]

  HasSeen-first :
      (now : ℕ) (d : Dict Counter)
      → get d own_key ≡ none
      → length d < source_limit
      → 0 < t.window * t.per_second
      → HasSeen own_key 1
          (now + t.window * t.per_second)
          (record_attempt digest t path_class source shared now d)
  unfolding record_attempt
  HasSeen-first now d missing few lasts =
      let ticks = t.window * t.per_second in
      let swept = sweep-few now d few in
      let own : HasSeen own_key 1 (now + ticks) (count_one now ticks own_key d) = (
        record { seen = 1; until = now + ticks },
        ground (arith, get-count_one now ticks own_key own_key d, missing, eq_refl own_key),
        refl,
        omega arith,
      ) in
      elim (Bool-cases shared) [
        | inr alone ↦ rw (alone, swept) own
        | inl joint ↦
            rw (joint, swept)
              (HasSeen-count_any own_key 1 (now + ticks) now ticks (count_one now ticks own_key d)
                (omega arith) (whole digest path_class) own)
      ]

  length-record_few :
      (now : ℕ) (d : Dict Counter)
      → length d < source_limit
      → length (record_attempt digest t path_class source shared now d) ≤ length d + 2
  unfolding record_attempt
  length-record_few now d few =
      let ticks = t.window * t.per_second in
      let key = key_of digest path_class source in
      ground (
        arith,
        sweep-few now d few,
        length-count_one now ticks key d,
        length-count_one now ticks (whole digest path_class) (count_one now ticks key d),
      )

  -- Attempts of one source, one after the other.
  abbrev pub attempts : List ℕ → Dict Counter → Dict Counter
  attempts [] d = d
  attempts (now ∷ times) d = attempts times (record_attempt digest t path_class source shared now d)

  HasSeen-attempts :
      (seen until : ℕ) (times : List ℕ) (d : Dict Counter)
      → HasSeen own_key seen until d
      → All (λ now. now < until) times
      → length d + 2 * length times ≤ source_limit
      → HasSeen own_key (seen + length times) until (attempts times d)
  HasSeen-attempts seen until [] d has early few =
      HasSeen-more own_key seen (seen + 0) until d (omega arith) has
  HasSeen-attempts seen until (now ∷ times) d has early few =
      let next = record_attempt digest t path_class source shared now d in
      let more = length-record_few now d (omega arith) in
      HasSeen-more own_key (suc seen + length times) (seen + suc (length times)) until _
        (omega arith)
        (HasSeen-attempts (suc seen) until times next
          (HasSeen-record_attempt seen until now d has early.0 (omega arith)) early.1 (omega arith))

  -- As many attempts as the bound of a source, all inside the window that the first one opens, and
  -- the source is held up for the rest of that window. The counters fit under the limit of the
  -- sweep throughout, and the source has none before.
  pub retry_after-attempts :
      (limit : Option ℕ) (first last : ℕ) (times : List ℕ) (d : Dict Counter)
      → get d own_key ≡ none
      → length d + 2 * suc (length times) ≤ source_limit
      → All (λ now. now < first + t.window * t.per_second) times
      → first ≤ last
      → last < first + t.window * t.per_second
      → own_bound t limit ≤ suc (length times)
      → retry_after digest t path_class source limit shared last (attempts (first ∷ times) d) ≢ 0
  retry_after-attempts limit first last times d missing few early since late reached =
      let until = first + t.window * t.per_second in
      let next = record_attempt digest t path_class source shared first d in
      let more = length-record_few first d (omega arith) in
      let (c, found, ends, enough) =
        HasSeen-attempts 1 until times next
          (HasSeen-first first d missing (omega arith) (omega arith)) early (omega arith) in
      (retry_after-IsExhausted digest t path_class source limit shared last
          (attempts (first ∷ times) d)).1
        (inl (c, found, omega arith, omega arith))
