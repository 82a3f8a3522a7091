-- ===== src/Throttle/Waiting.antt =====
-- When a caller has to wait, and for how long (oauth/throttle.py, `retry_after`).
use native.Mathlib.Nat.{mod-lt, div-add-mod', mul-le-mul_right}
use nextcloud_mcp_connector.Base.{
  ℕ, ◌+◌, ◌-◌, ◌*◌, ◌/◌, ◌≤◌, ◌<◌, max, String, ◌≡◌, ◌≢◌, ◌↔◌, ◌⊎◌, inl, inr, refl, Bool, true,
  Option, none, some, arith, Bool-cases, Option-cases,
}
use nextcloud_mcp_connector.Base.Dict.{Dict, get}
use nextcloud_mcp_connector.Throttle.Counters.{
  Counter, Throttle, wait_of, wait_for, own_bound, key_of, whole, retry_after,
}

pub wait_of-pos : (per_second until now : ℕ) → 1 ≤ wait_of per_second until now
unfolding wait_of
wait_of-pos per_second until now = omega arith

-- Rounding up never falls short.
ceiling_lem : (n d : ℕ) → 0 < d → n ≤ ((n + (d - 1)) / d) * d
ceiling_lem n d pos = omega (arith, div-add-mod' (n + (d - 1)) d, mod-lt (n + (d - 1)) pos)

wait_of-enough :
    (per_second until now : ℕ)
    → 0 < per_second
    → until ≤ now + wait_of per_second until now * per_second
unfolding wait_of
wait_of-enough per_second until now pos =
    let q = (until - now + (per_second - 1)) / per_second in
    omega (
      arith,
      ceiling_lem (until - now) per_second pos,
      mul-le-mul_right {m = q} {n = max 1 q} per_second (omega arith),
    )

-- Whoever waits as long as a counter says is not held up by it again, unless it changes meanwhile.
pub wait_for-enough :
    (per_second now bound wait : ℕ) (counter : Option Counter)
    → 0 < per_second
    → wait_for per_second now bound counter ≡ some wait
    → wait_for per_second (now + wait * per_second) bound counter ≡ none
unfolding wait_for
wait_for-enough per_second now bound wait none pos e = refl
wait_for-enough per_second now bound wait (some c) pos e =
    ground (arith, wait_of-enough per_second c.until now pos)

-- A window that is still open and has reached its bound.
abbrev pub IsFull : (bound now : ℕ) → Option Counter → Type 0
IsFull bound now counter = (c : Counter) × (counter ≡ some c) × (now < c.until) × (bound ≤ c.seen)

wait_for-IsFull :
    (per_second now bound wait : ℕ) (counter : Option Counter)
    → wait_for per_second now bound counter ≡ some wait
    → IsFull bound now counter × (1 ≤ wait)
unfolding wait_for
wait_for-IsFull per_second now bound wait none e = cc
wait_for-IsFull per_second now bound wait (some c) e =
    ((c, refl, ground arith, ground arith), ground (arith, wait_of-pos per_second c.until now))

wait_for-open :
    (per_second now bound : ℕ) (counter : Option Counter)
    → wait_for per_second now bound counter ≡ none
    → ¬ IsFull bound now counter
unfolding wait_for
wait_for-open per_second now bound none e (c, same, live, full) = cc
wait_for-open per_second now bound (some d) e (c, same, live, full) =
    let head : d ≡ c = ground arith in ground arith

module _ (digest : String → String) (t : Throttle) (path_class source : String) (limit : Option ℕ)
    (shared : Bool) (now : ℕ) (counters : Dict Counter) where
  -- The caller
  abbrev pub IsExhausted : Type 0
  IsExhausted =
      IsFull (own_bound t limit) now (get counters (key_of digest path_class source))
      ⊎ ((shared ≡ true) × IsFull t.ceiling now (get counters (whole digest path_class)))

  -- A caller is held up exactly where a counter is exhausted: its own at its own bound or, where
  -- the class is shared, the counter of the class at the ceiling, in a window that is still open.
  pub retry_after-IsExhausted :
      (retry_after digest t path_class source limit shared now counters ≢ 0) ↔ IsExhausted
  unfolding retry_after
  retry_after-IsExhausted =
      let own = get counters (key_of digest path_class source) in
      let everyone = get counters (whole digest path_class) in
      elim (Option-cases (wait_for t.per_second now (own_bound t limit) own)) [
        | inr (wait, held) ↦
            let (full, positive) =
              wait_for-IsFull t.per_second now (own_bound t limit) wait own held in
            (λ _. inl full, λ _. ground (arith, held, positive))
        | inl free ↦
            let idle = wait_for-open t.per_second now (own_bound t limit) own free in
            elim (Bool-cases shared) [
              | inr alone ↦ (
                λ waits. ground (arith, free, alone),
                λ e. elim e [ inl full ↦ absurd (idle full) | inr (joint, _) ↦ cc ],
              )
              | inl joint ↦ elim (Option-cases (wait_for t.per_second now t.ceiling everyone)) [
                | inr (wait, held) ↦
                    let (full, positive) =
                      wait_for-IsFull t.per_second now t.ceiling wait everyone held in
                    (λ _. inr (joint, full), λ _. ground (arith, free, held, joint, positive))
                | inl below ↦
                    let calm = wait_for-open t.per_second now t.ceiling everyone below in
                    (
                      λ waits. ground (arith, free, below, joint),
                      λ e. elim e [
                        | inl full ↦ absurd (idle full)
                        | inr (_, full) ↦ absurd (calm full)
                      ],
                    )
              ]
            ]
      ]
