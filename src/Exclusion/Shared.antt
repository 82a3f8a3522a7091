-- ===== src/Exclusion/Shared.antt =====
-- What the callers of one guard share (nextcloud/exclusion.py, `ExclusionGuard.scope`).
use nextcloud_mcp_connector.Base.{
  ℕ, zero, suc, ◌≡◌, refl, true, false, Option, none, some, List, [], ◌∷◌, All, arith, ◌⊎◌, inl,
  inr, Bool-cases, Option-cases,
}
use nextcloud_mcp_connector.Exclusion.Scope.{TagScope}
use nextcloud_mcp_connector.Exclusion.Flight.{Key}
use nextcloud_mcp_connector.Exclusion.Guard.{
  Guard, Event, arrives, takes_lock, lands, cancelled, bind_key, arrive, take_lock, land, cancel,
  step, noted, Reach, fresh, after,
}

-- No flight runs beside a scope that is known.
abbrev pub IsSettled : Guard → Type 0
IsSettled g = (g.flying ≡ true) → g.scope ≡ none

-- What a step may do to the scope of a guard, and what it may answer.
abbrev KeepsScope : Guard → Guard → Option TagScope → Type 0
KeepsScope g g' a =
    ((s : TagScope) → g.scope ≡ some s → g'.scope ≡ some s)
    × ((s : TagScope) → a ≡ some s → g'.scope ≡ some s)
    × IsSettled g'

bind_key-keeps :
    (key : Key) (g g' : Guard)
    → bind_key key g ≡ some g'
    → (g'.scope ≡ g.scope) × (g'.flying ≡ g.flying)
unfolding bind_key
bind_key-keeps key g g' e = elim (Option-cases g.key) [
  | inl unbound ↦ ground (arith, unbound)
  | inr (bound, known) ↦ ground (arith, known)
]

KeepsScope-arrive :
    (key : Key) (g g' : Guard) (a : Option TagScope)
    → IsSettled g
    → arrive key g ≡ some (g', a)
    → KeepsScope g g' a
unfolding arrive
KeepsScope-arrive key g g' a settled e = elim (Option-cases (bind_key key g)) [
  | inl foreign ↦ ground (arith, foreign)
  | inr (bound, b) ↦
      let (same, flight) = bind_key-keeps key g bound b in
      elim (Option-cases bound.scope) [
        | inl missing ↦ (
          λ s h. ground (arith, b, missing),
          λ s h. ground (arith, b, missing),
          λ h. ground (arith, b, missing),
        )
        | inr (known, found) ↦ (
          λ s h. ground (arith, b, found),
          λ s h. ground (arith, b, found),
          λ h. ground (arith, b, found),
        )
      ]
]

ℕ-cases : (n : ℕ) → (n ≡ 0) ⊎ ((m : ℕ) × (n ≡ suc m))
ℕ-cases zero = inl refl
ℕ-cases (suc m) = inr (m, refl)

KeepsScope-take_lock :
    (g g' : Guard) (a : Option TagScope)
    → IsSettled g
    → take_lock g ≡ some (g', a)
    → KeepsScope g g' a
unfolding take_lock
KeepsScope-take_lock g g' a settled e = elim (ℕ-cases g.waiting) [
  | inl nobody ↦
      (λ s h. ground (arith, nobody), λ s h. ground (arith, nobody), λ h. ground (arith, nobody))
  | inr (others, some_wait) ↦ elim (Option-cases g.scope) [
    | inl missing ↦ (
      λ s h. ground (arith, some_wait, missing),
      λ s h. ground (arith, some_wait, missing),
      λ h. ground (arith, some_wait, missing),
    )
    | inr (known, found) ↦ (
      λ s h. ground (arith, some_wait, found),
      λ s h. ground (arith, some_wait, found),
      λ h. ground (arith, some_wait, found),
    )
  ]
]

KeepsScope-land :
    (scope : TagScope) (g g' : Guard) (a : Option TagScope)
    → IsSettled g
    → land scope g ≡ some (g', a)
    → KeepsScope g g' a
unfolding land
KeepsScope-land scope g g' a settled e =
    (λ s h. ground arith, λ s h. ground arith, λ h. ground arith)

KeepsScope-cancel :
    (g g' : Guard) (a : Option TagScope) → IsSettled g → cancel g ≡ some (g', a) → KeepsScope g g' a
unfolding cancel
KeepsScope-cancel g g' a settled e = (λ s h. ground arith, λ s h. ground arith, λ h. ground arith)

KeepsScope-step :
    (ev : Event) (g g' : Guard) (a : Option TagScope)
    → IsSettled g
    → step ev g ≡ some (g', a)
    → KeepsScope g g' a
unfolding step
KeepsScope-step (arrives key) g g' a settled e = KeepsScope-arrive key g g' a settled e
KeepsScope-step takes_lock g g' a settled e = KeepsScope-take_lock g g' a settled e
KeepsScope-step (lands scope) g g' a settled e = KeepsScope-land scope g g' a settled e
KeepsScope-step cancelled g g' a settled e = KeepsScope-cancel g g' a settled e

IsSettled-Reach : (g : Guard) (answers : List TagScope) → Reach g answers → IsSettled g
IsSettled-Reach _ _ fresh = λ h. cc
IsSettled-Reach _ _ (after {g} {g'} {answers} {a} r ev e) =
    (KeepsScope-step ev g g' a (IsSettled-Reach g answers r) e).2

All-known :
    (g g' : Guard) (answers : List TagScope)
    → ((s : TagScope) → g.scope ≡ some s → g'.scope ≡ some s)
    → All (λ s. g.scope ≡ some s) answers
    → All (λ s. g'.scope ≡ some s) answers
All-known g g' [] keeps h = tt
All-known g g' (s ∷ answers) keeps h = (keeps s h.0, All-known g g' answers keeps h.1)

All-noted :
    (g' : Guard) (a : Option TagScope) (answers : List TagScope)
    → ((s : TagScope) → a ≡ some s → g'.scope ≡ some s)
    → All (λ s. g'.scope ≡ some s) answers
    → All (λ s. g'.scope ≡ some s) (noted a answers)
All-noted g' none answers gives h = h
All-noted g' (some s) answers gives h = (gives s refl, h)

-- However arrivals, turns at the lock, ends of flights and cancellations mix: every caller of one
-- guard that got an answer got the scope that the guard has stored, so all got the same.
pub Reach-shared :
    (g : Guard) (answers : List TagScope) → Reach g answers → All (λ s. g.scope ≡ some s) answers
Reach-shared _ _ fresh = tt
Reach-shared _ _ (after {g} {g'} {answers} {a} r ev e) =
    let (keeps, gives, _) = KeepsScope-step ev g g' a (IsSettled-Reach g answers r) e in
    All-noted g' a answers gives (All-known g g' answers keeps (Reach-shared g answers r))

-- Once a scope is known it stays, and no step of any caller starts another flight.
step-known :
    (g g' : Guard) (answers : List TagScope) (ev : Event) (a : Option TagScope) (s : TagScope)
    → Reach g answers
    → g.scope ≡ some s
    → step ev g ≡ some (g', a)
    → (g'.scope ≡ some s) × (g'.flying ≡ false)
step-known g g' answers ev a s r known e =
    let (keeps, _, settled) = KeepsScope-step ev g g' a (IsSettled-Reach g answers r) e in
    let still = keeps s known in
    (
      still,
      elim (Bool-cases g'.flying) [ inl flies ↦ ground (arith, settled flies) | inr idle ↦ idle ],
    )
