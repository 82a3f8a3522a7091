-- ===== src/Exclusion/Guard.antt =====
-- nextcloud/exclusion.py, `ExclusionGuard`, cut at its two awaits: the lock, and the flight that runs
-- under it. A task runs undisturbed from one await to the next, so a call of `scope` is an arrival,
-- perhaps a turn at the lock, and perhaps the end of a flight; the steps of several callers mix.
use nextcloud_mcp_connector.Base.{
  ℕ, zero, suc, Bool, true, false, Option, none, some, List, [], ◌∷◌, if◌then◌else◌, ◌≡◌,
}
use nextcloud_mcp_connector.Exclusion.Scope.{TagScope}
use nextcloud_mcp_connector.Exclusion.Flight.{Key, same_key}

pub record Guard : Type 0 where
  pub key : Option Key
  pub scope : Option TagScope
  -- callers at the lock
  pub waiting : ℕ
  -- whether the lock is held, by the one flight
  pub flying : Bool

abbrev pub new_guard : Guard
new_guard = record { key = none; scope = none; waiting = 0; flying = false }

pub data Event : Type 0 where
  arrives : Key → Event
  takes_lock : Event
  lands : TagScope → Event
  cancelled : Event

-- One guard serves one key: `none` is the ValueError.
unfoldable pub bind_key : Key → Guard → Option Guard
bind_key key g = elim g.key [
  | none ↦ some (record g { key = some key })
  | some bound ↦ if same_key bound key then some g else none
]

-- What a step does, and the answer that a caller gets in it.
abbrev pub Outcome : Type 0
Outcome = Option (Guard × Option TagScope)

unfoldable pub arrive : Key → Guard → Outcome
unfolding bind_key
arrive key g = elim (bind_key key g) [
  | none ↦ none
  | some bound ↦ elim bound.scope [
    | some known ↦ some (bound, some known)
    | none ↦ some (record bound { waiting = suc bound.waiting }, none)
  ]
]

-- The re-check under the lock.
unfoldable pub take_lock : Guard → Outcome
take_lock g = elim g.waiting [
  | zero ↦ none
  | suc others ↦ if g.flying then none else elim g.scope [
    | some known ↦ some (record g { waiting = others }, some known)
    | none ↦ some (record g { waiting = others; flying = true }, none)
  ]
]

-- The flight is over: its scope is stored, whatever it is, and the lock is free.
unfoldable pub land : TagScope → Guard → Outcome
land scope g =
    if g.flying then some (record g { scope = some scope; flying = false }, some scope) else none

-- A cancelled flight stores nothing.
unfoldable pub cancel : Guard → Outcome
cancel g = if g.flying then some (record g { flying = false }, none) else none

unfoldable pub step : Event → Guard → Outcome
unfolding arrive take_lock land cancel
step (arrives key) g = arrive key g
step takes_lock g = take_lock g
step (lands scope) g = land scope g
step cancelled g = cancel g

abbrev pub noted : Option TagScope → List TagScope → List TagScope
noted none answers = answers
noted (some scope) answers = scope ∷ answers

-- What one guard can come to, with the answers that it has given.
pub data Reach : Guard → List TagScope → Type 0 where
  fresh : Reach new_guard []
  after :
      {g g' : Guard} {answers : List TagScope} {a : Option TagScope}
      → Reach g answers
      → (e : Event) → step e g ≡ some (g', a)
      → Reach g' (noted a answers)
