-- ===== src/Audit/Attempts.antt =====
-- audit/refusals.py: no refused attempt is lost.
use nextcloud_mcp_connector.Base.{
  ℕ, suc, ◌+◌, String, ◌≡◌, ap, Option, none, some, List, [], ◌∷◌, arith, str_eq, eq_iff, count,
  Bool-cases, Option-cases, inl, inr, if◌then◌else◌,
}
use nextcloud_mcp_connector.Base.Dict.{get, get-put}
use nextcloud_mcp_connector.Audit.Rows.{Entry}
use nextcloud_mcp_connector.Audit.Markers.{or_else}
use nextcloud_mcp_connector.Audit.Refusals.{
  known_reason, Window, Windows, is_inside, open_window, swallow, brake,
}

-- One refused attempt: the reason that was handed in, and the moment.
pub record Attempt : Type 0 where
  pub reason : String
  pub at : ℕ

-- The attempts that a window has swallowed and no row speaks for yet.
abbrev pub pending : Option Window → ℕ
pending none = 0
pending (some w) = w.swallowed

-- For how many attempts of a reason a row speaks.
abbrev pub spoken_for : String → Option Entry → ℕ
spoken_for i none = 0
spoken_for i (some e) = if str_eq (or_else "" e.reason) i then or_else 0 e.removed else 0

-- The same for all the rows that a run of attempts asks for, and the windows after the run.
unfoldable pub windows_after : List Attempt → Windows → Windows
unfolding brake
windows_after [] windows = windows
windows_after (a ∷ attempts) windows =
    windows_after attempts (brake (known_reason a.reason) a.at windows).0

unfoldable pub spoken_in_run : String → List Attempt → Windows → ℕ
unfolding brake
spoken_in_run i [] windows = 0
spoken_in_run i (a ∷ attempts) windows =
    let answer = brake (known_reason a.reason) a.at windows in
    spoken_for i answer.1 + spoken_in_run i attempts answer.0

module _ (i : String) (identifier : String) (at : ℕ) (windows : Windows) where
  spoken-open_window :
      spoken_for i (open_window identifier at windows).1
        + pending (get (open_window identifier at windows).0 i)
      ≡ pending (get windows i) + (if str_eq identifier i then 1 else 0)
  unfolding open_window
  spoken-open_window = elim (Bool-cases (str_eq identifier i)) [
    | inl same ↦ ground (
      arith,
      same,
      get-put windows identifier i (record { opened = at; swallowed = 0 }),
      ap (get windows) ((eq_iff identifier i).0 same),
      Option-cases (get windows identifier),
    )
    | inr other ↦
        ground (arith, other, get-put windows identifier i (record { opened = at; swallowed = 0 }))
  ]

  spoken-swallow :
      (w : Window)
      → get windows identifier ≡ some w
      → spoken_for i (swallow identifier w windows).1
          + pending (get (swallow identifier w windows).0 i)
        ≡ pending (get windows i) + (if str_eq identifier i then 1 else 0)
  unfolding swallow
  spoken-swallow w found = elim (Bool-cases (str_eq identifier i)) [
    | inl same ↦ ground (
      arith,
      same,
      found,
      get-put windows identifier i (record w { swallowed = suc w.swallowed }),
      ap (get windows) ((eq_iff identifier i).0 same),
    )
    | inr other ↦
        ground
          (arith, other, get-put windows identifier i (record w { swallowed = suc w.swallowed }))
  ]

  spoken-brake :
      spoken_for i (brake identifier at windows).1 + pending (get (brake identifier at windows).0 i)
      ≡ pending (get windows i) + (if str_eq identifier i then 1 else 0)
  unfolding brake
  spoken-brake = elim (Option-cases (get windows identifier)) [
    | inl nothing ↦ rw (brake, nothing) spoken-open_window
    | inr (w, found) ↦ elim (Bool-cases (is_inside at w)) [
      | inl inside ↦ rw (brake, found, inside) (spoken-swallow w found)
      | inr outside ↦ rw (brake, found, outside) spoken-open_window
    ]
  ]

-- Over any run of refused attempts, the rows that are asked for speak, for each reason, for exactly
-- the attempts of that reason: those of the run and those swallowed before it, less the ones that the
-- window at the end has swallowed and the next row will speak for.
pub spoken_in_run-attempts :
    (i : String) (attempts : List Attempt) (windows : Windows)
    → spoken_in_run i attempts windows + pending (get (windows_after attempts windows) i)
      ≡ pending (get windows i) + count (λ (a : Attempt). str_eq (known_reason a.reason) i) attempts
unfolding spoken_in_run windows_after
spoken_in_run-attempts i [] windows = omega arith
spoken_in_run-attempts i (a ∷ attempts) windows = omega (
  arith,
  spoken-brake i (known_reason a.reason) a.at windows,
  spoken_in_run-attempts i attempts (brake (known_reason a.reason) a.at windows).0,
)
