-- ===== src/Audit/Refusals.antt =====
-- audit/refusals.py and errors.known_reason: refused exchange attempts, one row for each reason and
-- window. A difference of moments is written as a sum.
use Prim.Native.Char.{Char}
use nextcloud_mcp_connector.Base.{
  ℕ, suc, ◌+◌, String, Bool, true, false, ◌&&◌, Option, none, some, List, [], ◌∷◌, any, ltb, leb,
  str_eq, if◌then◌else◌,
}
use nextcloud_mcp_connector.Base.Dict.{Dict, get, put}
use nextcloud_mcp_connector.Audit.Rows.{Entry, plain_entry, AuditDb, chain_exchange}
use nextcloud_mcp_connector.Audit.Chains.{Digest, append}
use nextcloud_mcp_connector.Audit.Sweep.{Pages, sweep}
use nextcloud_mcp_connector.Audit.Reading.{should_sweep}

abbrev pub refusal_window_seconds : ℕ
refusal_window_seconds = 300

abbrev pub reason_unspecified : String
reason_unspecified = "unspecified"

-- REASONS
abbrev pub reasons : List String
reasons =
    "unspecified" ∷ "permission_denied" ∷ "unknown_id" ∷ "timeout" ∷ "unreachable" ∷ "guard_tripped"
    ∷ "exchange_malformed" ∷ "exchange_key" ∷ "exchange_issuer" ∷ "exchange_claims"
    ∷ "exchange_account" ∷ "exchange_failed" ∷ []

-- `known_reason` of a text
unfoldable pub known_reason : String → String
known_reason reason = if any (str_eq reason) reasons then reason else reason_unspecified

-- When the window opened, and how many attempts it has swallowed since.
pub record Window : Type 0 where
  pub opened : ℕ
  pub swallowed : ℕ

abbrev pub Windows : Type 0
Windows = Dict Window

abbrev pub is_inside : (at : ℕ) → Window → Bool
is_inside at w = leb w.opened at && ltb at (w.opened + refusal_window_seconds)

-- For how many attempts the row stands that is written now.
abbrev pub attempts_of : Option Window → ℕ
attempts_of none = 1
attempts_of (some w) = suc w.swallowed

abbrev pub refusal : (identifier : String) (at attempts : ℕ) → Entry
refusal identifier at attempts = record (plain_entry chain_exchange at) {
  kind = "refusal";
  outcome = some "rejected";
  reason = some identifier;
  removed = some attempts;
}

-- A fresh window opens before the row is written.
unfoldable pub open_window : (identifier : String) (at : ℕ) → Windows → Windows × Option Entry
unfolding get put
open_window identifier at windows = (
  put windows identifier (record { opened = at; swallowed = 0 }),
  some (refusal identifier at (attempts_of (get windows identifier))),
)

unfoldable pub swallow : (identifier : String) → Window → Windows → Windows × Option Entry
unfolding put
swallow identifier w windows =
    (put windows identifier (record w { swallowed = suc w.swallowed }), none)

unfoldable pub brake : (identifier : String) (at : ℕ) → Windows → Windows × Option Entry
unfolding open_window swallow
brake identifier at windows = elim (get windows identifier) [
  | none ↦ open_window identifier at windows
  | some w ↦
      if is_inside at w then swallow identifier w windows else open_window identifier at windows
]

module _ (digest : Digest) (isprintable : Char → Bool) (retention_days size_limit : ℕ)
    (pages : ℕ → Pages) (measured : Pages) where
  -- The row, and the sweep where its number is the turn of one.
  unfoldable pub write_refusal : (at : ℕ) → Option Entry → AuditDb → AuditDb
  unfolding append sweep should_sweep
  write_refusal at none db = db
  write_refusal at (some e) db =
      let (seq, written) = append digest isprintable e db in
      elim (should_sweep seq) [
        | false ↦ written
        | true ↦ (sweep digest isprintable at retention_days size_limit pages measured written).1
      ]

  -- `store` is whether the file takes the row; an error of it is logged and no more.
  unfoldable pub note_refusal :
      (store : Bool) (reason : String) (at : ℕ) → Windows × AuditDb → Windows × AuditDb
  unfolding brake write_refusal known_reason
  note_refusal store reason at (windows, db) =
      let (windows', row) = brake (known_reason reason) at windows in
      (windows', elim store [ true ↦ write_refusal at row db | false ↦ db ])
