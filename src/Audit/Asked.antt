-- ===== src/Audit/Asked.antt =====
-- audit/store.py, the condition of _READ_ROWS: which rows a reader asked for.
use nextcloud_mcp_connector.Base.{
  ℕ, ◌≤◌, leb, eq_iff, none, String, ◌≡◌, refl, true, Option, some, arith,
}
use nextcloud_mcp_connector.Audit.Rows.{Row, in_chain}
use nextcloud_mcp_connector.Audit.Commits.{IfAny}
use nextcloud_mcp_connector.Audit.Reading.{unset_or, is_read}

-- A row of the table that the reader asked for.
abbrev pub IsAskedFor : (chain : Option String) (since until : Option ℕ) → Row → Type 0
IsAskedFor chain since until r =
    IfAny (λ (c : String). r.columns.chain ≡ c) chain
    × IfAny (λ (m : ℕ). m ≤ r.columns.at) since
    × IfAny (λ (m : ℕ). r.columns.at ≤ m) until

is_chain-asked :
    (chain : Option String) (r : Row)
    → unset_or (λ c. in_chain c r) chain ≡ true
    → IfAny (λ (c : String). r.columns.chain ≡ c) chain
is_chain-asked none r h = tt
is_chain-asked (some c) r h = (eq_iff r.columns.chain c).0 h

asked-is_chain :
    (chain : Option String) (r : Row)
    → IfAny (λ (c : String). r.columns.chain ≡ c) chain
    → unset_or (λ c. in_chain c r) chain ≡ true
asked-is_chain none r h = refl
asked-is_chain (some c) r h = (eq_iff r.columns.chain c).1 h

is_since-asked :
    (since : Option ℕ) (n : ℕ)
    → unset_or (λ m. leb m n) since ≡ true
    → IfAny (λ (m : ℕ). m ≤ n) since
is_since-asked none n h = tt
is_since-asked (some m) n h = ground (arith, h)

asked-is_since :
    (since : Option ℕ) (n : ℕ)
    → IfAny (λ (m : ℕ). m ≤ n) since
    → unset_or (λ m. leb m n) since ≡ true
asked-is_since none n h = refl
asked-is_since (some m) n h = ground (arith, h)

is_until-asked :
    (until : Option ℕ) (n : ℕ)
    → unset_or (λ m. leb n m) until ≡ true
    → IfAny (λ (m : ℕ). n ≤ m) until
is_until-asked none n h = tt
is_until-asked (some m) n h = ground (arith, h)

asked-is_until :
    (until : Option ℕ) (n : ℕ)
    → IfAny (λ (m : ℕ). n ≤ m) until
    → unset_or (λ m. leb n m) until ≡ true
asked-is_until none n h = refl
asked-is_until (some m) n h = ground (arith, h)

pub is_read-asked :
    (chain : Option String) (since until : Option ℕ) (r : Row)
    → is_read chain since until r ≡ true
    → IsAskedFor chain since until r
is_read-asked chain since until r h = (
  is_chain-asked chain r (ground (arith, h)),
  is_since-asked since r.columns.at (ground (arith, h)),
  is_until-asked until r.columns.at (ground (arith, h)),
)

pub asked-is_read :
    (chain : Option String) (since until : Option ℕ) (r : Row)
    → IsAskedFor chain since until r
    → is_read chain since until r ≡ true
asked-is_read chain since until r (c, m, n) = ground (
  arith,
  asked-is_chain chain r c,
  asked-is_since since r.columns.at m,
  asked-is_until until r.columns.at n,
)
