-- ===== src/Exclusion/Below.antt =====
-- Which paths `ancestors` (nextcloud/exclusion.py) reaches, by the rule of `within`
-- (nextcloud/clients/dav.py).
use Prim.Native.String.{String, ◌∷◌}
use text.Mathlib.TextEquality.{Char-path}
use nextcloud_mcp_connector.Base.{
  ℕ, zero, suc, ◌≤◌, ◌≡◌, ◌⊎◌, inl, inr, refl, sym, ap, subst, ◌∙◌, true, false, some, arith,
  str_eq, eq_iff, eq_refl, Bool-cases, Option-cases,
}
use nextcloud_mcp_connector.Base.Text.{text_length}
use nextcloud_mcp_connector.Exclusion.Scope.{
  before_last_slash, parent, ancestors_within, ancestors, is_absolute, among, begins_below, within,
}
use nextcloud_mcp_connector.Exclusion.Parents.{
  before_last_slash-parts, absolute-apart, ancestors-root,
}

-- What stands before the last slash of a text below a root is the root or is below it.
before_last_slash-below :
    (a path : String)
    → begins_below a path ≡ true
    → (h : String) × (before_last_slash path ≡ some h) × ((h ≡ a) ⊎ (begins_below a h ≡ true))
unfolding before_last_slash begins_below
before_last_slash-below String.[] String.[] below = cc
before_last_slash-below String.[] (String.◌∷◌ d s) below =
    elim (Option-cases (before_last_slash s)) [
      | inl last ↦ ("", ground (arith, last, below), inl refl)
      | inr (h, found) ↦ (String.◌∷◌ d h, ground (arith, found), inr below)
    ]
before_last_slash-below (String.◌∷◌ c a) String.[] below = cc
before_last_slash-below (String.◌∷◌ c a) (String.◌∷◌ d s) below =
    let same : c ≡ d = Char-path c d (ground (arith, below)) in
    let (h, found, rest) = before_last_slash-below a s (ground (arith, below)) in
    (
      String.◌∷◌ d h,
      ground (arith, found),
      elim rest [
        | inl here ↦ inl (ap (◌∷◌ d) here ∙ ap (λ e. String.◌∷◌ e a) (sym same))
        | inr under ↦ inr (ground (arith, under, below))
      ],
    )

among_self : (fuel : ℕ) (path : String) → among path (ancestors_within fuel path) ≡ true
unfolding ancestors_within
among_self zero path = ground (arith, eq_refl path)
among_self (suc fuel) path = ground (arith, eq_refl path)

none_below : (a : String) → begins_below a "" ≡ true → ⊥
unfolding begins_below
none_below String.[] h = cc
none_below (String.◌∷◌ c a) h = cc

longer_apart : (path : String) → 2 ≤ text_length path → str_eq path "/" ≡ false
longer_apart path long = elim (Bool-cases (str_eq path "/")) [
  | inl same ↦
      let one : text_length path ≡ 1 = ap text_length ((eq_iff path "/").0 same) in
      absurd (omega (arith, one, long))
  | inr apart ↦ apart
]

absolute_above :
    (a path : String)
    → is_absolute a ≡ true
    → begins_below a path ≡ true
    → (is_absolute path ≡ true) × (str_eq path "/" ≡ false)
unfolding begins_below
absolute_above String.[] path absolute below = cc
absolute_above (String.◌∷◌ c a) String.[] absolute below = cc
absolute_above (String.◌∷◌ c a) (String.◌∷◌ d String.[]) absolute below =
    absurd (none_below a (ground (arith, below)))
absolute_above (String.◌∷◌ c a) (String.◌∷◌ d (String.◌∷◌ e s)) absolute below =
    (ground (arith, absolute, below), longer_apart (String.◌∷◌ d (String.◌∷◌ e s)) (omega arith))

parent_of :
    (path h : String) → before_last_slash path ≡ some h → is_absolute h ≡ true → parent path ≡ h
unfolding parent
parent_of path h found absolute = ground (arith, found, absolute-apart h absolute, eq_iff h "")

absolute_either :
    (a h : String)
    → is_absolute a ≡ true
    → (h ≡ a) ⊎ (begins_below a h ≡ true)
    → is_absolute h ≡ true
absolute_either a h absolute (inl same) = subst (λ q. is_absolute q ≡ true) (sym same) absolute
absolute_either a h absolute (inr below) = (absolute_above a h absolute below).0

below-ancestors_within :
    (fuel : ℕ) (a path : String)
    → is_absolute a ≡ true
    → begins_below a path ≡ true
    → text_length path ≤ fuel
    → among a (ancestors_within fuel path) ≡ true
unfolding ancestors_within
below-ancestors_within zero a path absolute below enough =
    let (h, found, rest) = before_last_slash-below a path below in
    absurd (omega (arith, (before_last_slash-parts path h found).0, enough))
below-ancestors_within (suc fuel) a path absolute below enough =
    let (h, found, rest) = before_last_slash-below a path below in
    let (starts, longer) = absolute_above a path absolute below in
    let up = parent_of path h found (absolute_either a h absolute rest) in
    let reached : among a (ancestors_within fuel h) ≡ true = elim rest [
      | inl here ↦ subst (λ q. among q (ancestors_within fuel h) ≡ true) here (among_self fuel h)
      | inr under ↦
          below-ancestors_within fuel a h absolute under
            (omega (arith, (before_last_slash-parts path h found).0, enough))
    ] in
    let above : among a (ancestors_within fuel (parent path)) ≡ true =
      subst (λ q. among a (ancestors_within fuel q) ≡ true) (sym up) reached in
    ground (arith, longer, absolute-apart path starts, eq_iff path "", above)

-- Every absolute root that `within` accepts for a path is among its ancestors.
pub ancestors-within :
    (path a : String)
    → is_absolute path ≡ true
    → is_absolute a ≡ true
    → within path a ≡ true
    → among a (ancestors path) ≡ true
unfolding within ancestors
ancestors-within path a absolute starts inside = elim (Bool-cases (str_eq a "/")) [
  | inl root ↦
      subst (λ q. among q (ancestors path) ≡ true) (sym ((eq_iff a "/").0 root))
        (ancestors-root path absolute)
  | inr below_root ↦ elim (Bool-cases (str_eq path a)) [
    | inl same ↦
        subst (λ q. among q (ancestors path) ≡ true) ((eq_iff path a).0 same)
          (among_self (text_length path) path)
    | inr apart ↦
        below-ancestors_within (text_length path) a path starts
          (ground (arith, inside, below_root, apart)) (omega arith)
  ]
]
