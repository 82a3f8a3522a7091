-- ===== src/Exclusion/Parents.antt =====
-- The loop of `ancestors` (nextcloud/exclusion.py) comes to its end.
use nextcloud_mcp_connector.Base.{
  ℕ, zero, suc, ◌≤◌, ◌<◌, String, ◌≡◌, ◌≢◌, ◌⊎◌, inl, inr, refl, sym, subst, true, none, some,
  arith, str_eq, eq_iff, ◌==◌, Bool-cases, Option-cases,
}
use Prim.Native.Char.{code}
use nextcloud_mcp_connector.Base.Text.{text_length}
use nextcloud_mcp_connector.Exclusion.Scope.{
  before_last_slash, parent, ancestors_within, ancestors, is_absolute, among,
}

-- What stands before the last slash is shorter, and absolute where it is not empty.
pub before_last_slash-parts :
    (path head : String)
    → before_last_slash path ≡ some head
    → (text_length head < text_length path)
      × ((is_absolute path ≡ true) → (head ≡ "") ⊎ (is_absolute head ≡ true))
unfolding before_last_slash
before_last_slash-parts String.[] head e = cc
before_last_slash-parts (String.◌∷◌ c s) head e = elim (Option-cases (before_last_slash s)) [
  | inl last ↦ elim (Bool-cases (code c == 47)) [
    | inl slash ↦
        let same : String.[] ≡ head = ground (arith, last, slash) in
        (subst (λ h. text_length h < suc (text_length s)) same (omega arith), λ _. inl (sym same))
    | inr other ↦ ground (arith, last, other)
  ]
  | inr (h, found) ↦
      let (shorter, _) = before_last_slash-parts s h found in
      let same : String.◌∷◌ c h ≡ head = ground (arith, found) in
      (
        subst (λ h. text_length h < suc (text_length s)) same (omega (arith, shorter)),
        λ absolute. inr (subst (λ h. is_absolute h ≡ true) same absolute),
      )
]

before_last_slash-absolute :
    (path : String) → is_absolute path ≡ true → before_last_slash path ≢ none
unfolding before_last_slash
before_last_slash-absolute String.[] absolute = cc
before_last_slash-absolute (String.◌∷◌ c s) absolute = elim (Option-cases (before_last_slash s)) [
  | inl last ↦ ground (arith, last, absolute)
  | inr (h, found) ↦ ground (arith, found)
]

-- The parent of an absolute path is `/` or is absolute and shorter.
parent-parts :
    (path : String)
    → is_absolute path ≡ true
    → (parent path ≡ "/")
      ⊎ ((is_absolute (parent path) ≡ true) × (text_length (parent path) < text_length path))
unfolding parent
parent-parts path absolute = elim (Option-cases (before_last_slash path)) [
  | inl missing ↦ absurd (before_last_slash-absolute path absolute missing)
  | inr (head, found) ↦
      let (shorter, rest) = before_last_slash-parts path head found in
      elim (rest absolute) [
        | inl empty ↦ inl (ground (arith, found, empty, eq_iff head ""))
        | inr starts ↦ elim (Bool-cases (str_eq head "")) [
          | inl empty ↦ inl (ground (arith, found, empty))
          | inr full ↦
              let same : head ≡ parent path = ground (arith, found, full) in
              inr (
                subst (λ q. is_absolute q ≡ true) same starts,
                subst (λ q. text_length q < text_length path) same shorter,
              )
        ]
      ]
]

absolute-nonempty : (path : String) → is_absolute path ≡ true → 1 ≤ text_length path
absolute-nonempty String.[] absolute = cc
absolute-nonempty (String.◌∷◌ c s) absolute = omega arith

pub absolute-apart : (path : String) → is_absolute path ≡ true → path ≢ ""
absolute-apart path absolute empty =
    let wrong : is_absolute "" ≡ true = subst (λ q. is_absolute q ≡ true) empty absolute in cc

root-ancestors_within : (fuel : ℕ) → among "/" (ancestors_within fuel "/") ≡ true
unfolding ancestors_within
root-ancestors_within zero = refl
root-ancestors_within (suc fuel) = refl

ancestors_within-root :
    (fuel : ℕ) (path : String)
    → is_absolute path ≡ true
    → text_length path ≤ fuel
    → among "/" (ancestors_within fuel path) ≡ true
unfolding ancestors_within
ancestors_within-root zero path absolute enough =
    absurd (omega (arith, absolute-nonempty path absolute, enough))
ancestors_within-root (suc fuel) path absolute enough = elim (Bool-cases (str_eq path "/")) [
  | inl root ↦ ground (arith, root)
  | inr below ↦ elim (Bool-cases (str_eq path "")) [
    | inl empty ↦ absurd (absolute-apart path absolute ((eq_iff path "").0 empty))
    | inr full ↦ elim (parent-parts path absolute) [
      | inl top ↦ ground (arith, below, full, top, root-ancestors_within fuel)
      | inr (starts, shorter) ↦ ground (
        arith,
        below,
        full,
        ancestors_within-root fuel (parent path) starts (omega (arith, shorter, enough)),
      )
    ]
  ]
]

-- The ancestors of an absolute path reach the root: the loop comes to its end within as many steps
-- as the path has characters.
pub ancestors-root : (path : String) → is_absolute path ≡ true → among "/" (ancestors path) ≡ true
unfolding ancestors
ancestors-root path absolute = ancestors_within-root (text_length path) path absolute (omega arith)
