-- ===== src/Ids/Pieces.antt =====
-- ids.py: splitting and joining at the separator.
use Prim.Native.Char.{Char}
use Prim.Native.String.append
use Prim.Native.String.{[], ◌∷◌}
use mathlib.Core.List.{List}
use text.Mathlib.TextEquality.{Char-path}
use nextcloud_mcp_connector.Base.{
  String, ◌≡◌, refl, ap, sym, ◌∙◌, Bool, true, false, some, arith, All, Bool-cases, inl, inr,
}
use nextcloud_mcp_connector.Base.Text.{concat}
use nextcloud_mcp_connector.Ids.Codec.{
  is_separator, has_separator, before, behind, split_all, add_first, join_segments, all_digits,
}

separator_path : (c : Char) → is_separator c ≡ true → c ≡ ":"
separator_path c own = Char-path c ":" (ground (arith, own))

behind_path :
    (c : Char) (s rest : String) → is_separator c ≡ true → behind (c ∷ s) ≡ some rest → rest ≡ s
unfolding behind
behind_path c s rest own found = ground (arith, own, found)

colon_append : (rest : String) → concat ":" rest ≡ ":" ∷ rest
colon_append rest = append.cons ":" "" rest ∙ ap (◌∷◌ ":") (append.nil rest)

-- What stands before the separator, the separator, and what stands behind it.
pub before-behind :
    (s rest : String) → behind s ≡ some rest → concat (before s) (concat ":" rest) ≡ s
unfolding before behind
before-behind [] rest found = cc
before-behind (c ∷ s) rest found = elim (Bool-cases (is_separator c)) [
  | inl own ↦ rw own (
      append.nil (concat ":" rest)
      ∙ colon_append rest
      ∙ ap (λ d. d ∷ rest) (sym (separator_path c own))
      ∙ ap (◌∷◌ c) (behind_path c s rest own found))
  | inr other ↦ rw other (
      append.cons c (before s) (concat ":" rest)
      ∙ ap (◌∷◌ c) (before-behind s rest (ground (arith, other, found))))
]

pub has_separator-before : (s : String) → has_separator (before s) ≡ false
unfolding before has_separator
has_separator-before [] = refl
has_separator-before (c ∷ s) = elim (Bool-cases (is_separator c)) [
  | inl own ↦ rw own refl
  | inr other ↦ rw other (ground (arith, other, has_separator-before s))
]

abbrev pub is_cons : List String → Bool
is_cons List.[] = false
is_cons (List.◌∷◌ w ws) = true

is_cons-add_first : (c : Char) (ws : List String) → is_cons (add_first c ws) ≡ true
is_cons-add_first c List.[] = refl
is_cons-add_first c (List.◌∷◌ w ws) = refl

pub is_cons-split_all : (s : String) → is_cons (split_all s) ≡ true
unfolding split_all
is_cons-split_all [] = refl
is_cons-split_all (c ∷ s) = elim (Bool-cases (is_separator c)) [
  | inl own ↦ rw own refl
  | inr other ↦ rw other (is_cons-add_first c (split_all s))
]

pub join_cons :
    (w : String) (ws : List String)
    → is_cons ws ≡ true
    → join_segments (List.◌∷◌ w ws) ≡ concat w (concat ":" (join_segments ws))
unfolding join_segments
join_cons w List.[] h = cc
join_cons w (List.◌∷◌ v ws) h = refl

join-add_first :
    (c : Char) (ws : List String)
    → is_cons ws ≡ true
    → join_segments (add_first c ws) ≡ c ∷ join_segments ws
unfolding join_segments
join-add_first c List.[] h = cc
join-add_first c (List.◌∷◌ w List.[]) h = refl
join-add_first c (List.◌∷◌ w (List.◌∷◌ v ws)) h =
    append.cons c w (concat ":" (join_segments (List.◌∷◌ v ws)))

pub join-split_all : (s : String) → join_segments (split_all s) ≡ s
unfolding join_segments split_all
join-split_all [] = refl
join-split_all (c ∷ s) = elim (Bool-cases (is_separator c)) [
  | inl own ↦ rw own (
      join_cons "" (split_all s) (is_cons-split_all s)
      ∙ append.nil (concat ":" (join_segments (split_all s)))
      ∙ colon_append (join_segments (split_all s))
      ∙ ap (λ d. d ∷ join_segments (split_all s)) (sym (separator_path c own))
      ∙ ap (◌∷◌ c) (join-split_all s))
  | inr other ↦
      rw other
        (join-add_first c (split_all s) (is_cons-split_all s) ∙ ap (◌∷◌ c) (join-split_all s))
]

has_separator-add_first :
    (c : Char) (ws : List String)
    → is_separator c ≡ false
    → All (λ p. has_separator p ≡ false) ws
    → All (λ p. has_separator p ≡ false) (add_first c ws)
unfolding has_separator
has_separator-add_first c List.[] other h = (ground (arith, other), tt)
has_separator-add_first c (List.◌∷◌ w ws) other h = (ground (arith, other, h.0), h.1)

pub has_separator-split_all : (s : String) → All (λ p. has_separator p ≡ false) (split_all s)
unfolding split_all has_separator
has_separator-split_all [] = (refl, tt)
has_separator-split_all (c ∷ s) = elim (Bool-cases (is_separator c)) [
  | inl own ↦ rw own (refl, has_separator-split_all s)
  | inr other ↦ rw other (has_separator-add_first c (split_all s) other (has_separator-split_all s))
]

pub has_separator-digits : (s : String) → all_digits s ≡ true → has_separator s ≡ false
unfolding all_digits has_separator
has_separator-digits [] digits = refl
has_separator-digits (c ∷ s) digits = ground (arith, digits, has_separator-digits s)

head_plain : (c : Char) (w : String) → has_separator (c ∷ w) ≡ false → is_separator c ≡ false
unfolding has_separator
head_plain c w plain = ground (arith, plain)

-- A segment without a separator, in front of one.
module _ (r : String) where
  pub behind-concat :
      (w : String) → has_separator w ≡ false → behind (concat w (concat ":" r)) ≡ some r
  unfolding has_separator behind
  behind-concat [] plain = ap behind (append.nil (concat ":" r) ∙ colon_append r)
  behind-concat (c ∷ w) plain =
      ap behind (append.cons c w (concat ":" r)) ∙ ground (arith, plain, behind-concat w)

  pub before-concat : (w : String) → has_separator w ≡ false → before (concat w (concat ":" r)) ≡ w
  unfolding has_separator before
  before-concat [] plain = ap before (append.nil (concat ":" r) ∙ colon_append r)
  before-concat (c ∷ w) plain =
      ap before (append.cons c w (concat ":" r))
      ∙ rw (head_plain c w plain) (ap (◌∷◌ c) (before-concat w (ground (arith, plain))))

  pub split_all-concat :
      (w : String)
      → has_separator w ≡ false
      → split_all (concat w (concat ":" r)) ≡ List.◌∷◌ w (split_all r)
  unfolding has_separator split_all
  split_all-concat [] plain = ap split_all (append.nil (concat ":" r) ∙ colon_append r)
  split_all-concat (c ∷ w) plain =
      ap split_all (append.cons c w (concat ":" r))
      ∙ rw (head_plain c w plain) (ap (add_first c) (split_all-concat w (ground (arith, plain))))

pub split_all-plain : (w : String) → has_separator w ≡ false → split_all w ≡ List.◌∷◌ w List.[]
unfolding has_separator split_all
split_all-plain [] plain = refl
split_all-plain (c ∷ w) plain =
    rw (head_plain c w plain) (ap (add_first c) (split_all-plain w (ground (arith, plain))))
