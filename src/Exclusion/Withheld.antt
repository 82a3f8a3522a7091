-- ===== src/Exclusion/Withheld.antt =====
-- What a scope withholds (nextcloud/exclusion.py, `TagScope.excludes`).
use nextcloud_mcp_connector.Base.{
  String, ◌≡◌, sym, subst, Bool, true, Option, some, List, [], ◌∷◌, arith, str_eq, eq_iff, any,
  Bool-cases, inl, inr,
}
use nextcloud_mcp_connector.Exclusion.Scope.{
  TagScope, active, excludes, ancestors, among, is_absolute, within, names_file,
}
use nextcloud_mcp_connector.Exclusion.Below.{ancestors-within}

-- A test that holds of a member holds of some member.
any-among :
    (q : String → Bool) (a : String) (texts : List String)
    → among a texts ≡ true
    → q a ≡ true
    → any q texts ≡ true
any-among q a [] member holds = cc
any-among q a (b ∷ texts) member holds = elim (Bool-cases (str_eq b a)) [
  | inl same ↦
      let here : q b ≡ true = subst (λ x. q x ≡ true) (sym ((eq_iff b a).0 same)) holds in
      ground (arith, here)
  | inr other ↦ ground (arith, other, any-among q a texts)
]

-- In an active scope a node is withheld with everything below it: an absolute path that lies, by the
-- rule of `within`, in a tagged absolute path is excluded, the tagged path itself included, whether or
-- not its file id is asked too.
pub excludes-within :
    (scope : TagScope) (path a : String) (fileid : Option String)
    → scope.state ≡ active
    → is_absolute path ≡ true
    → is_absolute a ≡ true
    → within path a ≡ true
    → among a scope.paths ≡ true
    → excludes scope (some path) fileid ≡ some true
unfolding excludes
excludes-within scope path a fileid known absolute starts inside tagged =
    let above = ancestors-within path a absolute starts inside in
    let covered = any-among (λ b. among b scope.paths) a (ancestors path) above tagged in
    elim (Bool-cases (names_file scope fileid)) [
      | inl named ↦ ground (arith, known, absolute, named)
      | inr unnamed ↦ ground (arith, known, absolute, unnamed, covered)
    ]
