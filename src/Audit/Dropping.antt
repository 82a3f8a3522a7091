-- ===== src/Audit/Dropping.antt =====
-- audit/store.py, `AuditStore.drop_user_chain`: whole chains stay whole.
use Prim.Native.Char.{Char, code}
use Prim.Native.String.append
use nextcloud_mcp_connector.Base.{
  ℕ, String, ◌≡◌, refl, ap, sym, subst, inl, inr, Bool, true, false, arith, str_eq, eq_iff,
  Bool-cases, Option-cases, if◌then◌else◌, ◌∙◌, some, [], count, select, delete, fetch_last,
}
use nextcloud_mcp_connector.Base.Selecting.{select-delete-none, select-delete-all}
use nextcloud_mcp_connector.Audit.Rows.{
  Row, AuditDb, genesis, chain_instance, user_chain, in_chain, row_values,
}
use nextcloud_mcp_connector.Audit.Chains.{Digest, marker, new_row, replace_chain, drop_user_chain}
use nextcloud_mcp_connector.Audit.Filed.{
  marked, IsFiled-append_row, select-append_row-other, marked-append_row,
}
use nextcloud_mcp_connector.Audit.Whole.{
  not_instance, HasStart, IsWhole, IsFiled-delete, marked-delete,
}

-- The code of the first character.
abbrev first : String → ℕ
first String.[] = 0
first (String.◌∷◌ c s) = code c

first_of_user_chain : (nc_user : String) → first (user_chain nc_user) ≡ 117
first_of_user_chain nc_user = ap first (append.cons "u" ":" nc_user)

first_if_same :
    (nc_user : String)
    → str_eq chain_instance (user_chain nc_user) ≡ true
    → 105 ≡ first (user_chain nc_user)
first_if_same nc_user same = ap first ((eq_iff chain_instance (user_chain nc_user)).0 same)

pub user_chain_other : (nc_user : String) → str_eq chain_instance (user_chain nc_user) ≡ false
user_chain_other nc_user = ground (arith, first_of_user_chain nc_user, first_if_same nc_user)

module _ (digest : Digest) (isprintable : Char → Bool) where
  module _ (moment : ℕ) (chain : String) (end : Row) (db : AuditDb)
      (other : str_eq chain_instance chain ≡ false) where
    abbrev dropped : AuditDb
    dropped = record db { rows = delete (in_chain chain) db.rows }

    spared : (r : Row) → in_chain chain_instance r ≡ true → in_chain chain r ≡ false
    spared r own = ground (arith, Bool-cases (in_chain chain r), not_instance chain r other, own)

    -- A row of another chain stays.
    differs_too :
        (c : String)
        → str_eq chain c ≡ false
        → (r : Row) → in_chain c r ≡ true
        → in_chain chain r ≡ false
    differs_too c differs r own = ground (
      arith,
      differs,
      ap (λ k. str_eq k chain) ((eq_iff r.columns.chain c).0 own),
      eq_iff c chain,
      eq_iff chain c,
    )

    pub select-replace_chain :
        (c : String)
        → str_eq chain_instance c ≡ false
        → select (in_chain c) (replace_chain digest isprintable chain moment end db).1.rows
          ≡ (if str_eq chain c then [] else select (in_chain c) db.rows)
    unfolding replace_chain
    select-replace_chain c others =
        select-append_row-other digest isprintable
          (marker moment (count (in_chain chain) db.rows) chain end.hash) dropped c others
        ∙ elim (Bool-cases (str_eq chain c)) [
          | inl same ↦ rw same (
              select-delete-all (in_chain c) (in_chain chain) db.rows
                (λ r own. subst (λ k. in_chain k r ≡ true) (sym ((eq_iff chain c).0 same)) own))
          | inr differs ↦ rw differs (
              select-delete-none (in_chain c) (in_chain chain) db.rows
                (λ r own. differs_too c differs r own))
        ]

    -- The youngest marker of the chain that went names its end.
    pub marked-replace_chain :
        (c : String)
        → marked c (replace_chain digest isprintable chain moment end db).1.rows
          ≡ (if str_eq chain c then some end.hash else marked c db.rows)
    unfolding replace_chain new_row row_values
    marked-replace_chain c =
        marked-append_row digest isprintable
          (marker moment (count (in_chain chain) db.rows) chain end.hash) dropped c
        ∙ ground (arith, marked-delete digest c (in_chain chain) db.rows spared)

    HasStart-replace_chain :
        (c : String)
        → str_eq chain_instance c ≡ false
        → HasStart digest c db.rows
        → HasStart digest c (replace_chain digest isprintable chain moment end db).1.rows
    HasStart-replace_chain c others (start, linked, starts) = elim (Bool-cases (str_eq chain c)) [
      | inl same ↦ (genesis, rw (select-replace_chain c others, same) tt, inl refl)
      | inr differs ↦ (
        start,
        rw (select-replace_chain c others, differs) linked,
        rw (marked-replace_chain c, differs) starts,
      )
    ]

    IsWhole-replace_chain :
        IsWhole digest db → IsWhole digest (replace_chain digest isprintable chain moment end db).1
    unfolding replace_chain
    IsWhole-replace_chain (filed, whole) = (
      IsFiled-append_row digest isprintable
          (marker moment (count (in_chain chain) db.rows) chain end.hash) dropped
          (IsFiled-delete digest (in_chain chain) db spared filed),
      λ c others. HasStart-replace_chain c others (whole c others),
    )

  pub IsWhole-drop_user_chain :
      (nc_user : String) (moment : ℕ) (db : AuditDb)
      → IsWhole digest db
      → IsWhole digest (drop_user_chain digest isprintable nc_user moment db).1
  unfolding drop_user_chain
  IsWhole-drop_user_chain nc_user moment db whole =
      elim (Option-cases (fetch_last (in_chain (user_chain nc_user)) db.rows)) [
        | inl missing ↦ rw (drop_user_chain, missing) whole
        | inr (end, found) ↦
            rw (drop_user_chain, found)
              (IsWhole-replace_chain moment (user_chain nc_user) end db (user_chain_other nc_user)
                whole)
      ]
