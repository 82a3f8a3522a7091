-- ===== src/OAuth/Store/Access.antt =====
-- oauth/store.py, the access switch of one account.
use nextcloud_mcp_connector.Base.{
  ℕ, String, Bool, false, Option, none, some, ◌∷◌, [], ◌++◌, str_eq, any, delete, if◌then◌else◌,
}
use nextcloud_mcp_connector.Base.Text.{is_blank}
use nextcloud_mcp_connector.OAuth.Rows.{Db}

abbrev pub has_switch : Db → String → Bool
has_switch db nc_user = any (λ u. str_eq u.nc_user nc_user) db.user_access

-- INSERT … ON CONFLICT(nc_user) DO NOTHING
abbrev pub pause : String → ℕ → Db → Db
pause nc_user moment db = if has_switch db nc_user then db else record db {
  user_access = db.user_access ++ record { nc_user = nc_user; disabled_at = moment } ∷ [];
}

unfoldable pub set_access : (nc_user : String) (disabled : Bool) (moment : ℕ) → Db → Option Db
unfolding is_blank
set_access nc_user disabled moment db =
    if is_blank nc_user
    then none
    else if disabled
    then some (pause nc_user moment db)
    else some (record db { user_access = delete (λ u. str_eq u.nc_user nc_user) db.user_access })

unfoldable pub access_disabled : String → Db → Bool
unfolding is_blank
access_disabled nc_user db = if is_blank nc_user then false else has_switch db nc_user
