-- ===== src/Accounts/Users.antt =====
-- `UserStore` of src/auth/store.py: lookups, creation, credentials, the second factor and resets. An
-- operation reads the clock once; ids, tokens and salts are arguments.
use criptotrade.Base.{
  ℕ, ◌+◌, ◌*◌, ltb, String, ◌==◌, Bool, false, not, ◌&&◌, ◌||◌, Option, none, some, is_some, List,
  [], ◌∷◌, ◌++◌, if◌then◌else◌, keep, length,
}
use criptotrade.Base.Text.{strip, lower}
use criptotrade.Base.Rows.{first, modify}
use criptotrade.Accounts.{Tables, User, Reset, Crypto, minute}
use criptotrade.Accounts.Security.{verify_password}

-- `email.strip().lower()`
abbrev pub plain_email : String → String
plain_email email = lower (strip email)

abbrev pub user_with_email : String → Tables → Option User
user_with_email email t = first (λ u. u.email == email) t.users

-- `get_by_email`
unfoldable pub get_by_email : String → Tables → Option User
get_by_email email t = user_with_email (plain_email email) t

-- `get`
unfoldable pub get : String → Tables → Option User
get user_id t = first (λ u. u.id == user_id) t.users

-- `count`
abbrev pub count : Tables → ℕ
count t = length t.users

-- `UPDATE users SET f WHERE id = ?`
unfoldable pub update_user : String → (User → User) → Tables → Tables
update_user user_id f t = record t { users = modify (λ u. u.id == user_id) f t.users }

-- `UNIQUE` on the id and the email.
abbrev pub admits : User → List User → Bool
admits u users =
    not (is_some (first (λ v. v.id == u.id) users))
    && not (is_some (first (λ v. v.email == u.email) users))

-- `create`; `none` is the IntegrityError of the insertion.
unfoldable pub create_row : User → Tables → Option (User × Tables)
create_row u t = if admits u t.users then some (u, record t { users = t.users ++ u ∷ [] }) else none

abbrev pub new_user : String → ℕ → String → Option String → Option String → String → String → User
new_user id now email password_hash name role status = record {
  id = id;
  email = plain_email email;
  name = name;
  password_hash = password_hash;
  role = role;
  status = status;
  totp_secret_enc = none;
  totp_enabled = false;
  backup_codes = none;
  created_at = now;
  last_login_at = none;
  job_title = none;
  avatar_color = none;
  prefs = none;
}

module _ ⦃c : Crypto⦄ where
  -- `security.hash_password(password) if password else None`
  unfoldable pub hash_password : String → Option String → Option String
  hash_password salt none = none
  hash_password salt (some p) = if p == "" then none else some (c.hash salt p)

  -- `create`
  unfoldable pub create :
      String
      → ℕ
      → String
      → String
      → Option String
      → Option String
      → String
      → String
      → Tables
      → Option (User × Tables)
  unfolding create_row hash_password
  create id now salt email password name role status t =
      create_row (new_user id now email (hash_password salt password) name role status) t

  abbrev pub active_user : User → String → Option User
  active_user u password =
      if not (verify_password u.password_hash password) || not (u.status == "active")
      then none
      else some u

  abbrev pub verified : Option User → String → Option User
  verified none password = none
  verified (some u) password = active_user u password

  -- `verify_login`
  unfoldable pub verify_login : String → String → Tables → Option User
  verify_login email password t = verified (get_by_email email t) password

  -- `set_password`
  unfoldable pub set_password : String → String → String → Tables → Tables
  unfolding update_user
  set_password salt user_id password =
      update_user user_id (λ u. record u { password_hash = some (c.hash salt password) })

  -- `create_reset`, with the row's id; `none` is the IntegrityError of the insertion.
  unfoldable pub create_reset : String → ℕ → String → String → ℕ → Tables → Option Tables
  create_reset id now user_id token ttl_minutes t =
      let r : Reset = record {
        id = id;
        user_id = user_id;
        token_hash = c.hash_token token;
        expires_at = now + ttl_minutes * minute;
        used_at = none;
      } in
      if is_some (get user_id t)
        && (not (is_some (first (λ s. s.id == id) t.resets))
            && not (is_some (first (λ s. s.token_hash == r.token_hash) t.resets)))
      then some (record t { resets = t.resets ++ r ∷ [] })
      else none

  abbrev spend : ℕ → Reset → Tables → Option String × Tables
  spend now r t =
      if is_some r.used_at then (none, t) else if ltb r.expires_at now then (none, t) else (
        some r.user_id,
        record t {
          resets = modify (λ s. s.id == r.id) (λ s. record s { used_at = some now }) t.resets;
        },
      )

  abbrev pub spend_found : ℕ → Option Reset → Tables → Option String × Tables
  spend_found now none t = (none, t)
  spend_found now (some r) t = spend now r t

  -- `consume_reset`
  unfoldable pub consume_reset : ℕ → String → Tables → Option String × Tables
  consume_reset now token t =
      spend_found now (first (λ r. r.token_hash == c.hash_token token) t.resets) t

-- `touch_login`
unfoldable pub touch_login : ℕ → String → Tables → Tables
unfolding update_user
touch_login now user_id = update_user user_id (λ u. record u { last_login_at = some now })

-- The keys that `update_profile` was given; other keys are ignored.
pub record ProfileFields : Type 0 where
  pub name : Option (Option String)
  pub job_title : Option (Option String)
  pub avatar_color : Option (Option String)

abbrev given : Option (Option String) → Option String → Option String
given none old = old
given (some v) old = v

-- `update_profile`
unfoldable pub update_profile : String → ProfileFields → Tables → Tables
unfolding update_user
update_profile user_id p = update_user user_id (λ u. record u {
  name = given p.name u.name;
  job_title = given p.job_title u.job_title;
  avatar_color = given p.avatar_color u.avatar_color;
})

-- `set_prefs`, with the JSON text
unfoldable pub set_prefs : String → String → Tables → Tables
unfolding update_user
set_prefs user_id text = update_user user_id (λ u. record u { prefs = some text })

-- `set_totp`
unfoldable pub set_totp : String → Option String → Bool → Option (List String) → Tables → Tables
unfolding update_user
set_totp user_id secret_enc enabled backup_hashes = update_user user_id (λ u. record u {
  totp_secret_enc = secret_enc;
  totp_enabled = enabled;
  backup_codes = backup_hashes;
})

-- `update_backup_codes`
unfoldable pub update_backup_codes : String → List String → Tables → Tables
unfolding update_user
update_backup_codes user_id hashes =
    update_user user_id (λ u. record u { backup_codes = some hashes })

-- `set_role`
unfoldable pub set_role : String → String → Tables → Tables
unfolding update_user
set_role user_id role = update_user user_id (λ u. record u { role = role })

-- `set_status`
unfoldable pub set_status : String → String → Tables → Tables
unfolding update_user
set_status user_id status = update_user user_id (λ u. record u { status = status })

-- `delete`
unfoldable pub delete : String → Tables → Tables
delete user_id t = record t {
  sessions = keep (λ s. not (s.user_id == user_id)) t.sessions;
  resets = keep (λ r. not (r.user_id == user_id)) t.resets;
  users = keep (λ u. not (u.id == user_id)) t.users;
}

-- `count_active_admins`
unfoldable pub count_active_admins : Tables → ℕ
count_active_admins t = length (keep (λ u. u.role == "admin" && u.status == "active") t.users)
