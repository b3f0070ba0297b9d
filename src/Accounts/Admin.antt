-- ===== src/Accounts/Admin.antt =====
-- src/api/routes/users.py: the management of the users, for a principal with `manage_users`; and
-- `bootstrap_admin` of src/auth/store.py.
pub mod LastAdmin
use criptotrade.Base.{
  ℕ, leb, String, ◌==◌, Bool, true, false, not, ◌&&◌, ◌||◌, Option, none, some, is_some, List, [],
  ◌∷◌, if◌then◌else◌, ltb, length,
}
use Prim.Native.String.{◌++◌}
use mathlib.Core.List
use criptotrade.Base.Rows.{first}
use criptotrade.Base.Text.{strip}
use criptotrade.Ledger.{log_auth_event}
use criptotrade.Ledger.Payload.{Json, bool, int, str, obj, to_fields, opt_str, null}
use criptotrade.Access.{roles}
use criptotrade.Access.Sets.{member}
use criptotrade.Accounts.{Tables, User, Invite, Crypto}
use criptotrade.Accounts.Users
use criptotrade.Accounts.Users.{
  plain_email, get, get_by_email, count_active_admins, set_role, set_status,
}
use criptotrade.Accounts.Invites
use criptotrade.Accounts.Invites.{get_invite, create_invite, list_invites, refresh_invite}
use criptotrade.Accounts.Sessions.{revoke_all_for_user}
use criptotrade.Accounts.Http.{Site, Reply, untouched, failed, server_error, answered}

-- `user["role"] == "admin" and user["status"] == "active"`
abbrev pub is_active_admin : User → Bool
is_active_admin u = u.role == "admin" && u.status == "active"

-- `_guard_last_admin` raises.
unfoldable pub is_last_admin : User → Tables → Bool
is_last_admin u t = is_active_admin u && leb (count_active_admins t) 1

abbrev email_of_invite : Option Invite → String
email_of_invite none = ""
email_of_invite (some i) = i.email

module _ {F : Type 0} where
  -- `_audit`
  abbrev pub audit : String → String → String → Site F → Site F
  audit event actor detail s = record s {
    ledger = log_auth_event event actor none none none true (some detail) s.ledger;
  }

  abbrev opt_int : Option ℕ → Json F
  opt_int none = null
  opt_int (some n) = int n

  -- `UserOut` of a row
  unfoldable pub user_out : User → Json F
  user_out u = obj (
      to_fields (
        ("id", str u.id)
        ∷ ("email", str u.email)
        ∷ ("name", opt_str u.name)
        ∷ ("role", str u.role)
        ∷ ("status", str u.status)
        ∷ ("totp_enabled", bool u.totp_enabled)
        ∷ ("created_at", int u.created_at)
        ∷ ("last_login_at", opt_int u.last_login_at)
        ∷ ("invite_id", null)
        ∷ []))

  abbrev pub unknown_user : Reply F
  unknown_user = failed 404 "not_found" "Usuário não encontrado."

  abbrev pub last_admin : Reply F
  last_admin = failed 409 "last_admin" "Este é o último Admin ativo — transfira a função antes."

  abbrev pub invalid_role : Reply F
  invalid_role = failed 422 "invalid_role" "Papel inválido."

  -- The row after the change.
  abbrev pub show_user : Option User → Reply F
  show_user none = server_error
  show_user (some u) = answered (("data", user_out u) ∷ []) untouched

  unfoldable pub role_found : String → String → String → Option User → Site F → Reply F × Site F
  role_found actor user_id role none s = (unknown_user, s)
  role_found actor user_id role (some u) s =
      if not (role == "admin") && is_last_admin u s.tables
      then (last_admin, s)
      else let t = set_role user_id role s.tables in
        (
          show_user (get user_id t),
          audit "user_role_changed" actor (u.email ++ (": " ++ (u.role ++ ("→" ++ role))))
              (record s { tables = t }),
        )

  -- `patch_role`
  unfoldable pub patch_role : String → String → String → Site F → Reply F × Site F
  patch_role actor user_id role s =
      if member role roles
      then role_found actor user_id role (get user_id s.tables) s
      else (invalid_role, s)

  unfoldable pub status_found :
      ℕ → String → String → String → Option User → Site F → Reply F × Site F
  status_found now actor user_id status none s = (unknown_user, s)
  status_found now actor user_id status (some u) s =
      if status == "suspended" && is_last_admin u s.tables
      then (last_admin, s)
      else let t =
          set_status user_id status (
            if status == "suspended" then revoke_all_for_user now user_id s.tables else s.tables) in
        (
          show_user (get user_id t),
          audit "user_status_changed" actor (u.email ++ (": " ++ status)) (record s { tables = t }),
        )

  -- `patch_status`
  unfoldable pub patch_status : ℕ → String → String → String → Site F → Reply F × Site F
  patch_status now actor user_id status s =
      if status == "active" || status == "suspended"
      then status_found now actor user_id status (get user_id s.tables) s
      else (failed 422 "invalid_status" "Status deve ser active ou suspended.", s)

  unfoldable pub delete_found : String → String → Option User → Site F → Reply F × Site F
  delete_found actor user_id none s = (unknown_user, s)
  delete_found actor user_id (some u) s = if is_last_admin u s.tables then (last_admin, s) else (
    answered (("deleted", bool true) ∷ []) untouched,
    audit "user_deleted" actor u.email (record s { tables = Users.delete user_id s.tables }),
  )

  -- `delete_user`
  unfoldable pub delete_user : String → String → Site F → Reply F × Site F
  delete_user actor user_id s = delete_found actor user_id (get user_id s.tables) s

  unfoldable pub revoke_found : ℕ → String → String → Option Invite → Site F → Reply F × Site F
  revoke_found now actor invite_id none s = (failed 404 "not_found" "Convite não encontrado.", s)
  revoke_found now actor invite_id (some i) s = (
    answered (("revoked", bool true) ∷ []) untouched,
    audit "user_invite_revoked" actor i.email
        (record s { tables = Invites.revoke_invite now invite_id s.tables }),
  )

  -- `revoke_invite`
  unfoldable pub revoke_invite_route : ℕ → String → String → Site F → Reply F × Site F
  revoke_invite_route now actor invite_id s =
      revoke_found now actor invite_id (get_invite invite_id s.tables) s

  abbrev with_mail : String → String → Site F → Site F
  with_mail email link s = record s { mails = List.◌++◌ s.mails ((email, link) ∷ []) }

  -- The answer of the route: the first pending invite of the address, in the order of creation.
  unfoldable pub invite_reply : String → String → Option Invite → Reply F
  invite_reply email role none = server_error
  invite_reply email role (some i) = record {
    status = 201;
    body =
        ("id", str i.id)
        ∷ ("email", str email)
        ∷ ("role", str role)
        ∷ ("expires_at", int i.expires_at)
        ∷ [];
    cookies = untouched;
  }

module _ {F : Type 0} ⦃c : Crypto⦄ where
  unfoldable pub invited :
      String → ℕ → String → String → String → String → Option Tables → Site F → Reply F × Site F
  invited base_url now token email role actor none s = (server_error, s)
  invited base_url now token email role actor (some t) s = (
    invite_reply email role (first (λ i. i.email == email) (list_invites now true t)),
    audit "user_invited" actor (email ++ (" as " ++ role))
        (with_mail email (base_url ++ ("/#invite/" ++ token)) (record s { tables = t })),
  )

  -- `invite_user`, with the row's id and the token drawn
  unfoldable pub invite_user :
      String → String → ℕ → String → String → String → String → Site F → Reply F × Site F
  invite_user base_url id now token email role actor s =
      if not (member role roles)
      then (invalid_role, s)
      else if is_some (get_by_email (plain_email email) s.tables)
      then (failed 409 "already_exists" "Este e-mail já tem conta.", s)
      else invited base_url now token (plain_email email) role actor
          (create_invite id now token (plain_email email) role actor 7 s.tables) s

  unfoldable pub resent :
      String → String → String → Option (Option String × Tables) → Site F → Reply F × Site F
  resent base_url actor invite_id none s = (server_error, s)
  resent base_url actor invite_id (some (none, t)) s =
      (failed 404 "not_found" "Convite não encontrado ou já usado.", s)
  resent base_url actor invite_id (some (some token, t)) s =
      let email = email_of_invite (get_invite invite_id t) in
      (
        answered (("resent", bool true) ∷ []) untouched,
        audit "user_invite_resent" actor email
            (with_mail email (base_url ++ ("/#invite/" ++ token)) (record s { tables = t })),
      )

  -- `resend_invite`, with the token drawn
  unfoldable pub resend_invite : String → ℕ → String → String → String → Site F → Reply F × Site F
  resend_invite base_url now token actor invite_id s =
      resent base_url actor invite_id (refresh_invite now token invite_id 7 s.tables) s

abbrev seeded : Tables → Option (User × Tables) → Option User × Tables
seeded t none = (none, t)
seeded t (some (u, t')) = (some u, t')

module _ ⦃c : Crypto⦄ where
  -- `bootstrap_admin`, with `ADMIN_EMAIL` and `ADMIN_PASSWORD`
  unfoldable pub bootstrap_admin :
      String → ℕ → String → String → String → Tables → Option User × Tables
  bootstrap_admin id now salt email password t =
      if strip email == "" || password == ""
      then (none, t)
      else if ltb 0 (Users.count t)
      then (none, t)
      else seeded t
          (Users.create id now salt (strip email) (some password) (some "Admin") "admin" "active" t)
