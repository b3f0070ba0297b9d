-- ===== src/Accounts/Routes.antt =====
-- src/api/routes/auth.py: refresh, logout, recovery, invites, and the management of the second factor.
use criptotrade.Base.{
  String, ◌==◌, true, false, not, Option, none, some, List, [], ◌∷◌, if◌then◌else◌, map,
}
use Prim.Native.String.{◌++◌}
use mathlib.Core.List
use criptotrade.Base.Text.{truthy}
use criptotrade.Ledger.Payload.{bool, str, arr, texts}
use criptotrade.Access.{Principal}
use criptotrade.Accounts.{Tables, User, Crypto}
use criptotrade.Accounts.Security.{verify_password, generate_backup_codes}
use criptotrade.Accounts.Users.{
  plain_email, get, get_by_email, create_reset, consume_reset, set_password, set_totp,
  update_backup_codes,
}
use criptotrade.Accounts.Invites.{Joined, joined, turned_down, clash, accept_invite}
use criptotrade.Accounts.Sessions.{
  SessionEnv, Drawn, Rotation, refused, reuse, rotated, integrity_error, rotate, revoke_by_token,
  revoke_all_for_user,
}
use criptotrade.Accounts.Http.{
  Site, Request, Reply, untouched, set_cookies, cleared, failed, generic_login_error, server_error,
  answered, agent_of, log_event, user_body, or_empty, totp_ok,
}

abbrev email_or_id : String → Option User → String
email_or_id user_id none = user_id
email_or_id user_id (some u) = u.email

abbrev email_of : Option User → Option String
email_of none = none
email_of (some u) = some u.email

abbrev pub drawn_codes : List (String × String) → List String
drawn_codes drawn = map (λ d. d.1) drawn

module _ {F : Type 0} where
  abbrev message : String → Reply F
  message text = answered (("message", str text) ∷ []) untouched

  -- `clear_session_cookies`, and the error.
  abbrev clear_and_refuse : Reply F
  clear_and_refuse = record (generic_login_error) { cookies = cleared }

  abbrev pub refreshed : Drawn → Option User → Site F → Reply F × Site F
  refreshed d none s = (clear_and_refuse, s)
  refreshed d (some u) s =
      if not (u.status == "active")
      then (clear_and_refuse, s)
      else (answered (user_body u) (set_cookies d false), s)

  -- The answers to what `rotate` did.
  unfoldable pub refresh_answer : Request F → Rotation → Site F → Reply F × Site F
  refresh_answer r refused s = (clear_and_refuse, s)
  refresh_answer r (reuse family) s = (
    clear_and_refuse,
    log_event "session_refresh_reuse" "unknown" none r false (some ("family=" ++ family)) s,
  )
  refresh_answer r (rotated d user_id) s = refreshed d (get user_id s.tables) s
  refresh_answer r integrity_error s = (server_error, s)

  abbrev pub exchanged : Request F → Rotation × Tables → Site F → Reply F × Site F
  exchanged r (answer, t) s = refresh_answer r answer (record s { tables = t })

module _ {F : Type 0} ⦃c : Crypto⦄ where
  -- `refresh`
  unfoldable pub refresh : SessionEnv → Request F → Drawn → Site F → Reply F × Site F
  refresh env r d s =
      if truthy r.refresh_cookie
      then exchanged r (rotate env d r.now (agent_of r) r.refresh_cookie s.tables) s
      else (generic_login_error, s)

  -- `logout`
  unfoldable pub logout : Request F → Principal → Site F → Reply F × Site F
  logout r p s =
      let t =
        if truthy r.session_cookie
        then revoke_by_token r.now r.session_cookie s.tables
        else s.tables in
      (
        answered (("logged_out", bool true) ∷ []) cleared,
        log_event "logout" p.actor none r true none (record s { tables = t }),
      )

  abbrev same_message : Reply F
  same_message = message "Se o e-mail existir, enviamos instruções."

  abbrev mailed : String → String → String → Request F → Option Tables → Site F → Reply F × Site F
  mailed base_url email token r none s = (server_error, s)
  mailed base_url email token r (some t) s = (
    same_message,
    log_event "password_reset_requested" email (some email) r true none (record s {
      tables = t;
      mails = List.◌++◌ s.mails ((email, base_url ++ ("/#reset/" ++ token)) ∷ []);
    }),
  )

  abbrev pub forgot_for :
      String → String → String → String → Request F → Option User → Site F → Reply F × Site F
  forgot_for base_url id token email r none s = (same_message, s)
  forgot_for base_url id token email r (some u) s =
      if u.status == "active"
      then mailed base_url email token r (create_reset id r.now u.id token 30 s.tables) s
      else (same_message, s)

  -- `forgot_password`, with the address of the site and the row that is drawn.
  unfoldable pub forgot_password :
      String → String → String → Request F → String → Site F → Reply F × Site F
  forgot_password base_url id token r email s =
      forgot_for base_url id token (plain_email email) r (get_by_email (plain_email email) s.tables)
        s

  -- What `reset_password` does for the user of a valid token.
  unfoldable pub reset_for : Request F → String → String → Option String → Site F → Reply F × Site F
  reset_for r salt new_password none s =
      (failed 400 "invalid_token" "Link de redefinição inválido ou expirado.", s)
  reset_for r salt new_password (some user_id) s =
      let t = revoke_all_for_user r.now user_id (set_password salt user_id new_password s.tables) in
      let u = get user_id t in
      (
        message "Senha redefinida. Faça login.",
        log_event "password_reset" (email_or_id user_id u) (email_of u) r true none
            (record s { tables = t }),
      )

  -- `reset_password`
  unfoldable pub reset_password : Request F → String → String → String → Site F → Reply F × Site F
  reset_password r salt token new_password s =
      let (user_id, t) = consume_reset r.now token s.tables in
      reset_for r salt new_password user_id (record s { tables = t })

  unfoldable pub accepted : Request F → Joined → Site F → Reply F × Site F
  accepted r turned_down s =
      (failed 400 "invalid_invite" "Convite inválido, expirado ou já utilizado.", s)
  accepted r clash s = (server_error, s)
  accepted r (joined u) s = (
    answered (("accepted", bool true) ∷ ("email", str u.email) ∷ []) untouched,
    log_event "user_invite_accepted" u.email (some u.email) r true (some ("role=" ++ u.role)) s,
  )

  -- `accept_invite`
  unfoldable pub accept_route :
      Request F → String → String → String → String → String → Site F → Reply F × Site F
  accept_route r id salt token name password s =
      let (answer, t) = accept_invite id r.now salt token name password s.tables in
      accepted r answer (record s { tables = t })

  abbrev pub found_user : Option User → (User → Reply F × Site F) → Site F → Reply F × Site F
  found_user none f s = (generic_login_error, s)
  found_user (some u) f s = f u

  abbrev pub with_id : Option String → (User → Reply F × Site F) → Site F → Reply F × Site F
  with_id none f s = (generic_login_error, s)
  with_id (some user_id) f s = found_user (get user_id s.tables) f s

  -- `_require_user`, before the rest of a route.
  unfoldable pub require_user : Principal → (User → Reply F × Site F) → Site F → Reply F × Site F
  require_user p f s =
      if p.kind == "user"
      then with_id p.user_id f s
      else (failed 401 "unauthorized" "Faça login para gerenciar o 2FA.", s)

  -- `two_factor_setup`, with the secret drawn and its encryption and address; without a key the
  -- encryption raises.
  unfoldable pub two_factor_setup :
      Principal → String → Option String → String → Site F → Reply F × Site F
  two_factor_setup p secret encrypted uri s =
      require_user p
        (λ u. elim encrypted [
          | none ↦ (server_error, s)
          | some e ↦ (
            answered (("secret", str secret) ∷ ("otpauth_uri", str uri) ∷ []) untouched,
            record s { tables = set_totp u.id (some e) false none s.tables },
          )
        ])
        s

  -- `two_factor_enable`, with the codes drawn and their salts
  unfoldable pub two_factor_enable :
      Request F → Principal → String → List (String × String) → Site F → Reply F × Site F
  two_factor_enable r p totp_code drawn s =
      require_user p
        (λ u.
          if totp_ok (c.decrypt (or_empty u.totp_secret_enc)) totp_code
          then (
            answered (("backup_codes", arr (texts (drawn_codes drawn))) ∷ []) untouched,
            log_event "2fa_enabled" u.email (some u.email) r true none (record s {
              tables =
                  set_totp u.id u.totp_secret_enc true (some (generate_backup_codes drawn))
                    s.tables;
            }),
          )
          else (failed 400 "invalid_code" "Código inválido.", s))
        s

  -- `two_factor_backup_regenerate`
  unfoldable pub two_factor_backup_regenerate :
      Request F → Principal → String → List (String × String) → Site F → Reply F × Site F
  two_factor_backup_regenerate r p password drawn s =
      require_user p
        (λ u.
          if not (verify_password u.password_hash password)
          then (generic_login_error, s)
          else if not u.totp_enabled
          then (
            failed 400 "totp_not_enabled"
                "Ative a verificação em duas etapas antes de gerar códigos de backup.",
            s,
          )
          else (
            answered (("backup_codes", arr (texts (drawn_codes drawn))) ∷ []) untouched,
            log_event "2fa_backup_regenerated" u.email (some u.email) r true none (record s {
              tables = update_backup_codes u.id (generate_backup_codes drawn) s.tables;
            }),
          ))
        s

  -- `two_factor_disable`
  unfoldable pub two_factor_disable : Request F → Principal → String → Site F → Reply F × Site F
  two_factor_disable r p password s =
      require_user p
        (λ u.
          if verify_password u.password_hash password
          then (
            answered (("disabled", bool true) ∷ []) untouched,
            log_event "2fa_disabled" u.email (some u.email) r true none
                (record s { tables = set_totp u.id none false none s.tables }),
          )
          else (generic_login_error, s))
        s
