-- ===== src/Accounts/Tests/Requests.antt =====
-- The theorems on the routes of the accounts, at concrete requests.
use criptotrade.Base.{arith, ◌≤◌, ◌≡◌, refl, ◌⊎◌, inl, inr, String, false, none, some, [], ◌∷◌}
use criptotrade.Base.Int.{ℤ, pos, ◌+ℤ◌, ◌-ℤ◌}
use criptotrade.Base.Float.{fixed}
use criptotrade.Base.Text.{strip, lower, without, clip}
use criptotrade.Base.Dict.Keys.{IsDict}
use criptotrade.Base.Dict.{lookup, insert, remove}
use criptotrade.Base.Rows.{first, differ}
use criptotrade.Access.RateLimit.{allow}
use criptotrade.Accounts.{User, hour, minute}
use criptotrade.Accounts.Security.{verify_password, consume_backup_code}
use criptotrade.Accounts.Users.{get, get_by_email, consume_reset, plain_email}
use criptotrade.Accounts.Users
use criptotrade.Accounts.Http
use criptotrade.Accounts.Login
use criptotrade.Accounts.Security
use criptotrade.Accounts.Sessions
use criptotrade.Accounts.Sessions.{
  default_env, Drawn, Agent, ttls, is_live, rotate, rotated, refused, reuse, resolve, revoke,
  revoke_where, revoke_by_token, admits, with_refresh,
}
use criptotrade.Accounts.Lifecycle.{touch_login, run}
use criptotrade.Accounts.Http.{Site, Request, LoginIn, TwoFactorVerifyIn, Challenge}
use criptotrade.Accounts.Login.{login, two_factor_verify, prune_challenges}
use criptotrade.Accounts.Factors.{two_factor_verify-HasCode, HasCode, IsUsed}
use criptotrade.Accounts.Uniform.{refused_alike, reset_ends_sessions}
use criptotrade.Accounts.Routes.{reset_password}
use criptotrade.Accounts.Users.{count_active_admins}
use criptotrade.Accounts.Admin
use criptotrade.Accounts.Admin.{delete_user}
use criptotrade.Accounts.Admin.LastAdmin.{
  HasAdmin, manage_all-HasAdmin, manage_all, deletes, changes_role, changes_status,
}
use criptotrade.Access.{mode_required}
use criptotrade.Accounts.Principals
use criptotrade.Accounts.Principals.Origin.{Earned, resolve_principal-Earned}
use criptotrade.Accounts.Principals.{Credentials, resolve_principal, of_user}
use criptotrade.Accounts.Tests.{
  plain_crypto, ana, opened_session, tables, second, third, tables-HasDistinct, spent_once,
}

abbrev request : Request ℤ
request = record {
  forwarded_for = "";
  host = some "10.0.0.1";
  agent_header = "curl";
  session_cookie = "";
  refresh_cookie = "";
  now = minute;
  monotonic = pos 5000000;
}

abbrev site : Site ℤ
site = record { tables = tables; challenges = []; buckets = []; ledger = []; mails = [] }

reset_ends_sessions_example :
    (resolve default_env hour "t0" (
      run default_env
        (touch_login 5 "u1" ∷ [])
        (reset_password request "salt" "k0" "n3w" site).1.tables)).0
    ≡ none
reset_ends_sessions_example =
    reset_ends_sessions default_env request "salt" "k0" "n3w" "u1" "t0" site opened_session
      (touch_login 5 "u1" ∷ []) hour tables-HasDistinct spent_once (unfold first in refl) refl
      (tt, tt)

abbrev typed : String → LoginIn
typed password = record { email = " ANA@x.org"; password = password; remember = false }

ana_found : get_by_email (plain_email " ANA@x.org") tables ≡ some ana
unfolding get_by_email first strip lower
ana_found = refl

wrong_password : verify_password ana.password_hash "guess" ≡ false
unfolding verify_password
wrong_password = refl

no_users : get_by_email (plain_email " ANA@x.org") (record tables { users = [] }) ≡ none
unfolding get_by_email first
no_users = refl

refused_alike_example :
    let (reply, after) = login default_env request (typed "guess") second "c0" site in
    (login default_env request
        (typed "guess")
        third
        "c1"
        (record site { tables = record tables { users = [] } })
      ≡ (reply, record after { tables = record tables { users = [] } }))
    × (after.tables ≡ tables)
refused_alike_example =
    refused_alike default_env request (typed "guess") second third "c0" "c1" site
      (record tables { users = [] }) (inr (ana, ana_found, inr wrong_password)) (inl no_users)

abbrev typed_code : String → TwoFactorVerifyIn
typed_code code = record { challenge = "c0"; totp_code = code; remember = false }

-- A login with the password gives a challenge, and the code then opens a session.
two_steps :
    let s = (login default_env request (typed "s3cret") second "c0" site).1 in
    (two_factor_verify default_env request (typed_code "12 34 56") second s).0.status ≡ 200
unfolding two_factor_verify login Login.verify_entry lookup prune_challenges Login.login_allowed
    allow insert Http.client_ip lower strip Login.login_as Users.verify_login get_by_email first
    verify_password Login.challenge_user ◌+ℤ◌ Login.verify_user Login.issue_session Http.user_agent
    Security.verify_totp admits Sessions.create get Users.touch_login remove clip without ◌-ℤ◌
two_steps = refl

-- The site with a challenge that is pending.
abbrev challenged : Site ℤ
challenged = (login default_env request (typed "s3cret") second "c0" site).1

challenged-IsDict : IsDict challenged.challenges
unfolding login Login.login_allowed allow insert Http.client_ip lower strip Login.login_as
    Users.verify_login get_by_email first verify_password Login.challenge_user prune_challenges ◌+ℤ◌
    lookup clip without ◌-ℤ◌ Http.user_agent
challenged-IsDict = (refl, tt)

two_factor_verify-HasCode_example :
    let after = (two_factor_verify default_env request (typed_code "123456") second challenged).1 in
    (after.tables.sessions ≡ challenged.tables.sessions)
    ⊎ (HasCode default_env request (typed_code "123456") challenged
        × IsUsed default_env (typed_code "123456") after)
two_factor_verify-HasCode_example =
    two_factor_verify-HasCode default_env request (typed_code "123456") second challenged
      challenged-IsDict

abbrev boss : User
boss = record ana { id = "u0"; email = "boss@x.org"; role = "admin" }

abbrev office : Site ℤ
office = record site { tables = record tables { users = boss ∷ ana ∷ [] } }

one_admin : 1 ≤ count_active_admins office.tables
unfolding count_active_admins
one_admin = omega arith

-- The last admin stays, whoever asks.
refused_deletion : (delete_user "boss@x.org" "u0" office).0.status ≡ 409
unfolding delete_user Admin.delete_found Admin.is_last_admin count_active_admins get first
refused_deletion = refl

manage_all-HasAdmin_example :
    HasAdmin
      (manage_all
        (deletes "boss@x.org" "u0"
          ∷ changes_role "boss@x.org" "u1" "admin"
          ∷ changes_status 5 "boss@x.org" "u0" "suspended"
          ∷ [])
        office).tables
manage_all-HasAdmin_example =
    manage_all-HasAdmin
      (deletes "boss@x.org" "u0"
        ∷ changes_role "boss@x.org" "u1" "admin"
        ∷ changes_status 5 "boss@x.org" "u0" "suspended"
        ∷ [])
      office (record { distinct = ((differ "u1" "u0" refl, tt), (tt, tt)); left = one_admin })

abbrev cookie_only : Credentials
cookie_only = record {
  mode = mode_required;
  valid_api_keys = [];
  provided = "";
  session_cookie = "t0";
  now = minute;
}

resolves_ana :
    (resolve_principal default_env cookie_only (record { tables = tables; keys = [] })).0
    ≡ of_user ana
unfolding resolve_principal Principals.by_cookie resolve get first
resolves_ana = refl

resolve_principal-Earned_example :
    Earned default_env cookie_only
      (record { tables = tables; keys = [] })
      (resolve_principal default_env cookie_only (record { tables = tables; keys = [] })).0
resolve_principal-Earned_example =
    resolve_principal-Earned default_env cookie_only (record { tables = tables; keys = [] })
