-- ===== src/Accounts/Tests.antt =====
-- The account stores and the login routes at concrete accounts.
pub mod Requests
use criptotrade.Base.{
  ◌≢◌, arith, ◌+◌, ◌*◌, ◌≤◌, ◌≡◌, refl, ◌⊎◌, inl, inr, String, ◌==◌, true, false, none, some, [],
  ◌∷◌, All,
}
use criptotrade.Base.Int.{ℤ, pos, ◌+ℤ◌, ◌-ℤ◌}
use criptotrade.Base.Float.{fixed}
use criptotrade.Base.Text.{strip, lower, without, clip}
use criptotrade.Base.Dict.{lookup, insert, remove}
use criptotrade.Base.Rows.{first, modify, differ}
use criptotrade.Access.RateLimit.{allow}
use criptotrade.Accounts.{Tables, User, Session, Reset, Crypto, hour, minute}
use criptotrade.Accounts.Security.{verify_password, consume_backup_code}
use criptotrade.Accounts.Users.{get, get_by_email, consume_reset, plain_email}
use criptotrade.Accounts.Users
use criptotrade.Accounts.Http
use criptotrade.Accounts.Login
use criptotrade.Accounts.Security
use criptotrade.Accounts.Sessions
use criptotrade.Accounts.Sessions.{
  default_env, Drawn, Agent, ttls, is_live, rotate, rotated, refused, reuse, resolve, revoke,
  revoke_where, revoke_by_token, admits, with_refresh,
}
use criptotrade.Accounts.Lifecycle.{touch_login, run, step}
use criptotrade.Accounts.Kept.{HasDistinct}
use criptotrade.Accounts.Reuse.{IsOver, refresh_reuse}
use criptotrade.Accounts.Lifetime.{resolve_in_time}
use criptotrade.Accounts.Single.{consume_once}
use criptotrade.Accounts.Http.{Site, Request, LoginIn, TwoFactorVerifyIn, Challenge}
use criptotrade.Accounts.Login.{login, two_factor_verify, prune_challenges}
use criptotrade.Accounts.Factors.{two_factor_verify-HasCode, HasCode}
use criptotrade.Accounts.Uniform.{refused_alike, reset_ends_sessions}
use criptotrade.Accounts.Routes.{reset_password}
use criptotrade.Accounts.Users.{count_active_admins}
use criptotrade.Accounts.Admin
use criptotrade.Accounts.Admin.{delete_user}
use criptotrade.Accounts.Admin.LastAdmin.{
  HasAdmin, manage_all-HasAdmin, manage_all, deletes, changes_role, changes_status,
}
use criptotrade.Access.{mode_required}
use criptotrade.Accounts.Principals
use criptotrade.Accounts.Principals.{Credentials, resolve_principal, of_user}

-- A hasher for tests: a hash is the text itself.
instance abbrev pub plain_crypto : Crypto
plain_crypto = record {
  hash = λ salt p. p;
  verifies = λ h p. h == p;
  dummy_hash = "dummy";
  hash_token = λ t. t;
  decrypt = λ s. some s;
  totp_verifies = λ secret totp_code. secret == totp_code;
}

abbrev pub ana : User
ana = record {
  id = "u1";
  email = "ana@x.org";
  name = some "Ana";
  password_hash = some "s3cret";
  role = "operador";
  status = "active";
  totp_secret_enc = some "123456";
  totp_enabled = true;
  backup_codes = some ("aaaa1111" ∷ "bbbb2222" ∷ []);
  created_at = 0;
  last_login_at = none;
  job_title = none;
  avatar_color = none;
  prefs = none;
}

abbrev pub opened_session : Session
opened_session = record {
  id = "s0";
  user_id = "u1";
  token_hash = "t0";
  refresh_hash = "r0";
  family_id = "f0";
  remember = true;
  ip = none;
  user_agent = none;
  created_at = 0;
  last_seen_at = 0;
  idle_expires_at = 30 * minute;
  absolute_expires_at = 12 * hour;
  revoked_at = none;
}

abbrev asked_reset : Reset
asked_reset = record {
  id = "p0";
  user_id = "u1";
  token_hash = "k0";
  expires_at = 30 * minute;
  used_at = none;
}

abbrev pub tables : Tables
tables = record {
  users = ana ∷ [];
  sessions = opened_session ∷ [];
  invites = [];
  resets = asked_reset ∷ [];
}

abbrev pub second : Drawn
second = record { id = "s1"; family = "f1"; token = "t1"; refresh = "r1" }

abbrev pub third : Drawn
third = record { id = "s2"; family = "f2"; token = "t2"; refresh = "r2" }

abbrev nobody : Agent
nobody = record { ip = none; user_agent = none }

pub tables-HasDistinct : HasDistinct default_env tables.sessions
tables-HasDistinct = record { tokens = (tt, tt); refreshes = (tt, tt) }

exchanged_once : (rotate default_env second minute nobody "r0" tables).0 ≡ rotated second "u1"
unfolding rotate revoke revoke_where admits Sessions.create get first modify
exchanged_once = refl

found_r0 : with_refresh "r0" tables ≡ some opened_session
unfolding first
found_r0 = refl

refresh_reuse_example :
    let t' =
      run default_env
        (touch_login 5 "u1" ∷ [])
        (rotate default_env second minute nobody "r0" tables).1 in
    (All (λ s. s.refresh_hash ≢ "r0") t'.sessions
      × (rotate default_env third hour nobody "r0" t' ≡ (refused, t')))
    ⊎ (((rotate default_env third hour nobody "r0" t').0 ≡ reuse "f0")
        × All
            (IsOver "f0")
            (run default_env
              (touch_login 6 "u1" ∷ [])
              (rotate default_env third hour nobody "r0" t').1).sessions)
refresh_reuse_example =
    refresh_reuse default_env second third minute hour nobody nobody "r0" tables opened_session
      (touch_login 5 "u1" ∷ []) (touch_login 6 "u1" ∷ []) tables-HasDistinct found_r0 exchanged_once
      (differ "r1" "r0" refl) (tt, tt) (tt, tt)

-- The session answers while it is fresh.
answers_fresh :
    (resolve default_env minute "t0" (run default_env (touch_login 5 "u1" ∷ []) tables)).0
    ≡ some opened_session
unfolding resolve run step Users.touch_login first
answers_fresh = refl

resolve_in_time_example :
    (opened_session.token_hash ≡ "t0")
    × (is_live opened_session ≡ true)
    × (minute ≤ 30 * minute)
    × (minute ≤ 0 + 12 * hour)
resolve_in_time_example =
    resolve_in_time default_env (touch_login 5 "u1" ∷ []) minute "t0" tables opened_session
      (refl, tt) answers_fresh

pub spent_once : (consume_reset minute "k0" tables).0 ≡ some "u1"
unfolding consume_reset first
spent_once = refl

consume_once_example :
    (consume_reset hour "k0"
      (run default_env (touch_login 5 "u1" ∷ []) (consume_reset minute "k0" tables).1)).0
    ≡ none
consume_once_example =
    consume_once default_env minute hour "k0" "u1" (touch_login 5 "u1" ∷ []) tables (tt, tt)
      spent_once (tt, tt)
