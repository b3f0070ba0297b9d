-- ===== src/Accounts/Login.antt =====
-- src/api/routes/auth.py: the login with its second factor. The limiter is the in-memory one.
use criptotrade.Base.{
  String, ◌==◌, Bool, true, false, not, ◌||◌, Option, none, some, List, [], ◌∷◌, if◌then◌else◌,
  keep, length,
}
use Prim.Native.String.{◌++◌}
use criptotrade.Base.Dict.{Dict, lookup, insert, remove}
use criptotrade.Base.Float.{Float}
use criptotrade.Access.RateLimit.{allow}
use criptotrade.Ledger.Payload.{Json, bool, int, str}
use criptotrade.Accounts.{Tables, User, Crypto}
use criptotrade.Accounts.Security.{consume_backup_code}
use criptotrade.Accounts.Users.{plain_email, get, verify_login, touch_login, update_backup_codes}
use criptotrade.Accounts.Sessions
use criptotrade.Accounts.Sessions.{SessionEnv, Drawn, Agent}
use criptotrade.Accounts.Http.{
  Challenge, Site, Request, Cookies, Reply, LoginIn, TwoFactorVerifyIn, or_empty, totp_ok,
  hashes_of, remaining_codes, failed, generic_login_error, server_error, answered, client_ip,
  agent_of, log_event, auth_user_out, user_body,
}

module _ {F : Type 0} ⦃fl : Float F⦄ where
  -- `_CHALLENGE_TTL_S` and `_LOGIN_WINDOW_S`
  abbrev pub challenge_ttl : F
  challenge_ttl = fl.lit 300 0

  abbrev pub login_window : F
  login_window = fl.lit 900 0

  -- `_prune_challenges`
  unfoldable pub prune_challenges : F → Site F → Site F
  prune_challenges now s = record s {
    challenges = keep (λ e. not (fl.lt e.1.expires now)) s.challenges;
  }

  -- The two windows of the throttle; the second is asked only if the first lets the attempt pass.
  abbrev throttled : F → String → Bool × Dict (List F) → Bool × Dict (List F)
  throttled now email (allowed, buckets) =
      if allowed
      then allow login_window now ("login:email:" ++ email) 5 buckets
      else (false, buckets)

  unfoldable pub login_allowed : F → String → String → Site F → Bool × Site F
  login_allowed now ip email s =
      let (allowed, buckets) =
        throttled now email (allow login_window now ("login:ip:" ++ ip) 10 s.buckets) in
      (allowed, record s { buckets = buckets })

module _ {F : Type 0} ⦃fl : Float F⦄ ⦃c : Crypto⦄ (env : SessionEnv) where
  abbrev signed_in :
      Request F
      → User
      → Drawn
      → Bool
      → (Site F → Site F)
      → (Site F → Dict (Json F))
      → Site F
      → Option Tables
      → Reply F × Site F
  signed_in r u d remember report body s none = (server_error, s)
  signed_in r u d remember report body s (some t) =
      let s' : Site F = report (record s { tables = touch_login r.now u.id t }) in
      (answered (body s') (Cookies.set_cookies d remember), s')

  -- `_issue_session`, then the entry in the ledger and the answer.
  unfoldable pub issue_session :
      Request F
      → User
      → Drawn
      → Bool
      → (Site F → Site F)
      → (Site F → Dict (Json F))
      → Site F
      → Reply F × Site F
  issue_session r u d remember report body s =
      signed_in r u d remember report body s
        (Sessions.create env d r.now u.id remember (agent_of r) d.family s.tables)

  unfoldable pub challenge_user : Request F → User → String → Bool → Site F → Reply F × Site F
  challenge_user r u challenge remember s =
      let s' = prune_challenges r.monotonic s in
      (
        answered (("two_factor_required", bool true) ∷ ("challenge", str challenge) ∷ [])
            Cookies.untouched,
        record s' {
          challenges =
              insert (c.hash_token challenge)
                (record {
                  user_id = u.id;
                  expires = fl.add r.monotonic challenge_ttl;
                  remember = remember;
                })
                s'.challenges;
        },
      )

  unfoldable pub login_as :
      Request F → LoginIn → Drawn → String → Option User → Site F → Reply F × Site F
  login_as r body d challenge none s =
      let email = plain_email body.email in
      (generic_login_error, log_event "login" email (some email) r false none s)
  login_as r body d challenge (some u) s =
      if u.totp_enabled
      then challenge_user r u challenge body.remember s
      else issue_session r u d body.remember (log_event "login" u.email (some u.email) r true none)
          (λ _. user_body u) s

  -- `login`, with the tokens of a session and the token of a challenge that it may draw.
  unfoldable pub login : Request F → LoginIn → Drawn → String → Site F → Reply F × Site F
  login r body d challenge s =
      let (allowed, s') = login_allowed r.monotonic (client_ip r) (plain_email body.email) s in
      if allowed
      then login_as r body d challenge
          (verify_login (plain_email body.email) body.password s'.tables) s'
      else (failed 429 "rate_limited" "Muitas tentativas. Tente novamente em alguns minutos.", s')

  abbrev verified_by : Request F → User → Bool → String → Drawn → Site F → Reply F × Site F
  verified_by r u remember detail d s =
      issue_session r u d remember (log_event "login" u.email (some u.email) r true (some detail))
        (λ s'.
          if detail == "2fa_backup_code"
          then ("user", auth_user_out u)
            ∷ ("backup_code_used", bool true)
            ∷ ("remaining", int (length (remaining_codes (get u.id s'.tables))))
            ∷ []
          else user_body u)
        s

  -- The answer to a code that is no time-based one: a backup code is used up, or the challenge is set
  -- again.
  unfoldable pub verify_backup :
      Request F
      → TwoFactorVerifyIn
      → Challenge F
      → User
      → Drawn
      → Option (List String)
      → Site F
      → Reply F × Site F
  verify_backup r body entry u d none s = (
    failed 401 "unauthorized" "Código inválido.",
    record s { challenges = insert (c.hash_token body.challenge) entry s.challenges },
  )
  verify_backup r body entry u d (some remaining) s =
      verified_by r u (entry.remember || body.remember) "2fa_backup_code" d
        (record s { tables = update_backup_codes u.id remaining s.tables })

  unfoldable pub verify_user :
      Request F → TwoFactorVerifyIn → Challenge F → Option User → Drawn → Site F → Reply F × Site F
  verify_user r body entry none d s = (generic_login_error, s)
  verify_user r body entry (some u) d s =
      if not (u.status == "active")
      then (generic_login_error, s)
      else if totp_ok (c.decrypt (or_empty u.totp_secret_enc)) body.totp_code
      then verified_by r u (entry.remember || body.remember) "2fa_totp" d s
      else verify_backup r body entry u d
          (consume_backup_code (hashes_of u.backup_codes) body.totp_code) s

  unfoldable pub verify_entry :
      Request F → TwoFactorVerifyIn → Option (Challenge F) → Drawn → Site F → Reply F × Site F
  verify_entry r body none d s = (generic_login_error, s)
  verify_entry r body (some entry) d s =
      verify_user r body entry (get entry.user_id s.tables) d
        (record s { challenges = remove (c.hash_token body.challenge) s.challenges })

  -- `two_factor_verify`
  unfoldable pub two_factor_verify :
      Request F → TwoFactorVerifyIn → Drawn → Site F → Reply F × Site F
  two_factor_verify r body d s =
      let s' = prune_challenges r.monotonic s in
      verify_entry r body (lookup (c.hash_token body.challenge) s'.challenges) d s'
