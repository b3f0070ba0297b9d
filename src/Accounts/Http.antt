-- ===== src/Accounts/Http.antt =====
-- What the routes of src/api/routes/auth.py share: the state of the process, requests and replies.
use criptotrade.Base.{
  ℕ, String, Bool, false, ◌&&◌, Option, none, some, List, [], ◌∷◌, if◌then◌else◌,
}
use criptotrade.Base.Text.{strip, before, clip, truthy}
use criptotrade.Base.Dict.{Dict}
use criptotrade.Ledger.{Ledger, log_auth_event}
use criptotrade.Ledger.Payload.{Json, bool, str, obj, to_fields, opt_str}
use criptotrade.Accounts.{Tables, User, Crypto}
use criptotrade.Accounts.Security.{verify_totp}
use criptotrade.Accounts.Sessions.{Drawn, Agent}

-- A pending second factor.
pub record Challenge (F : Type 0) : Type 0 where
  pub user_id : String
  pub expires : F
  pub remember : Bool

-- What the API process keeps: the tables, the pending challenges, the limiter's buckets, the ledger,
-- and the mails that were sent, each its address and its link.
pub record Site (F : Type 0) : Type 0 where
  pub tables : Tables
  pub challenges : Dict (Challenge F)
  pub buckets : Dict (List F)
  pub ledger : Ledger F
  pub mails : List (String × String)

-- What a route reads of the request, with the readings of the two clocks.
pub record Request (F : Type 0) : Type 0 where
  pub forwarded_for : String
  pub host : Option String
  pub agent_header : String
  pub session_cookie : String
  pub refresh_cookie : String
  pub now : ℕ
  pub monotonic : F

-- What happens to the cookies of the session.
pub data Cookies : Type 0 where
  untouched : Cookies
  set_cookies : Drawn → Bool → Cookies
  cleared : Cookies

pub record Reply (F : Type 0) : Type 0 where
  pub status : ℕ
  pub body : Dict (Json F)
  pub cookies : Cookies

-- `LoginIn` and `TwoFactorVerifyIn`
pub record LoginIn : Type 0 where
  pub email : String
  pub password : String
  pub remember : Bool

pub record TwoFactorVerifyIn : Type 0 where
  pub challenge : String
  pub totp_code : String
  pub remember : Bool

abbrev pub or_empty : Option String → String
or_empty none = ""
or_empty (some x) = x

-- `secret and security.verify_totp(secret, code)`
abbrev pub totp_ok : ⦃c : Crypto⦄ → Option String → String → Bool
totp_ok none totp_code = false
totp_ok (some secret) totp_code = truthy secret && verify_totp secret totp_code

abbrev pub hashes_of : Option (List String) → List String
hashes_of none = []
hashes_of (some hs) = hs

abbrev pub remaining_codes : Option User → List String
remaining_codes none = []
remaining_codes (some u) = hashes_of u.backup_codes

module _ {F : Type 0} where
  abbrev pub failed : ℕ → String → String → Reply F
  failed status error message = record {
    status = status;
    body = ("error", str error) ∷ ("message", str message) ∷ [];
    cookies = Cookies.untouched;
  }

  -- `_GENERIC_LOGIN_ERROR`
  abbrev pub generic_login_error : Reply F
  generic_login_error = record {
    status = 401;
    body =
        ("error", str "unauthorized")
        ∷ ("message", str "Credenciais inválidas.")
        ∷ ("docs", str "/v1/docs")
        ∷ [];
    cookies = Cookies.untouched;
  }

  -- An exception that no handler catches.
  abbrev pub server_error : Reply F
  server_error = failed 500 "internal" ""

  abbrev pub answered : Dict (Json F) → Cookies → Reply F
  answered body cookies = record { status = 200; body = body; cookies = cookies }

  -- `_client_ip`
  unfoldable pub client_ip : Request F → String
  client_ip r =
      if truthy r.forwarded_for
      then strip (before "," r.forwarded_for)
      else elim r.host [ none ↦ "unknown" | some h ↦ h ]

  -- `_user_agent`
  unfoldable pub user_agent : Request F → String
  user_agent r = clip 300 r.agent_header

  abbrev pub agent_of : Request F → Agent
  agent_of r = record { ip = some (client_ip r); user_agent = some (user_agent r) }

  -- `log_auth_event` with what the request tells.
  abbrev pub log_event :
      String → String → Option String → Request F → Bool → Option String → Site F → Site F
  log_event event actor email r success detail s = record s {
    ledger =
        log_auth_event event actor email (some (client_ip r)) (some (user_agent r)) success detail
          s.ledger;
  }

  -- `_auth_user_out`
  unfoldable pub auth_user_out : User → Json F
  auth_user_out u = obj (
      to_fields (
        ("id", str u.id)
        ∷ ("email", str u.email)
        ∷ ("name", opt_str u.name)
        ∷ ("role", str u.role)
        ∷ ("totp_enabled", bool u.totp_enabled)
        ∷ ("avatar_color", opt_str u.avatar_color)
        ∷ []))

  abbrev pub user_body : User → Dict (Json F)
  user_body u = ("user", auth_user_out u) ∷ []
