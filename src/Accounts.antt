-- ===== src/Accounts.antt =====
-- The rows of migrations/005_auth.sql, 006_invites.sql and 007_account.sql, and what src/auth/store.py
-- takes from elsewhere. A time is a number of microseconds.
pub mod Login
pub mod Security
pub mod Users
pub mod Invites
pub mod Sessions
pub mod Lifecycle
pub mod Kept
pub mod Reuse
pub mod Lifetime
pub mod Single
pub mod Http
pub mod Routes
pub mod Factors
pub mod Uniform
pub mod Admin
pub mod SelfService
pub mod Principals
mod Tests
use criptotrade.Base.{ℕ, String, ◌*◌, Bool, Option, List}

-- A row of `users`; `backup_codes` is the list that its JSON text holds.
pub record User : Type 0 where
  pub id : String
  pub email : String
  pub name : Option String
  pub password_hash : Option String
  pub role : String
  pub status : String
  pub totp_secret_enc : Option String
  pub totp_enabled : Bool
  pub backup_codes : Option (List String)
  pub created_at : ℕ
  pub last_login_at : Option ℕ
  pub job_title : Option String
  pub avatar_color : Option String
  pub prefs : Option String

-- A row of `sessions`.
pub record Session : Type 0 where
  pub id : String
  pub user_id : String
  pub token_hash : String
  pub refresh_hash : String
  pub family_id : String
  pub remember : Bool
  pub ip : Option String
  pub user_agent : Option String
  pub created_at : ℕ
  pub last_seen_at : ℕ
  pub idle_expires_at : ℕ
  pub absolute_expires_at : ℕ
  pub revoked_at : Option ℕ

-- A row of `invites`.
pub record Invite : Type 0 where
  pub id : String
  pub email : String
  pub role : String
  pub token_hash : String
  pub invited_by : String
  pub created_at : ℕ
  pub expires_at : ℕ
  pub accepted_at : Option ℕ
  pub revoked_at : Option ℕ

-- A row of `password_resets`.
pub record Reset : Type 0 where
  pub id : String
  pub user_id : String
  pub token_hash : String
  pub expires_at : ℕ
  pub used_at : Option ℕ

pub record Tables : Type 0 where
  pub users : List User
  pub sessions : List Session
  pub invites : List Invite
  pub resets : List Reset

-- What the cryptographic libraries give.
pub record Crypto : Type 0 where
  -- The hash of a password under a salt, and whether the hasher verifies it without an exception.
  pub hash : String → String → String
  pub verifies : String → String → Bool
  pub dummy_hash : String
  -- `hash_token`
  pub hash_token : String → String
  -- `decrypt_totp_secret`
  pub decrypt : String → Option String
  -- `pyotp.TOTP(secret).verify(code, valid_window=1)` without an exception
  pub totp_verifies : String → String → Bool

abbrev pub minute : ℕ
minute = 60 * 1000000

abbrev pub hour : ℕ
hour = 60 * minute

abbrev pub day : ℕ
day = 24 * hour
