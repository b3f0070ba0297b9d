-- ===== src/Accounts/Principals.antt =====
-- `resolve_principal` of src/api/authn.py, with `PlatformKeyStore` of src/exchanges/store.py.
pub mod Origin
use criptotrade.Base.{
  ℕ, ◌≤◌, String, ◌==◌, eq_iff, ◌≡◌, refl, sym, ap, ◌∙◌, arith, Bool, true, not, ◌&&◌, Option, none,
  some, is_some, List, [], ◌∷◌, ◌++◌, if◌then◌else◌, length, keep, ltb, Bool-cases, Option-cases,
  inl, inr,
}
use criptotrade.Base.Text.{truthy, clip}
use mathlib.Core.List.{Mem}
use criptotrade.Base.Rows.{first, modify, listed_first}
use criptotrade.Access.{Principal, AuthMode, mode_demo}
use criptotrade.Access.Sets.{member}
use criptotrade.Accounts.{Tables, User, Session, Crypto}
use criptotrade.Accounts.Users.{get}
use criptotrade.Accounts.Sessions.{SessionEnv, resolve, slide}

-- A row of `platform_api_keys`.
pub record PlatformKey : Type 0 where
  pub id : String
  pub label : String
  pub key_prefix : String
  pub key_hash : String
  pub scope : String
  pub created_by : String
  pub created_at : ℕ
  pub last_used_at : Option ℕ
  pub revoked_at : Option ℕ

-- `PlatformKeyStore.get`
unfoldable pub get_key : String → List PlatformKey → Option PlatformKey
get_key key_id keys = first (λ k. k.id == key_id) keys

abbrev active_key : String → PlatformKey → Bool
active_key key_id k = k.id == key_id && not (is_some k.revoked_at)

-- `PlatformKeyStore.revoke`
unfoldable pub revoke_key : ℕ → String → List PlatformKey → Bool × List PlatformKey
revoke_key now key_id keys = (
  ltb 0 (length (keep (active_key key_id) keys)),
  modify (active_key key_id) (λ k. record k { revoked_at = some now }) keys,
)

module _ ⦃c : Crypto⦄ where
  -- `PlatformKeyStore.create`, with the row's id and the token drawn
  unfoldable pub create_key :
      String → ℕ → String → String → String → String → List PlatformKey → List PlatformKey
  create_key id now token label scope created_by keys =
      keys
      ++ record {
        id = id;
        label = label;
        key_prefix = clip 12 token;
        key_hash = c.hash_token token;
        scope = scope;
        created_by = created_by;
        created_at = now;
        last_used_at = none;
        revoked_at = none;
      }
        ∷ []

  abbrev pub fits : String → PlatformKey → Bool
  fits token k = k.key_hash == c.hash_token token && not (is_some k.revoked_at)

  abbrev stamped : ℕ → Option PlatformKey → List PlatformKey → Option PlatformKey × List PlatformKey
  stamped now none keys = (none, keys)
  stamped now (some k) keys =
      (some k, modify (λ j. j.id == k.id) (λ j. record j { last_used_at = some now }) keys)

  -- `PlatformKeyStore.resolve`
  unfoldable pub resolve_key : ℕ → String → List PlatformKey → Option PlatformKey × List PlatformKey
  resolve_key now token keys = stamped now (first (fits token) keys) keys

-- `ANONYMOUS`, `DEMO` and `MACHINE`
abbrev pub anonymous : Principal
anonymous = record { kind = "anonymous"; actor = "anonymous"; role = "anonymous"; user_id = none }

abbrev pub demo : Principal
demo = record { kind = "demo"; actor = "demo"; role = "visualizador"; user_id = none }

abbrev pub machine : Principal
machine = record { kind = "machine"; actor = "api-key"; role = "admin"; user_id = none }

-- What the resolution reads: the mode, the keys of the environment, and the request's two credentials.
pub record Credentials : Type 0 where
  pub mode : AuthMode
  pub valid_api_keys : List String
  pub provided : String
  pub session_cookie : String
  pub now : ℕ

-- The account tables and the platform keys.
pub record Registers : Type 0 where
  pub tables : Tables
  pub keys : List PlatformKey

abbrev pub fallback : AuthMode → Principal
fallback mode_demo = demo
fallback m = anonymous

abbrev pub of_user : User → Principal
of_user u = record { kind = "user"; actor = u.email; role = u.role; user_id = some u.id }

abbrev pub of_key : PlatformKey → Principal
of_key k = record { kind = "machine"; actor = k.label; role = k.scope; user_id = none }

abbrev user_principal : AuthMode → Option User → Principal
user_principal mode none = fallback mode
user_principal mode (some u) = if u.status == "active" then of_user u else fallback mode

abbrev session_principal : AuthMode → Option Session → Tables → Principal
session_principal mode none t = fallback mode
session_principal mode (some x) t = user_principal mode (get x.user_id t)

module _ ⦃c : Crypto⦄ (env : SessionEnv) where
  -- The session's cookie, then the mode.
  unfoldable pub by_cookie : Credentials → Registers → Principal × Registers
  by_cookie q w =
      if truthy q.session_cookie
      then (let (x, t) = resolve env q.now q.session_cookie w.tables in
          (session_principal q.mode x t, record w { tables = t }))
      else (fallback q.mode, w)

  abbrev by_key : Credentials → Option PlatformKey → Registers → Principal × Registers
  by_key q none w = by_cookie q w
  by_key q (some k) w = (of_key k, w)

  -- `resolve_principal`
  unfoldable pub resolve_principal : Credentials → Registers → Principal × Registers
  resolve_principal q w =
      if truthy q.provided
      then if member q.provided q.valid_api_keys
        then (machine, w)
        else (let (k, keys) = resolve_key q.now q.provided w.keys in
            by_key q k (record w { keys = keys }))
      else by_cookie q w
