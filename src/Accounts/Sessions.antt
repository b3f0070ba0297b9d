-- ===== src/Accounts/Sessions.antt =====
-- `SessionStore` of src/auth/store.py.
use criptotrade.Base.{
  ℕ, ◌+◌, ◌*◌, ltb, leb, String, ◌==◌, Bool, not, ◌&&◌, ◌||◌, Option, none, some, is_some, List, [],
  ◌∷◌, ◌++◌, if◌then◌else◌, keep, length,
}
use criptotrade.Base.Rows.{first, modify}
use criptotrade.Accounts.{Tables, Session, Crypto, minute, hour, day}
use criptotrade.Accounts.Users.{get}

-- The environment's `SESSION_IDLE_TTL_MIN`, `SESSION_ABS_TTL_H`, `REMEMBER_TTL_D` and `REFRESH_TTL_D`.
pub record SessionEnv : Type 0 where
  pub idle_ttl_min : ℕ
  pub abs_ttl_h : ℕ
  pub remember_ttl_d : ℕ
  pub refresh_ttl_d : ℕ

-- The defaults.
abbrev pub default_env : SessionEnv
default_env = record { idle_ttl_min = 30; abs_ttl_h = 12; remember_ttl_d = 30; refresh_ttl_d = 7 }

pub record Ttls : Type 0 where
  pub idle : ℕ
  pub absolute : ℕ
  pub refresh : ℕ

-- `_ttls`
abbrev pub ttls : SessionEnv → Bool → Ttls
ttls env remember = record {
  idle = env.idle_ttl_min * minute;
  absolute = env.abs_ttl_h * hour;
  refresh = (if remember then env.remember_ttl_d else env.refresh_ttl_d) * day;
}

-- What the request tells, and what is drawn for a new session.
pub record Agent : Type 0 where
  pub ip : Option String
  pub user_agent : Option String

pub record Drawn : Type 0 where
  pub id : String
  pub family : String
  pub token : String
  pub refresh : String

-- What `rotate` answers.
pub data Rotation : Type 0 where
  refused : Rotation
  reuse : String → Rotation
  rotated : Drawn → String → Rotation
  integrity_error : Rotation

-- The constraints of the table `sessions`.
unfoldable pub admits : Session → Tables → Bool
admits s t =
    is_some (get s.user_id t)
    && (not (is_some (first (λ r. r.id == s.id) t.sessions))
        && (not (is_some (first (λ r. r.token_hash == s.token_hash) t.sessions))
            && not (is_some (first (λ r. r.refresh_hash == s.refresh_hash) t.sessions))))

-- A row without `revoked_at`.
abbrev pub is_live : Session → Bool
is_live s = not (is_some s.revoked_at)

abbrev pub stop : ℕ → Session → Session
stop now s = record s { revoked_at = some now }

-- `UPDATE sessions SET revoked_at = ? WHERE p`
unfoldable pub revoke_where : ℕ → (Session → Bool) → Tables → Tables
revoke_where now p t = record t { sessions = modify p (stop now) t.sessions }

-- `revoke`
unfoldable pub revoke : ℕ → String → Tables → Tables
unfolding revoke_where
revoke now session_id = revoke_where now (λ s. s.id == session_id)

-- `revoke_family`
unfoldable pub revoke_family : ℕ → String → Tables → Tables
unfolding revoke_where
revoke_family now family_id = revoke_where now (λ s. s.family_id == family_id && is_live s)

-- `revoke_all_for_user`
unfoldable pub revoke_all_for_user : ℕ → String → Tables → Tables
unfolding revoke_where
revoke_all_for_user now user_id = revoke_where now (λ s. s.user_id == user_id && is_live s)

abbrev own : String → String → Session → Bool
own session_id user_id s = s.id == session_id && (s.user_id == user_id && is_live s)

-- `revoke_for_user`
unfoldable pub revoke_for_user : ℕ → String → String → Tables → Bool × Tables
unfolding revoke_where
revoke_for_user now session_id user_id t = (
  ltb 0 (length (keep (own session_id user_id) t.sessions)),
  revoke_where now (own session_id user_id) t,
)

abbrev other : String → String → Session → Bool
other user_id keep_session_id s =
    s.user_id == user_id && (not (s.id == keep_session_id) && is_live s)

-- `revoke_others`
unfoldable pub revoke_others : ℕ → String → String → Tables → ℕ × Tables
unfolding revoke_where
revoke_others now user_id keep_session_id t = (
  length (keep (other user_id keep_session_id) t.sessions),
  revoke_where now (other user_id keep_session_id) t,
)

-- `list_for_user`, but for the order.
unfoldable pub list_for_user : ℕ → String → Tables → List Session
list_for_user now user_id t =
    keep
      (λ s.
        s.user_id == user_id
        && (is_live s && (leb now s.idle_expires_at && leb now s.absolute_expires_at)))
      t.sessions

-- `none` is the IntegrityError.
abbrev pub insert_session : Session → Tables → Option Tables
insert_session s t =
    if admits s t then some (record t { sessions = t.sessions ++ s ∷ [] }) else none

abbrev pub answer_rotated : Drawn → String → Tables → Option Tables → Rotation × Tables
answer_rotated d user_id t none = (integrity_error, t)
answer_rotated d user_id t (some t') = (rotated d user_id, t')

abbrev pub with_refresh : ⦃c : Crypto⦄ → String → Tables → Option Session
with_refresh ⦃c⦄ refresh t = first (λ s. s.refresh_hash == c.hash_token refresh) t.sessions

module _ ⦃c : Crypto⦄ (env : SessionEnv) where
  abbrev pub new_session : Drawn → ℕ → String → Bool → Agent → String → Session
  new_session d now user_id remember agent family = record {
    id = d.id;
    user_id = user_id;
    token_hash = c.hash_token d.token;
    refresh_hash = c.hash_token d.refresh;
    family_id = family;
    remember = remember;
    ip = agent.ip;
    user_agent = agent.user_agent;
    created_at = now;
    last_seen_at = now;
    idle_expires_at = now + (ttls env remember).idle;
    absolute_expires_at = now + (ttls env remember).absolute;
    revoked_at = none;
  }

  -- `create`, with the family that is given or the one drawn; `none` is the IntegrityError.
  unfoldable pub create : Drawn → ℕ → String → Bool → Agent → String → Tables → Option Tables
  create d now user_id remember agent family t =
      insert_session (new_session d now user_id remember agent family) t

  abbrev pub slide : ℕ → Session → Tables → Option Session × Tables
  slide now r t =
      if is_some r.revoked_at
      then (none, t)
      else if ltb r.idle_expires_at now || ltb r.absolute_expires_at now
      then (none, t)
      else (
        some r,
        record t {
          sessions =
              modify (λ s. s.id == r.id)
                (λ s. record s {
                  last_seen_at = now;
                  idle_expires_at = now + (ttls env r.remember).idle;
                })
                t.sessions;
        },
      )

  abbrev pub resolve_found : ℕ → Option Session → Tables → Option Session × Tables
  resolve_found now none t = (none, t)
  resolve_found now (some r) t = slide now r t

  -- `resolve`
  unfoldable pub resolve : ℕ → String → Tables → Option Session × Tables
  resolve now token t =
      resolve_found now (first (λ s. s.token_hash == c.hash_token token) t.sessions) t

  abbrev pub rotate_row : Drawn → ℕ → Agent → Session → Tables → Rotation × Tables
  rotate_row d now agent r t =
      if is_some r.revoked_at
      then (reuse r.family_id, revoke_family now r.family_id t)
      else if ltb r.absolute_expires_at now
      then (refused, t)
      else let t' = revoke now r.id t in
        answer_rotated d r.user_id t' (create d now r.user_id r.remember agent r.family_id t')

  abbrev pub rotate_found : Drawn → ℕ → Agent → Option Session → Tables → Rotation × Tables
  rotate_found d now agent none t = (refused, t)
  rotate_found d now agent (some r) t = rotate_row d now agent r t

  -- `rotate`
  unfoldable pub rotate : Drawn → ℕ → Agent → String → Tables → Rotation × Tables
  rotate d now agent refresh t = rotate_found d now agent (with_refresh refresh t) t

-- `revoke_by_token`
unfoldable pub revoke_by_token : ⦃c : Crypto⦄ → ℕ → String → Tables → Tables
unfolding revoke_where
revoke_by_token ⦃c⦄ now token = revoke_where now (λ s. s.token_hash == c.hash_token token)
