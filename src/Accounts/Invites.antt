-- ===== src/Accounts/Invites.antt =====
-- The invites of `UserStore` in src/auth/store.py.
use criptotrade.Base.{
  ℕ, ◌+◌, ◌*◌, ltb, leb, String, ◌==◌, Bool, not, ◌&&◌, ◌||◌, Option, none, some, is_some, List, [],
  ◌∷◌, ◌++◌, if◌then◌else◌, keep,
}
use criptotrade.Base.Rows.{first, modify}
use criptotrade.Accounts.{Tables, User, Invite, Crypto, day}
use criptotrade.Accounts.Users.{plain_email, get_by_email, create}

-- `get_invite`
unfoldable pub get_invite : String → Tables → Option Invite
get_invite invite_id t = first (λ i. i.id == invite_id) t.invites

-- `list_invites`; the rows stand in the order of their creation.
unfoldable pub list_invites : ℕ → Bool → Tables → List Invite
list_invites now pending_only t =
    if pending_only
    then keep
        (λ i. not (is_some i.accepted_at) && (not (is_some i.revoked_at) && leb now i.expires_at))
        t.invites
    else t.invites

-- `revoke_invite`
unfoldable pub revoke_invite : ℕ → String → Tables → Tables
revoke_invite now invite_id t = record t {
  invites =
      modify (λ i. i.id == invite_id && not (is_some i.accepted_at))
        (λ i. record i { revoked_at = some now }) t.invites;
}

-- What `accept_invite` answers; `clash` is the IntegrityError of the insertion.
pub data Joined : Type 0 where
  joined : User → Joined
  turned_down : Joined
  clash : Joined

module _ ⦃c : Crypto⦄ where
  -- `create_invite`, with the row's id and the token drawn; `none` is the IntegrityError.
  unfoldable pub create_invite :
      String → ℕ → String → String → String → String → ℕ → Tables → Option Tables
  create_invite id now token email role invited_by ttl_days t =
      let i : Invite = record {
        id = id;
        email = plain_email email;
        role = role;
        token_hash = c.hash_token token;
        invited_by = invited_by;
        created_at = now;
        expires_at = now + ttl_days * day;
        accepted_at = none;
        revoked_at = none;
      } in
      if not (is_some (first (λ j. j.id == id) t.invites))
        && not (is_some (first (λ j. j.token_hash == i.token_hash) t.invites))
      then some (record t { invites = t.invites ++ i ∷ [] })
      else none

  abbrev renewed : ℕ → String → ℕ → Invite → Invite
  renewed now token ttl_days i = record i {
    token_hash = c.hash_token token;
    expires_at = now + ttl_days * day;
  }

  abbrev pub refresh_found :
      ℕ → String → ℕ → Option Invite → Tables → Option (Option String × Tables)
  refresh_found now token ttl_days none t = some (none, t)
  refresh_found now token ttl_days (some i) t =
      if is_some i.accepted_at || is_some i.revoked_at
      then some (none, t)
      else if is_some
          (first (λ j. not (j.id == i.id) && j.token_hash == c.hash_token token) t.invites)
      then none
      else some (
        some token,
        record t { invites = modify (λ j. j.id == i.id) (renewed now token ttl_days) t.invites },
      )

  -- `refresh_invite`, with the token drawn; `none` is the IntegrityError of the update.
  unfoldable pub refresh_invite : ℕ → String → String → ℕ → Tables → Option (Option String × Tables)
  refresh_invite now token invite_id ttl_days t =
      refresh_found now token ttl_days (get_invite invite_id t) t

  -- The invite with its row marked as accepted, or nothing.
  abbrev pub claim_found : ℕ → Option Invite → Tables → Option Invite × Tables
  claim_found now none t = (none, t)
  claim_found now (some i) t =
      if is_some i.accepted_at || (is_some i.revoked_at || ltb i.expires_at now)
      then (none, t)
      else (
        some i,
        record t {
          invites = modify (λ j. j.id == i.id) (λ j. record j { accepted_at = some now }) t.invites;
        },
      )

  abbrev created : Tables → Option (User × Tables) → Joined × Tables
  created t none = (clash, t)
  created t (some (u, t')) = (joined u, t')

  -- What `accept_invite` does with a claimed invite.
  abbrev pub join : String → ℕ → String → String → String → Option Invite × Tables → Joined × Tables
  join id now salt name password (none, t) = (turned_down, t)
  join id now salt name password (some i, t) =
      if is_some (get_by_email i.email t)
      then (turned_down, t)
      else created t (create id now salt i.email (some password) (some name) i.role "active" t)

  -- `accept_invite`, with the id and the salt of the account
  unfoldable pub accept_invite :
      String → ℕ → String → String → String → String → Tables → Joined × Tables
  accept_invite id now salt token name password t =
      join id now salt name password
        (claim_found now (first (λ i. i.token_hash == c.hash_token token) t.invites) t)
