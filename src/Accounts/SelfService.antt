-- ===== src/Accounts/SelfService.antt =====
-- src/api/routes/account.py and security.py: what users change of their own account.
use criptotrade.Base.{
  ℕ, String, ◌==◌, Bool, true, false, not, Option, none, some, List, [], ◌∷◌, if◌then◌else◌,
}
use Prim.Native.String.{◌++◌}
use mathlib.Core.List
use criptotrade.Base.Text.{truthy, join, show_nat}
use criptotrade.Base.Rows.{first}
use criptotrade.Ledger.Payload.{Json, bool, int, str, obj, to_fields, opt_str}
use criptotrade.Access.{Principal}
use criptotrade.Access.Sets.{member}
use criptotrade.Accounts.{Tables, User, Session, Crypto}
use criptotrade.Accounts.Security.{verify_password}
use criptotrade.Accounts.Users.{get, set_password, update_profile}
use criptotrade.Accounts.Sessions.{list_for_user, revoke_for_user, revoke_others}
use criptotrade.Accounts.Http.{
  Site, Request, Reply, untouched, cleared, failed, generic_login_error, server_error, answered,
  log_event,
}

-- `AVATAR_COLORS`
abbrev pub avatar_colors : List String
avatar_colors = "ink" ∷ "ink-2" ∷ "info" ∷ "violet" ∷ "up" ∷ "down" ∷ "warn" ∷ []

module _ {F : Type 0} where
  abbrev no_session : Reply F
  no_session = failed 401 "unauthorized" "Sessão inválida."

  abbrev pub given_user : Option User → (User → Reply F × Site F) → Site F → Reply F × Site F
  given_user none f s = (no_session, s)
  given_user (some u) f s = f u

  abbrev pub given_id : Option String → (User → Reply F × Site F) → Site F → Reply F × Site F
  given_id none f s = (no_session, s)
  given_id (some user_id) f s = given_user (get user_id s.tables) f s

  -- `_require_user` of security.py, before the rest of a route.
  unfoldable pub session_user : Principal → (User → Reply F × Site F) → Site F → Reply F × Site F
  session_user p f s =
      if p.kind == "user"
      then given_id p.user_id f s
      else (failed 401 "unauthorized" "Faça login para gerenciar suas sessões.", s)

  -- `_audit` and `_audit_event`
  abbrev audit_event : String → User → Request F → Option String → Site F → Site F
  audit_event event u r detail = log_event event u.email (some u.email) r true detail

  -- `_profile_out`
  unfoldable pub profile_out : User → Json F
  profile_out u = obj (
      to_fields (
        ("id", str u.id)
        ∷ ("email", str u.email)
        ∷ ("name", opt_str u.name)
        ∷ ("job_title", opt_str u.job_title)
        ∷ ("avatar_color", opt_str u.avatar_color)
        ∷ ("role", str u.role)
        ∷ ("totp_enabled", bool u.totp_enabled)
        ∷ ("created_at", int u.created_at)
        ∷ []))

  abbrev profile_of : Option User → Reply F
  profile_of none = server_error
  profile_of (some u) = answered (("data", profile_out u) ∷ []) untouched

-- `ProfilePatch`; an absent field is none.
pub record ProfilePatch : Type 0 where
  pub name : Option String
  pub job_title : Option String
  pub avatar_color : Option String

abbrev named : String → Option String → List String
named key none = []
named key (some v) = key ∷ []

-- The keys of `patch.model_dump(exclude_none=True)`, sorted.
abbrev pub changed_keys : ProfilePatch → List String
changed_keys p =
    List.◌++◌ (named "avatar_color" p.avatar_color)
      (List.◌++◌ (named "job_title" p.job_title) (named "name" p.name))

abbrev as_field : Option String → Option (Option String)
as_field none = none
as_field (some v) = some (some v)

abbrev is_bad_color : Option String → Bool
is_bad_color none = false
is_bad_color (some color) = not (member color avatar_colors)

module _ {F : Type 0} where
  unfoldable pub apply_profile : Request F → User → ProfilePatch → Site F → Site F
  apply_profile r u p s =
      if has_changes
      then audit_event "profile_updated" u r (some (join ", " (changed_keys p))) (record s {
        tables =
            update_profile u.id
              (record {
                name = as_field p.name;
                job_title = as_field p.job_title;
                avatar_color = as_field p.avatar_color;
              })
              s.tables;
      })
      else s
    where
      has_changes : Bool
      has_changes = elim (changed_keys p) [ [] ↦ false | _ ↦ true ]

  -- `patch_profile`
  unfoldable pub patch_profile : Request F → Principal → ProfilePatch → Site F → Reply F × Site F
  patch_profile r who p s =
      session_user who
        (λ u.
          if is_bad_color p.avatar_color
          then (failed 422 "validation_error" "Cor de avatar inválida.", s)
          else let s' = apply_profile r u p s in (profile_of (get u.id s'.tables), s'))
        s

abbrev id_of : Option Session → Option String
id_of none = none
id_of (some x) = some x.id

abbrev is_current : String → Option String → Bool
is_current session_id none = false
is_current session_id (some current) = session_id == current

abbrev others : ℕ → String → Option String → Tables → ℕ × Tables
others now user_id none t = (0, t)
others now user_id (some current) t =
    if truthy current then revoke_others now user_id current t else (0, t)

module _ {F : Type 0} ⦃c : Crypto⦄ where
  -- `_current_session_id`
  unfoldable pub current_session_id : Request F → List Session → Option String
  current_session_id r sessions =
      if truthy r.session_cookie
      then id_of (first (λ x. x.token_hash == c.hash_token r.session_cookie) sessions)
      else none

  -- `revoke_session` of security.py
  unfoldable pub revoke_session : Request F → Principal → String → Site F → Reply F × Site F
  revoke_session r who session_id s =
      session_user who
        (λ u.
          let current =
            is_current session_id (current_session_id r (list_for_user r.now u.id s.tables)) in
          let done = revoke_for_user r.now session_id u.id s.tables in
          if done.0
          then (
            answered (("revoked", bool true) ∷ ("current", bool current) ∷ [])
                (if current then cleared else untouched),
            audit_event "session_revoked" u r (some ("session=" ++ session_id))
                (record s { tables = done.1 }),
          )
          else (
            failed 404 "session_not_found" "Sessão não encontrada.",
            record s { tables = done.1 },
          ))
        s

  unfoldable pub revoke_but : Request F → User → Option String → Site F → Reply F × Site F
  revoke_but r u none s = (no_session, s)
  revoke_but r u (some current) s =
      let (n, t) = revoke_others r.now u.id current s.tables in
      (
        answered (("revoked", int n) ∷ []) untouched,
        audit_event "sessions_revoked_others" u r (some ("revoked=" ++ show_nat n))
            (record s { tables = t }),
      )

  -- `revoke_other_sessions`
  unfoldable pub revoke_other_sessions : Request F → Principal → Site F → Reply F × Site F
  revoke_other_sessions r who s =
      session_user who
        (λ u. revoke_but r u (current_session_id r (list_for_user r.now u.id s.tables)) s) s

  -- `change_password`, with the salt drawn
  unfoldable pub change_password :
      Request F → Principal → String → String → String → Site F → Reply F × Site F
  change_password r who salt current_password new_password s =
      session_user who
        (λ u.
          if verify_password u.password_hash current_password
          then (let t = set_password salt u.id new_password s.tables in
              let done = others r.now u.id (current_session_id r (list_for_user r.now u.id t)) t in
              (
                answered (("changed", bool true) ∷ ("other_sessions_revoked", int done.0) ∷ [])
                    untouched,
                audit_event "password_changed" u r (some ("sessions_revoked=" ++ show_nat done.0))
                    (record s { tables = done.1 }),
              ))
          else (generic_login_error, s))
        s
