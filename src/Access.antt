-- ===== src/Access.antt =====
-- src/auth/rbac.py and the request guards of src/api/authn.py.
pub mod Sets
pub mod Perms
pub mod RateLimit
mod Tests
use criptotrade.Base.{
  String, ◌==◌, Bool, true, false, not, ◌&&◌, ◌||◌, Option, none, some, List, [], ◌∷◌,
  if◌then◌else◌, keep, map,
}
use criptotrade.Base.Text.{starts}
use criptotrade.Base.Dict.{Dict, lookup}
use Sets.{member, sort}

-- `AUTH_MODE`
pub data AuthMode : Type 0 where
  mode_off mode_demo mode_required : AuthMode

pub record Principal : Type 0 where
  pub kind : String
  pub actor : String
  pub role : String
  pub user_id : Option String

-- A request with the principal that the middleware resolved.
pub record Request : Type 0 where
  pub principal : Principal
  pub method : String
  pub content_length : String
  pub content_type : String

-- What a guard does: it passes the principal on, or raises.
pub data Guarded : Type 0 where
  passed : Principal → Guarded
  unauthorized : Guarded
  bad_content_type : Guarded
  missing_permission : String → Guarded

-- `ROLES`
abbrev pub roles : List String
roles = "visualizador" ∷ "operador" ∷ "admin" ∷ []

-- `PERMISSIONS`
abbrev pub permissions : Dict (List String)
permissions =
    ("approve_order", "operador" ∷ "admin" ∷ [])
    ∷ ("change_autonomy", "operador" ∷ "admin" ∷ [])
    ∷ ("change_risk", "admin" ∷ [])
    ∷ ("edit_settings", "admin" ∷ [])
    ∷ ("manage_keys", "admin" ∷ [])
    ∷ ("view_audit", "operador" ∷ "admin" ∷ [])
    ∷ ("manage_users", "admin" ∷ [])
    ∷ []

abbrev pub key_of : String × List String → String
key_of (k, v) = k

-- `MACHINE_PERMS`
abbrev pub all_machine_perms : List String
all_machine_perms = keep (λ p. not (p == "manage_users")) (map key_of permissions)

-- The permissions of a role.
abbrev pub perms_of_role : String → List String
perms_of_role role = map key_of (keep (λ e. member role e.1) permissions)

-- `_machine_perms`
abbrev pub machine_perms : String → List String
machine_perms role =
    if member role roles
    then keep (λ p. member p all_machine_perms) (perms_of_role role)
    else all_machine_perms

-- `permissions_for`
abbrev pub permissions_for : Principal → List String
permissions_for p =
    if p.kind == "machine"
    then sort (machine_perms p.role)
    else if p.kind == "user"
    then sort (perms_of_role p.role)
    else []

-- `PERMISSIONS.get(perm, frozenset())`
abbrev pub holders : Option (List String) → List String
holders none = []
holders (some rs) = rs

-- `has_perm`
abbrev pub has_perm : Principal → String → Bool
has_perm p perm =
    if p.kind == "machine"
    then member perm (machine_perms p.role)
    else if p.kind == "user"
    then member p.role (holders (lookup perm permissions))
    else false

abbrev pub authenticated : Principal → Bool
authenticated p = p.kind == "machine" || p.kind == "user"

abbrev pub is_required : AuthMode → Bool
is_required mode_required = true
is_required m = false

abbrev pub is_off : AuthMode → Bool
is_off mode_off = true
is_off m = false

-- A request of a session that changes state and has a body that is not JSON.
abbrev pub is_foreign_body : Request → Bool
is_foreign_body r =
    r.principal.kind == "user"
    && (member r.method ("POST" ∷ "PATCH" ∷ "PUT" ∷ "DELETE" ∷ [])
        && (not (member r.content_length ("" ∷ "0" ∷ []))
            && not (starts "application/json" r.content_type)))

-- `require_principal`
abbrev pub require_principal : AuthMode → Request → Guarded
require_principal mode r =
    if is_required mode && (not (authenticated r.principal) && not (r.principal.kind == "demo"))
    then unauthorized
    else if is_foreign_body r
    then bad_content_type
    else passed r.principal

abbrev pub check_perm : AuthMode → String → Guarded → Guarded
check_perm mode perm (passed p) =
    if p.kind == "anonymous" && is_off mode
    then passed p
    else if not (has_perm p perm)
    then missing_permission perm
    else passed p
check_perm mode perm g = g

-- `require_perm`
abbrev pub require_perm : String → AuthMode → Request → Guarded
require_perm perm mode r = check_perm mode perm (require_principal mode r)
