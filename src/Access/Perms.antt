-- ===== src/Access/Perms.antt =====
-- The permission matrix, asked in two ways, and what a guarded route lets through.
use mathlib.Core.List.{map}
use mathlib.Core.Path.{subst}
use criptotrade.Base.{
  ◌≡◌, ◌≢◌, ◌⊎◌, refl, sym, ap, ◌∙◌, String, ◌==◌, eq_iff, Bool, true, false, not, ◌&&◌, none, List,
  [], ◌∷◌, arith, if◌then◌else◌, Bool-cases, inl, inr, keep, every,
}
use criptotrade.Base.Dict.{Dict, lookup}
use criptotrade.Base.Dict.Keys.{IsDict}
use criptotrade.Access.Sets.{member, member-sort}
use criptotrade.Access.{
  AuthMode, Principal, Request, Guarded, passed, unauthorized, bad_content_type, missing_permission,
  roles, permissions, key_of, all_machine_perms, perms_of_role, machine_perms, permissions_for,
  holders, has_perm, authenticated, is_required, is_off, is_foreign_body, require_principal,
  check_perm, require_perm,
}

member-keep :
    (k : String) (f : String → Bool) (xs : List String) → f k ≡ false → member k (keep f xs) ≡ false
member-keep k f [] h = refl
member-keep k f (x ∷ xs) h = elim (Bool-cases (x == k)) [
  | inl e ↦ rw (ap f ((eq_iff x k).0 e) ∙ h) (member-keep k f xs h)
  | inr e ↦ elim (Bool-cases (f x)) [
    | inl t ↦ rw (t, e) (member-keep k f xs h)
    | inr t ↦ rw t (member-keep k f xs h)
  ]
]

-- The keys of the rows that list a role are the keys whose row lists it.
member-keys :
    (role k : String) (d : Dict (List String))
    → IsDict d
    → member k (map key_of (keep (λ e. member role e.1) d)) ≡ member role (holders (lookup k d))
unfolding lookup
member-keys role k [] h = refl
member-keys role k ((j, v) ∷ d) h =
    let rest = member-keys role k d h.1 in
    elim (Bool-cases (j == k)) [
      | inl e ↦
          let fresh : lookup k d ≡ none = ap (λ i. lookup i d) (sym ((eq_iff j k).0 e)) ∙ h.0 in
          elim (Bool-cases (member role v)) [
            | inl t ↦ rw (t, e) (sym t)
            | inr t ↦ rw (t, e) (rest ∙ (ap (λ o. member role (holders o)) fresh ∙ sym t))
          ]
      | inr e ↦ elim (Bool-cases (member role v)) [
        | inl t ↦ rw (t, e) rest
        | inr t ↦ rw (t, e) rest
      ]
    ]

permissions-IsDict : IsDict permissions
unfolding lookup
permissions-IsDict = (refl, (refl, (refl, (refl, (refl, (refl, (refl, tt)))))))

-- For every principal and every text, `has_perm` holds exactly of the members of the list that
-- `permissions_for` returns.
pub has_perm-permissions_for :
    (p : Principal) (perm : String) → has_perm p perm ≡ member perm (permissions_for p)
has_perm-permissions_for p perm = elim (Bool-cases (p.kind == "machine")) [
  | inl m ↦ rw m (sym (member-sort perm (machine_perms p.role)))
  | inr m ↦ elim (Bool-cases (p.kind == "user")) [
    | inl u ↦
        rw (m, u)
          (sym (member-keys p.role perm permissions permissions-IsDict)
            ∙ sym (member-sort perm (perms_of_role p.role)))
    | inr u ↦ rw (m, u) refl
  ]
]

admin_holds :
    (role k : String) (d : Dict (List String))
    → every (λ e. member "admin" e.1) d ≡ true
    → member role (holders (lookup k d)) ≡ true
    → member "admin" (holders (lookup k d)) ≡ true
unfolding lookup
admin_holds role k [] a h = cc
admin_holds role k ((j, v) ∷ d) a h = elim (Bool-cases (j == k)) [
  | inl e ↦ rw e (ground (arith, a))
  | inr e ↦ rw e (admin_holds role k d (ground (arith, a)) (rw e at h))
]

user_perm :
    (p : Principal) (perm : String)
    → p.kind ≡ "user"
    → has_perm p perm ≡ member p.role (holders (lookup perm permissions))
user_perm p perm u = rw u refl

-- A user who is an admin has every permission that a user of any other role has.
pub admin_has_all :
    (p : Principal) (perm : String)
    → p.kind ≡ "user"
    → has_perm p perm ≡ true
    → has_perm (record p { role = "admin" }) perm ≡ true
admin_has_all p perm u h =
    user_perm (record p { role = "admin" }) perm u
    ∙ admin_holds p.role perm permissions refl (sym (user_perm p perm u) ∙ h)

passed_principal :
    (a b : Bool) (q p : Principal)
    → (if a then unauthorized else if b then bad_content_type else passed q) ≡ passed p
    → (p ≡ q) × (b ≡ false)
passed_principal true b q p h = cc
passed_principal false true q p h = cc
passed_principal false false q p h = (cc, refl)

passed_perm :
    (a b : Bool) (perm : String) (q p : Principal)
    → (if a then passed q else if not b then missing_permission perm else passed q) ≡ passed p
    → (q ≡ p) × ((b ≡ true) ⊎ (a ≡ true))
passed_perm true b perm q p h = (cc, inr refl)
passed_perm false true perm q p h = (cc, inl refl)
passed_perm false false perm q p h = cc

check_perm_passes :
    (mode : AuthMode) (perm : String) (g : Guarded) (p : Principal)
    → check_perm mode perm g ≡ passed p
    → (g ≡ passed p) × ((has_perm p perm ≡ true) ⊎ ((p.kind == "anonymous" && is_off mode) ≡ true))
check_perm_passes mode perm (passed q) p h =
    let (same, held) =
      passed_perm (q.kind == "anonymous" && is_off mode) (has_perm q perm) perm q p h in
    (
      ap passed same,
      subst
          (λ (x : Principal).
            (has_perm x perm ≡ true) ⊎ ((x.kind == "anonymous" && is_off mode) ≡ true))
          same held,
    )
check_perm_passes mode perm unauthorized p h = cc
check_perm_passes mode perm bad_content_type p h = cc
check_perm_passes mode perm (missing_permission x) p h = cc

-- A request that passes a guard passes it with its own principal, which holds the permission, or is
-- anonymous where authentication is off; and its body is not one that a foreign form can send.
pub require_perm_passes :
    (perm : String) (mode : AuthMode) (r : Request) (p : Principal)
    → require_perm perm mode r ≡ passed p
    → (p ≡ r.principal)
      × (is_foreign_body r ≡ false)
      × ((has_perm p perm ≡ true) ⊎ ((p.kind == "anonymous" && is_off mode) ≡ true))
require_perm_passes perm mode r p h =
    let (first, held) = check_perm_passes mode perm (require_principal mode r) p h in
    let (same, body) =
      passed_principal
        (is_required mode && (not (authenticated r.principal) && not (r.principal.kind == "demo")))
        (is_foreign_body r) r.principal p first in
    (same, body, held)

machine_role : (role : String) → member "manage_users" (machine_perms role) ≡ false
machine_role role = elim (Bool-cases (member role roles)) [
  | inl t ↦
      rw t (member-keep "manage_users" (λ p. member p all_machine_perms) (perms_of_role role) refl)
  | inr t ↦ rw t refl
]

machine_perm : (p : Principal) → p.kind ≡ "machine" → has_perm p "manage_users" ≡ false
machine_perm p m =
    ap
      (λ k.
        if k == "machine"
        then member "manage_users" (machine_perms p.role)
        else if k == "user"
        then member p.role (holders (lookup "manage_users" permissions))
        else false)
      m
    ∙ machine_role p.role

-- Whatever its role and the mode, a machine does not pass the guard of user management.
pub machine_manages_no_users :
    (mode : AuthMode) (r : Request) (p : Principal)
    → r.principal.kind ≡ "machine"
    → require_perm "manage_users" mode r ≢ passed p
machine_manages_no_users mode r p m h =
    let (same, body, held) = require_perm_passes "manage_users" mode r p h in
    let kind : p.kind ≡ "machine" = ap (λ q. q.kind) same ∙ m in
    elim held [
      | inl has ↦ cc (machine_perm p kind, has)
      | inr off ↦ no_machine (sym (ap (λ k. k == "anonymous" && is_off mode) kind) ∙ off)
    ]
  where
    no_machine : false ≡ true → ⊥
    no_machine e = cc
