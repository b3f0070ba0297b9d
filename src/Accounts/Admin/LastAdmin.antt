-- ===== src/Accounts/Admin/LastAdmin.antt =====
-- The console is never left without an active admin.
use criptotrade.Base.{
  ℕ, ◌≤◌, ◌≡◌, refl, String, ◌==◌, Bool, true, false, not, ◌&&◌, ◌||◌, Option, none, some, List, [],
  ◌∷◌, arith, if◌then◌else◌, inl, inr, Bool-cases, length, keep,
}
use criptotrade.Base.Rows.{Unique, Unique-modify, Unique-keep}
use criptotrade.Base.Counts.{
  count-modify-le, count-delete-le, count-modify_off, count-delete_off, count-modify_mono,
}
use criptotrade.Access.{roles}
use criptotrade.Access.Sets.{member}
use criptotrade.Accounts.{Tables, User}
use criptotrade.Accounts.Users
use criptotrade.Accounts.Users.{get, count_active_admins, update_user, set_role, set_status}
use criptotrade.Accounts.Sessions.{revoke_all_for_user, revoke_where}
use criptotrade.Accounts.Http.{Site, Reply}
use criptotrade.Accounts.Admin.{
  is_active_admin, is_last_admin, role_found, patch_role, status_found, patch_status, delete_found,
  delete_user, invalid_role,
}

module _ (t : Tables) (user_id : String) (u : User) (distinct : Unique (λ v. v.id) t.users)
    (found : get user_id t ≡ some u) (some_left : 1 ≤ count_active_admins t)
    (spared : is_last_admin u t ≡ false) where
  -- Changing the row of a user that the guard spares leaves an active admin.
  update-leaves : (f : User → User) → 1 ≤ count_active_admins (update_user user_id f t)
  unfolding count_active_admins is_last_admin update_user get
  update-leaves f = elim (Bool-cases (is_active_admin u)) [
    | inl e ↦
        omega
          (arith, more e, count-modify-le (λ v. v.id) user_id is_active_admin f t.users distinct)
    | inr e ↦
        omega
          (arith, count-modify_off (λ v. v.id) user_id is_active_admin f t.users u distinct found e)
  ]
    where
      more : is_active_admin u ≡ true → 2 ≤ length (keep is_active_admin t.users)
      more e = ground arith

  delete-leaves : 1 ≤ count_active_admins (Users.delete user_id t)
  unfolding count_active_admins is_last_admin Users.delete get
  delete-leaves = elim (Bool-cases (is_active_admin u)) [
    | inl e ↦
        omega (arith, more e, count-delete-le (λ v. v.id) user_id is_active_admin t.users distinct)
    | inr e ↦
        omega
          (arith, count-delete_off (λ v. v.id) user_id is_active_admin t.users u distinct found e)
  ]
    where
      more : is_active_admin u ≡ true → 2 ≤ length (keep is_active_admin t.users)
      more e = ground arith

-- The routes that may take an admin away.
pub data AdminOp : Type 0 where
  changes_role : String → String → String → AdminOp
  changes_status : ℕ → String → String → String → AdminOp
  deletes : String → String → AdminOp

-- The ids are distinct and an active admin is left.
pub record HasAdmin (t : Tables) : Type 0 where
  pub distinct : Unique (λ u. u.id) t.users
  pub left : 1 ≤ count_active_admins t

role_kept :
    (u : User) → is_active_admin u ≡ true → is_active_admin (record u { role = "admin" }) ≡ true
role_kept u h = ground arith

status_kept :
    (u : User) → is_active_admin u ≡ true → is_active_admin (record u { status = "active" }) ≡ true
status_kept u h = ground arith

update-HasAdmin :
    (t : Tables) (user_id : String) (f : User → User)
    → ((u : User) → (f u).id ≡ u.id)
    → HasAdmin t
    → 1 ≤ count_active_admins (update_user user_id f t)
    → HasAdmin (update_user user_id f t)
unfolding update_user
update-HasAdmin t user_id f k h left = record {
  distinct = Unique-modify (λ u. u.id) (λ u. u.id == user_id) f t.users k h.distinct;
  left = left;
}

update_mono :
    (t : Tables) (user_id : String) (f : User → User)
    → ((u : User) → is_active_admin u ≡ true → is_active_admin (f u) ≡ true)
    → HasAdmin t
    → 1 ≤ count_active_admins (update_user user_id f t)
unfolding update_user count_active_admins
update_mono t user_id f k h =
    omega (arith, h.left, count-modify_mono is_active_admin (λ u. u.id == user_id) f t.users k)

signed_out-HasAdmin :
    (now : ℕ) (user_id : String) (t : Tables)
    → HasAdmin t
    → HasAdmin (revoke_all_for_user now user_id t)
unfolding revoke_all_for_user revoke_where count_active_admins
signed_out-HasAdmin now user_id t h = record { distinct = h.distinct; left = h.left }

-- The change is made where the user is no last admin, or where it takes no admin away.
changed :
    (t : Tables) (user_id : String) (f : User → User) (u : User) (harmful : Bool)
    → ((v : User) → (f v).id ≡ v.id)
    → (harmful ≡ false → (v : User) → is_active_admin v ≡ true → is_active_admin (f v) ≡ true)
    → get user_id t ≡ some u
    → HasAdmin t
    → (harmful && is_last_admin u t) ≡ false
    → HasAdmin (update_user user_id f t)
changed t user_id f u true k safe e h spared =
    update-HasAdmin t user_id f k h (update-leaves t user_id u h.distinct e h.left spared f)
changed t user_id f u false k safe e h spared =
    update-HasAdmin t user_id f k h (update_mono t user_id f (safe refl) h)

module _ {F : Type 0} where
  unfoldable pub manage : AdminOp → Site F → Site F
  manage (changes_role actor user_id role) s = (patch_role actor user_id role s).1
  manage (changes_status now actor user_id status) s = (patch_status now actor user_id status s).1
  manage (deletes actor user_id) s = (delete_user actor user_id s).1

  unfoldable pub manage_all : List AdminOp → Site F → Site F
  manage_all [] s = s
  manage_all (op ∷ ops) s = manage_all ops (manage op s)

  role-keeps :
      (actor user_id role : String) (o : Option User) (s : Site F)
      → get user_id s.tables ≡ o
      → HasAdmin s.tables
      → HasAdmin (role_found actor user_id role o s).1.tables
  unfolding role_found set_role
  role-keeps actor user_id role none s e h = h
  role-keeps actor user_id role (some u) s e h =
      elim (Bool-cases (not (role == "admin") && is_last_admin u s.tables)) [
        | inl g ↦ rw g h
        | inr g ↦ rw g (
            changed s.tables user_id (λ v. record v { role = role }) u (not (role == "admin"))
              (λ v. refl) safe e h g)
      ]
    where
      safe :
          not (role == "admin") ≡ false
          → (v : User) → is_active_admin v ≡ true
          → is_active_admin (record v { role = role }) ≡ true
      safe n v a = ground arith

  status-keeps :
      (now : ℕ) (actor user_id status : String) (o : Option User) (s : Site F)
      → (status == "active" || status == "suspended") ≡ true
      → get user_id s.tables ≡ o
      → HasAdmin s.tables
      → HasAdmin (status_found now actor user_id status o s).1.tables
  unfolding status_found set_status
  status-keeps now actor user_id status none s valid e h = h
  status-keeps now actor user_id status (some u) s valid e h =
      elim (Bool-cases (status == "suspended")) [
        | inl c ↦ elim (Bool-cases (is_last_admin u s.tables)) [
          | inl g ↦ rw (c, g) h
          | inr g ↦
              rw (c, g)
                (changed (revoke_all_for_user now user_id s.tables) user_id
                  (λ v. record v { status = status }) u true (λ v. refl) (λ n. cc)
                  (unfold get revoke_all_for_user revoke_where in e)
                  (signed_out-HasAdmin now user_id s.tables h)
                  (unfold is_last_admin count_active_admins revoke_all_for_user revoke_where in g))
        ]
        | inr c ↦ rw c (
            changed s.tables user_id (λ v. record v { status = status }) u false (λ v. refl)
              (λ n. safe c) e h refl)
      ]
    where
      safe :
          (status == "suspended") ≡ false
          → (v : User) → is_active_admin v ≡ true
          → is_active_admin (record v { status = status }) ≡ true
      safe n v a = ground arith

  delete-keeps :
      (actor user_id : String) (o : Option User) (s : Site F)
      → get user_id s.tables ≡ o
      → HasAdmin s.tables
      → HasAdmin (delete_found actor user_id o s).1.tables
  unfolding delete_found
  delete-keeps actor user_id none s e h = h
  delete-keeps actor user_id (some u) s e h = elim (Bool-cases (is_last_admin u s.tables)) [
    | inl g ↦ rw g h
    | inr g ↦ rw g (record {
      distinct =
          unfold Users.delete in
          Unique-keep (λ v. v.id) (λ v. not (v.id == user_id)) s.tables.users h.distinct;
      left = delete-leaves s.tables user_id u h.distinct e h.left g;
    })
  ]

  either :
      (b : Bool) (x y : Reply F × Site F)
      → (b ≡ true → HasAdmin x.1.tables)
      → HasAdmin y.1.tables
      → HasAdmin (if b then x else y).1.tables
  either true x y h k = h refl
  either false x y h k = k

  manage-HasAdmin : (op : AdminOp) (s : Site F) → HasAdmin s.tables → HasAdmin (manage op s).tables
  unfolding manage patch_role patch_status delete_user
  manage-HasAdmin (changes_role actor user_id role) s h =
      either (member role roles) _ (invalid_role, s) (λ _. role-keeps actor user_id role _ s refl h)
        h
  manage-HasAdmin (changes_status now actor user_id status) s h =
      either (status == "active" || status == "suspended") _ (_, s)
        (λ valid. status-keeps now actor user_id status _ s valid refl h) h
  manage-HasAdmin (deletes actor user_id) s h = delete-keeps actor user_id _ s refl h

  -- Whatever changes of roles, changes of statuses and deletions are asked for, in any order: if the
  -- ids are distinct and an active admin is there before them, so it is after them.
  pub manage_all-HasAdmin :
      (ops : List AdminOp) (s : Site F) → HasAdmin s.tables → HasAdmin (manage_all ops s).tables
  unfolding manage_all
  manage_all-HasAdmin [] s h = h
  manage_all-HasAdmin (op ∷ ops) s h =
      manage_all-HasAdmin ops (manage op s) (manage-HasAdmin op s h)
