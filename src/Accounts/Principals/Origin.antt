-- ===== src/Accounts/Principals/Origin.antt =====
-- Where the principal of `resolve_principal` in src/api/authn.py comes from.
use criptotrade.Base.{
  ℕ, ◌≤◌, String, ◌==◌, eq_iff, ◌≡◌, refl, sym, ap, ◌∙◌, arith, Bool, true, none, some,
  if◌then◌else◌, Bool-cases, Option-cases, inl, inr,
}
use criptotrade.Base.Text.{truthy}
use mathlib.Core.List.{Mem}
use criptotrade.Base.Rows.{first, listed_first}
use criptotrade.Access.{Principal}
use criptotrade.Access.Sets.{member}
use criptotrade.Accounts.{Tables, User, Session, Crypto}
use criptotrade.Accounts.Users.{get}
use criptotrade.Accounts.Sessions.{SessionEnv, resolve, slide}
use criptotrade.Accounts.Principals.{
  PlatformKey, Credentials, Registers, fits, machine, of_key, of_user, fallback, resolve_key,
  by_cookie, resolve_principal,
}

module _ ⦃c : Crypto⦄ (env : SessionEnv) where
  -- How a principal was earned: by a key of the environment; by a stored platform key with the hash
  -- of the key that was given, which is not revoked; by a stored session with the hash of the cookie,
  -- which is neither revoked nor past its idle or absolute time, of a stored user who is active; or
  -- not at all.
  pub data Earned (q : Credentials) (w : Registers) : Principal → Type 0 where
    by_env : member q.provided q.valid_api_keys ≡ true → Earned q w machine
    by_platform_key :
        (k : PlatformKey)
        → Mem k w.keys
        → k.key_hash ≡ c.hash_token q.provided
        → k.revoked_at ≡ none
        → Earned q w (of_key k)
    by_session :
        (x : Session) (u : User)
        → Mem x w.tables.sessions
        → x.token_hash ≡ c.hash_token q.session_cookie
        → x.revoked_at ≡ none
        → q.now ≤ x.idle_expires_at
        → q.now ≤ x.absolute_expires_at
        → Mem u w.tables.users
        → u.id ≡ x.user_id
        → u.status ≡ "active"
        → Earned q w (of_user u)
    not_at_all : Earned q w (fallback q.mode)

  key-Earned :
      (q : Credentials) (w : Registers) (k : PlatformKey)
      → first (fits q.provided) w.keys ≡ some k
      → Earned q w (of_key k)
  key-Earned q w k e =
      let (listed, at) = listed_first (fits q.provided) w.keys k e in
      let hash : (k.key_hash == c.hash_token q.provided) ≡ true = (ground arith) in
      by_platform_key k listed ((eq_iff _ _).0 hash) (ground arith)

  -- The session that answers is stored and live, and the users stay as they are.
  session_stored :
      (now : ℕ) (token : String) (t : Tables) (x : Session)
      → (resolve env now token t).0 ≡ some x
      → Mem x t.sessions
        × (x.token_hash ≡ c.hash_token token)
        × (x.revoked_at ≡ none)
        × (now ≤ x.idle_expires_at)
        × (now ≤ x.absolute_expires_at)
        × ((resolve env now token t).1.users ≡ t.users)
  unfolding resolve
  session_stored now token t x h =
      let p : Session → Bool = λ s. s.token_hash == c.hash_token token in
      elim (Option-cases (first p t.sessions)) [
        | inl e ↦ let told : none ≡ some x = sym (rw e refl) ∙ h in cc told
        | inr (r, e) ↦
            let (listed, at) = listed_first p t.sessions r e in
            let answer : (slide env now r t).0 ≡ some x = sym (rw e refl) ∙ h in
            let same : r ≡ x = (ground arith) in
            rw (e, ← same)
              (listed, (eq_iff _ _).0 at, ground arith, ground arith, ground arith, ground arith)
      ]

  of_active :
      (q : Credentials) (w w' : Registers) (x : Session) (u : User)
      → w'.tables ≡ w.tables
      → (resolve env q.now q.session_cookie w.tables).0 ≡ some x
      → get x.user_id (resolve env q.now q.session_cookie w.tables).1 ≡ some u
      → Earned q w (if u.status == "active" then of_user u else fallback q.mode)
  unfolding get
  of_active q w w' x u same e f = elim (Bool-cases (u.status == "active")) [
    | inl g ↦
        let (listed, hash, live, idle, absolute, users) =
          session_stored q.now q.session_cookie w.tables x e in
        let (stored, owner) =
          listed_first (λ v. v.id == x.user_id) w.tables.users u
            (ap (first (λ v. v.id == x.user_id)) (sym users) ∙ f) in
        rw g (
          by_session x u listed hash live idle absolute stored ((eq_iff _ _).0 owner)
            ((eq_iff _ _).0 g))
    | inr g ↦ rw g not_at_all
  ]

  cookie-Earned :
      (q : Credentials) (w w' : Registers)
      → w'.tables ≡ w.tables
      → Earned q w (by_cookie env q w').0
  unfolding by_cookie
  cookie-Earned q w w' same = elim (Bool-cases (truthy q.session_cookie)) [
    | inr e ↦ rw e not_at_all
    | inl e ↦
        rw (e, same)
          (elim (Option-cases (resolve env q.now q.session_cookie w.tables).0) [
            | inl f ↦ rw f not_at_all
            | inr (x, f) ↦
                elim (Option-cases
                  (get x.user_id (resolve env q.now q.session_cookie w.tables).1)) [
                    | inl g ↦ rw (f, g) not_at_all
                    | inr (u, g) ↦ rw (f, g) (of_active q w w' x u same f g)
                  ]
          ])
  ]

  -- Every principal of a request was earned: a machine by a key of the environment, or by a stored
  -- platform key with the hash of the key that was given, which is not revoked, with the role of that
  -- key; a user by a stored session with the hash of the cookie, which is not revoked and within its
  -- idle and absolute time, the user being stored and active, with the stored role; in every other case
  -- it is the principal of the mode.
  pub resolve_principal-Earned :
      (q : Credentials) (w : Registers) → Earned q w (resolve_principal env q w).0
  unfolding resolve_principal resolve_key
  resolve_principal-Earned q w = elim (Bool-cases (truthy q.provided)) [
    | inr e ↦ rw e (cookie-Earned q w w refl)
    | inl e ↦ elim (Bool-cases (member q.provided q.valid_api_keys)) [
      | inl f ↦ rw (e, f) (by_env f)
      | inr f ↦ elim (Option-cases (first (fits q.provided) w.keys)) [
        | inl g ↦ rw (e, f, g) (cookie-Earned q w _ refl)
        | inr (k, g) ↦ rw (e, f, g) (key-Earned q w k g)
      ]
    ]
  ]
