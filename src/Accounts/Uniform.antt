-- ===== src/Accounts/Uniform.antt =====
-- What a refused login tells, and what a password reset ends.
use criptotrade.Base.{
  ℕ, ◌≡◌, refl, sym, ◌⊎◌, String, ◌==◌, false, none, some, List, arith, All, inl, inr, Bool-cases,
}
use mathlib.Core.Path.{subst}
use criptotrade.Base.Rows.{first}
use criptotrade.Base.Float.{Float}
use criptotrade.Accounts.{Tables, User, Session, Crypto}
use criptotrade.Accounts.Security.{verify_password}
use criptotrade.Accounts.Users.{
  get_by_email, verify_login, plain_email, consume_reset, set_password, update_user,
}
use criptotrade.Accounts.Sessions.{SessionEnv, Drawn, resolve, revoke_all_for_user}
use criptotrade.Accounts.Lifecycle.{Op, run}
use criptotrade.Accounts.Kept.{HasDistinct, spend-sessions}
use criptotrade.Accounts.Lifetime.{Token≢, ended_forever, revoked_user-IsEnded}
use criptotrade.Accounts.Http.{Site, Request, LoginIn, client_ip}
use criptotrade.Accounts.Login.{login, login_as, login_allowed}
use criptotrade.Accounts.Routes.{reset_password, reset_for}

module _ ⦃c : Crypto⦄ where
  -- Why a login is refused: there is no account, it is not active, or the password is wrong.
  abbrev pub Refuses : String → String → Tables → Type 0
  Refuses email password t =
      (get_by_email email t ≡ none)
      ⊎ ((u : User) × (get_by_email email t ≡ some u)
          × (((u.status == "active") ≡ false) ⊎ (verify_password u.password_hash password ≡ false)))

  refused :
      (email password : String) (t : Tables)
      → Refuses email password t
      → verify_login email password t ≡ none
  unfolding verify_login
  refused email password t (inl e) = rw e refl
  refused email password t (inr (u, e, inl h)) = rw e (ground arith)
  refused email password t (inr (u, e, inr h)) = rw e (ground arith)

module _ {F : Type 0} ⦃fl : Float F⦄ ⦃c : Crypto⦄ (env : SessionEnv) where
  -- Two logins that are refused, each for any reason, on sites that differ in their account tables
  -- only: the answers are the same, and so are the limiter, the challenges, the ledger and the mails
  -- afterwards; the tables are left as they were.
  pub refused_alike :
      (r : Request F) (body : LoginIn) (d d' : Drawn) (challenge challenge' : String) (s : Site F)
      (t : Tables)
      → Refuses (plain_email body.email) body.password s.tables
      → Refuses (plain_email body.email) body.password t
      → let (reply, after) = login env r body d challenge s in
        (login env r body d' challenge' (record s { tables = t })
          ≡ (reply, record after { tables = t }))
        × (after.tables ≡ s.tables)
  unfolding login login_as login_allowed
  refused_alike r body d d' challenge challenge' s t h k =
      let allowed = (login_allowed r.monotonic (client_ip r) (plain_email body.email) s).0 in
      elim (Bool-cases allowed) [
        | inl a ↦
            rw
              (
                a,
                refused (plain_email body.email) body.password s.tables h,
                refused (plain_email body.email) body.password t k,
              )
              (refl, refl)
        | inr a ↦ rw a (refl, refl)
      ]

module _ ⦃c : Crypto⦄ where
  set_up :
      (salt token new_password user_id : String) (now : ℕ) (t : Tables)
      → (set_password salt user_id new_password (consume_reset now token t).1).sessions ≡ t.sessions
  unfolding consume_reset set_password update_user
  set_up salt token new_password user_id now t = spend-sessions now _ t

module _ {F : Type 0} ⦃c : Crypto⦄ (env : SessionEnv) where
  -- A password reset with a valid token ends every session of the user: a session token that was
  -- issued to the user answers no session after any operations that draw other session tokens.
  pub reset_ends_sessions :
      (r : Request F) (salt token new_password user_id old : String) (s : Site F)
      (session : Session) (ops : List Op) (later : ℕ)
      → HasDistinct env s.tables.sessions
      → (consume_reset r.now token s.tables).0 ≡ some user_id
      → first (λ x. x.token_hash == c.hash_token old) s.tables.sessions ≡ some session
      → session.user_id ≡ user_id
      → All (Token≢ old) ops
      → (resolve env later old
          (run env ops (reset_password r salt token new_password s).1.tables)).0
        ≡ none
  unfolding reset_password reset_for
  reset_ends_sessions r salt token new_password user_id old s session ops later u e f own n =
      let t' = set_password salt user_id new_password (consume_reset r.now token s.tables).1 in
      let at = sym (set_up salt token new_password user_id r.now s.tables) in
      rw e (
        ended_forever env ops later old (revoke_all_for_user r.now user_id t')
          (revoked_user-IsEnded env r.now user_id old t' session (subst (HasDistinct env) at u)
            (subst (λ xs. first (λ x. x.token_hash == c.hash_token old) xs ≡ some session) at f)
            own)
          n)
