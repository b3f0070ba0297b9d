-- ===== src/Accounts/Factors.antt =====
-- When the login routes open a session: never past a second factor that was not given.
use criptotrade.Base.{
  ◌≡◌, refl, sym, ap, ◌∙◌, ◌⊎◌, String, ◌==◌, eq_iff, Bool, true, false, none, some, List, arith,
  inl, inr, Bool-cases, Option-cases,
}
use mathlib.Core.Option.{some-injective}
use criptotrade.Base.Dict.{Dict, lookup}
use criptotrade.Base.Dict.Keys.{IsDict, IsDict-keep, lookup-keep, lookup-remove}
use criptotrade.Ledger.Payload.{Json}
use criptotrade.Accounts.Sessions
use criptotrade.Base.Float.{Float}
use criptotrade.Accounts.{Tables, User, Crypto}
use criptotrade.Accounts.Security.{verify_password, consume_backup_code}
use criptotrade.Accounts.Users.{get, get_by_email, verify_login, active_user, plain_email}
use criptotrade.Accounts.Sessions.{SessionEnv, Drawn}
use criptotrade.Accounts.Http.{
  Site, Request, LoginIn, TwoFactorVerifyIn, Challenge, totp_ok, or_empty, hashes_of, client_ip,
  agent_of, log_event,
}
use criptotrade.Accounts.Login.{
  login, login_as, login_allowed, challenge_user, prune_challenges, two_factor_verify, verify_entry,
  verify_user, verify_backup, issue_session,
}

module _ ⦃c : Crypto⦄ where
  pub verify_login_user :
      (email password : String) (t : Tables) (u : User)
      → verify_login email password t ≡ some u
      → (get_by_email email t ≡ some u)
        × (verify_password u.password_hash password ≡ true)
        × ((u.status == "active") ≡ true)
  unfolding verify_login
  verify_login_user email password t u h = elim (Option-cases (get_by_email email t)) [
    | inl e ↦ let told : none ≡ some u = sym (rw e refl) ∙ h in cc told
    | inr (v, e) ↦
        let told : active_user v password ≡ some u = sym (rw e refl) ∙ h in
        let same : v ≡ u = (ground arith) in rw (← same) (e, ground arith, ground arith)
  ]

module _ {F : Type 0} ⦃fl : Float F⦄ ⦃c : Crypto⦄ (env : SessionEnv) where
  login_as-sessions :
      (r : Request F) (body : LoginIn) (d : Drawn) (challenge : String) (u v : User) (s : Site F)
      → u.totp_enabled ≡ true
      → v ≡ u
      → (login_as env r body d challenge (some v) s).1.tables.sessions ≡ s.tables.sessions
  unfolding login_as challenge_user prune_challenges
  login_as-sessions r body d challenge u v s h same = rw (same, h) refl

  -- A login with the password alone opens no session for an account with a second factor: the table
  -- of the sessions stays as it is.
  pub login_keeps_sessions :
      (r : Request F) (body : LoginIn) (d : Drawn) (challenge : String) (s : Site F) (u : User)
      → get_by_email (plain_email body.email) s.tables ≡ some u
      → u.totp_enabled ≡ true
      → (login env r body d challenge s).1.tables.sessions ≡ s.tables.sessions
  unfolding login login_allowed
  login_keeps_sessions r body d challenge s u e h =
      let (allowed, s') = login_allowed r.monotonic (client_ip r) (plain_email body.email) s in
      elim (Bool-cases allowed) [
        | inl a ↦
            rw a
              (elim (Option-cases (verify_login (plain_email body.email) body.password s.tables)) [
                | inl f ↦ rw f (unfold login_as in refl)
                | inr (v, f) ↦
                    let found =
                      (verify_login_user (plain_email body.email) body.password s.tables v f).0 in
                    let same : v ≡ u = some-injective _ _ (sym found ∙ e) in
                    rw f (login_as-sessions r body d challenge u v s' h same)
              ])
        | inr a ↦ rw a refl
      ]

  -- What the second step has seen when it opens a session: a challenge that was pending and is not
  -- expired, its user, who is stored and active, and a time-based code or a backup code of the user.
  pub record HasCode (r : Request F) (body : TwoFactorVerifyIn) (s : Site F) : Type 0 where
    pub entry : Challenge F
    pub pending : lookup (c.hash_token body.challenge) s.challenges ≡ some entry
    pub fresh : fl.lt entry.expires r.monotonic ≡ false
    pub user : User
    pub stored : get entry.user_id s.tables ≡ some user
    pub active : user.status ≡ "active"
    pub proved :
        (totp_ok (c.decrypt (or_empty user.totp_secret_enc)) body.totp_code ≡ true)
        ⊎ ((rest : List String) × (consume_backup_code (hashes_of user.backup_codes) body.totp_code
              ≡ some rest))

  -- The challenge is not pending any more.
  abbrev pub IsUsed : TwoFactorVerifyIn → Site F → Type 0
  IsUsed body s = lookup (c.hash_token body.challenge) s.challenges ≡ none

  issue_session-challenges :
      (r : Request F) (u : User) (d : Drawn) (remember : Bool) (detail : String)
      (body : Site F → Dict (Json F)) (s : Site F)
      → (issue_session env r u d remember
          (log_event "login" u.email (some u.email) r true (some detail))
          body
          s).1.challenges
        ≡ s.challenges
  unfolding issue_session
  issue_session-challenges r u d remember detail body s =
      elim (Option-cases
        (Sessions.create env d r.now u.id remember (agent_of r) d.family s.tables)) [
          | inl e ↦ rw e refl
          | inr (t, e) ↦ rw e refl
        ]

  -- Where no two pending challenges share a hash: if the second step changes the sessions at all, it
  -- has seen a pending challenge that is not expired, an active user and a valid code, and the
  -- challenge is used up: it is not pending afterwards. In every other case the table of the sessions
  -- stays as it is.
  pub two_factor_verify-HasCode :
      (r : Request F) (body : TwoFactorVerifyIn) (d : Drawn) (s : Site F)
      → IsDict s.challenges
      → let after = (two_factor_verify env r body d s).1 in
        (after.tables.sessions ≡ s.tables.sessions) ⊎ (HasCode r body s × IsUsed body after)
  unfolding two_factor_verify verify_entry verify_user verify_backup prune_challenges
  two_factor_verify-HasCode r body d s keys =
      let hash = c.hash_token body.challenge in
      let s' = prune_challenges r.monotonic s in
      let gone = lookup-remove hash s'.challenges (IsDict-keep _ s.challenges keys) in
      elim (Option-cases (lookup hash s'.challenges)) [
        | inl e ↦ rw e (inl refl)
        | inr (entry, e) ↦
            let (pending, kept) = lookup-keep _ hash entry s.challenges keys e in
            let fresh : fl.lt entry.expires r.monotonic ≡ false = (ground arith) in
            elim (Option-cases (get entry.user_id s.tables)) [
              | inl f ↦ rw (e, f) (inl refl)
              | inr (u, f) ↦ elim (Bool-cases (u.status == "active")) [
                | inr g ↦ rw (e, f, g) (inl refl)
                | inl g ↦
                    let seen : (totp_ok (c.decrypt (or_empty u.totp_secret_enc)) body.totp_code
                            ≡ true)
                          ⊎ ((rest : List String) × (consume_backup_code (hashes_of u.backup_codes)
                                  body.totp_code
                                ≡ some rest))
                        → HasCode r body s =
                      λ proved. record {
                        entry = entry;
                        pending = pending;
                        fresh = fresh;
                        user = u;
                        stored = f;
                        active = (eq_iff _ _).0 g;
                        proved = proved;
                      } in
                    elim (Bool-cases
                      (totp_ok (c.decrypt (or_empty u.totp_secret_enc)) body.totp_code)) [
                        | inl h ↦
                            rw (e, f, g, h)
                              (inr (
                                seen (inl h),
                                ap (lookup hash) (issue_session-challenges r u d _ _ _ _) ∙ gone,
                              ))
                        | inr h ↦
                            elim (Option-cases
                              (consume_backup_code (hashes_of u.backup_codes) body.totp_code)) [
                                | inl k ↦ rw (e, f, g, h, k) (inl refl)
                                | inr (rest, k) ↦
                                    rw (e, f, g, h, k)
                                      (inr (
                                        seen (inr (rest, k)),
                                        ap (lookup hash) (issue_session-challenges r u d _ _ _ _)
                                            ∙ gone,
                                      ))
                              ]
                      ]
              ]
            ]
      ]
