-- ===== src/Accounts/Single.antt =====
-- A password-reset token of src/auth/store.py works once.
use criptotrade.Base.{
  ℕ, ◌≡◌, refl, ◌≢◌, sym, ◌∙◌, ap, String, ◌==◌, eq_iff, ◌&&◌, not, true, none, some, is_some,
  Option, List, ◌∷◌, [], arith, ltb, All, All-append, inl, inr, Bool-cases, Option-cases,
}
use criptotrade.Base.Rows.{first, All-first, All-modify, All-modified, All-keep, Unique, only_row}
use criptotrade.Accounts.{Tables, Session, Invite, Reset, Crypto}
use criptotrade.Accounts.Users
use criptotrade.Accounts.Users.{create_row, consume_reset, spend_found, create_reset}
use criptotrade.Accounts.Invites.{
  create_invite, refresh_invite, refresh_found, revoke_invite, accept_invite, join, claim_found,
}
use criptotrade.Accounts.Sessions
use criptotrade.Accounts.Sessions.{
  SessionEnv, Agent, Drawn, revoke_where, revoke, revoke_family, revoke_by_token,
  revoke_all_for_user, revoke_for_user, revoke_others, resolve, resolve_found, rotate, rotate_found,
}
use criptotrade.Accounts.Lifecycle.{
  Op, open_session, resolve_token, rotate_refresh, revoke_session, revoke_token, revoke_kin,
  revoke_user, revoke_own, revoke_rest, create_user, set_password, touch_login, update_profile,
  set_prefs, set_totp, update_backup_codes, set_role, set_status, delete_user, ask_reset, use_reset,
  invite, reinvite, uninvite, accept, step, run, after, or_same,
}

-- A reset with this token hash was used.
abbrev pub IsUsed : String → Reset → Type 0
IsUsed token_hash r = r.token_hash ≡ token_hash → is_some r.used_at ≡ true

-- The operation draws another reset token.
abbrev pub Reset≢ : ⦃c : Crypto⦄ → String → Op → Type 0
Reset≢ ⦃c⦄ token (ask_reset id now user_id drawn ttl) = c.hash_token drawn ≢ c.hash_token token
Reset≢ token op = Unit

module _ ⦃c : Crypto⦄ where
  abbrev Holds : String → Tables → Type 0
  Holds token t = All (IsUsed (c.hash_token token)) t.resets

  resolve-resets :
      (env : SessionEnv) (now : ℕ) (o : Option Session) (t : Tables)
      → (resolve_found env now o t).1.resets ≡ t.resets
  resolve-resets env now none t = refl
  resolve-resets env now (some r) t = ground arith

  rotate-resets :
      (env : SessionEnv) (d : Drawn) (now : ℕ) (agent : Agent) (o : Option Session) (t : Tables)
      → (rotate_found env d now agent o t).1.resets ≡ t.resets
  unfolding revoke revoke_where revoke_family Sessions.create
  rotate-resets env d now agent none t = refl
  rotate-resets env d now agent (some r) t = ground arith

  claim-resets :
      (now : ℕ) (i : Option Invite) (t : Tables) → (claim_found now i t).1.resets ≡ t.resets
  claim-resets now none t = refl
  claim-resets now (some i) t = ground arith

  join-resets :
      (id : String) (now : ℕ) (salt name password : String) (i : Option Invite) (t : Tables)
      → (join id now salt name password (i, t)).1.resets ≡ t.resets
  unfolding Users.create create_row
  join-resets id now salt name password none t = refl
  join-resets id now salt name password (some i) t = ground arith

  reinvite-resets :
      (now : ℕ) (token : String) (ttl : ℕ) (i : Option Invite) (t : Tables)
      → (after t (refresh_found now token ttl i t)).resets ≡ t.resets
  reinvite-resets now token ttl none t = refl
  reinvite-resets now token ttl (some i) t = ground arith

  kept :
      (token : String) (xs ys : List Reset)
      → ys ≡ xs
      → All (IsUsed (c.hash_token token)) xs
      → All (IsUsed (c.hash_token token)) ys
  kept token xs ys e h = rw e h

  asked :
      (id : String) (now : ℕ) (user_id drawn token : String) (ttl : ℕ) (t : Tables)
      → c.hash_token drawn ≢ c.hash_token token
      → Holds token t
      → Holds token (or_same t (create_reset id now user_id drawn ttl t))
  unfolding create_reset
  asked id now user_id drawn token ttl t n h =
      elim (Bool-cases (
        is_some (Users.get user_id t)
        && (not (is_some (first (λ s. s.id == id) t.resets))
            && not (is_some (first (λ s. s.token_hash == c.hash_token drawn) t.resets))))) [
              | inl e ↦ rw e (All-append _ t.resets (_ ∷ []) h ((λ same. absurd (n same)), tt))
              | inr e ↦ rw e h
            ]

  spent :
      (now : ℕ) (token : String) (o : Option Reset) (t : Tables)
      → Holds token t
      → Holds token (spend_found now o t).1
  spent now token none t h = h
  spent now token (some r) t h = elim (Bool-cases (is_some r.used_at)) [
    | inl e ↦ rw e h
    | inr e ↦ rw e (elim (Bool-cases (ltb r.expires_at now)) [
      | inl f ↦ rw f h
      | inr f ↦ rw f (All-modify (IsUsed (c.hash_token token)) _ _ t.resets (λ x k same. refl) h)
    ])
  ]

module _ ⦃c : Crypto⦄ (env : SessionEnv) where
  step-Holds :
      (token : String) (op : Op) (t : Tables)
      → Reset≢ token op
      → Holds token t
      → Holds token (step env op t)
  unfolding step
  step-Holds token (open_session d now user_id remember agent) t n h =
      kept token t.resets _ (unfold Sessions.create in (ground arith)) h
  step-Holds token (resolve_token now old) t n h =
      kept token t.resets _ (unfold resolve in resolve-resets env now _ t) h
  step-Holds token (rotate_refresh d now agent refresh) t n h =
      kept token t.resets _ (unfold rotate in rotate-resets env d now agent _ t) h
  step-Holds token (revoke_session now session_id) t n h = unfold revoke revoke_where in h
  step-Holds token (revoke_token now old) t n h = unfold revoke_by_token revoke_where in h
  step-Holds token (revoke_kin now family_id) t n h = unfold revoke_family revoke_where in h
  step-Holds token (revoke_user now user_id) t n h = unfold revoke_all_for_user revoke_where in h
  step-Holds token (revoke_own now session_id user_id) t n h =
      unfold revoke_for_user revoke_where in h
  step-Holds token (revoke_rest now user_id session_id) t n h =
      unfold revoke_others revoke_where in h
  step-Holds token (create_user id now salt email password name role status) t n h =
      kept token t.resets _ (unfold Users.create create_row in (ground arith)) h
  step-Holds token (set_password salt user_id password) t n h = unfold Users.set_password in h
  step-Holds token (touch_login now user_id) t n h = unfold Users.touch_login in h
  step-Holds token (update_profile user_id p) t n h = unfold Users.update_profile in h
  step-Holds token (set_prefs user_id text) t n h = unfold Users.set_prefs in h
  step-Holds token (set_totp user_id secret enabled hashes) t n h = unfold Users.set_totp in h
  step-Holds token (update_backup_codes user_id hashes) t n h =
      unfold Users.update_backup_codes in h
  step-Holds token (set_role user_id role) t n h = unfold Users.set_role in h
  step-Holds token (set_status user_id status) t n h = unfold Users.set_status in h
  step-Holds token (delete_user user_id) t n h = unfold Users.delete in All-keep _ _ t.resets h
  step-Holds token (ask_reset id now user_id drawn ttl) t n h =
      asked id now user_id drawn token ttl t n h
  step-Holds token (use_reset now old) t n h = unfold consume_reset in spent now token _ t h
  step-Holds token (invite id now drawn email role by ttl) t n h =
      kept token t.resets _ (unfold create_invite in (ground arith)) h
  step-Holds token (reinvite now drawn invite_id ttl) t n h =
      kept token t.resets _ (unfold refresh_invite in reinvite-resets now drawn ttl _ t) h
  step-Holds token (uninvite now invite_id) t n h = unfold revoke_invite in h
  step-Holds token (accept id now salt drawn name password) t n h =
      kept token t.resets _
        (unfold accept_invite in (join-resets id now salt name password _ _ ∙ claim-resets now _ t))
        h

  run-Holds :
      (token : String) (ops : List Op) (t : Tables)
      → All (Reset≢ token) ops
      → Holds token t
      → Holds token (run env ops t)
  unfolding run
  run-Holds token [] t n h = h
  run-Holds token (op ∷ ops) t n h =
      run-Holds token ops (step env op t) n.1 (step-Holds token op t n.0 h)

  spend-Holds :
      (now : ℕ) (token user_id : String) (r : Reset) (t : Tables)
      → (spend_found now (some r) t).0 ≡ some user_id
      → All (λ s. s.token_hash ≡ c.hash_token token → s ≡ r) t.resets
      → Holds token (spend_found now (some r) t).1
  spend-Holds now token user_id r t e only = elim (Bool-cases (is_some r.used_at)) [
    | inl f ↦ let told : none ≡ some user_id = sym (rw f refl) ∙ e in cc told
    | inr f ↦ elim (Bool-cases (ltb r.expires_at now)) [
      | inl g ↦ let told : none ≡ some user_id = sym (rw (f, g) refl) ∙ e in cc told
      | inr g ↦
          rw (f, g)
            (All-modified _ (IsUsed (c.hash_token token)) _ _ t.resets (λ s same _ h. refl)
              (λ s same off h. cc (off, (eq_iff s.id r.id).1 (ap (λ x. x.id) (same h)))) only)
    ]
  ]

  consume_none :
      (now : ℕ) (token : String) (t : Tables)
      → Holds token t
      → consume_reset now token t ≡ (none, t)
  unfolding consume_reset
  consume_none now token t h =
      elim (Option-cases (first (λ r. r.token_hash == c.hash_token token) t.resets)) [
        | inl e ↦ rw e refl
        | inr (r, e) ↦
            let (used, at) = All-first (IsUsed (c.hash_token token)) _ t.resets r h e in
            rw (e, used ((eq_iff _ _).0 at)) refl
      ]

  consume-Holds :
      (now : ℕ) (token user_id : String) (t : Tables)
      → Unique (λ r. r.token_hash) t.resets
      → (consume_reset now token t).0 ≡ some user_id
      → Holds token (consume_reset now token t).1
  unfolding consume_reset
  consume-Holds now token user_id t u e =
      elim (Option-cases (first (λ r. r.token_hash == c.hash_token token) t.resets)) [
        | inl f ↦ let told : none ≡ some user_id = sym (rw f refl) ∙ e in cc told
        | inr (r, f) ↦ rw f (
            spend-Holds now token user_id r t (sym (rw f refl) ∙ e)
              (only_row (λ s. s.token_hash) (c.hash_token token) t.resets r u f))
      ]

  -- A reset token that gave a user gives none again, whatever operations come between, if they draw
  -- other reset tokens and the stored hashes of tokens are distinct.
  pub consume_once :
      (now later : ℕ) (token user_id : String) (ops : List Op) (t : Tables)
      → Unique (λ r. r.token_hash) t.resets
      → (consume_reset now token t).0 ≡ some user_id
      → All (Reset≢ token) ops
      → (consume_reset later token (run env ops (consume_reset now token t).1)).0 ≡ none
  consume_once now later token user_id ops t u e n =
      rw
        (consume_none later token (run env ops (consume_reset now token t).1)
          (run-Holds token ops _ n (consume-Holds now token user_id t u e)))
        refl
