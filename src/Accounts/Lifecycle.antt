-- ===== src/Accounts/Lifecycle.antt =====
-- Every operation of the account stores, and every sequence of them: what holds of all sessions.
use criptotrade.Base.{
  ℕ, ltb, ◌≡◌, refl, String, ◌==◌, Bool, true, not, ◌||◌, Option, none, some, is_some, List, ◌++◌,
  keep, [], ◌∷◌, Bool-cases, Option-cases, inl, inr, arith,
}
use criptotrade.Base.Rows.{first, modify}
use criptotrade.Accounts.{Tables, Session, Crypto}
use criptotrade.Accounts.Users
use criptotrade.Accounts.Users.{ProfileFields, update_user, consume_reset, create_reset}
use criptotrade.Accounts.Invites.{create_invite, refresh_invite, revoke_invite, accept_invite}
use criptotrade.Accounts.Sessions
use criptotrade.Accounts.Sessions.{
  SessionEnv, insert_session, Agent, Drawn, admits, stop, is_live, new_session, revoke_where,
  revoke, revoke_family, revoke_by_token, revoke_all_for_user, revoke_for_user, revoke_others,
  resolve, rotate, rotate_row, rotate_found, answer_rotated, with_refresh, ttls,
}

-- The calls that change the tables, each with the clock's reading and what is drawn.
pub data Op : Type 0 where
  open_session : Drawn → ℕ → String → Bool → Agent → Op
  resolve_token : ℕ → String → Op
  rotate_refresh : Drawn → ℕ → Agent → String → Op
  revoke_session : ℕ → String → Op
  revoke_token : ℕ → String → Op
  revoke_kin : ℕ → String → Op
  revoke_user : ℕ → String → Op
  revoke_own : ℕ → String → String → Op
  revoke_rest : ℕ → String → String → Op
  create_user : String → ℕ → String → String → Option String → Option String → String → String → Op
  set_password : String → String → String → Op
  touch_login : ℕ → String → Op
  update_profile : String → ProfileFields → Op
  set_prefs : String → String → Op
  set_totp : String → Option String → Bool → Option (List String) → Op
  update_backup_codes : String → List String → Op
  set_role : String → String → Op
  set_status : String → String → Op
  delete_user : String → Op
  ask_reset : String → ℕ → String → String → ℕ → Op
  use_reset : ℕ → String → Op
  invite : String → ℕ → String → String → String → String → ℕ → Op
  reinvite : ℕ → String → String → ℕ → Op
  uninvite : ℕ → String → Op
  accept : String → ℕ → String → String → String → String → Op

-- No row has the tokens of `s`.
pub record IsNew (s : Session) (xs : List Session) : Type 0 where
  pub new_token : first (λ r. r.token_hash == s.token_hash) xs ≡ none
  pub new_refresh : first (λ r. r.refresh_hash == s.refresh_hash) xs ≡ none

missing {ℓ} : {A : Type ℓ} (o : Option A) → not (is_some o) ≡ true → o ≡ none
missing none h = refl
missing (some a) h = cc

admits-IsNew : (s : Session) (t : Tables) → admits s t ≡ true → IsNew s t.sessions
unfolding admits
admits-IsNew s t h = record {
  new_token = missing _ (ground arith);
  new_refresh = missing _ (ground arith);
}

-- A call that raises leaves the tables as they were.
abbrev pub or_same : Tables → Option Tables → Tables
or_same t none = t
or_same t (some t') = t'

abbrev pub after {ℓ} : {A : Type ℓ} → Tables → Option (A × Tables) → Tables
after t none = t
after t (some (a, t')) = t'

module _ ⦃c : Crypto⦄ (env : SessionEnv) where
  unfoldable pub step : Op → Tables → Tables
  step (open_session d now user_id remember agent) t =
      or_same t (Sessions.create env d now user_id remember agent d.family t)
  step (resolve_token now token) t = (resolve env now token t).1
  step (rotate_refresh d now agent refresh) t = (rotate env d now agent refresh t).1
  step (revoke_session now session_id) t = revoke now session_id t
  step (revoke_token now token) t = revoke_by_token now token t
  step (revoke_kin now family_id) t = revoke_family now family_id t
  step (revoke_user now user_id) t = revoke_all_for_user now user_id t
  step (revoke_own now session_id user_id) t = (revoke_for_user now session_id user_id t).1
  step (revoke_rest now user_id session_id) t = (revoke_others now user_id session_id t).1
  step (create_user id now salt email password name role status) t =
      after t (Users.create id now salt email password name role status t)
  step (set_password salt user_id password) t = Users.set_password salt user_id password t
  step (touch_login now user_id) t = Users.touch_login now user_id t
  step (update_profile user_id p) t = Users.update_profile user_id p t
  step (set_prefs user_id text) t = Users.set_prefs user_id text t
  step (set_totp user_id secret enabled hashes) t = Users.set_totp user_id secret enabled hashes t
  step (update_backup_codes user_id hashes) t = Users.update_backup_codes user_id hashes t
  step (set_role user_id role) t = Users.set_role user_id role t
  step (set_status user_id status) t = Users.set_status user_id status t
  step (delete_user user_id) t = Users.delete user_id t
  step (ask_reset id now user_id token ttl) t = or_same t (create_reset id now user_id token ttl t)
  step (use_reset now token) t = (consume_reset now token t).1
  step (invite id now token email role by ttl) t =
      or_same t (create_invite id now token email role by ttl t)
  step (reinvite now token invite_id ttl) t = after t (refresh_invite now token invite_id ttl t)
  step (uninvite now invite_id) t = revoke_invite now invite_id t
  step (accept id now salt token name password) t =
      (accept_invite id now salt token name password t).1

  unfoldable pub run : List Op → Tables → Tables
  run [] t = t
  run (op ∷ ops) t = run ops (step op t)

  -- What an operation must give a session that it creates.
  abbrev pub Admits {κ} : (Session → Type κ) → Op → Type κ
  Admits P (open_session d now user_id remember agent) =
      P (new_session env d now user_id remember agent d.family)
  Admits P (rotate_refresh d now agent refresh) =
      (r : Session)
      → P r
      → is_live r ≡ true
      → P (new_session env d now r.user_id r.remember agent r.family_id)
  Admits P op = Unit

  pub record IsStable {κ} (P : Session → Type κ) : Type κ where
    pub stopped : (now : ℕ) (s : Session) → P s → P (stop now s)
    pub slid :
        (now : ℕ) (until : ℕ) (s : Session)
        → P s
        → P (record s { last_seen_at = now; idle_expires_at = until })

  -- How an operation changes the table of the sessions.
  pub data Change (op : Op) : List Session → List Session → Type 1 where
    unchanged : (xs : List Session) → Change op xs xs
    stopped_some :
        (now : ℕ) (p : Session → Bool) (xs : List Session) → Change op xs (modify p (stop now) xs)
    slid_some :
        (now until : ℕ) (p : Session → Bool) (xs : List Session)
        → Change op xs (modify p (λ s. record s { last_seen_at = now; idle_expires_at = until }) xs)
    removed : (p : Session → Bool) (xs : List Session) → Change op xs (keep p xs)
    opened :
        (xs : List Session) (s : Session)
        → IsNew s xs
        → ((P : Session → Type 0) → Admits P op → P s)
        → Change op xs (xs ++ s ∷ [])
    exchanged :
        (now : ℕ) (p q : Session → Bool) (xs : List Session) (r s : Session)
        → first q xs ≡ some r
        → IsNew s (modify p (stop now) xs)
        → ((P : Session → Type 0) → Admits P op → P r → P s)
        → Change op xs (modify p (stop now) xs ++ s ∷ [])

  pub create-Change :
      (op : Op) (s : Session) (t : Tables)
      → ((P : Session → Type 0) → Admits P op → P s)
      → Change op t.sessions (or_same t (insert_session s t)).sessions
  create-Change op s t k = elim (Bool-cases (admits s t)) [
    | inl e ↦ rw e (opened t.sessions s (admits-IsNew s t e) k)
    | inr e ↦ rw e (unchanged t.sessions)
  ]

  rotated-Change :
      (op : Op) (d : Drawn) (now : ℕ) (r s : Session) (q : Session → Bool) (t : Tables)
      → first q t.sessions ≡ some r
      → ((P : Session → Type 0) → Admits P op → P r → P s)
      → Change op t.sessions
          (answer_rotated d r.user_id
            (revoke now r.id t)
            (insert_session s (revoke now r.id t))).1.sessions
  unfolding revoke revoke_where
  rotated-Change op d now r s q t e k = elim (Bool-cases (admits s (revoke now r.id t))) [
    | inl f ↦ rw f (
        exchanged now (λ x. x.id == r.id) q t.sessions r s e (admits-IsNew s (revoke now r.id t) f)
          k)
    | inr f ↦ rw f (stopped_some now (λ x. x.id == r.id) t.sessions)
  ]

  pub rotate-Change :
      (d : Drawn) (now : ℕ) (agent : Agent) (refresh : String) (t : Tables)
      → Change
          (rotate_refresh d now agent refresh)
          t.sessions
          (rotate env d now agent refresh t).1.sessions
  unfolding rotate Sessions.create
  rotate-Change d now agent refresh t = elim (Option-cases (with_refresh refresh t)) [
    | inl e ↦ rw e (unchanged t.sessions)
    | inr (r, e) ↦ rw e (elim (Bool-cases (is_some r.revoked_at)) [
      | inl f ↦ rw f (unfold revoke_family revoke_where in stopped_some now _ t.sessions)
      | inr f ↦ rw f (elim (Bool-cases (ltb r.absolute_expires_at now)) [
        | inl g ↦ rw g (unchanged t.sessions)
        | inr g ↦ rw g (
            rotated-Change (rotate_refresh d now agent refresh) d now r
              (new_session env d now r.user_id r.remember agent r.family_id) _ t e
              (λ P a h. a r h (rw f refl)))
      ])
    ])
  ]

  pub resolve-Change :
      (now : ℕ) (token : String) (t : Tables)
      → Change (resolve_token now token) t.sessions (resolve env now token t).1.sessions
  unfolding resolve
  resolve-Change now token t =
      elim (Option-cases (first (λ s. s.token_hash == c.hash_token token) t.sessions)) [
        | inl e ↦ rw e (unchanged t.sessions)
        | inr (r, e) ↦ rw e (elim (Bool-cases (is_some r.revoked_at)) [
          | inl f ↦ rw f (unchanged t.sessions)
          | inr f ↦
              rw f (elim (Bool-cases (ltb r.idle_expires_at now || ltb r.absolute_expires_at now)) [
                | inl g ↦ rw g (unchanged t.sessions)
                | inr g ↦ rw g (slid_some now _ _ t.sessions)
              ])
        ])
      ]
