-- ===== src/Accounts/Kept.antt =====
-- What every sequence of operations keeps of the sessions: predicates on rows, and distinct tokens.
use criptotrade.Base.{
  ℕ, ◌≡◌, refl, ◌∙◌, String, Bool, Option, none, some, List, [], ◌∷◌, ◌++◌, All, All-append, arith,
}
use criptotrade.Base.Rows.{
  modify, All-modify, All-keep, All-first, Unique, Unique-append, Unique-modify, Unique-keep,
}
use criptotrade.Accounts.{Tables, Session, Invite, Reset, Crypto}
use criptotrade.Accounts.Users
use criptotrade.Accounts.Users.{get_by_email, create_row, spend_found, consume_reset, create_reset}
use criptotrade.Accounts.Invites.{
  create_invite, refresh_invite, revoke_invite, accept_invite, join, claim_found, refresh_found,
}
use criptotrade.Accounts.Sessions
use criptotrade.Accounts.Sessions.{
  SessionEnv, stop, revoke_where, revoke, revoke_family, revoke_by_token, revoke_all_for_user,
  revoke_for_user, revoke_others, insert_session,
}
use criptotrade.Accounts.Lifecycle.{
  Op, open_session, resolve_token, rotate_refresh, revoke_session, revoke_token, revoke_kin,
  revoke_user, revoke_own, revoke_rest, create_user, set_password, touch_login, update_profile,
  set_prefs, set_totp, update_backup_codes, set_role, set_status, delete_user, ask_reset, use_reset,
  invite, reinvite, uninvite, accept, step, run, Change, unchanged, stopped_some, slid_some,
  removed, opened, exchanged, Admits, IsStable, IsNew, create-Change, rotate-Change, resolve-Change,
  after,
}

module _ ⦃c : Crypto⦄ where
  create-sessions :
      (id : String) (now : ℕ) (salt email : String) (password name : Option String)
      (role status : String) (t : Tables)
      → (after t (Users.create id now salt email password name role status t)).sessions ≡ t.sessions
  unfolding Users.create create_row
  create-sessions id now salt email password name role status t = ground arith

  claim-sessions :
      (now : ℕ) (i : Option Invite) (t : Tables) → (claim_found now i t).1.sessions ≡ t.sessions
  claim-sessions now none t = refl
  claim-sessions now (some i) t = ground arith

  join-sessions :
      (id : String) (now : ℕ) (salt name password : String) (i : Option Invite) (t : Tables)
      → (join id now salt name password (i, t)).1.sessions ≡ t.sessions
  unfolding Users.create create_row
  join-sessions id now salt name password none t = refl
  join-sessions id now salt name password (some i) t = ground arith

  reinvite-sessions :
      (now : ℕ) (token : String) (ttl : ℕ) (i : Option Invite) (t : Tables)
      → (after t (refresh_found now token ttl i t)).sessions ≡ t.sessions
  reinvite-sessions now token ttl none t = refl
  reinvite-sessions now token ttl (some i) t = ground arith

  pub spend-sessions :
      (now : ℕ) (r : Option Reset) (t : Tables) → (spend_found now r t).1.sessions ≡ t.sessions
  spend-sessions now none t = refl
  spend-sessions now (some r) t = ground arith

  accept-sessions :
      (id : String) (now : ℕ) (salt token name password : String) (t : Tables)
      → (accept_invite id now salt token name password t).1.sessions ≡ t.sessions
  unfolding accept_invite
  accept-sessions id now salt token name password t =
      join-sessions id now salt name password _ _ ∙ claim-sessions now _ t

module _ ⦃c : Crypto⦄ (env : SessionEnv) where
  same : (op : Op) (xs ys : List Session) → ys ≡ xs → Change env op xs ys
  same op xs ys e = rw e (unchanged xs)

  pub step-Change : (op : Op) (t : Tables) → Change env op t.sessions (step env op t).sessions
  unfolding step
  step-Change (open_session d now user_id remember agent) t =
      unfold Sessions.create in create-Change env _ _ t (λ P a. a)
  step-Change (resolve_token now token) t = resolve-Change env now token t
  step-Change (rotate_refresh d now agent refresh) t = rotate-Change env d now agent refresh t
  step-Change (revoke_session now session_id) t =
      unfold revoke revoke_where in stopped_some now _ t.sessions
  step-Change (revoke_token now token) t =
      unfold revoke_by_token revoke_where in stopped_some now _ t.sessions
  step-Change (revoke_kin now family_id) t =
      unfold revoke_family revoke_where in stopped_some now _ t.sessions
  step-Change (revoke_user now user_id) t =
      unfold revoke_all_for_user revoke_where in stopped_some now _ t.sessions
  step-Change (revoke_own now session_id user_id) t =
      unfold revoke_for_user revoke_where in stopped_some now _ t.sessions
  step-Change (revoke_rest now user_id session_id) t =
      unfold revoke_others revoke_where in stopped_some now _ t.sessions
  step-Change (create_user id now salt email password name role status) t =
      same _ _ _ (create-sessions id now salt email password name role status t)
  step-Change (set_password salt user_id password) t =
      unfold Users.set_password in unchanged t.sessions
  step-Change (touch_login now user_id) t = unfold Users.touch_login in unchanged t.sessions
  step-Change (update_profile user_id p) t = unfold Users.update_profile in unchanged t.sessions
  step-Change (set_prefs user_id text) t = unfold Users.set_prefs in unchanged t.sessions
  step-Change (set_totp user_id secret enabled hashes) t =
      unfold Users.set_totp in unchanged t.sessions
  step-Change (update_backup_codes user_id hashes) t =
      unfold Users.update_backup_codes in unchanged t.sessions
  step-Change (set_role user_id role) t = unfold Users.set_role in unchanged t.sessions
  step-Change (set_status user_id status) t = unfold Users.set_status in unchanged t.sessions
  step-Change (delete_user user_id) t = unfold Users.delete in removed _ t.sessions
  step-Change (ask_reset id now user_id token ttl) t =
      same _ _ _ (unfold create_reset in (ground arith))
  step-Change (use_reset now token) t = same _ _ _ (unfold consume_reset in spend-sessions now _ t)
  step-Change (invite id now token email role by ttl) t =
      same _ _ _ (unfold create_invite in (ground arith))
  step-Change (reinvite now token invite_id ttl) t =
      same _ _ _ (unfold refresh_invite in reinvite-sessions now token ttl _ t)
  step-Change (uninvite now invite_id) t = unfold revoke_invite in unchanged t.sessions
  step-Change (accept id now salt token name password) t =
      same _ _ _ (accept-sessions id now salt token name password t)

  -- A predicate that the updates keep and that new sessions have holds of all sessions.
  All-Change :
      (P : Session → Type 0) (op : Op) (xs ys : List Session)
      → IsStable env P
      → Admits env P op
      → Change env op xs ys
      → All P xs
      → All P ys
  All-Change P op xs ys k a (unchanged _) h = h
  All-Change P op xs ys k a (stopped_some now p _) h =
      All-modify P p (stop now) xs (k.stopped now) h
  All-Change P op xs ys k a (slid_some now until p _) h = All-modify P p _ xs (k.slid now until) h
  All-Change P op xs ys k a (removed p _) h = All-keep P p xs h
  All-Change P op xs ys k a (opened _ s new make) h = All-append P xs (s ∷ []) h (make P a, tt)
  All-Change P op xs ys k a (exchanged now p q _ r s e new make) h =
      All-append P (modify p (stop now) xs) (s ∷ [])
        (All-modify P p (stop now) xs (k.stopped now) h) (make P a (All-first P q xs r h e).0, tt)

  pub All-run :
      (P : Session → Type 0) (ops : List Op) (t : Tables)
      → IsStable env P
      → All (Admits env P) ops
      → All P t.sessions
      → All P (run env ops t).sessions
  unfolding run
  All-run P [] t k a h = h
  All-run P (op ∷ ops) t k a h =
      All-run P ops (step env op t) k a.1 (All-Change P op _ _ k a.0 (step-Change op t) h)

  -- The session tokens and the refresh tokens are distinct.
  pub record HasDistinct (xs : List Session) : Type 0 where
    pub tokens : Unique (λ s. s.token_hash) xs
    pub refreshes : Unique (λ s. s.refresh_hash) xs

  pub run-HasDistinct :
      (ops : List Op) (t : Tables) → HasDistinct t.sessions → HasDistinct (run env ops t).sessions
  unfolding run
  run-HasDistinct [] t h = h
  run-HasDistinct (op ∷ ops) t h =
      run-HasDistinct ops (step env op t) (keeps _ _ (step-Change op t) h)
    where
      modified :
          (p : Session → Bool) (f : Session → Session) (xs : List Session)
          → ((s : Session) → (f s).token_hash ≡ s.token_hash)
          → ((s : Session) → (f s).refresh_hash ≡ s.refresh_hash)
          → HasDistinct xs
          → HasDistinct (modify p f xs)
      modified p f xs k l h = record {
        tokens = Unique-modify (λ s. s.token_hash) p f xs k h.tokens;
        refreshes = Unique-modify (λ s. s.refresh_hash) p f xs l h.refreshes;
      }

      extended :
          (xs : List Session) (s : Session)
          → IsNew s xs
          → HasDistinct xs
          → HasDistinct (xs ++ s ∷ [])
      extended xs s n h = record {
        tokens = Unique-append (λ s. s.token_hash) xs s h.tokens n.new_token;
        refreshes = Unique-append (λ s. s.refresh_hash) xs s h.refreshes n.new_refresh;
      }

      keeps : (xs ys : List Session) → Change env op xs ys → HasDistinct xs → HasDistinct ys
      keeps xs ys (unchanged _) h = h
      keeps xs ys (stopped_some now p _) h = modified p (stop now) xs (λ s. refl) (λ s. refl) h
      keeps xs ys (slid_some now until p _) h = modified p _ xs (λ s. refl) (λ s. refl) h
      keeps xs ys (removed p _) h = record {
        tokens = Unique-keep (λ s. s.token_hash) p xs h.tokens;
        refreshes = Unique-keep (λ s. s.refresh_hash) p xs h.refreshes;
      }
      keeps xs ys (opened _ s new make) h = extended xs s new h
      keeps xs ys (exchanged now p q _ r s e new make) h =
          extended _ s new (modified p (stop now) xs (λ s. refl) (λ s. refl) h)
