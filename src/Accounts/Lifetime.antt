-- ===== src/Accounts/Lifetime.antt =====
-- How long a session of src/auth/store.py answers: not after it was revoked, not after its absolute
-- time, which no use of it moves.
use criptotrade.Base.{
  ℕ, ◌+◌, ◌*◌, ◌≤◌, ◌≡◌, refl, ◌≢◌, sym, ◌∙◌, String, ◌==◌, eq_iff, true, false, none, some,
  is_some, List, arith, All, inl, inr, Option-cases,
}
use criptotrade.Base.Rows.{first, All-first, All-modified, All-map, All-tabulate}
use criptotrade.Accounts.{Tables, Session, Crypto, hour}
use criptotrade.Accounts.Sessions.{
  SessionEnv, Agent, Drawn, is_live, stop, ttls, resolve, slide, rotated, rotate_row, rotate,
  with_refresh, revoke_where, revoke_by_token, revoke_all_for_user,
}
use criptotrade.Accounts.Lifecycle.{Op, open_session, rotate_refresh, run, Admits}
use criptotrade.Accounts.Kept.{All-run, HasDistinct}
use criptotrade.Base.Rows.{only_row}

-- A session with this token hash is revoked.
abbrev pub IsEnded : String → Session → Type 0
IsEnded token_hash s = s.token_hash ≡ token_hash → is_live s ≡ false

-- The absolute time was set when the session was opened.
abbrev pub IsDated : SessionEnv → Session → Type 0
IsDated env s = s.absolute_expires_at ≡ s.created_at + (ttls env s.remember).absolute

-- The operation draws another session token.
abbrev pub Token≢ : ⦃c : Crypto⦄ → String → Op → Type 0
Token≢ ⦃c⦄ token (open_session d now user_id remember agent) =
    c.hash_token d.token ≢ c.hash_token token
Token≢ ⦃c⦄ token (rotate_refresh d now agent old) = c.hash_token d.token ≢ c.hash_token token
Token≢ token op = Unit

module _ ⦃c : Crypto⦄ (env : SessionEnv) where
  Admits-IsEnded :
      (token : String) (op : Op) → Token≢ token op → Admits env (IsEnded (c.hash_token token)) op
  Admits-IsEnded token (open_session d now user_id remember agent) n = λ e. absurd (n e)
  Admits-IsEnded token (rotate_refresh d now agent old) n = λ r h live e. absurd (n e)
  Admits-IsEnded token op n = tt

  Admits-IsDated : (op : Op) → Admits env (IsDated env) op
  Admits-IsDated (open_session d now user_id remember agent) = refl
  Admits-IsDated (rotate_refresh d now agent old) = λ r h live. refl
  Admits-IsDated op = tt

  resolve_ended :
      (now : ℕ) (token : String) (t : Tables)
      → All (IsEnded (c.hash_token token)) t.sessions
      → resolve env now token t ≡ (none, t)
  unfolding resolve
  resolve_ended now token t h =
      elim (Option-cases (first (λ s. s.token_hash == c.hash_token token) t.sessions)) [
        | inl e ↦ rw e refl
        | inr (r, e) ↦
            let (ended, at) = All-first (IsEnded (c.hash_token token)) _ t.sessions r h e in
            let gone = ended ((eq_iff _ _).0 at) in
            let marked : is_some r.revoked_at ≡ true = (ground arith) in rw (e, marked) refl
      ]

  -- Where the sessions with a token are revoked, the token answers no session after any operations
  -- that draw other session tokens.
  pub ended_forever :
      (ops : List Op) (now : ℕ) (token : String) (t : Tables)
      → All (IsEnded (c.hash_token token)) t.sessions
      → All (Token≢ token) ops
      → (resolve env now token (run env ops t)).0 ≡ none
  ended_forever ops now token t h n =
      rw
        (resolve_ended now token (run env ops t) (
          All-run env (IsEnded (c.hash_token token)) ops t
            (record { stopped = λ now s h e. refl; slid = λ now until s h. h })
            (All-map (Token≢ token) _ ops (Admits-IsEnded token) n) h))
        refl

  pub logout-IsEnded :
      (now : ℕ) (token : String) (t : Tables)
      → All (IsEnded (c.hash_token token)) (revoke_by_token now token t).sessions
  unfolding revoke_by_token revoke_where
  logout-IsEnded now token t =
      All-modified (λ s. Unit {0}) (IsEnded (c.hash_token token)) _ (stop now) t.sessions
        (λ s _ h e. refl) (λ s _ off e. cc (off, (eq_iff _ _).1 e))
        (All-tabulate _ t.sessions (λ s. tt))

  -- Revoking the user's sessions ends each token that was issued to the user.
  pub revoked_user-IsEnded :
      (now : ℕ) (user_id token : String) (t : Tables) (r : Session)
      → HasDistinct env t.sessions
      → first (λ s. s.token_hash == c.hash_token token) t.sessions ≡ some r
      → r.user_id ≡ user_id
      → All (IsEnded (c.hash_token token)) (revoke_all_for_user now user_id t).sessions
  unfolding revoke_all_for_user revoke_where
  revoked_user-IsEnded now user_id token t r u e own =
      All-modified _ (IsEnded (c.hash_token token)) _ (stop now) t.sessions (λ s _ h e. refl)
        (λ s same off e.
          let at : s.user_id ≡ user_id = cc (same e, own) in
          let hit = (eq_iff s.user_id user_id).1 at in ground arith)
        (only_row (λ s. s.token_hash) (c.hash_token token) t.sessions r u.tokens e)

  slide_inv :
      (now : ℕ) (r s : Session) (t : Tables)
      → (slide env now r t).0 ≡ some s
      → (r ≡ s) × (is_live r ≡ true) × (now ≤ r.idle_expires_at) × (now ≤ r.absolute_expires_at)
  slide_inv now r s t h = (ground arith, ground arith, ground arith, ground arith)

  -- From tables whose sessions are dated, such as empty ones: when a token answers a session after any
  -- operations, the session has that token and is not revoked, it was used within its idle time, and
  -- it was opened at most the absolute time before; uses do not prolong the latter.
  pub resolve_in_time :
      (ops : List Op) (now : ℕ) (token : String) (t : Tables) (s : Session)
      → All (IsDated env) t.sessions
      → (resolve env now token (run env ops t)).0 ≡ some s
      → (s.token_hash ≡ c.hash_token token)
        × (is_live s ≡ true)
        × (now ≤ s.idle_expires_at)
        × (now ≤ s.created_at + (ttls env s.remember).absolute)
  unfolding resolve
  resolve_in_time ops now token t s h e =
      let t' = run env ops t in
      let dated =
        All-run env (IsDated env) ops t
          (record { stopped = λ now s h. h; slid = λ now until s h. h })
          (All-tabulate _ ops Admits-IsDated) h in
      elim (Option-cases (first (λ s. s.token_hash == c.hash_token token) t'.sessions)) [
        | inl f ↦ let told : none ≡ some s = sym (rw f refl) ∙ e in cc told
        | inr (r, f) ↦
            let (date, at) = All-first (IsDated env) _ t'.sessions r dated f in
            let (same, live, idle, absolute) = slide_inv now r s t' (sym (rw f refl) ∙ e) in
            rw (← same) ((eq_iff _ _).0 at, live, idle, rw (← date) absolute)
      ]

  rotated_row :
      (d : Drawn) (now : ℕ) (agent : Agent) (r : Session) (t : Tables) (user_id : String)
      → (rotate_row env d now agent r t).0 ≡ rotated d user_id
      → now ≤ r.absolute_expires_at
  rotated_row d now agent r t user_id h = ground arith

  -- From dated tables: when a refresh token is exchanged after any operations, its session was opened
  -- at most the absolute time before, whether or not the session is remembered; the refresh times of
  -- the environment do not enter.
  pub rotate_in_time :
      (ops : List Op) (d : Drawn) (now : ℕ) (agent : Agent) (refresh user_id : String) (t : Tables)
      (r : Session)
      → All (IsDated env) t.sessions
      → with_refresh refresh (run env ops t) ≡ some r
      → (rotate env d now agent refresh (run env ops t)).0 ≡ rotated d user_id
      → now ≤ r.created_at + env.abs_ttl_h * hour
  unfolding rotate
  rotate_in_time ops d now agent refresh user_id t r h f e =
      let t' = run env ops t in
      let dated =
        All-run env (IsDated env) ops t
          (record { stopped = λ now s h. h; slid = λ now until s h. h })
          (All-tabulate _ ops Admits-IsDated) h in
      let date = (All-first (IsDated env) _ t'.sessions r dated f).0 in
      rw (← date) (rotated_row d now agent r t' user_id (sym (rw f refl) ∙ e))
