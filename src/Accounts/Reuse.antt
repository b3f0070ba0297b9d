-- ===== src/Accounts/Reuse.antt =====
-- Refresh rotation in src/auth/store.py: a refresh token that was rotated and comes back ends its
-- family.
use criptotrade.Base.{
  ℕ, ltb, ◌≡◌, refl, ◌≢◌, sym, ◌∙◌, ap, String, eq_iff, true, false, some, is_some, List, [], ◌∷◌,
  arith, All-append, All, ◌⊎◌, inl, inr, Bool-cases, Option-cases,
}
use criptotrade.Base.Rows.{
  differ, All-unmatched, All-first, All-modified, All-map, All-tabulate, only_row,
}
use mathlib.Core.Path.{subst}
use criptotrade.Accounts.{Tables, Session, Crypto}
use criptotrade.Accounts.Sessions
use criptotrade.Accounts.Sessions.{
  SessionEnv, Agent, Drawn, Rotation, refused, reuse, rotated, integrity_error, is_live, stop,
  new_session, insert_session, admits, revoke, revoke_where, revoke_family, answer_rotated,
  rotate_row, with_refresh, rotate,
}
use criptotrade.Accounts.Lifecycle.{Op, open_session, rotate_refresh, run, Admits, IsStable}
use criptotrade.Accounts.Kept.{All-run, HasDistinct}

-- A session of the family is revoked.
abbrev pub IsOver : String → Session → Type 0
IsOver family s = s.family_id ≡ family → is_live s ≡ false

-- A session with this refresh hash is a revoked one of the family.
abbrev pub IsSpent : String → String → Session → Type 0
IsSpent refresh_hash family s =
    s.refresh_hash ≡ refresh_hash → (s.family_id ≡ family) × (is_live s ≡ false)

-- The operation draws another refresh token.
abbrev pub Draws≢ : ⦃c : Crypto⦄ → String → Op → Type 0
Draws≢ ⦃c⦄ refresh (open_session d now user_id remember agent) =
    c.hash_token d.refresh ≢ c.hash_token refresh
Draws≢ ⦃c⦄ refresh (rotate_refresh d now agent old) = c.hash_token d.refresh ≢ c.hash_token refresh
Draws≢ refresh op = Unit

-- The operation draws another family.
abbrev pub Family≢ : String → Op → Type 0
Family≢ family (open_session d now user_id remember agent) = d.family ≢ family
Family≢ family op = Unit

module _ ⦃c : Crypto⦄ (env : SessionEnv) where
  IsOver-IsStable : (family : String) → IsStable env (IsOver family)
  IsOver-IsStable family = record { stopped = λ now s h e. refl; slid = λ now until s h. h }

  IsSpent-IsStable : (hash family : String) → IsStable env (IsSpent hash family)
  IsSpent-IsStable hash family = record {
    stopped = λ now s h e. ((h e).0, refl);
    slid = λ now until s h. h;
  }

  Admits-IsOver : (family : String) (op : Op) → Family≢ family op → Admits env (IsOver family) op
  Admits-IsOver family (open_session d now user_id remember agent) n = λ e. absurd (n e)
  Admits-IsOver family (rotate_refresh d now agent old) n = λ r h live e. cc (h e, live)
  Admits-IsOver family op n = tt

  Admits-IsSpent :
      (refresh family : String) (op : Op)
      → Draws≢ refresh op
      → Admits env (IsSpent (c.hash_token refresh) family) op
  Admits-IsSpent refresh family (open_session d now user_id remember agent) n = λ e. absurd (n e)
  Admits-IsSpent refresh family (rotate_refresh d now agent old) n = λ r h live e. absurd (n e)
  Admits-IsSpent refresh family op n = tt

  -- A family whose sessions are all revoked stays so: no operation opens a session in it.
  pub run-IsOver :
      (ops : List Op) (t : Tables) (family : String)
      → All (IsOver family) t.sessions
      → All (Family≢ family) ops
      → All (IsOver family) (run env ops t).sessions
  run-IsOver ops t family h n =
      All-run env (IsOver family) ops t (IsOver-IsStable family)
        (All-map (Family≢ family) (Admits env (IsOver family)) ops (Admits-IsOver family) n) h

  revoke_family-IsOver :
      (now : ℕ) (family : String) (t : Tables)
      → All (IsOver family) (revoke_family now family t).sessions
  unfolding revoke_family revoke_where
  revoke_family-IsOver now family t =
      All-modified (λ s. Unit {0}) (IsOver family) _ (stop now) t.sessions (λ s _ h e. refl)
        (λ s _ h e. let at = (eq_iff s.family_id family).1 e in ground arith)
        (All-tabulate _ t.sessions (λ s. tt))

  revoke-IsSpent :
      (now : ℕ) (hash : String) (t : Tables) (r : Session)
      → All (λ s. s.refresh_hash ≡ hash → s ≡ r) t.sessions
      → All (IsSpent hash r.family_id) (revoke now r.id t).sessions
  unfolding revoke revoke_where
  revoke-IsSpent now hash t r only =
      All-modified _ (IsSpent hash r.family_id) _ (stop now) t.sessions
        (λ s same _ h. (ap (λ x. x.family_id) (same h), refl))
        (λ s same off h. cc (off, (eq_iff s.id r.id).1 (ap (λ x. x.id) (same h)))) only

  answer-IsSpent :
      (d : Drawn) (refresh family user_id : String) (s : Session) (t : Tables)
      → (answer_rotated d user_id t (insert_session s t)).0 ≡ rotated d user_id
      → s.refresh_hash ≢ c.hash_token refresh
      → All (IsSpent (c.hash_token refresh) family) t.sessions
      → All
          (IsSpent (c.hash_token refresh) family)
          (answer_rotated d user_id t (insert_session s t)).1.sessions
  answer-IsSpent d refresh family user_id s t ok n h = elim (Bool-cases (admits s t)) [
    | inl e ↦ rw e (All-append _ t.sessions (s ∷ []) h ((λ same. absurd (n same)), tt))
    | inr e ↦ rw e h
  ]

  -- After a rotation that succeeded, the refresh token belongs to a revoked session of the family.
  rotate-IsSpent :
      (d : Drawn) (now : ℕ) (agent : Agent) (refresh : String) (t : Tables) (r : Session)
      → HasDistinct env t.sessions
      → with_refresh refresh t ≡ some r
      → (rotate env d now agent refresh t).0 ≡ rotated d r.user_id
      → c.hash_token d.refresh ≢ c.hash_token refresh
      → All
          (IsSpent (c.hash_token refresh) r.family_id)
          (rotate env d now agent refresh t).1.sessions
  unfolding rotate Sessions.create
  rotate-IsSpent d now agent refresh t r u e ok n =
      let only = only_row (λ s. s.refresh_hash) (c.hash_token refresh) t.sessions r u.refreshes e in
      let done : (rotate_row env d now agent r t).0 ≡ rotated d r.user_id = sym (rw e refl) ∙ ok in
      rw e (elim (Bool-cases (is_some r.revoked_at)) [
        | inl f ↦
            let told : reuse r.family_id ≡ rotated d r.user_id = sym (rw f refl) ∙ done in cc told
        | inr f ↦ elim (Bool-cases (ltb r.absolute_expires_at now)) [
          | inl g ↦
              let told : refused ≡ rotated d r.user_id = sym (rw (f, g) refl) ∙ done in cc told
          | inr g ↦
              rw (f, g)
                (answer-IsSpent d refresh r.family_id r.user_id _ (revoke now r.id t)
                  (sym (rw (f, g) refl) ∙ done) n (revoke-IsSpent now _ t r only))
        ]
      ])

  rotate_spent :
      (d : Drawn) (now : ℕ) (agent : Agent) (refresh family : String) (t : Tables)
      → All (IsSpent (c.hash_token refresh) family) t.sessions
      → (All (λ s. s.refresh_hash ≢ c.hash_token refresh) t.sessions
          × (rotate env d now agent refresh t ≡ (refused, t)))
        ⊎ (((rotate env d now agent refresh t).0 ≡ reuse family)
            × All (IsOver family) (rotate env d now agent refresh t).1.sessions)
  unfolding rotate
  rotate_spent d now agent refresh family t h = elim (Option-cases (with_refresh refresh t)) [
    | inl e ↦ inl (
      All-map _ _ t.sessions (λ s off. differ s.refresh_hash (c.hash_token refresh) off)
          (All-unmatched _ t.sessions e),
      rw e refl,
    )
    | inr (r, e) ↦
        let (spent, at) = All-first (IsSpent (c.hash_token refresh) family) _ t.sessions r h e in
        let (kin, gone) = spent ((eq_iff _ _).0 at) in
        let marked : is_some r.revoked_at ≡ true = (ground arith) in
        rw (e, marked)
          (inr (
            ap reuse kin,
            subst (λ f. All (IsOver family) (revoke_family now f t).sessions) (sym kin)
                (revoke_family-IsOver now family t),
          ))
  ]

  -- A refresh token that was rotated and is presented again, after any operations that draw other
  -- tokens: either no stored session has it any more, and it is refused with the tables as they are;
  -- or the reuse is reported with the family, every session of which is then revoked and stays revoked
  -- under any operations that draw other families.
  pub refresh_reuse :
      (d d' : Drawn) (now now' : ℕ) (agent agent' : Agent) (refresh : String) (t : Tables)
      (r : Session) (ops later : List Op)
      → HasDistinct env t.sessions
      → with_refresh refresh t ≡ some r
      → (rotate env d now agent refresh t).0 ≡ rotated d r.user_id
      → c.hash_token d.refresh ≢ c.hash_token refresh
      → All (Draws≢ refresh) ops
      → All (Family≢ r.family_id) later
      → let t' = run env ops (rotate env d now agent refresh t).1 in
        (All (λ s. s.refresh_hash ≢ c.hash_token refresh) t'.sessions
          × (rotate env d' now' agent' refresh t' ≡ (refused, t')))
        ⊎ (((rotate env d' now' agent' refresh t').0 ≡ reuse r.family_id)
            × All
                (IsOver r.family_id)
                (run env later (rotate env d' now' agent' refresh t').1).sessions)
  refresh_reuse d d' now now' agent agent' refresh t r ops later u e ok n others kin =
      let t' = run env ops (rotate env d now agent refresh t).1 in
      let spent : All (IsSpent (c.hash_token refresh) r.family_id) t'.sessions =
        All-run env _ ops _ (IsSpent-IsStable (c.hash_token refresh) r.family_id)
          (All-map (Draws≢ refresh) _ ops (Admits-IsSpent refresh r.family_id) others)
          (rotate-IsSpent d now agent refresh t r u e ok n) in
      elim (rotate_spent d' now' agent' refresh r.family_id t' spent) [
        | inl no_row ↦ inl no_row
        | inr (told, over) ↦ inr (told, run-IsOver later _ r.family_id over kin)
      ]
