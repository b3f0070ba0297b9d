-- ===== src/Autonomy/Levels/Changes.antt =====
-- Who can raise the level of src/hitl/config.py, and what the ledger keeps of it.
use criptotrade.Base.{
  false-ne-true, ℕ, zero, suc, ◌≤◌, ◌<◌, ◌≡◌, refl, ap, ◌∙◌, ◌⊎◌, inl, inr, String, nat_eq, Bool,
  true, false, not, ◌&&◌, ◌||◌, Option, List, [], ◌∷◌, arith, Bool-cases, any,
}
use criptotrade.Base.Float.{Float}
use criptotrade.Ledger.{Ledger}
use criptotrade.Access.{Request, Guarded, AuthMode, passed, require_perm}
use criptotrade.Autonomy.Levels.{
  AutonomyLevel, ConfigStore, LevelPatch, is_level, is_reason, level_info, set_level,
  guarded_update, update_hitl_config,
}

-- A request to change the level at a time.
pub record Asked : Type 0 where
  pub mode : AuthMode
  pub request : Request
  pub now : String
  pub patch : LevelPatch

abbrev pub is_passed : Guarded → Bool
is_passed (passed p) = true
is_passed g = false

-- It may set the highest level: it is permitted, asks for it and confirms it.
abbrev pub is_confirmed : Asked → Bool
is_confirmed a =
    is_passed (require_perm "change_autonomy" a.mode a.request)
    && (nat_eq a.patch.level 3 && a.patch.confirm)

-- What one request can do to the level.
abbrev IsStep : Bool → ℕ → ℕ → Type 0
IsStep confirmed old new = (new ≤ 3) × ((confirmed ≡ true) ⊎ (new ≡ old) ⊎ (new < 3))

follows :
    (c d : Bool) (old mid new : ℕ)
    → (c ≡ true) ⊎ (mid ≡ old) ⊎ (mid < 3)
    → (d ≡ true) ⊎ (new ≡ mid) ⊎ (new < 3)
    → ((c || d) ≡ true) ⊎ (new ≡ old) ⊎ (new < 3)
follows c d old mid new (inl e) later = inl (ground arith)
follows c d old mid new (inr moved) (inl e) = inl (ground arith)
follows c d old mid new (inr (inl same)) (inr (inl e)) = inr (inl (e ∙ same))
follows c d old mid new (inr (inr below)) (inr (inl e)) = inr (inr (omega arith))
follows c d old mid new (inr moved) (inr (inr below)) = inr (inr below)

first_true : (a b : Bool) → (a && b) ≡ true → a ≡ true
first_true a b h = ground arith

level-IsStep :
    (n : ℕ) (confirm : Bool) (old : ℕ)
    → (nat_eq n 3 && not confirm) ≡ false
    → n ≤ 3
    → IsStep (nat_eq n 3 && confirm) old n
level-IsStep n confirm old e h = elim (Bool-cases (nat_eq n 3)) [
  | inl three ↦ (h, inl (ground arith))
  | inr other ↦ (h, inr (inr (ground arith)))
]

module _ {F : Type 0} ⦃fl : Float F⦄ where
  abbrev pub ask_all : List Asked → ConfigStore × Ledger F → ConfigStore × Ledger F
  ask_all [] s = s
  ask_all (a ∷ as') s =
      let (answer, store, l) = update_hitl_config a.mode a.request a.now a.patch s in
      ask_all as' (store, l)

  level-is_level :
      (n : ℕ) (found : Option (AutonomyLevel F))
      → level_info n ≡ found
      → is_level found ≡ true
      → n ≤ 3
  unfolding level_info
  level-is_level zero found e h = omega arith
  level-is_level (suc zero) found e h = omega arith
  level-is_level (suc (suc zero)) found e h = omega arith
  level-is_level (suc (suc (suc zero))) found e h = omega arith
  level-is_level (suc (suc (suc (suc n)))) found e h = absurd (false-ne-true (ap is_level e ∙ h))

  guarded-level :
      (now : String) (patch : LevelPatch) (g : Guarded) (store : ConfigStore) (l : Ledger F)
      → store.level ≤ 3
      → IsStep
          (is_passed g && (nat_eq patch.level 3 && patch.confirm))
          store.level
          (guarded_update now patch g (store, l)).1.level
  unfolding set_level
  guarded-level now patch (passed p) store l h =
      elim (Bool-cases (nat_eq patch.level 3 && not patch.confirm)) [
        | inl e ↦ rw e (h, inr (inl refl))
        | inr e ↦
            elim (Bool-cases
              (is_level (level_info {F = F} patch.level) && is_reason patch.reason)) [
                | inl v ↦
                    rw (e, v)
                      (level-IsStep patch.level patch.confirm store.level e
                        (level-is_level patch.level _ refl (first_true _ _ v)))
                | inr v ↦ rw (e, v) (h, inr (inl refl))
              ]
      ]
  guarded-level now patch g store l h = (h, inr (inl refl))

  -- Whatever is asked of the route in whatever order, from a level of at most three: the level is at
  -- most three afterwards, and it has stayed what it was or is below three, unless one of the requests
  -- had the permission, asked for level three and confirmed it.
  pub ask_all-level :
      (requests : List Asked) (store : ConfigStore) (l : Ledger F)
      → store.level ≤ 3
      → let after = (ask_all requests (store, l)).0 in
        (after.level ≤ 3)
        × ((any is_confirmed requests ≡ true) ⊎ (after.level ≡ store.level) ⊎ (after.level < 3))
  unfolding update_hitl_config
  ask_all-level [] store l h = (h, inr (inl refl))
  ask_all-level (a ∷ as') store l h =
      let guard = require_perm "change_autonomy" a.mode a.request in
      let (answer, next, l') = guarded_update a.now a.patch guard (store, l) in
      let (low, moved) = guarded-level a.now a.patch guard store l h in
      let (low', moved') = ask_all-level as' next l' low in
      let last = (ask_all as' (next, l')).0.level in
      (
        low',
        follows (is_confirmed a) (any is_confirmed as') store.level next.level last moved moved',
      )
