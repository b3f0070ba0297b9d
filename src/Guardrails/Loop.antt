-- ===== src/Guardrails/Loop.antt =====
-- The loop of `validate_order`: what a rule's verdict adds to the violations and to the sink.
use mathlib.Core.Option.{some-injective}
use mathlib.Core.Path.{subst, sym}
use mathlib.Core.Logic.{◌↔◌, inl, inr}
use criptotrade.Base.{
  ◌≡◌, refl, String, ◌==◌, eq_iff, Bool, true, false, not, ◌&&◌, ◌||◌, some, List, [], ◌∷◌, ◌++◌,
  arith, if◌then◌else◌, is_empty, every, Bool-cases,
}
use criptotrade.Base.Text.{truthy}
use criptotrade.Guardrails.{pass, Proposal, Verdict, Guardrail, note_verdict, run_rules}

-- A verdict that adds no violation.
unfoldable pub is_silent : Verdict → Bool
is_silent (passed, message) = not (not passed && truthy message)

pub is_empty-snoc : (xs : List String) (x : String) → is_empty (xs ++ x ∷ []) ≡ false
is_empty-snoc [] x = refl
is_empty-snoc (y ∷ xs) x = refl

pub note_verdict_clean :
    (sink : Bool) (v : Verdict) (acc : List String × List String)
    → is_empty (note_verdict sink v acc).0 ≡ (is_empty acc.0 && is_silent v)
unfolding note_verdict is_silent
note_verdict_clean sink v acc = ground (arith, is_empty-snoc acc.0 v.1)

pub note_verdict_sent :
    (sink : Bool) (v : Verdict) (acc : List String × List String)
    → acc.1 ≡ (if sink then acc.0 else [])
    → (note_verdict sink v acc).1 ≡ (if sink then (note_verdict sink v acc).0 else [])
unfolding note_verdict
note_verdict_sent sink v acc h = ground arith

module _ {F : Type 0} where
  pub run_rules_clean :
      (sink : Bool) (rules : List (Guardrail F)) (order : Proposal F)
      (acc : List String × List String)
      → is_empty (run_rules sink rules order acc).0
        ≡ (is_empty acc.0 && every (λ r. is_silent (r order)) rules)
  unfolding run_rules
  run_rules_clean sink [] order acc = ground arith
  run_rules_clean sink (r ∷ rules) order acc = ground (
    arith,
    run_rules_clean sink rules order (note_verdict sink (r order) acc),
    note_verdict_clean sink (r order) acc,
  )

  pub run_rules_sent :
      (sink : Bool) (rules : List (Guardrail F)) (order : Proposal F)
      (acc : List String × List String)
      → acc.1 ≡ (if sink then acc.0 else [])
      → (run_rules sink rules order acc).1
        ≡ (if sink then (run_rules sink rules order acc).0 else [])
  unfolding run_rules
  run_rules_sent sink [] order acc h = h
  run_rules_sent sink (r ∷ rules) order acc h =
      run_rules_sent sink rules order (note_verdict sink (r order) acc)
        (note_verdict_sent sink (r order) acc h)

-- A rule that refuses with a message under a test, and a check that is made under a test.
pub is_silent-refuse :
    (c : Bool) (m : String) (v : Verdict)
    → truthy m ≡ true
    → is_silent (if c then (false, m) else v) ≡ (not c && is_silent v)
unfolding is_silent
is_silent-refuse true m v h = rw h
is_silent-refuse false m v h = refl

pub is_silent-guard :
    (c : Bool) (v : Verdict) → is_silent (if c then v else pass) ≡ (not c || is_silent v)
unfolding is_silent
is_silent-guard true v = refl
is_silent-guard false v = refl

pub is_silent-pass : is_silent pass ≡ true
unfolding is_silent
is_silent-pass = refl

pub refuse_iff :
    (c : Bool) (m : String) (v : Verdict)
    → truthy m ≡ true
    → (is_silent (if c then (false, m) else v) ≡ true) ↔ ((c ≡ false) × (is_silent v ≡ true))
refuse_iff c m v h =
    (λ p. ground (arith, is_silent-refuse c m v h), λ p. ground (arith, is_silent-refuse c m v h))

pub guard_iff :
    (c : Bool) (v : Verdict)
    → (is_silent (if c then v else pass) ≡ true) ↔ (c ≡ true → is_silent v ≡ true)
guard_iff true v = (λ p e. p, λ p. p refl)
guard_iff false v = (λ p e. cc, λ p. is_silent-pass)

-- What holds of the value of an option, by the value and by its equation.
pub at_some {ℓ κ} : {A : Type ℓ} (P : A → Type κ) {x y : A} → some x ≡ some y → P y → P x
at_some P e h = subst P (sym (some-injective _ _ e)) h

pub from_some {ℓ κ} : {A : Type ℓ} (P : A → Type κ) {x : A} → P x → (y : A) → some x ≡ some y → P y
from_some P h y e = subst P (some-injective _ _ e) h

pub and_true : (a b : Bool) → (a && b) ≡ true → (a ≡ true) × (b ≡ true)
and_true a b h = (ground arith, ground arith)

pub four_tests :
    (a b c d : Bool)
    → ((a && (b && (c && (d && true)))) ≡ true)
      ↔ ((a ≡ true) × (b ≡ true) × (c ≡ true) × (d ≡ true))
four_tests a b c d = (λ h. ground arith, λ h. ground arith)

-- A test that matters only where three others pass.
pub small_ratio :
    (e s t r x : Bool)
    → (e && (s && t)) ≡ true
    → (e ≡ true → s ≡ true → t ≡ true → r ≡ true → x ≡ false)
    → (r && x) ≡ false
small_ratio e s t false x p h = refl
small_ratio e s t true x p h =
    let st = and_true e (s && t) p in let ends = and_true s t st.1 in h st.0 ends.0 ends.1 refl

pub and_false : (a : String) (k : String) (x : Bool) → ((a == k && x) ≡ false) ↔ (a ≡ k → x ≡ false)
and_false a k x = elim (Bool-cases (a == k)) [
  | inl e ↦ (λ p q. ground arith, λ p. ground (arith, p ((eq_iff a k).0 e)))
  | inr e ↦ (λ p q. ground (arith, eq_iff a k), λ p. ground arith)
]
