-- ===== src/Squad/Throttle.antt =====
-- `_emit_throttled` of src/orchestration/squad_orchestrator.py: one event on a change of the reason,
-- then at most one per window while the reason persists.
pub mod Laws
use criptotrade.Base.{
  ℕ, suc, String, ◌==◌, Bool, true, false, not, ◌||◌, Option, none, some, [], ◌∷◌, ◌++◌,
  if◌then◌else◌,
}
use criptotrade.Base.Dict.{Dict, lookup, insert}
use criptotrade.Base.Float.{Float}
use criptotrade.Ledger.{Ledger, log_decision}
use criptotrade.Ledger.Payload.{Json, str, int}

-- The memory of one symbol.
pub record Streak (F : Type 0) : Type 0 where
  pub reason : String
  pub count : ℕ
  pub since : F
  pub last_emit : F

-- An event to emit: its type, the reason, what else it tells, and whether it is repeated.
pub record Notice (F : Type 0) : Type 0 where
  pub event_type : String
  pub reason : String
  pub extra : Dict (Json F)
  pub heartbeat : Bool

module _ {F : Type 0} ⦃fl : Float F⦄ where
  -- `_SKIP_THROTTLE_S`
  abbrev pub skip_throttle : F
  skip_throttle = fl.lit 600 0

  -- The entry; `iso` is how a reading of the clock is written.
  abbrev pub log_notice : (F → String) → String → Notice F → ℕ → F → Ledger F → Ledger F
  log_notice iso symbol n count since = log_decision n.event_type (
      (("symbol", str symbol)
        ∷ ("reason", str n.reason)
        ∷ ("count", int count)
        ∷ ("since", str (iso since))
        ∷ [])
      ++ n.extra)

  unfoldable pub emit_first :
      (F → String) → F → String → Notice F → Dict (Streak F) × Ledger F → Dict (Streak F) × Ledger F
  emit_first iso now symbol n (state, ledger) = (
    insert symbol (record { reason = n.reason; count = 1; since = now; last_emit = now }) state,
    log_notice iso symbol n 1 now ledger,
  )

  unfoldable pub emit_again :
      (F → String)
      → F
      → String
      → Notice F
      → Streak F
      → Dict (Streak F) × Ledger F
      → Dict (Streak F) × Ledger F
  emit_again iso now symbol n prev (state, ledger) =
      let counted : Streak F = record prev { count = suc prev.count } in
      if not n.heartbeat || fl.lt (fl.sub now prev.last_emit) skip_throttle
      then (insert symbol counted state, ledger)
      else (
        insert symbol (record counted { last_emit = now }) state,
        log_notice iso symbol n (suc prev.count) prev.since ledger,
      )

  unfoldable pub emit_for :
      (F → String)
      → F
      → String
      → Notice F
      → Option (Streak F)
      → Dict (Streak F) × Ledger F
      → Dict (Streak F) × Ledger F
  emit_for iso now symbol n none s = emit_first iso now symbol n s
  emit_for iso now symbol n (some prev) s =
      if prev.reason == n.reason
      then emit_again iso now symbol n prev s
      else emit_first iso now symbol n s

  -- `_emit_throttled`
  unfoldable pub emit_throttled :
      (F → String) → F → String → Notice F → Dict (Streak F) × Ledger F → Dict (Streak F) × Ledger F
  emit_throttled iso now symbol n (state, ledger) =
      emit_for iso now symbol n (lookup symbol state) (state, ledger)
