-- ===== src/Squad/Throttle/Laws.antt =====
-- A reason that persists is told once, and then not again within the window.
use criptotrade.Base.{
  suc, ◌≡◌, refl, ap, ◌∙◌, String, ◌==◌, eq_refl, eq_iff, Bool, true, not, ◌&&◌, ◌||◌, Option, none,
  some, List, [], ◌∷◌, arith, every, Bool-cases, inl, inr,
}
use criptotrade.Base.Dict.{Dict, lookup, insert, lookup-insert}
use criptotrade.Base.Float.{Float}
use criptotrade.Ledger.{Ledger}
use criptotrade.Squad.Throttle.{
  Streak, Notice, skip_throttle, log_notice, emit_first, emit_again, emit_for, emit_throttled,
}

and_both : (a b : Bool) → (a && b) ≡ true → (a ≡ true) × (b ≡ true)
and_both a b h = (ground arith, ground arith)

module _ {F : Type 0} ⦃fl : Float F⦄ (iso : F → String) (symbol : String) (n : Notice F) where
  -- The same notice at each of the readings of the clock.
  unfoldable pub repeat : List F → Dict (Streak F) × Ledger F → Dict (Streak F) × Ledger F
  repeat [] s = s
  repeat (now ∷ nows) s = repeat nows (emit_throttled iso now symbol n s)

  abbrev pub is_within : F → F → Bool
  is_within last now = not n.heartbeat || fl.lt (fl.sub now last) skip_throttle

  -- The memory is of this reason, with an emission at `last`.
  pub record IsTold (last : F) (state : Dict (Streak F)) : Type 0 where
    pub streak : Streak F
    pub told : lookup symbol state ≡ some streak
    pub same_reason : streak.reason ≡ n.reason
    pub emitted : streak.last_emit ≡ last

  emit_for_within :
      (now : F) (p : Streak F) (s : Dict (Streak F) × Ledger F)
      → (p.reason == n.reason) ≡ true
      → is_within p.last_emit now ≡ true
      → emit_for iso now symbol n (some p) s
        ≡ (insert symbol (record p { count = suc p.count }) s.0, s.1)
  unfolding emit_for emit_again
  emit_for_within now p s e w = rw (e, w) refl

  throttled_within :
      (last now : F) (s : Dict (Streak F) × Ledger F) (h : IsTold last s.0)
      → is_within last now ≡ true
      → emit_throttled iso now symbol n s
        ≡ (insert symbol (record h.streak { count = suc h.streak.count }) s.0, s.1)
  unfolding emit_throttled
  throttled_within last now s h w =
      ap (λ o. emit_for iso now symbol n o s) h.told
      ∙ emit_for_within now h.streak s ((eq_iff h.streak.reason n.reason).1 h.same_reason)
          (ap (λ l. is_within l now) h.emitted ∙ w)

  throttled-IsTold :
      (last now : F) (s : Dict (Streak F) × Ledger F)
      → IsTold last s.0
      → is_within last now ≡ true
      → IsTold last (emit_throttled iso now symbol n s).0
  throttled-IsTold last now s h w = record {
    streak = record h.streak { count = suc h.streak.count };
    told =
        ap (λ (q : Dict (Streak F) × Ledger F). lookup symbol q.0) (throttled_within last now s h w)
        ∙ (lookup-insert symbol symbol _ s.0 ∙ rw (eq_refl symbol) refl);
    same_reason = h.same_reason;
    emitted = h.emitted;
  }

  repeat_quiet :
      (nows : List F) (last : F) (s : Dict (Streak F) × Ledger F)
      → IsTold last s.0
      → every (is_within last) nows ≡ true
      → (repeat nows s).1 ≡ s.1
  unfolding repeat
  repeat_quiet [] last s h w = refl
  repeat_quiet (now ∷ nows) last s h w =
      let (first, rest) = and_both (is_within last now) (every (is_within last) nows) w in
      repeat_quiet nows last _ (throttled-IsTold last now s h first) rest
      ∙ ap (λ (q : Dict (Streak F) × Ledger F). q.1) (throttled_within last now s h first)

  emit_first-IsTold :
      (now : F) (s : Dict (Streak F) × Ledger F) → IsTold now (emit_first iso now symbol n s).0
  unfolding emit_first
  emit_first-IsTold now s = record {
    streak = record { reason = n.reason; count = 1; since = now; last_emit = now };
    told = lookup-insert symbol symbol _ s.0 ∙ rw (eq_refl symbol) refl;
    same_reason = refl;
    emitted = refl;
  }

  -- Whether the memory of the symbol is of another reason, or there is none.
  abbrev pub is_change : Option (Streak F) → Bool
  is_change none = true
  is_change (some p) = not (p.reason == n.reason)

  change_first :
      (now : F) (o : Option (Streak F)) (s : Dict (Streak F) × Ledger F)
      → is_change o ≡ true
      → emit_for iso now symbol n o s ≡ emit_first iso now symbol n s
  unfolding emit_for
  change_first now none s h = refl
  change_first now (some p) s h = elim (Bool-cases (p.reason == n.reason)) [
    | inl e ↦ cc (rw e at h)
    | inr e ↦ rw e refl
  ]

  -- When the reason of a symbol changes, the notice is told at once; repeated at any readings of the
  -- clock within the window after that, or at any at all if it has no heartbeat, it adds nothing.
  pub told_once :
      (now : F) (nows : List F) (state : Dict (Streak F)) (ledger : Ledger F)
      → is_change (lookup symbol state) ≡ true
      → every (is_within now) nows ≡ true
      → (repeat (now ∷ nows) (state, ledger)).1 ≡ log_notice iso symbol n 1 now ledger
  unfolding repeat emit_throttled emit_first
  told_once now nows state ledger c w =
      let first = change_first now (lookup symbol state) (state, ledger) c in
      ap (λ (q : Dict (Streak F) × Ledger F). (repeat nows q).1) first
      ∙ repeat_quiet nows now _ (emit_first-IsTold now (state, ledger)) w
