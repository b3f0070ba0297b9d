-- ===== src/Guardrails/Safe.antt =====
-- What makes an order safe, in terms of its fields, and each rule against its part of it.
use mathlib.Core.Logic.{◌↔◌}
use criptotrade.Base.{◌≡◌, refl, String, ◌==◌, true, false, ◌&&◌, Option, none, some, arith}
use criptotrade.Base.Text.{upper, truthy-append}
use criptotrade.Base.Float.{Float, nought, abs}
use criptotrade.Guardrails.{
  pass, MarketContext, Proposal, or_nought, or_blank, check_position_size, check_side, check_stop,
  check_stop_loss, check_risk_reward, check_liquidity, check_volatility, check_context,
  check_market_conditions,
}
use criptotrade.Guardrails.Loop.{
  is_silent, is_silent-pass, refuse_iff, guard_iff, and_false, small_ratio, at_some, from_some,
}

module _ {F : Type 0} ⦃fl : Float F⦄ where
  -- The stop is on the side of the entry that limits the loss.
  abbrev pub IsProtective : Proposal F → F → Type 0
  IsProtective order stop =
      let entry = or_nought order.entry_price in
      fl.lt nought entry ≡ true
      → (upper (or_blank order.action) ≡ "BUY" → fl.le entry stop ≡ false)
        × (upper (or_blank order.action) ≡ "SELL" → fl.le stop entry ≡ false)

  -- Where entry, stop and target are set, the reward is at least 2.5 times the risk.
  abbrev pub IsRewarded : Proposal F → Type 0
  IsRewarded order =
      let entry = or_nought order.entry_price in
      let stop = or_nought order.stop_loss in
      let target = or_nought order.take_profit in
      let risk = abs (fl.sub entry stop) in
      fl.lt nought entry ≡ true
      → fl.lt nought stop ≡ true
      → fl.lt nought target ≡ true
      → fl.lt nought risk ≡ true
      → fl.lt (fl.div (abs (fl.sub target entry)) risk) (fl.lit 25 1) ≡ false

  -- Neither extreme volatility nor thin liquidity is reported.
  abbrev pub IsCalm : Option (MarketContext F) → Type 0
  IsCalm none = Unit {0}
  IsCalm (some ctx) =
      ((atr mid : F)
        → ctx.atr ≡ some atr
        → ctx.bb_middle ≡ some mid
        → fl.lt nought mid ≡ true
        → fl.lt (fl.lit 1 1) (fl.div atr mid) ≡ false)
      × ((ratio : F) → ctx.volume_ratio ≡ some ratio → fl.lt ratio (fl.lit 3 1) ≡ false)

  pub record IsSafe (max_size : F) (order : Proposal F) : Type 0 where
    pub sized : fl.lt max_size (or_nought order.position_size_pct) ≡ false
    pub stopped : (stop : F) × (order.stop_loss ≡ some stop) × IsProtective order stop
    pub rewarded : IsRewarded order
    pub calm : IsCalm order.market_context

  pub position_size_safe :
      (max_size : F) (order : Proposal F)
      → (is_silent (check_position_size max_size order) ≡ true)
        ↔ (fl.lt max_size (or_nought order.position_size_pct) ≡ false)
  unfolding check_position_size
  position_size_safe max_size order =
      let test =
        refuse_iff (fl.lt max_size (or_nought order.position_size_pct)) _ pass
          (truthy-append _ _ refl) in
      (λ h. (test.0 h).0, λ h. test.1 (h, is_silent-pass))

  check_side_safe :
      (a : String) (stop entry : F)
      → (is_silent (check_side a stop entry) ≡ true)
        ↔ ((a ≡ "BUY" → fl.le entry stop ≡ false) × (a ≡ "SELL" → fl.le stop entry ≡ false))
  unfolding check_side
  check_side_safe a stop entry =
      let buy = and_false a "BUY" (fl.le entry stop) in
      let sell = and_false a "SELL" (fl.le stop entry) in
      let outer = refuse_iff (a == "BUY" && fl.le entry stop) _ _ refl in
      let inner = refuse_iff (a == "SELL" && fl.le stop entry) _ pass refl in
      (
        λ h. (buy.0 (outer.0 h).0, sell.0 (inner.0 (outer.0 h).1).0),
        λ h. outer.1 (buy.1 h.0, inner.1 (sell.1 h.1, is_silent-pass)),
      )

  check_stop_safe :
      (order : Proposal F) (o : Option F)
      → (is_silent (check_stop order o) ≡ true)
        ↔ ((stop : F) × (o ≡ some stop) × IsProtective order stop)
  unfolding check_stop is_silent
  check_stop_safe order none = (λ h. cc, λ h. cc (h.1))
  check_stop_safe order (some s) =
      let entry = or_nought order.entry_price in
      let action = upper (or_blank order.action) in
      let side = check_side_safe action s entry in
      let test = guard_iff (fl.lt nought entry) (check_side action s entry) in
      (
        λ h. (s, refl, λ e. side.0 (test.0 h e)),
        λ h. test.1 (λ e. side.1 (at_some (IsProtective order) h.1 h.2 e)),
      )

  pub stop_loss_safe :
      (order : Proposal F)
      → (is_silent (check_stop_loss order) ≡ true)
        ↔ ((stop : F) × (order.stop_loss ≡ some stop) × IsProtective order stop)
  unfolding check_stop_loss
  stop_loss_safe order = check_stop_safe order order.stop_loss

  pub risk_reward_safe :
      (order : Proposal F) → (is_silent (check_risk_reward order) ≡ true) ↔ IsRewarded order
  unfolding check_risk_reward
  risk_reward_safe order =
      let entry = or_nought order.entry_price in
      let stop = or_nought order.stop_loss in
      let target = or_nought order.take_profit in
      let risk = abs (fl.sub entry stop) in
      let ratio = fl.div (abs (fl.sub target entry)) risk in
      let set = fl.lt nought entry && (fl.lt nought stop && fl.lt nought target) in
      let inner =
        refuse_iff (fl.lt nought risk && fl.lt ratio (fl.lit 25 1)) _ pass
          (truthy-append _ _ refl) in
      let outer = guard_iff set _ in
      (
        λ h e s t r. ground (arith, (inner.0 (outer.0 h (rw (e, s, t)))).0),
        λ h. outer.1 (λ p. inner.1 (small_ratio _ _ _ _ _ p h, is_silent-pass)),
      )

  liquidity_safe :
      (o : Option F)
      → (is_silent (check_liquidity o) ≡ true)
        ↔ ((ratio : F) → o ≡ some ratio → fl.lt ratio (fl.lit 3 1) ≡ false)
  unfolding check_liquidity
  liquidity_safe none = (λ h r e. cc, λ h. is_silent-pass)
  liquidity_safe (some r) =
      let test = refuse_iff (fl.lt r (fl.lit 3 1)) _ pass (truthy-append _ _ refl) in
      (
        λ h. from_some (λ x. fl.lt x (fl.lit 3 1) ≡ false) (test.0 h).0,
        λ h. test.1 (h r refl, is_silent-pass),
      )

  not_wild :
      (a m : F)
      → (fl.lt nought m && fl.lt (fl.lit 1 1) (fl.div a m)) ≡ false
      → (x y : F) → some a ≡ some x
      → some m ≡ some y
      → fl.lt nought y ≡ true
      → fl.lt (fl.lit 1 1) (fl.div x y) ≡ false
  not_wild a m h x y d e p =
      let h' = from_some (λ z. (fl.lt nought z && fl.lt (fl.lit 1 1) (fl.div a z)) ≡ false) h y e in
      let h'' =
        from_some (λ w. (fl.lt nought y && fl.lt (fl.lit 1 1) (fl.div w y)) ≡ false) h' x d in
      ground arith

  not_wild_test :
      (a m : F)
      → (fl.lt nought m ≡ true → fl.lt (fl.lit 1 1) (fl.div a m) ≡ false)
      → (fl.lt nought m && fl.lt (fl.lit 1 1) (fl.div a m)) ≡ false
  not_wild_test a m h = ground arith

  volatility_safe :
      (a m v : Option F)
      → (is_silent (check_volatility a m v) ≡ true)
        ↔ IsCalm (some (record { atr = a; bb_middle = m; volume_ratio = v }))
  unfolding check_volatility
  volatility_safe none m v =
      (λ h. (λ x y e. cc, (liquidity_safe v).0 h), λ h. (liquidity_safe v).1 h.1)
  volatility_safe (some a) none v =
      (λ h. (λ x y d e. cc, (liquidity_safe v).0 h), λ h. (liquidity_safe v).1 h.1)
  volatility_safe (some a) (some m) v =
      let test =
        refuse_iff (fl.lt nought m && fl.lt (fl.lit 1 1) (fl.div a m)) _ (check_liquidity v)
          (truthy-append _ _ refl) in
      (
        λ h. (λ x y d e p. not_wild a m (test.0 h).0 x y d e p, (liquidity_safe v).0 (test.0 h).1),
        λ h. test.1 (not_wild_test a m (h.0 a m refl refl), (liquidity_safe v).1 h.1),
      )

  context_safe : (c : Option (MarketContext F)) → (is_silent (check_context c) ≡ true) ↔ IsCalm c
  unfolding check_context
  context_safe none = (λ h. tt, λ h. is_silent-pass)
  context_safe (some ctx) = volatility_safe ctx.atr ctx.bb_middle ctx.volume_ratio

  pub market_safe :
      (order : Proposal F)
      → (is_silent (check_market_conditions order) ≡ true) ↔ IsCalm order.market_context
  unfolding check_market_conditions
  market_safe order = context_safe order.market_context
