-- ===== src/Backtest/Causal.antt =====
-- The replay of src/backtest/engine.py looks at no later candle.
use criptotrade.Base.{
  ℕ, zero, suc, ◌+◌, ◌≤◌, ◌<◌, ◌≡◌, refl, sym, ap, ◌∙◌, List, [], ◌∷◌, take, arith,
}
use criptotrade.Base.Float.{Float}
use criptotrade.Backtest.{BacktestEngine, Strategy, Candle, Run, warmup, nth}
use criptotrade.Backtest.Replay.{bar, bars}

module _ {ℓ} {A : Type ℓ} where
  take-take : (m n : ℕ) (xs : List A) → m ≤ n → take m (take n xs) ≡ take m xs
  take-take zero n xs h = refl
  take-take (suc m) zero xs h = absurd (omega arith)
  take-take (suc m) (suc n) [] h = refl
  take-take (suc m) (suc n) (x ∷ xs) h = ap (λ r. x ∷ r) (take-take m n xs (omega arith))

  nth-take : (i n : ℕ) (xs : List A) → i < n → nth i (take n xs) ≡ nth i xs
  nth-take i zero xs h = absurd (omega arith)
  nth-take i (suc n) [] h = refl
  nth-take zero (suc n) (x ∷ xs) h = refl
  nth-take (suc i) (suc n) (x ∷ xs) h = nth-take i n xs (omega arith)

module _ {S F : Type 0} ⦃fl : Float F⦄ (e : BacktestEngine F) (strategy : Strategy S F) where
  bar-take :
      (ohlcv : List (Candle F)) (n i : ℕ) (r : Run S F)
      → i < n
      → bar e strategy (take n ohlcv) i r ≡ bar e strategy ohlcv i r
  unfolding bar
  bar-take ohlcv n i r h =
      rw (take-take (suc i) n ohlcv (omega arith)) (rw (nth-take i n ohlcv h) refl)

  bars-take :
      (ohlcv : List (Candle F)) (n k : ℕ) (r : Run S F)
      → warmup + k ≤ n
      → bars e strategy (take n ohlcv) k r ≡ bars e strategy ohlcv k r
  unfolding bars
  bars-take ohlcv n zero r h = refl
  bars-take ohlcv n (suc k) r h =
      bar-take ohlcv n (warmup + k) _ (omega arith)
      ∙ ap (bar e strategy ohlcv (warmup + k)) (bars-take ohlcv n k r (omega arith))

  -- Two histories that agree on their first `n` candles give the same state after every round that
  -- comes to candle `n` at most: the capital, the trades, the open trade, the curve and what the
  -- strategy remembers do not depend on later candles, whatever the strategy does.
  pub bars-Causal :
      (xs ys : List (Candle F)) (n k : ℕ) (r : Run S F)
      → take n xs ≡ take n ys
      → warmup + k ≤ n
      → bars e strategy xs k r ≡ bars e strategy ys k r
  bars-Causal xs ys n k r same h =
      sym (bars-take xs n k r h) ∙ ap (λ zs. bars e strategy zs k r) same ∙ bars-take ys n k r h
