-- ===== src/Pairs/Tests.antt =====
-- A pair added to one that the environment operates.
use criptotrade.Base.{◌≡◌, ◌⊎◌, String, true, refl, inl, none, some, []}
use criptotrade.Base.Int.{ℤ}
use criptotrade.Base.Text.{strip, strip_left, strip_right, upper}
use criptotrade.Access.Sets.{sort, insert_sorted}
use criptotrade.Pairs.{
  PairsEnv, pairs, split, parse_pairs, allowed_pairs, is_allowed, operated_pairs, norm,
  validate_addable, add_operated,
}
use criptotrade.Pairs.Kept.{Has, is_stale, add_operated-Has}

abbrev env : PairsEnv
env = record { market_pairs = some "B/USDT,A/USDT"; symbols = some "A/USDT" }

added : (add_operated {F = ℤ} env none "ana" "t1" "b-usdt" ([], [])).0 ≡ pairs
unfolding add_operated validate_addable is_allowed allowed_pairs operated_pairs parse_pairs split
    sort insert_sorted strip strip_left strip_right upper norm
added = refl

a_allowed : Has "A/USDT" (allowed_pairs env)
unfolding allowed_pairs parse_pairs split sort insert_sorted strip strip_left strip_right upper
a_allowed = refl

a_operated : Has "A/USDT" (operated_pairs env [])
unfolding operated_pairs allowed_pairs parse_pairs split sort insert_sorted strip strip_left
    strip_right upper
a_operated = refl

add_operated-Has_example :
    Has "A/USDT" (operated_pairs env (add_operated {F = ℤ} env none "ana" "t1" "b-usdt" ([], [])).1)
    ⊎ ((is_stale env [] ≡ true) × (◌≡◌ {A = String} "A/USDT" "BTC/USDT"))
add_operated-Has_example =
    add_operated-Has {F = ℤ} env none "ana" "t1" "b-usdt" "A/USDT" [] [] added a_allowed
      (inl a_operated)
