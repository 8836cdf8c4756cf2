-- ===== src/Rates/Tests.antt =====
-- Prices and answers of user_worker/src/rates.rs at concrete numbers.
use lets_embed.Prelude.{◌*◌, ◌/◌, ◌^◌, ◌≤◌, ◌≡◌, refl, some, none, arith}
use lets_embed.Prelude.Words.{i64_max}
use lets_embed.Prelude.Results.{ok}
use lets_embed.Rates.{points_for, saturate}
use lets_embed.Rates.Exact.{points_for-exact, points_for-le}
use lets_embed.Rates.RoundData.{decode_latest_round_data}
use lets_embed.Rates.RoundData.Encoded.{
  round_data, price_of_round, decode_latest_round_data-round_data,
}

one_usdt : points_for 1000000 6 none ≡ 10000
unfolding points_for
one_usdt = refl

tenth_of_ether : points_for 100000000000000000 18 (some 300000000000) ≡ 3000000
unfolding points_for
tenth_of_ether = refl

absurd_amount : points_for (2 ^ 127) 6 (some 300000000000) ≡ i64_max
unfolding points_for
absurd_amount = refl

points_for-exact_example :
    points_for 1000000 6 none ≡ saturate (1000000 * 100000000 / (10 ^ 6 * 10000))
points_for-exact_example = points_for-exact 6 (omega arith) 1000000 none (omega arith)

points_for-le_example : points_for (2 ^ 127) 6 (some 300000000000) ≤ i64_max
points_for-le_example = points_for-le (2 ^ 127) 6 (some 300000000000)

fresh_price : price_of_round 300000000000 1700000000 1700000000 ≡ ok 300000000000
unfolding price_of_round
fresh_price = refl

decode_latest_round_data-round_data_example :
    decode_latest_round_data (round_data 1 300000000000 2 1700000000 1) 1700000000
    ≡ price_of_round 300000000000 1700000000 1700000000
decode_latest_round_data-round_data_example =
    decode_latest_round_data-round_data 1 300000000000 2 1700000000 1 1700000000 (omega arith)
      (omega arith)
