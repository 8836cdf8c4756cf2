-- ===== src/Payments/Subscription/Tests.antt =====
-- Changes of a subscription at concrete accounts.
use lets_embed.Prelude.{refl, inl, inr, true, none, some, List, [], ◌∷◌}
use lets_embed.Prelude.Int.{pos}
use lets_embed.Prelude.Text.{Str, codes}
use lets_embed.Account.Storage.{Storage, untouched}
use lets_embed.GatewayWorker.Metering.{answered, lost_before}
use lets_embed.Login.Users.{UserRow}
use lets_embed.Payments.Subscription.{World, Change, buy, cancel, Request, run}
use lets_embed.Payments.Subscription.Mirrored.{IsMirrored, AllWhole, run-IsMirrored}

abbrev row : Str → UserRow
row address = record {
  address = address;
  created_at = 1000;
  last_login = 2000;
  plan = none;
  banned = 0;
  solana_address = none;
}

abbrev funded : Storage
funded = record untouched { init = some true; balance = some (pos 1000000) }

abbrev world : World
world = record { users = row (codes "0xa1") ∷ row (codes "0xb2") ∷ []; accounts = λ a. funded }

abbrev request : Str → Change → Request
request addr change = record {
  session = some addr;
  change = change;
  trip = record { call = answered; now = 5000; later = 5001 };
  update_ok = true;
}

abbrev requests : List Request
requests =
    request (codes "0xa1") (buy (record { plan = codes "pro" }))
    ∷ request (codes "0xb2") (buy (record { plan = codes "basic" }))
    ∷ request (codes "0xb2") (buy (record { plan = codes "gold" }))
    ∷ record (request (codes "0xa1") cancel) {
      trip = record { call = lost_before; now = 6000; later = 6001 };
    }
    ∷ request (codes "0xa1") cancel
    ∷ []

requests_whole : AllWhole requests
unfolding AllWhole
requests_whole = (
  (inl refl, refl),
  ((inl refl, refl), ((inl refl, refl), ((inr refl, refl), ((inl refl, refl), tt)))),
)

run-IsMirrored_example : IsMirrored (run requests world).users (run requests world).accounts
unfolding IsMirrored
run-IsMirrored_example = run-IsMirrored requests world requests_whole (refl, (refl, tt))
