-- ===== src/Likes/Tests.antt =====
-- Likes in two pages.
use lets_embed.Prelude.{ℕ, suc, ◌≡◌, refl, none, some, List, [], ◌∷◌, length}
use lets_embed.Prelude.Int.{pos}
use lets_embed.Prelude.Float.{as_f64, nat_f64, round_to, unit_of}
use lets_embed.Prelude.Text.{Str, codes, str_eq}
use lets_embed.Prelude.{arith, true, false, not, ◌&&◌, ◌||◌}
use lets_embed.Session.{
  Codec, session_address, jwt_verify, checked_claims, is_valid_principal, is_eth_address,
}
use lets_embed.Prelude.Text.{strip_prefix}
use lets_embed.Prelude.Split.{split_once}
use lets_embed.Likes.Handlers.{
  LikeReq, Trip, liked_reply, valid_like_kind, is_liked, checked, insert_or_ignore, like, unlike,
  liked,
}
use lets_embed.Likes.Refined.{is_same_like, likes_refined}
use lets_embed.Likes.{Like, filter, insert, newest_first, walk}
use lets_embed.Likes.Paging.{Descending}
use lets_embed.Likes.Walk.{likes_of, walk-eq-likes_of}

abbrev liked_at : Str → ℕ → Like
liked_at address time = record {
  address = address;
  kind = codes "image";
  target_id = pos time;
  created_at = time;
}

abbrev table : List Like
table =
    liked_at (codes "a") 20
    ∷ liked_at (codes "b") 25
    ∷ liked_at (codes "a") 30
    ∷ liked_at (codes "a") 10
    ∷ []

table-Descending : Descending (likes_of (codes "a") none table)
unfolding filter insert newest_first str_eq
table-Descending = (refl, (refl, (refl, tt)))

walk-eq-likes_of_example :
    walk (suc (length (likes_of (codes "a") none table))) (codes "a") none 2 table none
    ≡ some (likes_of (codes "a") none table)
walk-eq-likes_of_example = walk-eq-likes_of (codes "a") none 1 table table-Descending

newest :
    likes_of (codes "a") none table
    ≡ liked_at (codes "a") 30 ∷ liked_at (codes "a") 20 ∷ liked_at (codes "a") 10 ∷ []
unfolding filter insert newest_first str_eq
newest = refl

abbrev address : Str
address = codes "0xd8da6bf26964af9d7eed9e03e53415d37aa96045"

abbrev lib : Codec
lib = record {
  b64_encode = λ s. s;
  b64_decode = λ s. some s;
  hmac = λ secret text. text;
  to_json = λ c. c.sub;
  of_json = λ s. some (record { sub = address; iat = 0; exp = 2000 });
}

abbrev trip : Trip
trip = record {
  lib = lib;
  decode58 = λ s. none;
  jwt_secret = codes "secret";
  cookie = some (codes "a.a");
  now = 1000;
  db_ok = true;
}

abbrev req : LikeReq
req = record { kind = codes "image"; target_id = pos 7 }

signed_in :
    session_address trip.decode58 trip.lib trip.cookie trip.jwt_secret trip.now ≡ some address
unfolding session_address jwt_verify split_once str_eq checked_claims is_valid_principal
    is_eth_address strip_prefix
signed_in = refl

likes_refined_example :
    ((like trip req table).0 ≡ liked_reply true)
    × (is_liked (codes "b") req (like trip req table).1
        ≡ (is_same_like address req (codes "b") req || is_liked (codes "b") req table))
    × ((unlike trip req table).0 ≡ liked_reply false)
    × (is_liked (codes "b") req (unlike trip req table).1
        ≡ (not (is_same_like address req (codes "b") req) && is_liked (codes "b") req table))
    × (liked trip req table ≡ (liked_reply (is_liked address req table), table))
likes_refined_example =
    likes_refined trip req table address signed_in (unfold valid_like_kind str_eq in refl) refl
      (codes "b") req (omega arith, omega arith) (omega arith, omega arith)

-- Past 2^53 two ids are one: a like of the first is a like of the second.
lost_id :
    is_liked address
      (record req { target_id = pos 9007199254740993 })
      (like trip (record req { target_id = pos 9007199254740992 }) []).1
    ≡ true
unfolding like checked insert_or_ignore session_address jwt_verify split_once str_eq checked_claims
    is_valid_principal is_eth_address strip_prefix valid_like_kind as_f64 nat_f64 round_to unit_of
lost_id = refl
