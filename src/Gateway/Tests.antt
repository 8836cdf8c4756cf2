-- ===== src/Gateway/Tests.antt =====
-- Runs of the gateway in front of the search service.
use lets_embed.Prelude.{◌≡◌, refl, true, false, some, Option, List, [], ◌∷◌}
use lets_embed.Prelude.Utf8.{lossy_from}
use lets_embed.Prelude.Split.{split}
use lets_embed.Prelude.Text.{Str, codes, str_eq}
use lets_embed.Gateway.Jwt.{Lib, single, verify, verify_parts, check_claim, get_key, contains}
use lets_embed.Gateway.Jwt.Checked.{IsChecked}
use lets_embed.Gateway.Ingress.{forwarded, request_filter, is_content_hashed}
use lets_embed.Gateway.Ingress.Cached.{request_filter-IsChecked}

abbrev lib : Lib Str
lib = record {
  decode = λ s. some s;
  parse_key = λ n e. some n;
  parse_info = λ s. some (record { alg = codes "RS256"; kid = s });
  parse_claim = λ s. some (record {
    aud = single (codes "app");
    exp = 2000;
    iss = codes "https://team.cloudflareaccess.com";
  });
  verify_sig = λ key text sig. str_eq key sig;
}

abbrev keys : Option (List (Str × Str))
keys = some ((codes "k1", codes "s1") ∷ (codes "k2", codes "s2") ∷ [])

abbrev token : Str
token = codes "k2.p.s2"

accepted : request_filter lib (some (codes "team")) keys (codes "app") 1000 (some token) ≡ forwarded
unfolding request_filter verify verify_parts check_claim get_key contains split str_eq lossy_from
accepted = refl

request_filter-IsChecked_example :
    (jwt : Str) × (some token ≡ some jwt)
    × IsChecked lib (some (codes "team")) keys jwt (codes "app") 1000
request_filter-IsChecked_example =
    request_filter-IsChecked lib (some (codes "team")) keys (codes "app") 1000 (some token) accepted

-- A file name with a hash, and one without.
hashed : is_content_hashed (codes "/pkg/app.0a1b2c3d.js") ≡ true
unfolding is_content_hashed split
hashed = refl

not_hashed : is_content_hashed (codes "/pkg/app.min.js") ≡ false
unfolding is_content_hashed split
not_hashed = refl
