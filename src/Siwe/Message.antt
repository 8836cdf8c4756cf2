-- ===== src/Siwe/Message.antt =====
-- `parse_siwe` of user_worker/src/siwe.rs. What is left of `Lines` is a list of lines.
pub mod RoundTrip
use lets_embed.Prelude.{
  ℕ, Bool, true, false, not, ◌&&◌, ◌||◌, Option, none, some, List, [], ◌∷◌, ◌++◌, all, map,
  unwrap_or, if◌then◌else◌,
}
use lets_embed.Prelude.Text.{Str, codes, str_eq, strip_prefix}
use lets_embed.Prelude.Split.{split, join, starts_with, strip_suffix}
use lets_embed.Prelude.Decimal.{parse_decimal}
use lets_embed.Prelude.Words.{u64_mod}
use lets_embed.Prelude.Results.{Result, ok, err, ok_or, guard, ◌>>=◌, ◌>>◌}

pub record SiweMessage : Type 0 where
  pub domain : Str
  pub address : Str
  pub statement : Option Str
  pub uri : Str
  pub version : Str
  pub chain_id : ℕ
  pub nonce : Str
  pub issued_at : Str
  pub expiration_time : Option Str

abbrev pub preamble_suffix : Str
preamble_suffix = codes " wants you to sign in with your Ethereum account:"

abbrev pub is_empty : Str → Bool
is_empty [] = true
is_empty (c ∷ s) = false

abbrev is_none : List Str → Bool
is_none [] = true
is_none (l ∷ ls) = false

-- `Lines::next`.
abbrev pub next : Str → List Str → Result (Str × List Str)
next what [] = err what
next what (l ∷ ls) = ok (l, ls)

-- `Lines::field`.
unfoldable pub field : Str → Str → List Str → Result (Str × List Str)
field name prefix lines = do
  (l, rest) ← next name lines
  v ← ok_or (strip_prefix prefix l) name
  ok (v, rest)

-- A line without the carriage return that a `\r\n` leaves.
abbrev pub trim_cr : Str → Str
trim_cr l = unwrap_or (strip_suffix (0xd ∷ []) l) l

-- The loop that reads the statement, with the lines read so far.
unfoldable pub statement_lines : List Str → List Str → Result (List Str × List Str)
statement_lines acc [] = err (codes "unterminated statement")
statement_lines acc (l ∷ ls) =
    let rest = statement_lines (acc ++ (l ∷ [])) ls in
    if is_none acc && starts_with (codes "URI: ") l
    then ok (acc, l ∷ ls)
    else if is_empty l
    then ok (acc, ls)
    else rest

abbrev statement_of : List Str → Option Str
statement_of [] = none
statement_of (l ∷ ls) = some (join (0xa ∷ []) (l ∷ ls))

abbrev expiration : List Str → Option Str × List Str
expiration [] = (none, [])
expiration (l ∷ ls) = elim (strip_prefix (codes "Expiration Time: ") l) [
  | none ↦ (none, l ∷ ls)
  | some v ↦ (some v, ls)
]

-- The tolerated trailing fields. The flag says that the line before was `Resources:` or one of its
-- items, the inner loop of the source.
unfoldable pub trailing : Bool → List Str → Result {0} Unit
trailing in_resources [] = ok tt
trailing in_resources (l ∷ ls) =
    let items = trailing true ls in
    let more = trailing false ls in
    if in_resources && starts_with (codes "- ") l
    then items
    else if starts_with (codes "Not Before: ") l || starts_with (codes "Request ID: ") l
    then more
    else if str_eq l (codes "Resources:")
    then items
    else if is_empty l && all is_empty ls
    then ok tt
    else err (codes "unexpected trailing line")

-- From the statement on.
unfoldable pub parse_fields : Str → Str → List Str → Result SiweMessage
parse_fields domain address lines = do
  (statement, l1) ← statement_lines [] lines
  (uri, l2) ← field (codes "expected URI") (codes "URI: ") l1
  (version, l3) ← field (codes "expected Version") (codes "Version: ") l2
  (chain, l4) ← field (codes "expected Chain ID") (codes "Chain ID: ") l3
  chain_id ← ok_or (parse_decimal u64_mod chain) (codes "bad chain id")
  (nonce, l5) ← field (codes "expected Nonce") (codes "Nonce: ") l4
  (issued_at, l6) ← field (codes "expected Issued At") (codes "Issued At: ") l5
  _ ← trailing false (expiration l6).1
  ok (record {
    domain = domain;
    address = address;
    statement = statement_of statement;
    uri = uri;
    version = version;
    chain_id = chain_id;
    nonce = nonce;
    issued_at = issued_at;
    expiration_time = (expiration l6).0;
  })

unfoldable pub parse_lines : List Str → Result SiweMessage
parse_lines lines = do
  (first, l1) ← next (codes "missing preamble") lines
  domain ← ok_or (strip_suffix preamble_suffix first) (codes "bad preamble")
  guard (not (is_empty domain)) (codes "empty domain")
  (address, l2) ← next (codes "missing address") l1
  guard (not (is_empty address)) (codes "empty address")
  (blank, l3) ← next (codes "missing blank line") l2
  guard (is_empty blank) (codes "expected blank line after address")
  parse_fields domain address l3

-- `parse_siwe`.
unfoldable pub parse_siwe : Str → Result SiweMessage
parse_siwe msg = parse_lines (map trim_cr (split 0xa msg))
