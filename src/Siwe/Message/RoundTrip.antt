-- ===== src/Siwe/Message/RoundTrip.antt =====
-- The text of a sign-in message, as EIP-4361 writes it and as the login page of the repository
-- (user_worker/src/pages/login.html) builds it, and what the parser makes of it.
use mathlib.Core.List.{reverse, reverse-append}
use lets_embed.Prelude.{
  ℕ, ◌<◌, ◌^◌, ◌≡◌, ◌≢◌, refl, sym, ap, ◌∙◌, Bool, true, false, not, ◌&&◌, ◌||◌, Option, none, some,
  List, [], ◌∷◌, ◌++◌, all, all-append, map, unwrap_or, if◌then◌else◌, arith, ◌==◌, inl, inr,
  Bool-cases,
}
use lets_embed.Prelude.Text.{Str, codes, str_eq, strip_prefix}
use lets_embed.Prelude.Split.{
  join, starts_with, strip_suffix, IsFree, AllFree, split-join, strip_prefix-append,
  strip_suffix-append,
}
use lets_embed.Prelude.Decimal.{decimal, decimal_digits, parse_decimal-decimal}
use lets_embed.Prelude.Words.{u64_mod}
use lets_embed.Prelude.Results.{ok}
use lets_embed.Siwe.Message.{
  SiweMessage, preamble_suffix, is_empty, field, trim_cr, statement_lines, statement_of, expiration,
  trailing, parse_fields, parse_lines, parse_siwe,
}

-- The block between the blank line after the address and the fields.
abbrev statement_block : Option Str → List Str → List Str
statement_block none rest = [] ∷ rest
statement_block (some s) rest = s ∷ [] ∷ rest

abbrev expiration_block : Option Str → List Str
expiration_block none = []
expiration_block (some t) = (codes "Expiration Time: " ++ t) ∷ []

abbrev fields : SiweMessage → List Str
fields m =
    (codes "URI: " ++ m.uri)
    ∷ (codes "Version: " ++ m.version)
    ∷ (codes "Chain ID: " ++ decimal 19 m.chain_id)
    ∷ (codes "Nonce: " ++ m.nonce)
    ∷ (codes "Issued At: " ++ m.issued_at)
    ∷ expiration_block m.expiration_time

abbrev lines : SiweMessage → List Str
lines m = (m.domain ++ preamble_suffix) ∷ m.address ∷ [] ∷ statement_block m.statement (fields m)

-- The message as one text.
unfoldable pub print_siwe : SiweMessage → Str
print_siwe m = join (0xa ∷ []) (lines m)

-- A text within one line.
abbrev pub IsLine : Str → Type 0
IsLine s = IsFree 0xa s × IsFree 0xd s

abbrev pub IsStatement : Option Str → Type 0
IsStatement none = Unit
IsStatement (some s) = IsLine s × (is_empty s ≡ false) × (starts_with (codes "URI: ") s ≡ false)

abbrev pub IsExpiration : Option Str → Type 0
IsExpiration none = Unit
IsExpiration (some t) = IsLine t

-- A message whose text is read without loss.
pub record IsPrintable (m : SiweMessage) : Type 0 where
  pub domain : IsLine m.domain × (is_empty m.domain ≡ false)
  pub address : IsLine m.address × (is_empty m.address ≡ false)
  pub statement : IsStatement m.statement
  pub uri : IsLine m.uri
  pub version : IsLine m.version
  pub chain_id : m.chain_id < u64_mod
  pub nonce : IsLine m.nonce
  pub issued_at : IsLine m.issued_at
  pub expiration_time : IsExpiration m.expiration_time

all-reverse : (p : ℕ → Bool) (s : Str) → all p s ≡ true → all p (reverse s) ≡ true
all-reverse p [] h = refl
all-reverse p (c ∷ s) h =
    rw (reverse-append (c ∷ []) s)
      (all-append p (reverse s) (c ∷ []) (all-reverse p s (ground arith)) (ground arith))

no_prefix : (c : ℕ) (s : Str) → IsFree c s → strip_prefix (c ∷ []) s ≡ none
unfolding strip_prefix
no_prefix c [] h = refl
no_prefix c (d ∷ s) h = ground arith

trim_cr_line : (s : Str) → IsFree 0xd s → trim_cr s ≡ s
unfolding strip_suffix
trim_cr_line s h = rw (no_prefix 0xd (reverse s) (all-reverse (λ c. not (c == 0xd)) s h))

abbrev AllLines : List Str → Type 0
AllLines [] = Unit
AllLines (l ∷ ls) = IsLine l × AllLines ls

AllLines-free : (ls : List Str) → AllLines ls → AllFree 0xa ls
AllLines-free [] h = tt
AllLines-free (l ∷ ls) h = (h.0.0, AllLines-free ls h.1)

map-trim_cr : (ls : List Str) → AllLines ls → map trim_cr ls ≡ ls
map-trim_cr [] h = refl
map-trim_cr (l ∷ ls) h = rw (trim_cr_line l h.0.1, map-trim_cr ls h.1)

append-IsLine : (s t : Str) → IsLine s → IsLine t → IsLine (s ++ t)
append-IsLine s t a b = (all-append _ s t a.0 b.0, all-append _ s t a.1 b.1)

digits-IsLine :
    (s : Str) → all (λ c. lets_embed.Prelude.Text.in_range b'0' b'9' c) s ≡ true → IsLine s
digits-IsLine [] h = (refl, refl)
digits-IsLine (c ∷ s) h = let rest = digits-IsLine s (ground arith) in (ground arith, ground arith)

module _ (m : SiweMessage) (v : IsPrintable m) where
  expiration-AllLines : (o : Option Str) → IsExpiration o → AllLines (expiration_block o)
  expiration-AllLines none h = tt
  expiration-AllLines (some t) h = (append-IsLine (codes "Expiration Time: ") t (refl, refl) h, tt)

  fields-AllLines : AllLines (fields m)
  fields-AllLines =
      let expires = expiration-AllLines m.expiration_time v.expiration_time in
      let issued = append-IsLine (codes "Issued At: ") m.issued_at (refl, refl) v.issued_at in
      let nonce = append-IsLine (codes "Nonce: ") m.nonce (refl, refl) v.nonce in
      let chain =
        append-IsLine (codes "Chain ID: ") (decimal 19 m.chain_id) (refl, refl)
          (digits-IsLine (decimal 19 m.chain_id) (decimal_digits 19 m.chain_id)) in
      let version = append-IsLine (codes "Version: ") m.version (refl, refl) v.version in
      let uri = append-IsLine (codes "URI: ") m.uri (refl, refl) v.uri in
      (uri, (version, (chain, (nonce, (issued, expires)))))

  statement-AllLines :
      (o : Option Str) (rest : List Str)
      → IsStatement o
      → AllLines rest
      → AllLines (statement_block o rest)
  statement-AllLines none rest h k = ((refl, refl), k)
  statement-AllLines (some s) rest h k = (h.0, ((refl, refl), k))

  lines-AllLines : AllLines (lines m)
  lines-AllLines =
      let rest = statement-AllLines m.statement (fields m) v.statement fields-AllLines in
      let first = append-IsLine m.domain preamble_suffix v.domain.0 (refl, refl) in
      (first, (v.address.0, ((refl, refl), rest)))

field_lem : (name p v : Str) (ls : List Str) → field name p ((p ++ v) ∷ ls) ≡ ok (v, ls)
unfolding field
field_lem name p v ls = rw (strip_prefix-append p v) refl

-- The statement is read up to the line that follows it.
statement_lines-block :
    (o : Option Str) (u : Str) (ls : List Str)
    → IsStatement o
    → (acc : List Str) × (statement_lines [] (statement_block o ((codes "URI: " ++ u) ∷ ls))
        ≡ ok (acc, (codes "URI: " ++ u) ∷ ls))
      × (statement_of acc ≡ o)
unfolding statement_lines strip_prefix join
statement_lines-block none u ls h = ([], refl, refl)
statement_lines-block (some s) u ls h = (s ∷ [], rw (h.2, h.1) refl, refl)

trailing_expiration : (o : Option Str) → (expiration (expiration_block o) ≡ (o, []))
unfolding strip_prefix
trailing_expiration none = refl
trailing_expiration (some t) = refl

parse_fields-fields :
    (m : SiweMessage)
    → IsPrintable m
    → parse_fields m.domain m.address (statement_block m.statement (fields m)) ≡ ok m
unfolding parse_fields trailing
parse_fields-fields m v =
    let l6 = expiration_block m.expiration_time in
    let l5 = (codes "Issued At: " ++ m.issued_at) ∷ l6 in
    let l4 = (codes "Nonce: " ++ m.nonce) ∷ l5 in
    let l3 = (codes "Chain ID: " ++ decimal 19 m.chain_id) ∷ l4 in
    let l2 = (codes "Version: " ++ m.version) ∷ l3 in
    let (acc, e, s) = statement_lines-block m.statement m.uri l2 v.statement in
    rw
      (
        e,
        field_lem (codes "expected URI") (codes "URI: ") m.uri l2,
        field_lem (codes "expected Version") (codes "Version: ") m.version l3,
        field_lem (codes "expected Chain ID") (codes "Chain ID: ") (decimal 19 m.chain_id) l4,
        parse_decimal-decimal u64_mod 19 m.chain_id (omega (arith, v.chain_id)) v.chain_id,
        field_lem (codes "expected Nonce") (codes "Nonce: ") m.nonce l5,
        field_lem (codes "expected Issued At") (codes "Issued At: ") m.issued_at l6,
        trailing_expiration m.expiration_time,
        s,
      )
      refl

parse_lines-lines : (m : SiweMessage) → IsPrintable m → parse_lines (lines m) ≡ ok m
unfolding parse_lines
parse_lines-lines m v =
    rw (strip_suffix-append preamble_suffix m.domain, v.domain.1, v.address.1)
      (parse_fields-fields m v)

-- A message whose fields stay within a line, whose domain and address are not empty, whose
-- statement is one line that is not empty and does not start as the first field does, and whose
-- chain id is below 2^64 is read back from its text, with and without statement and expiration
-- time.
pub parse_siwe-print_siwe : (m : SiweMessage) → IsPrintable m → parse_siwe (print_siwe m) ≡ ok m
unfolding parse_siwe print_siwe
parse_siwe-print_siwe m v =
    let all = lines-AllLines m v in
    rw
      (
        split-join 0xa (m.domain ++ preamble_suffix) _ (AllLines-free (lines m) all),
        map-trim_cr (lines m) all,
      )
      (parse_lines-lines m v)
