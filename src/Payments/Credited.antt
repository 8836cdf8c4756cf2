-- ===== src/Payments/Credited.antt =====
-- What stands behind an answer of user_worker/src/payments.rs that a top-up is credited.
use lets_embed.Prelude.{
  ℕ, ◌≤◌, ◌≡◌, refl, sym, ap, true, Option, none, some, put, arith, Bool-cases, Option-cases, inl,
  inr,
}
use lets_embed.Prelude.Int.{ℤ}
use lets_embed.Prelude.Text.{Str, str_key, trim, to_lowercase}
use lets_embed.Config.Tokens.{TokenSpec}
use lets_embed.Rates.{points_for}
use lets_embed.Payments.Chain.{Verdict, passed, rejected_for, released_with, Node, valid_tx_hash}
use lets_embed.Payments.Flow.{
  World, Delivery, answered, lost_before, lost_after, Trip, topup_resp, delivered, conclude,
  amount_on_chain, resolve_price, worth, checked, submit, topup_ethereum, new_row,
}
use lets_embed.Payments.Genuine.{bind-passed, IsNative, native_amount-IsNative}
use lets_embed.Payments.Transfers.{IsTokenPayment, erc20_amount-IsTokenPayment}

-- The payment that a token of the registry asks for.
abbrev pub IsGenuine : Option Str → Str → Str → Node → ℕ → Type 0
IsGenuine none deposit addr node amount = IsNative deposit addr node amount
IsGenuine (some contract) deposit addr node amount =
    IsTokenPayment contract deposit addr node amount

-- The price that a token is credited at.
abbrev pub IsPriced : Option Str → Node → Option ℕ → Type 0
IsPriced none node price = price ≡ none
IsPriced (some feed) node price = (p : ℕ) × (node.feed_price ≡ some p) × (price ≡ some p)

amount-IsGenuine :
    (o : Option Str) (spec : TokenSpec) (deposit addr : Str) (node : Node) {amount : ℕ}
    → spec.contract ≡ o
    → amount_on_chain spec deposit addr node ≡ passed amount
    → IsGenuine o deposit addr node amount
amount-IsGenuine none spec deposit addr node e h =
    native_amount-IsNative deposit addr node (ground arith)
amount-IsGenuine (some contract) spec deposit addr node e h =
    erc20_amount-IsTokenPayment contract deposit addr node (ground arith)

price-IsPriced :
    (o : Option Str) (spec : TokenSpec) (node : Node) {price : Option ℕ}
    → spec.feed ≡ o
    → resolve_price spec node ≡ passed price
    → IsPriced o node price
unfolding resolve_price
price-IsPriced none spec node e h = ground arith
price-IsPriced (some feed) spec node e h = elim (Option-cases node.feed_price) [
  | inl n ↦ absurd (ground arith)
  | inr (p, n) ↦ (p, n, ground arith)
]

worth-passed :
    (spec : TokenSpec) (price : Option ℕ) (amount : ℕ) {points : ℕ}
    → worth spec price amount ≡ passed points
    → (points ≡ points_for amount spec.decimals price) × (1000 ≤ points)
unfolding worth
worth-passed spec price amount h = ground arith

-- All that the checks establish of an amount and its points.
abbrev pub IsEarned : TokenSpec → Str → Str → Node → ℕ → Type 0
IsEarned spec deposit addr node points =
    (amount : ℕ) × (price : Option ℕ) × IsGenuine spec.contract deposit addr node amount
    × IsPriced spec.feed node price
    × (points ≡ points_for amount spec.decimals price)
    × (1000 ≤ points)

checked-IsEarned :
    (spec : TokenSpec) (deposit addr : Str) (node : Node) {amount points : ℕ}
    → checked spec deposit addr node ≡ passed (amount, points)
    → IsEarned spec deposit addr node points
unfolding checked
checked-IsEarned spec deposit addr node h =
    let (a, v, h1) = bind-passed (amount_on_chain spec deposit addr node) _ h in
    let (price, q, h2) = bind-passed (resolve_price spec node) _ h1 in
    let (n, w, h3) = bind-passed (worth spec price a) _ h2 in
    let (exact, enough) = worth-passed spec price a w in
    (
      a,
      price,
      amount-IsGenuine spec.contract spec deposit addr node refl v,
      price-IsPriced spec.feed spec node refl q,
      ground arith,
      ground arith,
    )

delivered-credited :
    (d : Delivery) (trip : Trip) (addr h : Str) (amount points : ℕ) (w : World) {n : ℕ} {b : ℤ}
    → (delivered d trip addr h amount points w).0 ≡ topup_resp n b
    → n ≡ points
unfolding delivered
delivered-credited answered trip addr h amount points w e = cc
delivered-credited lost_before trip addr h amount points w e = cc
delivered-credited lost_after trip addr h amount points w e = cc

conclude-credited :
    (v : Verdict (ℕ × ℕ)) (trip : Trip) (addr h : Str) (w : World) {n : ℕ} {b : ℤ}
    → (conclude v trip addr h w).0 ≡ topup_resp n b
    → (amount : ℕ) × (v ≡ passed (amount, n))
unfolding conclude
conclude-credited (passed (amount, points)) trip addr h w e = (
  amount,
  ap (λ (k : ℕ). passed (amount, k))
      (sym (delivered-credited trip.delivery trip addr h amount points w e)),
)
conclude-credited (rejected_for msg) trip addr h w e = cc
conclude-credited (released_with status msg) trip addr h w e = cc

submit-credited :
    (deposit : Str) (trip : Trip) (addr : Str) (spec : TokenSpec) (h : Str) (w : World) {n : ℕ}
    {b : ℤ}
    → (submit deposit trip addr spec h w).0 ≡ topup_resp n b
    → (w.payments h ≡ none) × IsEarned spec deposit addr trip.node n
unfolding submit
submit-credited deposit trip addr spec h w {n} {b} e = elim (Bool-cases trip.insert_ok) [
  | inl ok ↦ elim (Option-cases (w.payments h)) [
    | inl free ↦
        let w' = record w { payments = put h (new_row spec addr trip.now) w.payments } in
        let (amount, v) =
          conclude-credited (checked spec deposit addr trip.node) trip addr h w' {b = b}
            (ground arith) in
        (free, checked-IsEarned spec deposit addr trip.node v)
    | inr (row, there) ↦ absurd (ground arith)
  ]
  | inr down ↦ absurd (ground arith)
]

-- A top-up on Ethereum is answered as credited with `n` points only if the hash is valid and had
-- no row, the node has a transaction sent by the account's address that pays the deposit address
-- (in ether, or by a transfer in the logs of the token's contract), its receipt is successful at
-- least five blocks below the head, and `n` is the worth of the amount at the token's price and at
-- least 1,000.
pub topup_credited :
    (deposit : Str) (trip : Trip) (addr : Str) (spec : TokenSpec) (tx_hash_in : Str) (w : World)
    {n : ℕ} {b : ℤ}
    → (topup_ethereum deposit trip addr spec tx_hash_in w).0 ≡ topup_resp n b
    → let h = to_lowercase (trim tx_hash_in) in
      (valid_tx_hash h ≡ true) × (w.payments h ≡ none) × IsEarned spec deposit addr trip.node n
unfolding topup_ethereum
topup_credited deposit trip addr spec tx_hash_in w {n} {b} e =
    elim (Bool-cases (valid_tx_hash (to_lowercase (trim tx_hash_in)))) [
      | inl ok ↦
          let (free, earned) =
            submit-credited deposit trip addr spec (to_lowercase (trim tx_hash_in)) w {b = b}
              (ground arith) in
          (ok, free, earned)
      | inr bad ↦ absurd (ground arith)
    ]
