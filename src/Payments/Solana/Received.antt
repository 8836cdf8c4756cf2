-- ===== src/Payments/Solana/Received.antt =====
-- What an accepted payment in SOL shows (user_worker/src/solana.rs).
use lets_embed.Prelude.{
  ℕ, ◌+◌, ◌<◌, ◌≡◌, refl, true, Option, none, some, List, arith, Bool-cases, Option-cases, inl, inr,
}
use lets_embed.Prelude.Text.{Str, codes, str_eq, str_eq_iff}
use lets_embed.Payments.Json.{Json, field, as_array, is_null}
use lets_embed.Payments.Solana.{
  received, pubkey_at, position, balance_at, gained, native_received, sent_by, keyed, verify_solana,
}

-- The balance of the deposit address rose by `amount`.
abbrev pub IsRise : Json → List Json → Str → ℕ → Type 0
IsRise meta keys deposit amount =
    (i : ℕ) × (pre : ℕ) × (position deposit 0 keys ≡ some i)
    × (balance_at (field meta (codes "preBalances")) i ≡ some pre)
    × (balance_at (field meta (codes "postBalances")) i ≡ some (pre + amount))
    × (0 < amount)

gained-received :
    (pre post : Option ℕ) {amount : ℕ}
    → gained pre post ≡ received amount
    → (n : ℕ) × (pre ≡ some n) × (post ≡ some (n + amount)) × (0 < amount)
gained-received none post h = cc
gained-received (some pre) none h = cc
gained-received (some pre) (some post) h = (pre, refl, ground arith, ground arith)

native-received :
    (meta : Json) (keys : List Json) (deposit : Str) {amount : ℕ}
    → native_received meta keys deposit ≡ received amount
    → IsRise meta keys deposit amount
unfolding native_received
native-received meta keys deposit h = elim (Option-cases (position deposit 0 keys)) [
  | inl e ↦ absurd (ground arith)
  | inr (i, e) ↦
      let (n, p, q, more) =
        gained-received (balance_at (field meta (codes "preBalances")) i)
          (balance_at (field meta (codes "postBalances")) i) (ground arith) in
      (i, n, e, p, q, more)
]

-- `keys` is the list of account keys of the message of the transaction.
abbrev pub IsAccountKeys : Json → List Json → Type 0
IsAccountKeys result keys =
    as_array
      (field (field (field result (codes "transaction")) (codes "message")) (codes "accountKeys"))
    ≡ some keys

-- A payment in SOL of the linked wallet.
abbrev pub IsSolPayment : Json → Str → Str → ℕ → Type 0
IsSolPayment result deposit linked amount =
    (keys : List Json) × IsAccountKeys result keys
    × (is_null (field (field result (codes "meta")) (codes "err")) ≡ true)
    × (pubkey_at keys 0 ≡ some linked)
    × IsRise (field result (codes "meta")) keys deposit amount

sent-received :
    (sender : Option Str) (meta : Json) (keys : List Json) (deposit linked : Str) {amount : ℕ}
    → sent_by sender meta keys none deposit linked ≡ received amount
    → (sender ≡ some linked) × IsRise meta keys deposit amount
sent-received none meta keys deposit linked h = cc
sent-received (some sender) meta keys deposit linked h = elim (Bool-cases (str_eq sender linked)) [
  | inl e ↦
      (ground (arith, str_eq_iff sender linked), native-received meta keys deposit (ground arith))
  | inr e ↦ absurd (ground arith)
]

keyed-received :
    (o : Option (List Json)) (meta : Json) (deposit linked : Str) {amount : ℕ}
    → keyed o meta none deposit linked ≡ received amount
    → (keys : List Json) × (o ≡ some keys)
      × (pubkey_at keys 0 ≡ some linked)
      × IsRise meta keys deposit amount
keyed-received none meta deposit linked h = cc
keyed-received (some keys) meta deposit linked h =
    let (s, rise) = sent-received (pubkey_at keys 0) meta keys deposit linked h in
    (keys, refl, s, rise)

-- A transaction is accepted as a payment of `amount` in SOL only if it has no error, the first of
-- the account keys of its message is the linked wallet, and the balance of the first key that is
-- the deposit address rose by exactly `amount`, which is not 0.
pub verify_solana-received :
    (result : Json) (deposit linked : Str) {amount : ℕ}
    → verify_solana result none deposit linked ≡ received amount
    → IsSolPayment result deposit linked amount
unfolding verify_solana
verify_solana-received result deposit linked h =
    elim (Bool-cases (is_null (field (field result (codes "meta")) (codes "err")))) [
      | inl e ↦
          let (keys, there, s, rise) =
            keyed-received
              (as_array (
                field (field (field result (codes "transaction")) (codes "message"))
                  (codes "accountKeys")))
              (field result (codes "meta")) deposit linked (ground arith) in
          (keys, there, e, s, rise)
      | inr e ↦ absurd (ground arith)
    ]
