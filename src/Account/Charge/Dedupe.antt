-- ===== src/Account/Charge/Dedupe.antt =====
-- A key that was charged is free for the rest of the dedupe window.
use lets_embed.Prelude.{
  ℕ, ◌+◌, ◌-◌, ◌≤◌, ◌<◌, ◌≡◌, ◌≢◌, sym, ◌∙◌, ◌⊎◌, true, false, some, arith, ◌==◌, ltb, unwrap_or,
  inl, inr, Bool-cases,
}
use mathlib.Core.Bool.{false≢true}
use lets_embed.Prelude.Words.{sub_u64, u64_mod}
use lets_embed.Prelude.Text.{Str, str_eq, str_eq_iff}
use lets_embed.Account.Wire.{ChargeReq}
use lets_embed.Account.Decide.{ChargeSource, refuse}
use lets_embed.Account.Storage.{Storage}
use lets_embed.Account.Status.{ensure_init}
use lets_embed.Account.Charge.{
  day_of, is_repeat, settled, source_of, charge_new, charge_open, charge,
}
use lets_embed.Account.Charge.Seen.{
  first_seen, is_repeat_lem, seen_written, first_seen-settled, seen-ensure_init,
}

-- A key first charged at `since`, seen from within the window.
module _ (since now : ℕ) (started : 0 < since) (after : since ≤ now) (recent : now < since + 86400)
    (clock : now < u64_mod) (path : Str) where
  -- The map of the day of the first charge is that of today or of yesterday.
  day_near : (day_of now ≡ day_of since) ⊎ (sub_u64 (day_of now) 1 ≡ day_of since)
  day_near = ground arith

  fresh_enough : ltb (now - 86400) since ≡ true
  fresh_enough = ground arith

  pub is_repeat_since :
      (s : Storage) → first_seen (day_of since) path s ≡ some since → is_repeat now path s ≡ true
  is_repeat_since s seen = elim day_near [
    | inl today ↦ rw (is_repeat_lem, today, seen, fresh_enough)
    | inr yesterday ↦ rw (is_repeat_lem, yesterday, seen, fresh_enough) (ground arith)
  ]

  not_dropped : (sub_u64 (day_of now) 2 == day_of since) ≡ false
  not_dropped = ground arith

  -- Another key is written into another entry, and no map of the last two days is dropped.
  other_key :
      (key : Str) (s : Storage)
      → key ≢ path
      → seen_written now key s (day_of since) path ≡ first_seen (day_of since) path s
  other_key key s differ =
      let other : str_eq key path ≡ false = ground (arith, str_eq_iff key path) in
      rw (other, not_dropped) (ground arith)

  settled_keeps :
      (source : ChargeSource) (req : ChargeReq) (s : Storage)
      → req.path ≢ path
      → first_seen (day_of since) path s ≡ some since
      → first_seen (day_of since) path (settled source now req s).1 ≡ some since
  settled_keeps refuse req s differ seen = unfold settled in seen
  settled_keeps source req s differ seen =
      first_seen-settled source now req s (day_of since) path (λ e. cc)
      ∙ other_key req.path s differ
      ∙ seen

  open_keeps :
      (req : ChargeReq) (s : Storage)
      → first_seen (day_of since) path s ≡ some since
      → first_seen (day_of since) path (charge_open now req s).1 ≡ some since
  unfolding charge_open charge_new
  open_keeps req s seen = elim (Bool-cases (is_repeat now req.path s)) [
    | inl e ↦ rw e seen
    | inr e ↦ rw e (
        settled_keeps (source_of now req s) req s
          (λ same. false≢true (sym e ∙ rw same (is_repeat_since s seen))) seen)
  ]

  -- A charge within the window leaves the first charge of a key on record.
  pub charge_keeps :
      (req : ChargeReq) (s : Storage)
      → first_seen (day_of since) path s ≡ some since
      → first_seen (day_of since) path (charge now req s).1 ≡ some since
  unfolding charge
  charge_keeps req s seen =
      let granted : first_seen (day_of since) path (ensure_init s) ≡ some since =
        rw seen-ensure_init seen in
      elim (Bool-cases (unwrap_or (ensure_init s).banned false)) [
        | inl e ↦ rw e granted
        | inr e ↦ rw e (open_keeps req (ensure_init s) granted)
      ]
