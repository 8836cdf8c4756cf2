-- ===== src/Account/Hazards.antt =====
-- Behaviour of user_worker/src/account_do.rs that its comments do not promise.
use lets_embed.Prelude.{
  ℕ, ◌+◌, ◌≤◌, ◌<◌, ◌≡◌, ◌≢◌, refl, ◌∙◌, Bool, Table, List, [], ◌∷◌, Option, none, some, arith, inl,
  inr,
}
use lets_embed.Prelude.Int.{pos, max_ℤ, ◌+ℤ◌}
use lets_embed.Prelude.Words.{wrap_i64, add_i64, i64_max, sub_u64}
use lets_embed.Prelude.Text.{Str}
use lets_embed.Account.Wire.{ChargeReq, CreditReq, InitReq}
use lets_embed.Account.Decide.{SeenMap}
use lets_embed.Account.Storage.{Storage, balance_of}
use lets_embed.Account.Status.{ensure_init, grant}
use lets_embed.Account.Charge.{day_of, noted, charge}
use lets_embed.Account.Charge.Seen.{seen-ensure_init, charge_seen-cases}
use lets_embed.Account.Credit.{credit}
use lets_embed.Account.Object.{
  Event, on_init, on_charge, on_credit, on_status, on_subscribe, on_unsubscribe, on_ban, on_alarm,
  handle, init, ban, Tick, step, run,
}
use lets_embed.Account.Memory.{subscribe-SameMemory, unsubscribe-SameMemory, alarm-SameMemory}
use lets_embed.Account.Solvent.Credit.{credit-OnlyCredit}

balance-grant : (o : Option Bool) (s : Storage) → o ≡ none → balance_of (grant o s) ≡ pos 3000
balance-grant none s h = refl
balance-grant (some b) s h = cc

-- On an account without the mark of the grant, a credit followed by an `init` leaves a balance of
-- 3,000 points, whatever was credited.
pub credit_before_init_lost :
    (req : CreditReq) (first : InitReq) (later : ℕ) (s : Storage)
    → s.init ≡ none
    → balance_of (init later first (credit req s).1).1 ≡ pos 3000
unfolding init ensure_init
credit_before_init_lost req first later s new =
    balance-grant (credit req s).1.init (credit req s).1 ((credit-OnlyCredit req s).init ∙ new)

overflowed :
    (funds n : ℕ)
    → funds ≤ i64_max
    → n ≤ i64_max
    → i64_max < funds + n
    → max_ℤ (add_i64 (pos funds) (pos n)) (pos 0) ≡ pos 0
unfolding wrap_i64 ◌+ℤ◌
overflowed funds n a b c = ground arith

-- On an account with a balance that is not negative, a credit of a number of points that is not
-- negative, under a fresh key, whose sum with the balance is past i64::MAX leaves a balance of 0.
pub credit_overflow_empties :
    (req : CreditReq) (s : Storage) {funds n : ℕ}
    → s.credit req.key ≡ none
    → balance_of s ≡ pos funds
    → req.points ≡ pos n
    → funds ≤ i64_max
    → n ≤ i64_max
    → i64_max < funds + n
    → balance_of (credit req s).1 ≡ pos 0
unfolding credit
credit_overflow_empties req s {funds} {n} fresh holds points a b c =
    rw (fresh, holds, points) (overflowed funds n a b c)

noted_stays :
    (now : ℕ) (path : Str) (seen : Table ℕ SeenMap) (day : ℕ)
    → day_of now ≢ day
    → sub_u64 (day_of now) 2 ≢ day
    → noted now path seen day ≡ seen day
unfolding noted
noted_stays now path seen day today horizon = ground arith

charge_stays :
    (now : ℕ) (req : ChargeReq) (s : Storage) (day : ℕ)
    → day_of now ≢ day
    → sub_u64 (day_of now) 2 ≢ day
    → (charge now req s).1.seen day ≡ s.seen day
charge_stays now req s day today horizon = elim (charge_seen-cases now req s) [
  | inl same ↦ rw same
  | inr new ↦ rw new (noted_stays now req.path s.seen day today horizon)
]

-- No event happens on a day, or two days after it.
abbrev pub Elsewhere : ℕ → List Tick → Type 0
Elsewhere day [] = Unit
Elsewhere day (t ∷ ts) = (day_of t.now ≢ day) × (sub_u64 (day_of t.now) 2 ≢ day) × Elsewhere day ts

handle_stays :
    (now later : ℕ) (e : Event) (s : Storage) (day : ℕ)
    → day_of now ≢ day
    → sub_u64 (day_of now) 2 ≢ day
    → (handle now later e s).1.seen day ≡ s.seen day
unfolding handle init ban
handle_stays now later (on_init req) s day a b = rw (seen-ensure_init s)
handle_stays now later (on_charge req) s day a b = charge_stays now req s day a b
handle_stays now later (on_credit req) s day a b = rw (credit-OnlyCredit req s).seen
handle_stays now later on_status s day a b = refl
handle_stays now later (on_subscribe req) s day a b = rw (subscribe-SameMemory now later req s).seen
handle_stays now later on_unsubscribe s day a b = rw (unsubscribe-SameMemory now later s).seen
handle_stays now later (on_ban req) s day a b = refl
handle_stays now later on_alarm s day a b = rw (alarm-SameMemory now s).seen

-- The map of a day is unchanged after every life without an event on that day or two days after
-- it, however long.
pub seen_map_leaks :
    (ts : List Tick) (s : Storage) (day : ℕ) → Elsewhere day ts → (run ts s).seen day ≡ s.seen day
unfolding run
seen_map_leaks [] s day h = refl
seen_map_leaks (t ∷ ts) s day h =
    seen_map_leaks ts (step t s) day h.2 ∙ handle_stays t.now t.later t.event s day h.0 h.1
