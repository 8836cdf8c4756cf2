-- ===== src/Account/Charge/Seen.antt =====
-- The maps `seen:{day}` under a charge: what is written, what is dropped, and what a repeat reads.
use lets_embed.Prelude.{
  ℕ, ◌-◌, ◌≡◌, ◌≢◌, ◌⊎◌, Table, subst, refl, false, not, ◌&&◌, ◌||◌, Option, none, some, arith,
  ◌==◌, is_some, and_then, unwrap_or, empty, inl, inr, Bool-cases, if◌then◌else◌,
}
use lets_embed.Prelude.Int.{ℤ}
use lets_embed.Prelude.Words.{sub_u64}
use lets_embed.Prelude.Text.{Str, str_eq}
use lets_embed.Account.Wire.{ChargeReq, Reply}
use lets_embed.Account.Decide.{SeenMap, ChargeSource, refuse, seen_after, is_recent_view}
use lets_embed.Account.Storage.{Storage}
use lets_embed.Account.Status.{ensure_init}
use lets_embed.Account.Charge.{
  Usage, day_of, noted, is_repeat, recorded, settled, source_of, charge_new, charge_open, charge,
}

-- The time at which the map of a day holds a key.
abbrev pub first_seen : ℕ → Str → Storage → Option ℕ
first_seen day path s = and_then (s.seen day) (λ (m : SeenMap). m path)

seen_or_empty :
    (o : Option SeenMap) (path : Str) → unwrap_or o empty path ≡ and_then o (λ m. m path)
seen_or_empty none path = refl
seen_or_empty (some m) path = refl

-- A repeat is a key that today's or yesterday's map holds with a time after the cutoff.
pub is_repeat_lem :
    (now : ℕ) (path : Str) (s : Storage)
    → is_repeat now path s ≡ (
        seen_after (now - 86400) (first_seen (day_of now) path s)
        || seen_after (now - 86400) (first_seen (sub_u64 (day_of now) 1) path s))
unfolding is_repeat is_recent_view
is_repeat_lem now path s =
    rw (
      seen_or_empty (s.seen (day_of now)) path,
      seen_or_empty (s.seen (sub_u64 (day_of now) 1)) path,
    )

-- The accepted charge of a key writes its time, and drops the map of two days ago on the first
-- charge of a day.
abbrev pub seen_written : ℕ → Str → Storage → ℕ → Str → Option ℕ
seen_written now key s day path =
    if day_of now == day
    then (if str_eq key path then some now else first_seen day path s)
    else if not (is_some (s.seen (day_of now))) && sub_u64 (day_of now) 2 == day
    then none
    else first_seen day path s

seen-recorded :
    (now : ℕ) (key : Str) (u : Usage) (funds : ℤ) (s : Storage) (reply : Reply)
    → (recorded now key u funds s reply).1.seen ≡ noted now key s.seen
unfolding recorded
seen-recorded now key u funds s reply = ground arith

noted_lem :
    (now : ℕ) (key : Str) (s : Storage) (day : ℕ) (path : Str)
    → and_then (noted now key s.seen day) (λ m. m path) ≡ seen_written now key s day path
unfolding noted
noted_lem now key s day path = ground (arith, seen_or_empty (s.seen (day_of now)) path)

pub first_seen-recorded :
    (now : ℕ) (key : Str) (u : Usage) (funds : ℤ) (s : Storage) (reply : Reply) (day : ℕ)
    (path : Str)
    → first_seen day path (recorded now key u funds s reply).1 ≡ seen_written now key s day path
first_seen-recorded now key u funds s reply day path =
    rw (seen-recorded now key u funds s reply) (noted_lem now key s day path)

-- A charge that is refused writes nothing; any other writes its key.
pub first_seen-settled :
    (source : ChargeSource) (now : ℕ) (req : ChargeReq) (s : Storage) (day : ℕ) (path : Str)
    → source ≢ refuse
    → first_seen day path (settled source now req s).1 ≡ seen_written now req.path s day path
unfolding settled
first_seen-settled refuse now req s day path h = absurd (h refl)
first_seen-settled _ now req s day path h = first_seen-recorded now req.path _ _ s _ day path

pub seen-ensure_init : (s : Storage) → (ensure_init s).seen ≡ s.seen
unfolding ensure_init
seen-ensure_init s = ground arith

-- A charge leaves the maps alone, or notes its key in them.
abbrev pub LeavesOrNotes : ℕ → Str → Table ℕ SeenMap → Table ℕ SeenMap → Type 0
LeavesOrNotes now path before after = (after ≡ before) ⊎ (after ≡ noted now path before)

settled_seen-cases :
    (source : ChargeSource) (now : ℕ) (req : ChargeReq) (s : Storage)
    → LeavesOrNotes now req.path s.seen (settled source now req s).1.seen
unfolding settled
settled_seen-cases refuse now req s = inl refl
settled_seen-cases _ now req s = inr (seen-recorded now req.path _ _ s _)

open_seen-cases :
    (now : ℕ) (req : ChargeReq) (s : Storage)
    → LeavesOrNotes now req.path s.seen (charge_open now req s).1.seen
unfolding charge_open charge_new
open_seen-cases now req s = elim (Bool-cases (is_repeat now req.path s)) [
  | inl e ↦ rw e (inl refl)
  | inr e ↦ rw e (settled_seen-cases (source_of now req s) now req s)
]

granted_seen-cases :
    (now : ℕ) (req : ChargeReq) (s : Storage)
    → LeavesOrNotes now req.path (ensure_init s).seen (charge now req s).1.seen
unfolding charge
granted_seen-cases now req s = elim (Bool-cases (unwrap_or (ensure_init s).banned false)) [
  | inl e ↦ rw e (inl refl)
  | inr e ↦ rw e (open_seen-cases now req (ensure_init s))
]

pub charge_seen-cases :
    (now : ℕ) (req : ChargeReq) (s : Storage)
    → LeavesOrNotes now req.path s.seen (charge now req s).1.seen
charge_seen-cases now req s =
    subst (λ k. LeavesOrNotes now req.path k (charge now req s).1.seen) (seen-ensure_init s)
      (granted_seen-cases now req s)
