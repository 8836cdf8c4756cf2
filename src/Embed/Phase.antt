-- ===== src/Embed/Phase.antt =====
-- The trackers of embed/src/phase.rs, and the counter of images for each phase that they keep.
pub mod Counted
use lets_embed.Prelude.{
  ℕ, zero, suc, ◌+◌, ◌≡◌, refl, ap, sym, ◌∙◌, Bool, true, false, Option, none, some, List, [], ◌∷◌,
  length, get_elem?, ◌==◌, if◌then◌else◌,
}
use lets_embed.Prelude.Int.{ℤ, pos, ◌+ℤ◌, ◌-ℤ◌, int_laws}
use lets_embed.Prelude.Text.{Str, codes}

pub data Phase : Type 0 where
  claim download decode_queue decode infer_queue infer record_queue write : Phase

-- `Phase::name`.
unfoldable pub name : Phase → Str
name claim = codes "claim"
name download = codes "download"
name decode_queue = codes "decode_queue"
name decode = codes "decode"
name infer_queue = codes "infer_queue"
name infer = codes "infer"
name record_queue = codes "record_queue"
name write = codes "write"

unfoldable pub index : Phase → ℕ
index claim = 0
index download = 1
index decode_queue = 2
index decode = 3
index infer_queue = 4
index infer = 5
index record_queue = 6
index write = 7

abbrev pub same_phase : Phase → Phase → Bool
same_phase p q = index p == index q

-- The up-down counter `embed.items`, by its attribute.
abbrev pub Items : Type 0
Items = Phase → ℤ

-- `METERS.items.add(1, ..)` and `METERS.items.add(-1, ..)`.
abbrev pub add_item : Phase → Items → Items
add_item p items q = if same_phase p q then items q +ℤ pos 1 else items q

abbrev pub remove_item : Phase → Items → Items
remove_item p items q = if same_phase p q then items q -ℤ pos 1 else items q

-- The counter, and the phase of each tracker that is alive.
pub record Meters : Type 0 where
  pub items : Items
  pub live : List Phase

unfoldable pub replace_at : ℕ → Phase → List Phase → List Phase
replace_at i q [] = []
replace_at zero q (p ∷ l) = q ∷ l
replace_at (suc i) q (p ∷ l) = p ∷ replace_at i q l

unfoldable pub remove_at : ℕ → List Phase → List Phase
remove_at i [] = []
remove_at zero (p ∷ l) = l
remove_at (suc i) (p ∷ l) = p ∷ remove_at i l

-- `Tracker::new`, and `enter`, and the end of a tracker by `discard` or by being dropped, which add
-- the same to the counter. A number names a tracker among those that are alive.
unfoldable pub new : Phase → Meters → Meters
new p m = record { items = add_item p m.items; live = p ∷ m.live }

abbrev pub entered : Option Phase → ℕ → Phase → Meters → Meters
entered none i q m = m
entered (some p) i q m = record {
  items = add_item q (remove_item p m.items);
  live = replace_at i q m.live;
}

unfoldable pub enter : ℕ → Phase → Meters → Meters
enter i q m = entered (get_elem? m.live i) i q m

abbrev pub left : Option Phase → ℕ → Meters → Meters
left none i m = m
left (some p) i m = record { items = remove_item p m.items; live = remove_at i m.live }

unfoldable pub leave : ℕ → Meters → Meters
leave i m = left (get_elem? m.live i) i m

pub data Event : Type 0 where
  on_new : Phase → Event
  on_enter : ℕ → Phase → Event
  on_leave : ℕ → Event

abbrev pub step : Event → Meters → Meters
step (on_new p) m = new p m
step (on_enter i q) m = enter i q m
step (on_leave i) m = leave i m

unfoldable pub run : List Event → Meters → Meters
run [] m = m
run (event ∷ events) m = run events (step event m)

abbrev pub idle : Meters
idle = record { items = λ q. pos 0; live = [] }
