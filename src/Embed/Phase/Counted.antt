-- ===== src/Embed/Phase/Counted.antt =====
-- The counter of images counts the trackers that are alive.
use lets_embed.Prelude.{
  ℕ, zero, suc, ◌+◌, ◌≡◌, refl, ap, sym, ◌∙◌, Option, none, some, List, [], ◌∷◌, get_elem?, arith,
  Bool-cases, inl, inr, if◌then◌else◌,
}
use lets_embed.Prelude.Int.{pos, ◌+ℤ◌, ◌-ℤ◌}
use lets_embed.Embed.Phase.{
  Phase, same_phase, Items, add_item, remove_item, Meters, replace_at, remove_at, new, entered,
  enter, left, leave, Event, on_new, on_enter, on_leave, step, run, idle,
}

-- How many trackers are in a phase.
abbrev pub count : Phase → List Phase → ℕ
count q [] = 0
count q (p ∷ l) = (if same_phase p q then 1 else 0) + count q l

abbrev pub IsCounted : Meters → Type 0
IsCounted m = (q : Phase) → m.items q ≡ pos (count q m.live)

add_one : (n : ℕ) → pos n +ℤ pos 1 ≡ pos (1 + n)
unfolding ◌+ℤ◌
add_one n = ground arith

take_one : (n : ℕ) → pos (1 + n) -ℤ pos 1 ≡ pos n
unfolding ◌-ℤ◌
take_one n = ground arith

count-remove_at :
    (q p : Phase) (i : ℕ) (l : List Phase)
    → get_elem? l i ≡ some p
    → count q l ≡ (if same_phase p q then 1 else 0) + count q (remove_at i l)
unfolding remove_at
count-remove_at q p i [] h = absurd (ground arith)
count-remove_at q p zero (x ∷ l) h = ground (arith, h)
count-remove_at q p (suc i) (x ∷ l) h = omega (arith, count-remove_at q p i l h)

count-replace_at :
    (q p r : Phase) (i : ℕ) (l : List Phase)
    → get_elem? l i ≡ some p
    → count q (replace_at i r l) ≡ (if same_phase r q then 1 else 0) + count q (remove_at i l)
unfolding replace_at remove_at
count-replace_at q p r i [] h = absurd (ground arith)
count-replace_at q p r zero (x ∷ l) h = refl
count-replace_at q p r (suc i) (x ∷ l) h = omega (arith, count-replace_at q p r i l h)

add_item_lem :
    (p q : Phase) (items : Items) (n : ℕ)
    → items q ≡ pos n
    → add_item p items q ≡ pos ((if same_phase p q then 1 else 0) + n)
add_item_lem p q items n h = elim (Bool-cases (same_phase p q)) [
  | inl e ↦ rw (e, h) (add_one n)
  | inr e ↦ rw (e, h) (ap pos (omega arith))
]

remove_item_lem :
    (p q : Phase) (items : Items) (n : ℕ)
    → items q ≡ pos ((if same_phase p q then 1 else 0) + n)
    → remove_item p items q ≡ pos n
remove_item_lem p q items n h = elim (Bool-cases (same_phase p q)) [
  | inl e ↦ rw e (ground (arith, h, e, take_one n))
  | inr e ↦ rw e (ground (arith, h, e))
]

new-IsCounted : (p : Phase) (m : Meters) → IsCounted m → IsCounted (new p m)
unfolding new
new-IsCounted p m h = λ q. add_item_lem p q m.items (count q m.live) (h q)

removed :
    (i : ℕ) (p q : Phase) (m : Meters)
    → get_elem? m.live i ≡ some p
    → IsCounted m
    → remove_item p m.items q ≡ pos (count q (remove_at i m.live))
removed i p q m e h =
    remove_item_lem p q m.items (count q (remove_at i m.live))
      (h q ∙ ap pos (count-remove_at q p i m.live e))

left-IsCounted :
    (o : Option Phase) (i : ℕ) (m : Meters)
    → get_elem? m.live i ≡ o
    → IsCounted m
    → IsCounted (left o i m)
left-IsCounted none i m e h = h
left-IsCounted (some p) i m e h = λ q. removed i p q m e h

entered-IsCounted :
    (o : Option Phase) (i : ℕ) (r : Phase) (m : Meters)
    → get_elem? m.live i ≡ o
    → IsCounted m
    → IsCounted (entered o i r m)
entered-IsCounted none i r m e h = h
entered-IsCounted (some p) i r m e h = λ q.
    add_item_lem r q (remove_item p m.items) (count q (remove_at i m.live)) (removed i p q m e h)
    ∙ ap pos (sym (count-replace_at q p r i m.live e))

leave-IsCounted : (i : ℕ) (m : Meters) → IsCounted m → IsCounted (leave i m)
unfolding leave
leave-IsCounted i m h = left-IsCounted (get_elem? m.live i) i m refl h

enter-IsCounted : (i : ℕ) (r : Phase) (m : Meters) → IsCounted m → IsCounted (enter i r m)
unfolding enter
enter-IsCounted i r m h = entered-IsCounted (get_elem? m.live i) i r m refl h

step-IsCounted : (event : Event) (m : Meters) → IsCounted m → IsCounted (step event m)
step-IsCounted (on_new p) m h = new-IsCounted p m h
step-IsCounted (on_enter i q) m h = enter-IsCounted i q m h
step-IsCounted (on_leave i) m h = leave-IsCounted i m h

run_from : (events : List Event) (m : Meters) → IsCounted m → IsCounted (run events m)
unfolding run
run_from [] m h = h
run_from (event ∷ events) m h = run_from events (step event m) (step-IsCounted event m h)

-- x
pub run-IsCounted : (events : List Event) → IsCounted (run events idle)
run-IsCounted events = run_from events idle (λ q. refl)
