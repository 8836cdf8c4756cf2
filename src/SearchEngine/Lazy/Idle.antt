-- ===== src/SearchEngine/Lazy/Idle.antt =====
-- When a lazy model is dropped.
use lets_embed.Prelude.{
  ℕ, ◌+◌, ◌-◌, ◌≤◌, ◌≡◌, refl, ap, true, false, Option, is_some, leb, arith, Bool-cases,
  Option-cases, inl, inr, ◌⊎◌,
}
use lets_embed.SearchEngine.Lazy.{
  Inner, new, session, reap, max_ℕ, Model, start, reaped, Step, use_model, wake_up, Reach, here,
  next,
}

module _ {ℓ} {S : Type ℓ} (idle_timeout : ℕ) where
  -- The clock is past the last use, and the reaper of a loaded model wakes a second after the model
  -- is idle, at the latest.
  pub record IsTimely (m : Model S) : Type 0 where
    pub past : m.inner.last_used ≤ m.clock
    pub wakes : is_some m.inner.session ≡ true → m.wake ≤ m.inner.last_used + idle_timeout + 1000
    pub sleeps : m.wake ≤ m.clock + idle_timeout + 1000

  session-IsTimely :
      (m : Model S) (now : ℕ) (load : Option S)
      → m.clock ≤ now
      → IsTimely m
      → IsTimely (record m { clock = now; inner = (session now load m.inner).1 })
  unfolding session
  session-IsTimely m now load h t = record {
    past = ground (arith, t.past, h);
    wakes = λ k. ground (arith, t.wakes, t.sleeps, h);
    sleeps = ground (arith, t.sleeps, h);
  }

  reaped-IsTimely :
      (m : Model S) (now : ℕ) → m.clock ≤ now → IsTimely m → IsTimely (reaped idle_timeout now m)
  unfolding reaped reap
  reaped-IsTimely m now h t = record {
    past = ground (arith, t.past, h);
    wakes = λ k. ground (arith, t.past, h);
    sleeps = ground (arith, t.past, h);
  }

  Step-IsTimely : {m n : Model S} → Step idle_timeout m n → IsTimely m → IsTimely n
  Step-IsTimely (use_model m now load h) t = session-IsTimely m now load h t
  Step-IsTimely (wake_up m now h k) t = reaped-IsTimely m now h t

  start-IsTimely : (now : ℕ) → IsTimely (start now)
  unfolding start new
  start-IsTimely now = record {
    past = omega arith;
    wakes = λ k. absurd (ground arith);
    sleeps = omega arith;
  }

  -- x
  pub Reach-IsTimely : (now : ℕ) {m : Model S} → Reach idle_timeout (start now) m → IsTimely m
  Reach-IsTimely now here = start-IsTimely now
  Reach-IsTimely now (next r s) = Step-IsTimely s (Reach-IsTimely now r)

  unloads_late :
      {m n : Model S}
      → IsTimely m
      → Step idle_timeout m n
      → is_some m.inner.session ≡ true
      → is_some n.inner.session ≡ false
      → m.inner.last_used + idle_timeout ≤ n.clock
  unfolding session reaped reap
  unloads_late t (use_model m now load h) loaded gone = absurd (ground (arith, loaded, gone))
  unloads_late t (wake_up m now h k) loaded gone = ground (arith, t.past, h, loaded, gone)

  -- x
  pub dropped_idle :
      (now : ℕ) {m n : Model S}
      → Reach idle_timeout (start now) m
      → Step idle_timeout m n
      → is_some m.inner.session ≡ true
      → is_some n.inner.session ≡ false
      → m.inner.last_used + idle_timeout ≤ n.clock
  dropped_idle now r s loaded gone = unloads_late (Reach-IsTimely now r) s loaded gone

  -- Dropped within a second after the timeout.
  abbrev pub IsDropped : ℕ → Model S → Type 0
  IsDropped last_used m =
      (is_some m.inner.session ≡ false) × (m.clock ≤ last_used + idle_timeout + 1000)

  reap_idle :
      (now : ℕ) (inner : Inner S)
      → leb idle_timeout (now - inner.last_used) ≡ true
      → is_some (reap idle_timeout now inner).0.session ≡ false
  unfolding reap
  reap_idle now inner h = elim (Option-cases inner.session) [
    | inl e ↦ rw (e, reap) (ap is_some e)
    | inr (s, e) ↦ rw (e, h) refl
  ]

  reap_busy :
      (now : ℕ) (inner : Inner S)
      → is_some inner.session ≡ true
      → leb idle_timeout (now - inner.last_used) ≡ false
      → reap idle_timeout now inner ≡ (inner, max_ℕ (idle_timeout - (now - inner.last_used)) 1000)
  unfolding reap
  reap_busy now inner loaded h = elim (Option-cases inner.session) [
    | inl e ↦ absurd (ground (arith, e, loaded))
    | inr (s, e) ↦ rw (e, h) refl
  ]

  -- In every state that a lazy model reaches, with the model loaded and its reaper not late, if
  -- nothing uses the model and the reaper wakes when its sleep ends, one of its next two rounds
  -- leaves no session, at most a second after the idle timeout has passed since the last use.
  pub idle_unloaded :
      (now : ℕ) {m : Model S}
      → Reach idle_timeout (start now) m
      → is_some m.inner.session ≡ true
      → m.clock ≤ m.wake
      → let m1 = reaped idle_timeout m.wake m in
        let m2 = reaped idle_timeout m1.wake m1 in
        IsDropped m.inner.last_used m1 ⊎ IsDropped m.inner.last_used m2
  unfolding reaped
  idle_unloaded now {m} r loaded h =
      let t = Reach-IsTimely now r in
      elim (Bool-cases (leb idle_timeout (m.wake - m.inner.last_used))) [
        | inl idle ↦ inl (reap_idle m.wake m.inner idle, t.wakes loaded)
        | inr busy ↦
            let e = reap_busy m.wake m.inner loaded busy in
            let past = t.past in
            inr (
              rw e (
                reap_idle (m.wake + max_ℕ (idle_timeout - (m.wake - m.inner.last_used)) 1000)
                    m.inner (ground (arith, past, h)),
                ground (arith, t.wakes, past, h, loaded, busy),
              ))
      ]
