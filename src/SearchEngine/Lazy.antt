-- ===== src/SearchEngine/Lazy.antt =====
-- `LazyModel` of search_engine/src/lib.rs: a model session that is loaded at its first use and
-- dropped by the reaper task when it has been idle. Times are milliseconds.
pub mod Idle
use lets_embed.Prelude.{ℕ, ◌+◌, ◌-◌, ◌≤◌, Bool, Option, none, some, leb, if◌then◌else◌}

-- `Inner`, with the session or no session.
pub record Inner {ℓ} (S : Type ℓ) : Type ℓ where
  pub session : Option S
  pub last_used : ℕ

abbrev pub max_ℕ : ℕ → ℕ → ℕ
max_ℕ a b = if leb a b then b else a

-- The model with its reaper, which sleeps until `wake`, at a time of the clock.
pub record Model {ℓ} (S : Type ℓ) : Type ℓ where
  pub clock : ℕ
  pub inner : Inner S
  pub wake : ℕ

module _ {ℓ} {S : Type ℓ} where
  -- `LazyModel::new` at a time.
  unfoldable pub new : ℕ → Inner S
  new now = record { session = none; last_used = now }

  abbrev touched : ℕ → S → Option S × Inner S
  touched now s = (some s, record { session = some s; last_used = now })

  -- `session`, with what a load of the model gives, if one is made: `none` is its error.
  unfoldable pub session : ℕ → Option S → Inner S → Option S × Inner S
  session now load inner = elim inner.session [
    | some s ↦ touched now s
    | none ↦ elim load [ none ↦ (none, inner) | some s ↦ touched now s ]
  ]

  -- One round of the reaper: what it leaves, and how long it sleeps.
  unfoldable pub reap : ℕ → ℕ → Inner S → Inner S × ℕ
  reap idle_timeout now inner = elim inner.session [
    | none ↦ (inner, idle_timeout)
    | some s ↦
        let elapsed = now - inner.last_used in
        if leb idle_timeout elapsed
        then (record inner { session = none }, idle_timeout)
        else (inner, max_ℕ (idle_timeout - elapsed) 1000)
  ]

  -- `spawn_reaper` starts its first round at once.
  unfoldable pub start : ℕ → Model S
  start now = record { clock = now; inner = new now; wake = now }

module _ {ℓ} {S : Type ℓ} (idle_timeout : ℕ) where
  unfoldable pub reaped : ℕ → Model S → Model S
  reaped now m =
      let (inner, wait) = reap idle_timeout now m.inner in
      record { clock = now; inner = inner; wake = now + wait }

  -- A use at a time, a round of the reaper no earlier than its sleep ends, or time that passes.
  pub data Step : Model S → Model S → Type ℓ where
    use_model :
        (m : Model S) (now : ℕ) (load : Option S)
        → m.clock ≤ now
        → Step m (record m { clock = now; inner = (session now load m.inner).1 })
    wake_up : (m : Model S) (now : ℕ) → m.clock ≤ now → m.wake ≤ now → Step m (reaped now m)

  pub data Reach (m : Model S) : Model S → Type ℓ where
    here : Reach m m
    next : {n o : Model S} → Reach m n → Step n o → Reach m o
