-- ===== src/Account/Solvent.antt =====
-- The points of an account over its whole life: what is on the balance and in the unused part of
-- the plan never passes the free grant and the points paid in.
pub mod Credit
pub mod Life
use lets_embed.Prelude.{
  ℕ, ◌+◌, ◌≤◌, ◌<◌, ◌≡◌, refl, ap, ◌∙◌, Bool, Option, none, some, arith, inl, inr, Option-cases,
  if◌then◌else◌,
}
use lets_embed.Prelude.Int.{ℤ, pos, pos_part}
use lets_embed.Prelude.Words.{u64_mod, i64_max}
use lets_embed.Account.Storage.{Storage, balance_of, period_end_of}
use lets_embed.Account.Status.{plan_active, grant, ensure_init}
use lets_embed.Account.Plans.Refund.{price_of, unused, unused_anti}

-- The grant that an account has yet to receive.
abbrev pub owed : {A : Type 0} → Option A → ℕ
owed none = 3000
owed (some _) = 0

-- At the time `now`, with `paid` points paid in so far.
pub record IsSolvent (now paid : ℕ) (s : Storage) : Type 0 where
  pub holds : balance_of s ≡ pos (pos_part (balance_of s))
  pub covered : pos_part (balance_of s) + unused now s + owed s.init ≤ 3000 + paid
  pub ends : period_end_of s < u64_mod

-- What a cancelled plan is worth depends on two keys only.
pub unused-eq :
    (now : ℕ) (s s' : Storage)
    → s'.plan ≡ s.plan
    → s'.period_end ≡ s.period_end
    → unused now s' ≡ unused now s
unfolding unused price_of plan_active
unused-eq now s s' p e = rw (p, e)

pub IsSolvent-later :
    (now later paid : ℕ) (s : Storage) → now ≤ later → IsSolvent now paid s → IsSolvent later paid s
IsSolvent-later now later paid s h v = record {
  holds = v.holds;
  covered = omega (arith, unused_anti now later s h);
  ends = v.ends;
}

-- A step after which the balance and the plan are worth at most `more` points more.
pub IsSolvent-worth :
    (now paid more : ℕ) (s s' : Storage) (n : ℕ)
    → IsSolvent now paid s
    → balance_of s' ≡ pos n
    → n + unused now s' ≤ pos_part (balance_of s) + unused now s + more
    → s'.init ≡ s.init
    → period_end_of s' < u64_mod
    → IsSolvent now (paid + more) s'
IsSolvent-worth now paid more s s' n v b h i ends = record {
  holds = rw b;
  covered = omega (arith, v.covered, h, ap pos_part b, ap (λ (o : Option Bool). owed o) i);
  ends = ends;
}

-- A step that leaves the plan alone and does not raise the balance.
pub IsSolvent-keep :
    (now paid : ℕ) (s s' : Storage) (n : ℕ)
    → IsSolvent now paid s
    → s'.plan ≡ s.plan
    → s'.period_end ≡ s.period_end
    → s'.init ≡ s.init
    → balance_of s' ≡ pos n
    → n ≤ pos_part (balance_of s)
    → IsSolvent now paid s'
IsSolvent-keep now paid s s' n v p e i b h = record {
  holds = rw b;
  covered =
      omega (
        arith,
        v.covered,
        unused-eq now s s' p e,
        ap pos_part b,
        ap (λ (o : Option Bool). owed o) i,
      );
  ends = rw e v.ends;
}

-- The grant overwrites the balance of an account that is still owed it.
grant-IsSolvent :
    (now paid : ℕ) (s : Storage) (o : Option Bool)
    → s.init ≡ o
    → IsSolvent now paid s
    → IsSolvent now paid (grant o s)
grant-IsSolvent now paid s none e v = record {
  holds = refl;
  covered = omega (
    arith,
    v.covered,
    unused-eq now s (grant none s) refl refl,
    ap (λ (o : Option Bool). owed o) e,
  );
  ends = v.ends;
}
grant-IsSolvent now paid s (some b) e v = v

pub ensure_init-IsSolvent :
    (now paid : ℕ) (s : Storage) → IsSolvent now paid s → IsSolvent now paid (ensure_init s)
unfolding ensure_init
ensure_init-IsSolvent now paid s v = grant-IsSolvent now paid s s.init refl v
