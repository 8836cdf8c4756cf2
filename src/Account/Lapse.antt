-- ===== src/Account/Lapse.antt =====
-- The end of a period: the alarm that a purchase sets lapses the plan when it is due and not before.
use lets_embed.Prelude.{
  ℕ, ◌+◌, ◌-◌, ◌*◌, ◌≤◌, ◌<◌, ◌≡◌, ap, ◌∙◌, true, false, Option, none, some, arith, is_some,
  unwrap_or, ltb,
}
use lets_embed.Prelude.Int.{pos}
use lets_embed.Prelude.Words.{of_bits, of_bits-eq-pos, u64_mod, sub_u64, mul_u64}
use lets_embed.Prelude.Text.{Str}
use lets_embed.Account.Storage.{Storage, period_end_of}
use lets_embed.Account.Plans.{alarm}

module _ (now : ℕ) (s : Storage) {id : Str} {stop : ℕ} (stored : s.plan ≡ some id)
    (ends : s.period_end ≡ some stop) where
  has_plan : is_some s.plan ≡ true
  has_plan = ap (λ (o : Option Str). is_some o) stored

  stops : period_end_of s ≡ stop
  stops = ap (λ (o : Option ℕ). unwrap_or o 0) ends

  rearmed :
      stop < now + 9000000000000000
      → stop < u64_mod
      → now < stop
      → of_bits (mul_u64 (sub_u64 (period_end_of s) now) 1000) ≡ pos ((stop - now) * 1000)
  rearmed near fits early =
      let exact : mul_u64 (sub_u64 (period_end_of s) now) 1000 ≡ (stop - now) * 1000 =
        omega (arith, stops) in
      ap of_bits exact ∙ of_bits-eq-pos ((stop - now) * 1000) (omega arith)

  -- On an account with a plan and an end of its period within u64 and less than
  -- 9,000,000,000,000,000 seconds away, the alarm keeps the plan before the end and is set again
  -- for the remaining milliseconds, and from the end on deletes the plan and closes the window.
  pub alarm_due :
      stop < now + 9000000000000000
      → stop < u64_mod
      → let s' = (alarm now s).1 in
        (now < stop → s' ≡ record s { alarm = some (pos ((stop - now) * 1000)) })
        × (stop ≤ now
            → s' ≡ record s { plan = none; win_start = none; win_views = none; win_search = none })
  unfolding alarm
  alarm_due near fits = (
    λ early.
        let test : ltb now (period_end_of s) ≡ true = ground (arith, stops) in
        rw (has_plan, test, rearmed near fits early),
    λ due.
        let test : ltb now (period_end_of s) ≡ false = ground (arith, stops) in rw (has_plan, test),
  )
