-- ===== src/Siwe/Rfc3339/Calendar.antt =====
-- The day number of `parse_rfc3339_epoch` in user_worker/src/siwe.rs against a count of the days
-- year by year and month by month.
use lets_embed.Prelude.{
  ℕ, zero, suc, ◌+◌, ◌-◌, ◌*◌, ◌/◌, ◌%◌, ◌≤◌, ◌≡◌, refl, ap, ◌∙◌, Bool, true, false, not, ◌&&◌,
  ◌||◌, leb, ◌==◌, if◌then◌else◌, arith, Bool-cases, inl, inr,
}
use lets_embed.Prelude.Int.{ℤ, pos, ◌+ℤ◌, ◌-ℤ◌}
use lets_embed.Siwe.Rfc3339.{days_from_civil}

unfoldable pub is_leap : ℕ → Bool
is_leap y = y % 4 == 0 && (not (y % 100 == 0) || y % 400 == 0)

abbrev pub days_in_year : ℕ → ℕ
days_in_year y = if is_leap y then 366 else 365

-- The days of the months before month `n + 1`.
unfoldable pub days_in_month : ℕ → ℕ → ℕ
days_in_month y m =
    if m == 2
    then (if is_leap y then 29 else 28)
    else if m == 4 || m == 6 || m == 9 || m == 11
    then 30
    else 31

unfoldable pub days_in_months : ℕ → ℕ → ℕ
days_in_months y zero = 0
days_in_months y (suc n) = days_in_months y n + days_in_month y (suc n)

abbrev days_before_month : ℕ → ℕ → ℕ
days_before_month y zero = 0
days_before_month y (suc n) = days_in_months y n

-- The days of the `n` years from 1970 on.
unfoldable pub days_in_years : ℕ → ℕ
days_in_years zero = 0
days_in_years (suc n) = days_in_years n + days_in_year (1970 + n)

-- The days from 1970-01-01 to a day of the year `1970 + n`.
abbrev pub days_since_epoch : ℕ → ℕ → ℕ → ℕ
days_since_epoch n m d = days_in_years n + days_before_month (1970 + n) m + (d - 1)

-- The leap days up to the end of a year.
abbrev leap_days : ℕ → ℕ
leap_days y = y / 4 + y / 400 - y / 100

years_closed : (n : ℕ) → days_in_years n + 719162 ≡ (1969 + n) * 365 + leap_days (1969 + n)
unfolding days_in_years is_leap
years_closed zero = refl
years_closed (suc n) = ground (arith, years_closed n)

-- One more day from March on in a leap year.
abbrev leap_day : ℕ → ℕ
leap_day y = if is_leap y then 1 else 0

months_closed :
    (y k : ℕ)
    → k ≤ 11
    → days_in_months y k ≡ (
        if leb (suc k) 2
        then (153 * (suc k + 9) + 2) / 5 - 306
        else (153 * (suc k - 3) + 2) / 5 + 59 + leap_day y)
unfolding days_in_months days_in_month
months_closed y zero h = refl
months_closed y (suc k) h = ground (arith, months_closed y k)

-- The day number of a year that starts in March, given the days into it.
abbrev march_days : ℕ → ℕ → ℤ
march_days y doy =
    let era = y / 400 in
    let yoe = y - era * 400 in
    pos (era * 146097) +ℤ pos (yoe * 365 + yoe / 4 - yoe / 100 + doy) -ℤ pos 719468

march_closed :
    (y doy : ℕ)
    → 1969 ≤ y
    → 306 ≤ y * 365 + doy - 1969 * 365
    → march_days y doy ≡ pos (y * 365 + leap_days y + doy - 719468)
unfolding ◌+ℤ◌ ◌-ℤ◌
march_closed y doy h k = ground arith

days_from_civil_march :
    (n m d : ℕ)
    → 1 ≤ m
    → m ≤ 12
    → 1 ≤ d
    → days_from_civil (1970 + n) m d ≡ (
        if leb m 2
        then march_days (1969 + n) ((153 * (m + 9) + 2) / 5 + d - 1)
        else march_days (1970 + n) ((153 * (m - 3) + 2) / 5 + d - 1))
unfolding days_from_civil ◌+ℤ◌ ◌-ℤ◌
days_from_civil_march n m d h k l = ground arith

-- A year has its leap day among the leap days up to its end.
leap_days_step : (n : ℕ) → leap_days (1970 + n) ≡ leap_days (1969 + n) + leap_day (1970 + n)
unfolding is_leap
leap_days_step n = ground arith

count_early :
    (y a b l p d : ℕ)
    → a + 719162 ≡ y * 365 + l
    → b ≡ p - 306
    → 306 ≤ p
    → 1 ≤ d
    → y * 365 + l + (p + d - 1) - 719468 ≡ a + b + (d - 1)
count_early y a b l p d h k m n = omega arith

count_late :
    (n a b l p d i : ℕ)
    → a + 719162 ≡ (1969 + n) * 365 + l
    → b ≡ p + 59 + i
    → 1 ≤ d
    → (1970 + n) * 365 + (l + i) + (p + d - 1) - 719468 ≡ a + b + (d - 1)
count_late n a b l p d i h k e = omega arith

days_early :
    (n k d : ℕ)
    → k ≤ 11
    → leb (suc k) 2 ≡ true
    → 1 ≤ d
    → march_days (1969 + n) ((153 * (suc k + 9) + 2) / 5 + d - 1)
      ≡ pos (days_since_epoch n (suc k) d)
days_early n k d h e l =
    march_closed (1969 + n) ((153 * (suc k + 9) + 2) / 5 + d - 1) (omega arith) (omega arith)
    ∙ ap pos (
        count_early (1969 + n) (days_in_years n) (days_in_months (1970 + n) k)
          (leap_days (1969 + n)) ((153 * (suc k + 9) + 2) / 5) d (years_closed n)
          (months_closed (1970 + n) k h ∙ rw e refl) (omega arith) l)

days_late :
    (n k d : ℕ)
    → k ≤ 11
    → leb (suc k) 2 ≡ false
    → 1 ≤ d
    → march_days (1970 + n) ((153 * (suc k - 3) + 2) / 5 + d - 1)
      ≡ pos (days_since_epoch n (suc k) d)
days_late n k d h e l =
    let q = (153 * (suc k - 3) + 2) / 5 in
    march_closed (1970 + n) (q + d - 1) (omega arith) (omega arith)
    ∙ ap (λ x. pos ((1970 + n) * 365 + x + (q + d - 1) - 719468)) (leap_days_step n)
    ∙ ap pos (
        count_late n (days_in_years n) (days_in_months (1970 + n) k) (leap_days (1969 + n)) q d
          (leap_day (1970 + n)) (years_closed n) (months_closed (1970 + n) k h ∙ rw e refl) l)

pub days_from_civil-eq :
    (n m d : ℕ)
    → 1 ≤ m
    → m ≤ 12
    → 1 ≤ d
    → days_from_civil (1970 + n) m d ≡ pos (days_since_epoch n m d)
days_from_civil-eq n zero d h k l = absurd (omega arith)
days_from_civil-eq n (suc m) d h k l =
    days_from_civil_march n (suc m) d h k l ∙ elim (Bool-cases (leb (suc m) 2)) [
      | inl early ↦ rw early (days_early n m d (omega arith) early l)
      | inr late ↦ rw late (days_late n m d (omega arith) late l)
    ]
