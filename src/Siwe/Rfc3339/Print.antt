-- ===== src/Siwe/Rfc3339/Print.antt =====
-- The text of a timestamp, and what `parse_rfc3339_epoch` of user_worker/src/siwe.rs reads from it.
use lets_embed.Prelude.{
  ℕ, ◌+◌, ◌-◌, ◌*◌, ◌/◌, ◌%◌, ◌≤◌, ◌<◌, ◌≡◌, refl, ap, ◌∙◌, true, false, some, [], ◌∷◌, ◌++◌, all,
  take, drop, length, arith, leb, ◌==◌, length-append,
}
use lets_embed.Prelude.Int.{ℤ, pos, ◌+ℤ◌, ◌-ℤ◌, mul_ℕ}
use lets_embed.Prelude.Text.{Str, in_range}
use lets_embed.Prelude.Decimal.{parse_decimal, parse_unsigned, digits}
use lets_embed.Prelude.Words.{u64_mod}
use lets_embed.Siwe.Rfc3339.{
  Fields, num, sep, days_from_civil, read_fields, separated, fields_in_range, skip_digits,
  skip_fraction, read_offset, to_u64, epoch, parse_rfc3339_epoch,
}
use lets_embed.Siwe.Rfc3339.Calendar.{days_since_epoch, days_from_civil-eq}

abbrev two : ℕ → Str
two n = (b'0' + n / 10) ∷ (b'0' + n % 10) ∷ []

abbrev four : ℕ → Str
four n = two (n / 100) ++ two (n % 100)

-- `Z`, `+hh:mm` and `-hh:mm`.
pub data Zone : Type 0 where
  utc : Zone
  east west : ℕ → ℕ → Zone

abbrev zone_text : Zone → Str
zone_text utc = b'Z' ∷ []
zone_text (east h m) = b'+' ∷ (two h ++ (b':' ∷ two m))
zone_text (west h m) = b'-' ∷ (two h ++ (b':' ∷ two m))

abbrev pub zone_secs : Zone → ℤ
zone_secs utc = pos 0
zone_secs (east h m) = pos (h * 3600 + m * 60)
zone_secs (west h m) = pos 0 -ℤ pos (h * 3600 + m * 60)

-- The digits of a fraction of a second, which may be left out.
abbrev fraction_text : Str → Str
fraction_text [] = []
fraction_text (c ∷ s) = b'.' ∷ c ∷ s

abbrev date_text : Fields → Str → Str
date_text t rest =
    four t.year
    ++ (b'-'
        ∷ (two t.month
            ++ (b'-'
                ∷ (two t.day
                    ++ (b'T'
                        ∷ (two t.hour ++ (b':' ∷ (two t.min ++ (b':' ∷ (two t.sec ++ rest))))))))))

unfoldable pub print_rfc3339 : Fields → Str → Zone → Str
print_rfc3339 t f z = date_text t (fraction_text f ++ zone_text z)

abbrev pub IsZone : Zone → Type 0
IsZone utc = Unit
IsZone (east h m) = (h ≤ 23) × (m ≤ 59)
IsZone (west h m) = (h ≤ 23) × (m ≤ 59)

-- A time from 1970 to 9999.
pub record IsTime (t : Fields) : Type 0 where
  pub year : (1970 ≤ t.year) × (t.year ≤ 9999)
  pub month : (1 ≤ t.month) × (t.month ≤ 12)
  pub day : (1 ≤ t.day) × (t.day ≤ 31)
  pub hour : t.hour ≤ 23
  pub min : t.min ≤ 59
  pub sec : t.sec ≤ 59

two_digits : (n : ℕ) → n < 100 → all (in_range b'0' b'9') (two n) ≡ true
two_digits n h = ground arith

parse-two : (n : ℕ) → n < 100 → parse_decimal u64_mod (two n) ≡ some n
unfolding digits
parse-two n h = parse_unsigned u64_mod (b'0' + n / 10) _ (ground arith) ∙ ground arith

parse-four : (n : ℕ) → n < 10000 → parse_decimal u64_mod (four n) ≡ some n
unfolding digits
parse-four n h = parse_unsigned u64_mod (b'0' + n / 100 / 10) _ (ground arith) ∙ ground arith

num_lem :
    (i j n : ℕ) (b part : Str)
    → j ≤ length b
    → take (j - i) (drop i b) ≡ part
    → all (in_range b'0' b'9') part ≡ true
    → parse_decimal u64_mod part ≡ some n
    → num i j b ≡ some n
unfolding num
num_lem i j n b part h e d p =
    let inside : leb j (length b) ≡ true = ground arith in rw (inside, e, d) p

abbrev TwoAt : ℕ → ℕ → ℕ → Str → Type 0
TwoAt i j n b = (j ≤ length b) × (take (j - i) (drop i b) ≡ two n)

num-two : (i j n : ℕ) (b : Str) → n < 100 → TwoAt i j n b → num i j b ≡ some n
num-two i j n b h a = num_lem i j n b (two n) a.0 a.1 (two_digits n h) (parse-two n h)

four_digits : (n : ℕ) → n < 10000 → all (in_range b'0' b'9') (four n) ≡ true
four_digits n h = ground arith

module _ (t : Fields) (v : IsTime t) where
  read_fields_lem : (rest : Str) → read_fields (date_text t rest) ≡ some t
  unfolding read_fields
  read_fields_lem rest =
      let b = date_text t rest in
      rw
        (
          num_lem 0 4 t.year b (four t.year) (omega arith) refl
              (four_digits t.year (omega (arith, v.year)))
              (parse-four t.year (omega (arith, v.year))),
          num-two 5 7 t.month b (omega (arith, v.month)) (omega arith, refl),
          num-two 8 10 t.day b (omega (arith, v.day)) (omega arith, refl),
          num-two 11 13 t.hour b (omega (arith, v.hour)) (omega arith, refl),
          num-two 14 16 t.min b (omega (arith, v.min)) (omega arith, refl),
          num-two 17 19 t.sec b (omega (arith, v.sec)) (omega arith, refl),
        )
        refl

  separated_lem : (rest : Str) → separated (date_text t rest) ≡ true
  unfolding separated sep
  separated_lem rest = refl

  in_range_lem : fields_in_range t ≡ true
  unfolding fields_in_range
  in_range_lem = ground (arith, v.month, v.day, v.hour, v.min, v.sec)

skip_digits-append :
    (f s : Str) → all (in_range b'0' b'9') f ≡ true → skip_digits s ≡ s → skip_digits (f ++ s) ≡ s
unfolding skip_digits
skip_digits-append [] s h e = e
skip_digits-append (c ∷ f) s h e = ground (arith, skip_digits-append f s)

skip_digits-zone : (z : Zone) → skip_digits (zone_text z) ≡ zone_text z
unfolding skip_digits
skip_digits-zone utc = refl
skip_digits-zone (east h m) = refl
skip_digits-zone (west h m) = refl

no_fraction : (z : Zone) → skip_fraction (zone_text z) ≡ some (zone_text z)
unfolding skip_fraction
no_fraction utc = refl
no_fraction (east h m) = refl
no_fraction (west h m) = refl

skip_fraction_lem :
    (f : Str) (z : Zone)
    → all (in_range b'0' b'9') f ≡ true
    → skip_fraction (fraction_text f ++ zone_text z) ≡ some (zone_text z)
unfolding skip_fraction
skip_fraction_lem [] z h = no_fraction z
skip_fraction_lem (c ∷ f) z h =
    let size = length-append (c ∷ f) (zone_text z) in
    let longer : (length (zone_text z) == length ((c ∷ f) ++ zone_text z)) ≡ false = ground arith in
    rw (skip_digits-append (c ∷ f) (zone_text z) h (skip_digits-zone z), longer) refl

read_offset-zone : (z : Zone) → IsZone z → read_offset (zone_text z) ≡ some (zone_secs z)
unfolding read_offset sep
read_offset-zone utc h = refl
read_offset-zone (east h m) k =
    rw
      (
        num-two 1 3 h (zone_text (east h m)) (omega (arith, k.0)) (omega arith, refl),
        num-two 4 6 m (zone_text (east h m)) (omega (arith, k.1)) (omega arith, refl),
      )
      (ground (arith, k.0, k.1))
read_offset-zone (west h m) k =
    rw
      (
        num-two 1 3 h (zone_text (west h m)) (omega (arith, k.0)) (omega arith, refl),
        num-two 4 6 m (zone_text (west h m)) (omega (arith, k.1)) (omega arith, refl),
      )
      (ground (arith, k.0, k.1))

-- The seconds from 1970-01-01T00:00:00 to the time, as its clock shows it.
abbrev pub clock_secs : Fields → ℕ
clock_secs t =
    days_since_epoch (t.year - 1970) t.month t.day * 86400 + (t.hour * 3600 + t.min * 60 + t.sec)

add_days : (n s : ℕ) → mul_ℕ (pos n) 86400 +ℤ pos s ≡ pos (n * 86400 + s)
unfolding ◌+ℤ◌
add_days n s = ground arith

epoch_lem : (t : Fields) (z : ℤ) → IsTime t → epoch t z ≡ pos (clock_secs t) -ℤ z
unfolding epoch
epoch_lem t z v =
    let year : t.year ≡ 1970 + (t.year - 1970) = omega (arith, v.year) in
    let days =
      ap (λ y. days_from_civil y t.month t.day) year
      ∙ days_from_civil-eq (t.year - 1970) t.month t.day v.month.0 v.month.1 v.day.0 in
    ap (λ n. mul_ℕ n 86400 +ℤ pos (t.hour * 3600 + t.min * 60 + t.sec) -ℤ z) days
    ∙ ap (λ n. n -ℤ z) (add_days _ _)

-- For a time from 1970 to 9999 with fields in range, any digits as a fraction of a second and an
-- offset within a day, the number read from its text is the days since 1970-01-01, counted year by
-- year and month by month, in seconds, plus the seconds of the day, less the offset; it is refused
-- if that is negative.
pub parse_rfc3339_epoch-print :
    (t : Fields) (f : Str) (z : Zone)
    → IsTime t
    → all (in_range b'0' b'9') f ≡ true
    → IsZone z
    → parse_rfc3339_epoch (print_rfc3339 t f z) ≡ to_u64 (pos (clock_secs t) -ℤ zone_secs z)
unfolding parse_rfc3339_epoch print_rfc3339
parse_rfc3339_epoch-print t f z v d k =
    let rest = fraction_text f ++ zone_text z in
    let long : leb 20 (length (date_text t rest)) ≡ true = ground arith in
    rw
      (
        long,
        read_fields_lem t v rest,
        separated_lem t v rest,
        in_range_lem t v,
        skip_fraction_lem f z d,
        read_offset-zone z k,
        epoch_lem t (zone_secs z) v,
      )
      refl
