-- ===== src/Siwe/Rfc3339.antt =====
-- `parse_rfc3339_epoch` of user_worker/src/siwe.rs. A text is the list of its bytes, and what the
-- source reads from position 19 on is read from the rest of the list.
pub mod Calendar
pub mod Print
use lets_embed.Prelude.{
  ℕ, ◌+◌, ◌-◌, ◌*◌, ◌/◌, Bool, true, false, not, ◌&&◌, ◌||◌, Option, none, some, List, [], ◌∷◌, all,
  take, drop, length, ltb, leb, ◌==◌, if◌then◌else◌, and_then, get_elem?,
}
use lets_embed.Prelude.Int.{ℤ, pos, negsuc, pos_part, ◌+ℤ◌, ◌-ℤ◌, mul_ℕ}
use lets_embed.Prelude.Options.{◌>>=◌, ◌>>◌, when}
use lets_embed.Prelude.Text.{Str, in_range}
use lets_embed.Prelude.Decimal.{parse_decimal}
use lets_embed.Prelude.Words.{u64_mod}

-- `num(i..j)`.
unfoldable pub num : ℕ → ℕ → Str → Option ℕ
num i j b =
    let part = take (j - i) (drop i b) in
    if leb j (length b) && all (in_range b'0' b'9') part then parse_decimal u64_mod part else none

-- `sep(i, c)`.
unfoldable pub sep : ℕ → ℕ → Str → Bool
sep i c b = elim (get_elem? b i) [ none ↦ false | some x ↦ x == c ]

-- `i64::div_euclid`.
abbrev pub div_euclid : ℤ → ℕ → ℤ
div_euclid (pos n) k = pos (n / k)
div_euclid (negsuc n) k = negsuc (n / k)

-- The days since 1970-01-01, of a month from 1 to 12 and a day from 1 on.
unfoldable pub days_from_civil : ℕ → ℕ → ℕ → ℤ
days_from_civil year m d =
    let y = if leb m 2 then pos year -ℤ pos 1 else pos year in
    let era = div_euclid y 400 in
    let yoe = pos_part (y -ℤ mul_ℕ era 400) in
    let doy = (153 * (if ltb 2 m then m - 3 else m + 9) + 2) / 5 + d - 1 in
    let doe = yoe * 365 + yoe / 4 - yoe / 100 + doy in mul_ℕ era 146097 +ℤ pos doe -ℤ pos 719468

-- The fields of the date and the time.
pub record Fields : Type 0 where
  pub year : ℕ
  pub month : ℕ
  pub day : ℕ
  pub hour : ℕ
  pub min : ℕ
  pub sec : ℕ

unfoldable pub read_fields : Str → Option Fields
read_fields b = do
  year ← num 0 4 b
  month ← num 5 7 b
  day ← num 8 10 b
  hour ← num 11 13 b
  min ← num 14 16 b
  sec ← num 17 19 b
  some (record { year = year; month = month; day = day; hour = hour; min = min; sec = sec })

unfoldable pub separated : Str → Bool
separated b =
    sep 4 b'-' b
    && sep 7 b'-' b
    && (sep 10 b'T' b || sep 10 b't' b)
    && sep 13 b':' b
    && sep 16 b':' b

unfoldable pub fields_in_range : Fields → Bool
fields_in_range t =
    in_range 1 12 t.month && in_range 1 31 t.day && leb t.hour 23 && leb t.min 59 && leb t.sec 59

-- The bytes after the digits that the list starts with.
unfoldable pub skip_digits : Str → Str
skip_digits [] = []
skip_digits (c ∷ s) = let rest = skip_digits s in if in_range b'0' b'9' c then rest else c ∷ s

-- The fraction of a second, from byte 19 on.
unfoldable pub skip_fraction : Str → Option Str
skip_fraction [] = some []
skip_fraction (c ∷ s) =
    if c == b'.'
    then (if length (skip_digits s) == length s then none else some (skip_digits s))
    else some (c ∷ s)

abbrev signed : ℕ → ℕ → ℤ
signed sign mag = if sign == b'+' then pos mag else pos 0 -ℤ pos mag

abbrev numeric_offset : ℕ → Str → Option ℤ
numeric_offset sign b = do
  oh ← num 1 3 b
  om ← num 4 6 b
  when (leb oh 23 && leb om 59)
  some (signed sign (oh * 3600 + om * 60))

-- The offset, in seconds.
unfoldable pub read_offset : Str → Option ℤ
read_offset [] = none
read_offset (c ∷ s) =
    if (c == b'Z' || c == b'z') && length s == 0
    then some (pos 0)
    else if (c == b'+' || c == b'-') && length s == 5 && sep 3 b':' (c ∷ s)
    then numeric_offset c (c ∷ s)
    else none

-- `u64::try_from`.
abbrev pub to_u64 : ℤ → Option ℕ
to_u64 (pos n) = some n
to_u64 (negsuc n) = none

unfoldable pub epoch : Fields → ℤ → ℤ
epoch t offset =
    mul_ℕ (days_from_civil t.year t.month t.day) 86400
    +ℤ pos (t.hour * 3600 + t.min * 60 + t.sec)
    -ℤ offset

unfoldable pub parse_rfc3339_epoch : Str → Option ℕ
parse_rfc3339_epoch b = do
  when (leb 20 (length b))
  t ← read_fields b
  when (separated b && fields_in_range t)
  rest ← skip_fraction (drop 19 b)
  offset ← read_offset rest
  to_u64 (epoch t offset)
