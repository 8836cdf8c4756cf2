-- ===== src/Admin/Page/Escaped.antt =====
-- What `html_escape` of user_worker/src/admin.rs leaves of a text.
pub mod Rendered
use lets_embed.Prelude.{
  ℕ, ◌≡◌, refl, ap, ap₂, sym, ◌∙◌, Bool, true, false, Option, none, some, List, [], ◌∷◌, ◌++◌, not,
  ◌||◌, ◌==◌, arith, all, all-append, length, is_some, if◌then◌else◌, suc, Bool-cases, inl, inr,
}
use lets_embed.Prelude.Int.{ℤ, pos, negsuc}
use lets_embed.Prelude.Decimal.{decimal, decimal_digits}
use lets_embed.Prelude.Split.{IsFree}
use lets_embed.Prelude.Text.{Str, codes, in_range}
use lets_embed.Account.Wire.{StatusResp}
use lets_embed.Login.Users.{UserRow}
use lets_embed.Admin.Templates.{
  concat, page, page_pieces, card_pieces, row_pieces, head_pieces, form_pieces, table_head,
}
use lets_embed.Admin.Page.{
  replace, html_escape, shown_i64, banned_badge, fmt_ts, time_or_dash, views_text, searches_text,
  card, render_detail, cells, render_rows, render_table, render_admin,
}

abbrev pub is_markup : ℕ → Bool
is_markup c = c == b'<' || c == b'>' || c == b'"'

-- The characters of a text that open and close its tags and attributes.
unfoldable pub markup : Str → Str
markup [] = []
markup (c ∷ s) = let rest = markup s in if is_markup c then c ∷ rest else rest

abbrev pub IsPlain : Str → Type 0
IsPlain s = markup s ≡ []

pub markup-append : (s t : Str) → markup (s ++ t) ≡ markup s ++ markup t
unfolding markup
markup-append [] t = refl
markup-append (c ∷ s) t = ground (arith, markup-append s t)

-- A text without the three characters is plain.
free_plain : (s : Str) → IsFree b'<' s → IsFree b'>' s → IsFree b'"' s → IsPlain s
unfolding markup
free_plain [] h k l = refl
free_plain (c ∷ s) h k l = ground (arith, free_plain s)

-- A replaced character is gone, and no other one comes in.
replace-IsFree : (c : ℕ) (text s : Str) → IsFree c text → IsFree c (replace c text s)
unfolding replace
replace-IsFree c text [] h = refl
replace-IsFree c text (x ∷ s) h = elim (Bool-cases (x == c)) [
  | inl e ↦
      rw e (all-append (λ b. not (b == c)) text (replace c text s) h (replace-IsFree c text s h))
  | inr e ↦ rw (e, e) (replace-IsFree c text s h)
]

replace_keeps : (c d : ℕ) (text s : Str) → IsFree d text → IsFree d s → IsFree d (replace c text s)
unfolding replace
replace_keeps c d text [] h k = refl
replace_keeps c d text (x ∷ s) h k = elim (Bool-cases (x == c)) [
  | inl e ↦ rw e (
      all-append (λ b. not (b == d)) text (replace c text s) h
        (replace_keeps c d text s h (ground arith)))
  | inr e ↦ rw e (ground (arith, replace_keeps c d text s h))
]

-- `html_escape` leaves none of the three.
pub html_escape-IsPlain : (s : Str) → IsPlain (html_escape s)
unfolding html_escape
html_escape-IsPlain s =
    free_plain _
      (replace_keeps b'"' b'<' _ _ refl
        (replace_keeps b'>' b'<' _ _ refl (replace-IsFree b'<' _ _ refl)))
      (replace_keeps b'"' b'>' _ _ refl (replace-IsFree b'>' _ _ refl))
      (replace-IsFree b'"' _ _ refl)

digits_plain : (s : Str) → all (in_range b'0' b'9') s ≡ true → IsPlain s
unfolding markup
digits_plain [] h = refl
digits_plain (c ∷ s) h = ground (arith, digits_plain s)

pub shown_i64-IsPlain : (z : ℤ) → IsPlain (shown_i64 z)
unfolding shown_i64 markup
shown_i64-IsPlain (pos n) = digits_plain (decimal 20 n) (decimal_digits 20 n)
shown_i64-IsPlain (negsuc n) = digits_plain (decimal 20 (suc n)) (decimal_digits 20 (suc n))

-- Texts of the same markup, piece by piece.
abbrev pub Alike : List Str → List Str → Type 0
Alike [] [] = Unit
Alike (s ∷ l) (t ∷ m) = (markup s ≡ markup t) × Alike l m
Alike _ _ = ⊥

pub concat-markup : (l m : List Str) → Alike l m → markup (concat l) ≡ markup (concat m)
concat-markup [] [] h = refl
concat-markup (s ∷ l) (t ∷ m) h =
    markup-append s (concat l)
    ∙ (ap₂ (λ a b. a ++ b) h.0 (concat-markup l m h.1) ∙ sym (markup-append t (concat m)))
concat-markup [] (t ∷ m) h = absurd h
concat-markup (s ∷ l) [] h = absurd h

-- Plain texts are alike.
pub plain : (s t : Str) → IsPlain s → IsPlain t → markup s ≡ markup t
plain s t h k = h ∙ sym k

pub badge_alike : (b d : Bool) → markup (banned_badge b) ≡ markup (banned_badge d)
unfolding banned_badge markup
badge_alike true true = refl
badge_alike true false = refl
badge_alike false true = refl
badge_alike false false = refl
