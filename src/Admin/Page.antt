-- ===== src/Admin/Page.antt =====
-- The rendering of user_worker/src/admin.rs: `html_escape`, `render_detail` and `render_admin`.
pub mod Escaped
use lets_embed.Prelude.{
  ℕ, ◌*◌, ◌%◌, Bool, true, false, Option, none, some, List, [], ◌∷◌, ◌++◌, not, ◌==◌, unwrap_or,
  if◌then◌else◌, suc,
}
use lets_embed.Prelude.Int.{ℤ, pos, negsuc, pos_part}
use lets_embed.Prelude.Words.{of_bits, mul_u64}
use lets_embed.Prelude.Decimal.{decimal}
use lets_embed.Prelude.Text.{Str, codes}
use lets_embed.Account.Wire.{StatusResp}
use lets_embed.Login.Users.{UserRow}
use lets_embed.Admin.Templates.{
  concat, page, Card, card_pieces, Cells, row_pieces, head_pieces, form_pieces, no_users,
  table_head,
}

-- `s.replace(c, text)`.
unfoldable pub replace : ℕ → Str → Str → Str
replace c text [] = []
replace c text (x ∷ s) = (if x == c then text else x ∷ []) ++ replace c text s

-- `html_escape`.
unfoldable pub html_escape : Str → Str
html_escape s =
    replace b'"' (codes "&quot;")
      (replace b'>' (codes "&gt;") (replace b'<' (codes "&lt;") (replace b'&' (codes "&amp;") s)))

-- An integer and a number as `format!` prints them.
unfoldable pub shown_i64 : ℤ → Str
shown_i64 (pos n) = decimal 20 n
shown_i64 (negsuc n) = b'-' ∷ decimal 20 (suc n)

-- `banned_badge`.
unfoldable pub banned_badge : Bool → Str
banned_badge true = codes "<span class=\"badge err\">Banned</span>"
banned_badge false = codes "<span class=\"badge ok\">Active</span>"

abbrev dash : Str
dash = codes "—"

-- The text of a date from its milliseconds is that of the JavaScript runtime, and a parameter.
module _ (date_text : ℕ → Str) where
  -- `fmt_ts`.
  unfoldable pub fmt_ts : ℤ → Str
  fmt_ts secs = date_text (mul_u64 (pos_part secs) 1000)

  -- A time, or a dash for 0.
  unfoldable pub time_or_dash : ℕ → Str
  time_or_dash t = if t == 0 then dash else fmt_ts (of_bits t)

  unfoldable pub views_text : Option ℤ → Option Str → Str
  views_text (some v) plan = shown_i64 v
  views_text none none = dash
  views_text none (some _) = codes "Unlimited"

  unfoldable pub searches_text : Option ℤ → Str
  searches_text (some v) = shown_i64 v
  searches_text none = dash

  -- The texts of `render_detail`, with the fresh token of the form.
  unfoldable pub card : Str → StatusResp → Card
  card token s = record {
    addr = html_escape s.address;
    balance = shown_i64 s.balance;
    plan = html_escape (unwrap_or s.plan (codes "none"));
    period_end = time_or_dash s.period_end;
    views_rem = views_text s.views_remaining s.plan;
    searches_rem = searches_text s.searches_remaining;
    window_reset = time_or_dash s.window_reset;
    views = shown_i64 s.total_views;
    badge = banned_badge s.banned;
    token = token;
    ban_value = if s.banned then codes "0" else codes "1";
    ban_label = if s.banned then codes "Unban" else codes "Ban";
  }

  -- `render_detail`.
  unfoldable pub render_detail : Str → StatusResp → Str
  render_detail token s = concat (card_pieces (card token s))

  unfoldable pub cells : UserRow → Cells
  cells r = record {
    addr = html_escape r.address;
    created = fmt_ts (pos r.created_at);
    login = fmt_ts (pos r.last_login);
    plan = html_escape (unwrap_or r.plan dash);
    badge = banned_badge (not (r.banned == 0));
  }

  unfoldable pub render_rows : List UserRow → Str
  render_rows [] = []
  render_rows (r ∷ rows) = concat (row_pieces (cells r)) ++ render_rows rows

  unfoldable pub render_table : List UserRow → Str
  render_table [] = no_users
  render_table (r ∷ rows) = table_head ++ (render_rows (r ∷ rows) ++ codes "</table></div>")

  abbrev pub detail_text : Str → Option StatusResp → Str
  detail_text token none = []
  detail_text token (some s) = render_detail token s

  -- The pieces that `render_admin` pushes onto the body.
  abbrev pub body_pieces : Str → Str → Str → List UserRow → Option StatusResp → List Str
  body_pieces token email q rows detail =
      concat (head_pieces (html_escape email))
      ∷ detail_text token detail
      ∷ concat (form_pieces (html_escape q))
      ∷ render_table rows
      ∷ codes "</div>"
      ∷ []

  -- `render_admin`.
  unfoldable pub render_admin : Str → Str → Str → List UserRow → Option StatusResp → Str
  render_admin token email q rows detail =
      page (codes "User Admin") (concat (body_pieces token email q rows detail))
