-- ===== src/Admin/Templates.antt =====
-- The fixed text of the pages of user_worker/src/admin.rs, with the places that `format!` fills.
use lets_embed.Prelude.{List, [], ◌∷◌, ◌++◌}
use lets_embed.Prelude.Text.{Str, codes}
use lets_embed.Admin.Style.{style, lines}

abbrev pub concat : List Str → Str
concat [] = []
concat (s ∷ l) = s ++ concat l

-- The pieces of `page`.
abbrev pub page_pieces : Str → Str → List Str
page_pieces title body =
    lines (
      "<!doctype html><html lang=\"en\"><head><meta charset=\"utf-8\">"
      ∷ "<meta name=\"viewport\" content=\"width=device-width,initial-scale=1\"><title>" ∷ [])
    ∷ title
    ∷ codes "</title>"
    ∷ style
    ∷ lines ("" ∷ "</head><body><div class=\"wrap\">" ∷ [])
    ∷ body
    ∷ codes "</div></body></html>"
    ∷ []

-- `page`.
unfoldable pub page : Str → Str → Str
page title body = concat (page_pieces title body)

-- The texts that fill the card of one user.
pub record Card : Type 0 where
  pub addr : Str
  pub balance : Str
  pub plan : Str
  pub period_end : Str
  pub views_rem : Str
  pub searches_rem : Str
  pub window_reset : Str
  pub views : Str
  pub badge : Str
  pub token : Str
  pub ban_value : Str
  pub ban_label : Str

abbrev pub card_pieces : Card → List Str
card_pieces c =
    lines ("<div class=\"card\">" ∷ "<h2>User <span class=\"mono\">" ∷ [])
    ∷ c.addr
    ∷ lines ("</span></h2>" ∷ "<dl class=\"status\">" ∷ "<dt>Balance</dt><dd>" ∷ [])
    ∷ c.balance
    ∷ lines ("</dd>" ∷ "<dt>Plan</dt><dd>" ∷ [])
    ∷ c.plan
    ∷ lines ("</dd>" ∷ "<dt>Period end</dt><dd>" ∷ [])
    ∷ c.period_end
    ∷ lines ("</dd>" ∷ "<dt>Views remaining</dt><dd>" ∷ [])
    ∷ c.views_rem
    ∷ lines ("</dd>" ∷ "<dt>Searches remaining</dt><dd>" ∷ [])
    ∷ c.searches_rem
    ∷ lines ("</dd>" ∷ "<dt>Window reset</dt><dd>" ∷ [])
    ∷ c.window_reset
    ∷ lines ("</dd>" ∷ "<dt>Total views</dt><dd>" ∷ [])
    ∷ c.views
    ∷ lines ("</dd>" ∷ "<dt>Status</dt><dd>" ∷ [])
    ∷ c.badge
    ∷ lines (
        "</dd>" ∷ "</dl>" ∷ "<div class=\"actions\">"
        ∷ "<form method=\"post\" action=\"/user/admin/credit\">"
        ∷ "<input type=\"hidden\" name=\"address\" value=\"" ∷ [])
    ∷ c.addr
    ∷ lines ("\">" ∷ "<input type=\"hidden\" name=\"token\" value=\"" ∷ [])
    ∷ c.token
    ∷ lines (
        "\">" ∷ "<input type=\"number\" name=\"points\" required placeholder=\"points (&plusmn;)\">"
        ∷ "<input type=\"text\" name=\"reason\" required placeholder=\"reason\">"
        ∷ "<button class=\"btn\" type=\"submit\">Credit</button>" ∷ "</form>"
        ∷ "<form method=\"post\" action=\"/user/admin/ban\">"
        ∷ "<input type=\"hidden\" name=\"address\" value=\"" ∷ [])
    ∷ c.addr
    ∷ lines ("\">" ∷ "<input type=\"hidden\" name=\"banned\" value=\"" ∷ [])
    ∷ c.ban_value
    ∷ lines ("\">" ∷ "<button class=\"btn ghost\" type=\"submit\">" ∷ [])
    ∷ c.ban_label
    ∷ lines ("</button>" ∷ "</form>" ∷ "</div></div>" ∷ [])
    ∷ []

-- The texts that fill a row of the table.
pub record Cells : Type 0 where
  pub addr : Str
  pub created : Str
  pub login : Str
  pub plan : Str
  pub badge : Str

abbrev pub row_pieces : Cells → List Str
row_pieces c =
    codes "<tr><td class=\"mono\"><a href=\"/user/admin?address="
    ∷ c.addr
    ∷ codes "\">"
    ∷ c.addr
    ∷ lines ("</a></td>" ∷ "<td>" ∷ [])
    ∷ c.created
    ∷ codes "</td><td>"
    ∷ c.login
    ∷ codes "</td><td>"
    ∷ c.plan
    ∷ codes "</td><td>"
    ∷ c.badge
    ∷ codes "</td></tr>"
    ∷ []

abbrev pub head_pieces : Str → List Str
head_pieces email =
    lines ("<div class=\"headrow\">" ∷ "<h1>Users</h1>" ∷ "<span class=\"you\">👤 " ∷ [])
    ∷ email
    ∷ lines ("</span>" ∷ "</div>" ∷ [])
    ∷ []

abbrev pub form_pieces : Str → List Str
form_pieces q =
    lines (
      "<div class=\"card\">"
      ∷ "<form method=\"get\" action=\"/user/admin\" class=\"actions\" style=\"margin-bottom:14px\">"
      ∷ "<input type=\"text\" name=\"q\" value=\"" ∷ [])
    ∷ q
    ∷ lines (
        "\" placeholder=\"0x address prefix\">"
        ∷ "<button class=\"btn\" type=\"submit\">Filter</button>" ∷ "</form>" ∷ [])
    ∷ []

unfoldable pub no_users : Str
no_users = codes "<div class=\"empty\">No users found.</div>"

unfoldable pub table_head : Str
table_head = lines (
    "<div class=\"tablewrap\"><table>"
    ∷ "<tr><th>Address</th><th>Created</th><th>Last login</th><th>Plan</th><th>Status</th></tr>"
    ∷ [])
