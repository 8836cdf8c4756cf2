-- ===== src/Admin/Style.antt =====
-- The style sheet of the pages of user_worker/src/admin.rs.
use lets_embed.Prelude.{List, [], ◌∷◌, map}
use lets_embed.Prelude.Split.{join}
use lets_embed.Prelude.Text.{Str, codes}
use Prim.Native.String.{String}

-- A text of several lines.
unfoldable pub lines : List String → Str
lines l = join (codes "\n") (map codes l)

-- `STYLE`.
unfoldable pub style : Str
style = lines (
    "<style>" ∷ ":root{--bg:#f5f6f8;--card:#fff;--fg:#1f2329;--muted:#6b7280;--border:#e5e7eb;"
    ∷ "--accent:#4f46e5;--accent-h:#4338ca;--danger:#dc2626;--ok:#059669;--warn:#d97706;"
    ∷ "--radius:14px;--shadow:0 10px 30px rgba(0,0,0,.08)}"
    ∷ "@media(prefers-color-scheme:dark){:root{--bg:#0e1116;--card:#171b22;--fg:#e6e8eb;"
    ∷ "--muted:#9aa4b2;--border:#262c36;--shadow:0 10px 30px rgba(0,0,0,.45)}}"
    ∷ "*{box-sizing:border-box}"
    ∷ "body{margin:0;min-height:100vh;display:flex;justify-content:center;align-items:flex-start;"
    ∷ "background:radial-gradient(1200px 600px at 50% -10%,rgba(79,70,229,.14),transparent),var(--bg);"
    ∷ "color:var(--fg);font-family:-apple-system,BlinkMacSystemFont,\"Segoe UI\",Roboto,Helvetica,Arial,sans-serif;"
    ∷ "line-height:1.55;padding:8vh 16px 6vh}" ∷ ".wrap{width:100%;max-width:960px}"
    ∷ ".card{background:var(--card);border:1px solid var(--border);border-radius:var(--radius);"
    ∷ "box-shadow:var(--shadow);padding:24px;margin:14px 0}"
    ∷ "h1{font-size:22px;margin:0 0 4px;letter-spacing:-.01em}"
    ∷ "h2{font-size:17px;margin:0 0 12px;letter-spacing:-.01em}"
    ∷ ".sub{color:var(--muted);font-size:14px;margin:0 0 22px}"
    ∷ "input[type=text],input[type=number]{padding:9px 10px;border:1px solid var(--border);border-radius:9px;"
    ∷ "background:transparent;color:var(--fg);font:inherit;transition:border-color .15s,box-shadow .15s}"
    ∷ "input[type=text]:focus,input[type=number]:focus{outline:none;border-color:var(--accent);"
    ∷ "box-shadow:0 0 0 3px rgba(79,70,229,.2)}"
    ∷ ".btn{display:inline-flex;align-items:center;gap:6px;border:0;border-radius:10px;padding:10px 18px;font:inherit;"
    ∷ "font-weight:600;cursor:pointer;color:#fff;background:var(--accent);transition:background .15s,transform .05s}"
    ∷ ".btn:hover{background:var(--accent-h)}.btn:active{transform:translateY(1px)}"
    ∷ ".btn.ghost{background:transparent;color:var(--danger);border:1px solid var(--border)}"
    ∷ ".btn.ghost:hover{background:rgba(220,38,38,.08);border-color:var(--danger)}"
    ∷ ".badge{display:inline-flex;align-items:center;gap:6px;font-size:12px;font-weight:600;padding:4px 11px;border-radius:999px}"
    ∷ ".badge.ok{color:var(--ok);background:rgba(5,150,105,.13)}"
    ∷ ".badge.warn{color:var(--warn);background:rgba(217,119,6,.13)}"
    ∷ ".badge.err{color:var(--danger);background:rgba(220,38,38,.13)}"
    ∷ "a{color:var(--accent);text-decoration:none;font-weight:600}a:hover{text-decoration:underline}"
    ∷ ".meta{color:var(--muted);font-size:12px;font-family:ui-monospace,SFMono-Regular,Menlo,monospace;word-break:break-all}"
    ∷ ".mono{font-family:ui-monospace,SFMono-Regular,Menlo,monospace;font-size:13px}"
    ∷ "table{width:100%;border-collapse:collapse;font-size:14px}"
    ∷ "th{color:var(--muted);font-size:12px;font-weight:600;text-align:left;text-transform:uppercase;letter-spacing:.04em}"
    ∷ "th,td{padding:9px 12px;border-bottom:1px solid var(--border)}"
    ∷ "tr:last-child td{border-bottom:0}" ∷ ".tablewrap{overflow-x:auto}"
    ∷ "dl.status{display:grid;grid-template-columns:auto 1fr;gap:6px 18px;margin:0 0 18px}"
    ∷ "dl.status dt{color:var(--muted);font-size:13px;font-weight:600}"
    ∷ "dl.status dd{margin:0;font-size:14px}"
    ∷ ".actions{display:flex;flex-wrap:wrap;gap:10px;align-items:center}"
    ∷ ".actions form{display:inline-flex;gap:8px;align-items:center;margin:0}"
    ∷ ".empty{text-align:center;color:var(--muted);padding:48px 0;font-size:15px}"
    ∷ ".headrow{display:flex;align-items:center;justify-content:space-between;gap:12px;margin-bottom:8px}"
    ∷ ".you{color:var(--muted);font-size:13px}" ∷ "</style>" ∷ [])
