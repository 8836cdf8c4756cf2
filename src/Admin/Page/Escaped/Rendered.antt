-- ===== src/Admin/Page/Escaped/Rendered.antt =====
-- The data of a page of user_worker/src/admin.rs cannot change its markup.
use lets_embed.Prelude.{
  ℕ, ◌≡◌, refl, ap₂, sym, ◌∙◌, Bool, true, false, Option, none, some, List, [], ◌∷◌, ◌++◌, ◌==◌,
  arith, length, is_some, if◌then◌else◌,
}
use lets_embed.Prelude.Int.{ℤ}
use lets_embed.Prelude.Text.{Str, codes}
use lets_embed.Prelude.Words.{of_bits}
use lets_embed.Account.Wire.{StatusResp}
use lets_embed.Login.Users.{UserRow}
use lets_embed.Admin.Templates.{
  concat, page, page_pieces, card_pieces, row_pieces, head_pieces, form_pieces, table_head,
}
use lets_embed.Admin.Page.{
  html_escape, shown_i64, fmt_ts, time_or_dash, views_text, searches_text, card, render_detail,
  cells, detail_text, body_pieces, render_rows, render_table, render_admin,
}
use lets_embed.Admin.Page.Escaped.{
  markup, IsPlain, markup-append, html_escape-IsPlain, shown_i64-IsPlain, Alike, concat-markup,
  plain, badge_alike,
}

escaped : (s t : Str) → markup (html_escape s) ≡ markup (html_escape t)
escaped s t = html_escape-IsPlain s ∙ sym (html_escape-IsPlain t)

shown : (y z : ℤ) → markup (shown_i64 y) ≡ markup (shown_i64 z)
shown y z = shown_i64-IsPlain y ∙ sym (shown_i64-IsPlain z)

either_plain : (b : Bool) (s t : Str) → IsPlain s → IsPlain t → IsPlain (if b then s else t)
either_plain true s t h k = h
either_plain false s t h k = k

-- The fixed texts that stand where data may.
record PlainTexts : Type 0 where
  dash : IsPlain (codes "—")
  unlimited : IsPlain (codes "Unlimited")
  zero_text : IsPlain (codes "0")
  one_text : IsPlain (codes "1")
  ban_text : IsPlain (codes "Ban")
  unban_text : IsPlain (codes "Unban")

texts : PlainTexts
unfolding markup
texts = record {
  dash = refl;
  unlimited = refl;
  zero_text = refl;
  one_text = refl;
  ban_text = refl;
  unban_text = refl;
}

module _ (date_text : ℕ → Str) (dates : (ms : ℕ) → IsPlain (date_text ms)) where
  fmt_ts-IsPlain : (t : ℤ) → IsPlain (fmt_ts date_text t)
  unfolding fmt_ts
  fmt_ts-IsPlain t = dates _

  time-IsPlain : (t : ℕ) → IsPlain (time_or_dash date_text t)
  unfolding time_or_dash
  time-IsPlain t = either_plain (t == 0) _ _ texts.dash (fmt_ts-IsPlain (of_bits t))

  views-IsPlain : (v : Option ℤ) (plan : Option Str) → IsPlain (views_text date_text v plan)
  unfolding views_text
  views-IsPlain (some v) plan = shown_i64-IsPlain v
  views-IsPlain none none = texts.dash
  views-IsPlain none (some p) = texts.unlimited

  searches-IsPlain : (v : Option ℤ) → IsPlain (searches_text date_text v)
  unfolding searches_text
  searches-IsPlain (some v) = shown_i64-IsPlain v
  searches-IsPlain none = texts.dash

  module _ (token token' : Str) (fresh : IsPlain token) (fresh' : IsPlain token') where
    card-Alike :
        (s s' : StatusResp)
        → Alike (card_pieces (card date_text token s)) (card_pieces (card date_text token' s'))
    unfolding card
    card-Alike s s' =
        let address = escaped s.address s'.address in
        let value : (b : Bool) → IsPlain (if b then codes "0" else codes "1") =
          (λ b. either_plain b _ _ texts.zero_text texts.one_text) in
        let label : (b : Bool) → IsPlain (if b then codes "Unban" else codes "Ban") =
          (λ b. either_plain b _ _ texts.unban_text texts.ban_text) in
        (
          refl,
          (
            address,
            (
              refl,
              (
                shown s.balance s'.balance,
                (
                  refl,
                  (
                    escaped _ _,
                    (
                      refl,
                      (
                        plain _ _ (time-IsPlain s.period_end) (time-IsPlain s'.period_end),
                        (
                          refl,
                          (
                            plain _ _ (views-IsPlain s.views_remaining s.plan)
                                (views-IsPlain s'.views_remaining s'.plan),
                            (
                              refl,
                              (
                                plain _ _ (searches-IsPlain s.searches_remaining)
                                    (searches-IsPlain s'.searches_remaining),
                                (
                                  refl,
                                  (
                                    plain _ _ (time-IsPlain s.window_reset)
                                        (time-IsPlain s'.window_reset),
                                    (
                                      refl,
                                      (
                                        shown s.total_views s'.total_views,
                                        (
                                          refl,
                                          (
                                            badge_alike s.banned s'.banned,
                                            (
                                              refl,
                                              (
                                                address,
                                                (
                                                  refl,
                                                  (
                                                    plain token token' fresh fresh',
                                                    (
                                                      refl,
                                                      (
                                                        address,
                                                        (
                                                          refl,
                                                          (
                                                            plain _ _ (value s.banned)
                                                            (value s'.banned),
                                                            (
                                                            refl,
                                                            (
                                                            plain _ _ (label s.banned)
                                                            (label s'.banned),
                                                            (refl, tt),
                                                            ),
                                                            ),
                                                          ),
                                                        ),
                                                      ),
                                                    ),
                                                  ),
                                                ),
                                              ),
                                            ),
                                          ),
                                        ),
                                      ),
                                    ),
                                  ),
                                ),
                              ),
                            ),
                          ),
                        ),
                      ),
                    ),
                  ),
                ),
              ),
            ),
          ),
        )

    row-Alike :
        (r r' : UserRow) → Alike (row_pieces (cells date_text r)) (row_pieces (cells date_text r'))
    unfolding cells
    row-Alike r r' =
        let address = escaped r.address r'.address in
        (
          refl,
          (
            address,
            (
              refl,
              (
                address,
                (
                  refl,
                  (
                    plain _ _ (fmt_ts-IsPlain _) (fmt_ts-IsPlain _),
                    (
                      refl,
                      (
                        plain _ _ (fmt_ts-IsPlain _) (fmt_ts-IsPlain _),
                        (refl, (escaped _ _, (refl, (badge_alike _ _, (refl, tt))))),
                      ),
                    ),
                  ),
                ),
              ),
            ),
          ),
        )

    detail_alike :
        (s s' : StatusResp)
        → markup (render_detail date_text token s) ≡ markup (render_detail date_text token' s')
    unfolding render_detail
    detail_alike s s' =
        concat-markup (card_pieces (card date_text token s))
          (card_pieces (card date_text token' s')) (card-Alike s s')

    rows_alike :
        (rows rows' : List UserRow)
        → length rows ≡ length rows'
        → markup (render_rows date_text rows) ≡ markup (render_rows date_text rows')
    unfolding render_rows
    rows_alike [] [] h = refl
    rows_alike (r ∷ rows) (r' ∷ rows') h =
        markup-append (concat (row_pieces (cells date_text r))) (render_rows date_text rows)
        ∙ (ap₂ (λ a b. a ++ b)
              (concat-markup (row_pieces (cells date_text r)) (row_pieces (cells date_text r'))
                (row-Alike r r'))
              (rows_alike rows rows' (omega arith))
            ∙ sym (
                markup-append (concat (row_pieces (cells date_text r')))
                  (render_rows date_text rows')))
    rows_alike [] (r' ∷ rows') h = absurd (omega arith)
    rows_alike (r ∷ rows) [] h = absurd (omega arith)

    table_alike :
        (rows rows' : List UserRow)
        → length rows ≡ length rows'
        → markup (render_table date_text rows) ≡ markup (render_table date_text rows')
    unfolding render_table
    table_alike [] [] h = refl
    table_alike (r ∷ rows) (r' ∷ rows') h =
        concat-markup (table_head ∷ render_rows date_text (r ∷ rows) ∷ codes "</table></div>" ∷ [])
          (table_head ∷ render_rows date_text (r' ∷ rows') ∷ codes "</table></div>" ∷ [])
          (refl, (rows_alike (r ∷ rows) (r' ∷ rows') h, (refl, tt)))
    table_alike [] (r' ∷ rows') h = absurd (omega arith)
    table_alike (r ∷ rows) [] h = absurd (omega arith)

    detail_text_alike :
        (d d' : Option StatusResp)
        → is_some d ≡ is_some d'
        → markup (detail_text date_text token d) ≡ markup (detail_text date_text token' d')
    detail_text_alike none none h = refl
    detail_text_alike (some s) (some s') h = detail_alike s s'
    detail_text_alike none (some s') h = absurd (ground arith)
    detail_text_alike (some s) none h = absurd (ground arith)

    -- If dates and tokens have none of `<`, `>` and `"`, two renderings of the page with as many
    -- rows and both with or both without the card of a user have the same sequence of these
    -- characters, whatever the texts in them: no data can add a tag or end an attribute.
    pub render_admin-markup :
        (email email' q q' : Str) (rows rows' : List UserRow) (d d' : Option StatusResp)
        → length rows ≡ length rows'
        → is_some d ≡ is_some d'
        → markup (render_admin date_text token email q rows d)
          ≡ markup (render_admin date_text token' email' q' rows' d')
    unfolding render_admin page
    render_admin-markup email email' q q' rows rows' d d' h k =
        concat-markup
          (page_pieces (codes "User Admin") (concat (body_pieces date_text token email q rows d)))
          (page_pieces (codes "User Admin")
            (concat (body_pieces date_text token' email' q' rows' d')))
          (refl, (refl, (refl, (refl, (refl, (body, (refl, tt)))))))
      where
        body :
            markup (concat (body_pieces date_text token email q rows d))
            ≡ markup (concat (body_pieces date_text token' email' q' rows' d'))
        body =
            concat-markup (body_pieces date_text token email q rows d)
              (body_pieces date_text token' email' q' rows' d')
              (
                concat-markup (head_pieces (html_escape email)) (head_pieces (html_escape email'))
                    (refl, (escaped email email', (refl, tt))),
                (
                  detail_text_alike d d' k,
                  (
                    concat-markup (form_pieces (html_escape q)) (form_pieces (html_escape q'))
                        (refl, (escaped q q', (refl, tt))),
                    (table_alike rows rows' h, (refl, tt)),
                  ),
                ),
              )
