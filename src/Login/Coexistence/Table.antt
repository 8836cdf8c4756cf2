-- ===== src/Login/Coexistence/Table.antt =====
-- What the statements of user_worker/src/auth.rs and user_worker/src/solana_link.rs do to the rule
-- on wallets.
use lets_embed.Prelude.{
  ℕ, ◌≡◌, refl, sym, ap, ◌∙◌, true, false, ◌||◌, Option, none, some, is_some, List, [], ◌∷◌, arith,
  inl, inr, Bool-cases, if◌then◌else◌,
}
use lets_embed.Prelude.Text.{Str, str_eq, str_eq_iff}
use lets_embed.Login.Users.{
  UserRow, Users, has_address, has_wallet, is_wallet, is_known, is_linked, upsert, set_wallet,
}

known-upsert :
    (w a : Str) (now : ℕ) (us : Users)
    → is_known w (upsert a now us) ≡ (str_eq a w || is_known w us)
unfolding upsert
known-upsert w a now [] = refl
known-upsert w a now (row ∷ us) = elim (Bool-cases (has_address a row)) [
  | inl e ↦
      let same : row.address ≡ a = (str_eq_iff row.address a).0 e in
      rw (e, ap (λ x. str_eq x w) same) (ground arith)
  | inr e ↦ rw (e, known-upsert w a now us) (ground arith)
]

linked-upsert : (w a : Str) (now : ℕ) (us : Users) → is_linked w (upsert a now us) ≡ is_linked w us
unfolding upsert
linked-upsert w a now [] = refl
linked-upsert w a now (row ∷ us) = elim (Bool-cases (has_address a row)) [
  | inl e ↦ rw e refl
  | inr e ↦ rw (e, linked-upsert w a now us) refl
]

known-set_wallet :
    (w a : Str) (o : Option Str) (us : Users) → is_known w (set_wallet o a us) ≡ is_known w us
unfolding set_wallet
known-set_wallet w a o [] = refl
known-set_wallet w a o (row ∷ us) = elim (Bool-cases (has_address a row)) [
  | inl e ↦ rw (e, known-set_wallet w a o us) refl
  | inr e ↦ rw (e, known-set_wallet w a o us) refl
]

linked_head :
    (w a : Str) (o : Option Str) (row : UserRow) (us : Users)
    → is_linked w (set_wallet o a (row ∷ us)) ≡ (
        (if has_address a row then is_wallet w o else has_wallet w row)
        || is_linked w (set_wallet o a us))
unfolding set_wallet
linked_head w a o row us = elim (Bool-cases (has_address a row)) [
  | inl e ↦ rw e refl
  | inr e ↦ rw e refl
]

-- A wallet that is linked after the statement is the new one, or was linked before.
linked-set_wallet :
    (w a : Str) (o : Option Str) (us : Users)
    → is_linked w (set_wallet o a us) ≡ true
    → (is_wallet w o || is_linked w us) ≡ true
linked-set_wallet w a o [] h = unfold set_wallet in absurd (ground arith)
linked-set_wallet w a o (row ∷ us) h =
    ground (arith, linked_head w a o row us, linked-set_wallet w a o us)

pub record IsCoexistent (decode58 : Str → Option (List ℕ)) (us : Users) : Type 0 where
  pub apart : (w : Str) → is_linked w us ≡ true → is_known w us ≡ false
  pub keys : (w : Str) → is_linked w us ≡ true → is_some (decode58 w) ≡ true

module _ (decode58 : Str → Option (List ℕ)) where
  pub upsert-IsCoexistent :
      (a : Str) (now : ℕ) (us : Users)
      → is_linked a us ≡ false
      → IsCoexistent decode58 us
      → IsCoexistent decode58 (upsert a now us)
  upsert-IsCoexistent a now us free c =
      let linked : (w : Str) → is_linked w (upsert a now us) ≡ true → is_linked w us ≡ true =
        λ w h. sym (linked-upsert w a now us) ∙ h in
      record {
        apart = λ w h. known-upsert w a now us ∙ elim (Bool-cases (str_eq a w)) [
          | inl e ↦
              let same : is_linked a us ≡ is_linked w us =
                ap (λ x. is_linked x us) ((str_eq_iff a w).0 e) in
              absurd (ground (arith, linked w h, same))
          | inr e ↦ rw e (c.apart w (linked w h))
        ];
        keys = λ w h. c.keys w (linked w h);
      }

  pub unlink-IsCoexistent :
      (a : Str) (us : Users)
      → IsCoexistent decode58 us
      → IsCoexistent decode58 (set_wallet none a us)
  unlink-IsCoexistent a us c = record {
    apart = λ w h. known-set_wallet w a none us ∙ c.apart w (linked-set_wallet w a none us h);
    keys = λ w h. c.keys w (linked-set_wallet w a none us h);
  }

  pub link-IsCoexistent :
      (a v : Str) (us : Users)
      → is_known v us ≡ false
      → is_some (decode58 v) ≡ true
      → IsCoexistent decode58 us
      → IsCoexistent decode58 (set_wallet (some v) a us)
  link-IsCoexistent a v us free key c = record {
    apart = λ w h. known-set_wallet w a (some v) us ∙ elim (Bool-cases (str_eq v w)) [
      | inl e ↦ ap (λ x. is_known x us) (sym ((str_eq_iff v w).0 e)) ∙ free
      | inr e ↦ c.apart w (ground (arith, linked-set_wallet w a (some v) us h))
    ];
    keys = λ w h. elim (Bool-cases (str_eq v w)) [
      | inl e ↦ ap (λ x. is_some (decode58 x)) (sym ((str_eq_iff v w).0 e)) ∙ key
      | inr e ↦ c.keys w (ground (arith, linked-set_wallet w a (some v) us h))
    ];
  }
