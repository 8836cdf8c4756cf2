-- ===== src/Login/Site.antt =====
-- What the checks of `verify` in user_worker/src/auth.rs on a message itself have shown.
use lets_embed.Prelude.{
  ℕ, ◌+◌, ◌≤◌, ◌<◌, ◌≡◌, ==_iff, Option, none, some, arith, inl, inr, Option-cases,
}
use lets_embed.Prelude.Text.{Str, codes, str_eq_iff}
use lets_embed.Siwe.Rfc3339.{parse_rfc3339_epoch}
use lets_embed.Siwe.Message.{SiweMessage}
use lets_embed.Login.World.{Env}
use lets_embed.Login.Ethereum.{expiration_reply, message_reply}

-- An expiry that a message names lies ahead.
pub IsUnexpired : ℕ → Option Str → Type 0
IsUnexpired now none = Unit
IsUnexpired now (some t) = (exp : ℕ) × (parse_rfc3339_epoch t ≡ some exp) × (now < exp)

module _ {ℓ} {Signature : Type ℓ} (env : Env Signature) where
  -- A message for this site, of version 1 and for its chain, that was issued within the last or the
  -- next 600 seconds and has not expired.
  pub record IsForSite (now : ℕ) (msg : SiweMessage) : Type 0 where
    pub domain : msg.domain ≡ env.siwe_domain
    pub version : msg.version ≡ codes "1"
    pub chain : msg.chain_id ≡ env.chain_id
    pub issued : ℕ
    pub issued_at : parse_rfc3339_epoch msg.issued_at ≡ some issued
    pub not_old : now ≤ issued + 600
    pub not_early : issued ≤ now + 600
    pub unexpired : IsUnexpired now msg.expiration_time

  expiration_reply-IsUnexpired :
      (now : ℕ) (o : Option Str) → expiration_reply env now o ≡ none → IsUnexpired now o
  unfolding expiration_reply IsUnexpired
  expiration_reply-IsUnexpired now none h = tt
  expiration_reply-IsUnexpired now (some t) h = elim (Option-cases (parse_rfc3339_epoch t)) [
    | inl e ↦ absurd (ground (arith, h, e))
    | inr (exp, e) ↦ (exp, e, ground (arith, h, e))
  ]

  pub message_reply-IsForSite :
      (now : ℕ) (msg : SiweMessage) → message_reply env now msg ≡ none → IsForSite now msg
  unfolding message_reply
  message_reply-IsForSite now msg h = elim (Option-cases (parse_rfc3339_epoch msg.issued_at)) [
    | inl e ↦ absurd (ground (arith, h, e))
    | inr (issued, e) ↦ record {
      domain = (str_eq_iff msg.domain env.siwe_domain).0 (ground (arith, h));
      version = (str_eq_iff msg.version (codes "1")).0 (ground (arith, h));
      chain = (==_iff msg.chain_id env.chain_id).0 (ground (arith, h));
      issued = issued;
      issued_at = e;
      not_old = ground (arith, h, e);
      not_early = ground (arith, h, e);
      unexpired = expiration_reply-IsUnexpired now msg.expiration_time (ground (arith, h, e));
    }
  ]
