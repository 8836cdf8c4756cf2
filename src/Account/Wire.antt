-- ===== src/Account/Wire.antt =====
-- The protocol between the workers and the account object (user_worker/src/types.rs).
use lets_embed.Prelude.{ℕ, Bool, Option}
use lets_embed.Prelude.Int.{ℤ}
use lets_embed.Prelude.Text.{Str}

pub data ChargeKind : Type 0 where
  image video search embed_search : ChargeKind

pub record ChargeReq : Type 0 where
  pub path : Str
  pub kind : ChargeKind

pub record ChargeResp : Type 0 where
  pub charged : Bool
  pub cost : ℤ
  pub balance : ℤ
  pub views_remaining : Option ℤ
  pub searches_remaining : Option ℤ
  pub window_reset : ℕ

pub record CreditReq : Type 0 where
  pub points : ℤ
  pub key : Str
  pub reason : Str

pub record BalanceResp : Type 0 where
  pub balance : ℤ
  pub applied : Bool

pub record InitReq : Type 0 where
  pub address : Str

pub record SubscribeReq : Type 0 where
  pub plan : Str

pub record BanReq : Type 0 where
  pub banned : Bool

pub record StatusResp : Type 0 where
  pub address : Str
  pub balance : ℤ
  pub plan : Option Str
  pub period_end : ℕ
  pub views_remaining : Option ℤ
  pub searches_remaining : Option ℤ
  pub window_reset : ℕ
  pub banned : Bool
  pub total_views : ℤ

-- What a handler answers: JSON with its HTTP status, `Response::error`, the empty `Response::ok`,
-- or a panic.
pub data Reply : Type 0 where
  charge_reply : ChargeResp → ℕ → Reply
  balance_reply : BalanceResp → ℕ → Reply
  status_reply : StatusResp → ℕ → Reply
  error_reply : Str → ℕ → Reply
  empty_reply : Reply
  panicked : Reply
