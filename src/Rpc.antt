-- ===== src/Rpc.antt =====
-- pubsub.go: `RPC`, an envelope of subscriptions, messages and control messages. The bytes of a
-- partial message are a number.
pub mod Split
pub mod Tests
use go_libp2p_pubsub.Prelude.{ℕ, List, [], ◌∷◌, Option, none}
use go_libp2p_pubsub.Message.{Message}
use go_libp2p_pubsub.SubscriptionFilter.{SubOpts}
use go_libp2p_pubsub.Router.Env.{ControlMessage}

pub record Rpc : Type 0 where
  pub from : ℕ
  pub subscriptions : List SubOpts
  pub publish : List Message
  pub control : Option ControlMessage
  pub partial : Option ℕ

-- `rpcWithSubs`.
abbrev pub rpc_with_subs : SubOpts → Rpc
rpc_with_subs sub = record {
  from = 0;
  subscriptions = sub ∷ [];
  publish = [];
  control = none;
  partial = none;
}
