-- ===== src/Rpc/Tests.antt =====
-- The split of an RPC at concrete inputs.
use go_libp2p_pubsub.Prelude.{ℕ, ◌+◌, ◌*◌, ◌≡◌, refl, true, [], ◌∷◌, none, some, length, map, arith}
use go_libp2p_pubsub.Router.Example.{message}
use go_libp2p_pubsub.Router.Control.{empty_control, control_or_empty}
use go_libp2p_pubsub.SubscriptionFilter.{SubOpts}
use go_libp2p_pubsub.Rpc.{Rpc}
use go_libp2p_pubsub.Rpc.Split.{Sizes, split}
use go_libp2p_pubsub.Rpc.Split.Content.{amount, total}
use go_libp2p_pubsub.Rpc.Split.Whole.{total-split}

-- An RPC takes a byte, and ten for each message, subscription, graft and partial message.
abbrev bytes : Rpc → ℕ
bytes r =
    1
    + 10 * length r.publish
    + 10 * length r.subscriptions
    + 10 * length (control_or_empty r.control).graft
    + (elim r.partial [ none ↦ 0 | some p ↦ 10 ])

abbrev sizes : Sizes
sizes = record {
  size = bytes;
  message_size = (λ m. 10);
  control_rpc_size = bytes;
  limit = 25;
  control_limit = 25;
}

abbrev sub_to : ℕ → SubOpts
sub_to t = record {
  subscribe = true;
  topicid = t;
  requests_partial = true;
  supports_sending_partial = true;
}

abbrev rpc : Rpc
rpc = record {
  from = 2;
  subscriptions = sub_to 1 ∷ sub_to 2 ∷ sub_to 3 ∷ [];
  publish = message ∷ message ∷ message ∷ [];
  control = some (record empty_control { graft = 1 ∷ 2 ∷ [] });
  partial = none;
}

-- Two messages, one message, two subscriptions, a subscription and a graft, and a graft.
split_test : map bytes (split sizes rpc) ≡ 21 ∷ 11 ∷ 21 ∷ 21 ∷ 11 ∷ []
unfolding split
split_test = refl

-- A partial message that does not fit is in no part; the one part is empty.
partial_lost :
    map Rpc.partial (
      split
        (record sizes { limit = 5 })
        (record rpc { subscriptions = []; publish = []; control = none; partial = some 9 }))
    ≡ none ∷ []
unfolding split
partial_lost = refl

total-split_example : total (λ i. true) (split sizes rpc) ≡ amount (λ i. true) rpc
total-split_example =
    total-split (λ i. true) sizes rpc (λ m. omega arith) (λ q h. absurd (omega (arith, h))) refl
