-- ===== src/Router/Example.antt =====
-- A small world for the tests: scores, parameters, an environment, a router and a control message.
use go_libp2p_pubsub.Prelude.{
  ℕ, ◌≡◌, true, false, not, [], ◌∷◌, none, some, ltb, leb, ◌==◌, if◌then◌else◌, arith,
}
use go_libp2p_pubsub.Message.{Message}
use go_libp2p_pubsub.Router.Env.{Params, Scores, ControlMessage, Router, IsIntn, Env}

-- Scores as natural numbers, 100 more than they are.
pub lt-ge-leb : (a b : ℕ) → leb b a ≡ true → ltb a b ≡ false
lt-ge-leb a b h = ground arith

abbrev pub scores : Scores
scores = record { Score = ℕ; lt = ltb; ge = (λ a b. leb b a); zero_score = 100; lt-ge = lt-ge-leb }

abbrev pub params : Params
params = record {
  d = 6;
  d_lo = 5;
  d_hi = 12;
  d_score = 4;
  d_out = 2;
  gossip_retransmission = 3;
  prune_peers = 16;
  prune_backoff = 60_000_000_000;
  unsubscribe_backoff = 10_000_000_000;
  graft_flood_threshold = 10_000_000_000;
  max_ihave_length = 2;
  max_ihave_messages = 10;
  max_idontwant_length = 10;
  max_idontwant_messages = 10;
  idontwant_message_ttl = 3;
}

-- Peer 9 has a negative score, and peer 8 is not allowed.
abbrev pub env : Env scores
env = record {
  score = (λ p. if p == 9 then 50 else 100);
  gossip_threshold = 90;
  accept_px_threshold = 100;
  publish_threshold = 80;
  peer_filter = (λ p topic. not (p == 8));
  seen_message = (λ k. k == 40);
  topics = (1, 2 ∷ 3 ∷ 4 ∷ []) ∷ [];
  feature_mesh = (λ proto. ltb 0 proto);
  feature_px = (λ proto. ltb 1 proto);
  compute_checksum = (λ k. k);
  now = 1_000_000_000_000;
  draws = (λ i. 0);
  topic_draws = (λ t i. 0);
  reduce_px_records = (λ px p. record { peer_id = p; signed_peer_record = none } ∷ px);
  consume_envelope = (λ r. some (some r));
  has_room = (λ p. true);
  draw_index = (λ n. 0);
}

pub draws_zero : IsIntn (λ n. 0)
draws_zero n h = h

abbrev pub message : Message
message = record {
  from = some 7;
  data_bytes = 1 ∷ [];
  seqno = none;
  topic = 1;
  signature = none;
  key = none;
  id = 30;
  received_from = 7;
  is_local = false;
}

-- Peers 2 to 6 speak protocol 2. Peer 2 is in the mesh of topic 1, 5 is direct, 6 backed off.
abbrev pub router : Router
router = record {
  peers = (2, 2) ∷ (3, 2) ∷ (4, 1) ∷ (5, 2) ∷ (6, 2) ∷ [];
  direct = 5 ∷ [];
  mesh = (1, 2 ∷ []) ∷ [];
  fanout = (7, 3 ∷ 9 ∷ []) ∷ [];
  lastpub = (7, 1) ∷ [];
  gossip = [];
  control = [];
  peerhave = [];
  peerdontwant = [];
  unwanted = (2, (7, 3) ∷ []) ∷ [];
  iasked = [];
  outbound = [];
  backoff = (1, (6, 1_030_000_000_000) ∷ []) ∷ [];
  mcache = record {
    msgs = (30, message) ∷ [];
    peertx = [];
    history = (record { mid = 30; topic = 1 } ∷ []) ∷ [] ∷ [];
    gossip = 1;
    msg_id = Message.id;
  };
  gossip_tracer = record { follow_up_time = 3; promises = []; peer_promises = [] };
  do_px = true;
  penalties = [];
  grafted = [];
  pruned = [];
  connects = [];
}

abbrev pub control : ControlMessage
control = record {
  ihave = record { topic_id = 1; message_ids = 40 ∷ 41 ∷ 42 ∷ 43 ∷ [] } ∷ [];
  iwant = (30 ∷ 31 ∷ []) ∷ [];
  graft = 1 ∷ 2 ∷ [];
  prune =
      record {
        topic_id = 1;
        peers = record { peer_id = 11; signed_peer_record = some 11 } ∷ [];
        backoff = 90;
      }
      ∷ [];
  idontwant = (50 ∷ []) ∷ [];
}
