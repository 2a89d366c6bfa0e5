-- ===== src/Router/Env.antt =====
-- The state of `GossipSubRouter`, its parameters, and what a handler reads from the rest of the
-- program. Durations and times are numbers of nanoseconds, and peers, topics, protocols and ids
-- numbers; a map to `struct{}` is a list.
use go_libp2p_pubsub.Prelude.{ℕ, ◌<◌, ◌≡◌, Bool, true, false, Option, List, Map}
use go_libp2p_pubsub.Message.{Message}
use go_libp2p_pubsub.MessageCache.{MessageCache}
use go_libp2p_pubsub.GossipTracer.{GossipTracer}

-- The fields of `GossipSubParams` that the handlers read.
pub record Params : Type 0 where
  pub d : ℕ
  pub d_lo : ℕ
  pub d_hi : ℕ
  pub d_score : ℕ
  pub d_out : ℕ
  pub gossip_retransmission : ℕ
  pub prune_peers : ℕ
  pub prune_backoff : ℕ
  pub unsubscribe_backoff : ℕ
  pub graft_flood_threshold : ℕ
  pub max_ihave_length : ℕ
  pub max_ihave_messages : ℕ
  pub max_idontwant_length : ℕ
  pub max_idontwant_messages : ℕ
  pub idontwant_message_ttl : ℕ

-- The scores of peers are 64-bit floats, of which the router only asks `a < b` and `a >= b`.
-- The one law holds of every two floats: both are false at a NaN.
pub record Scores : Type 1 where
  pub Score : Type 0
  pub lt : Score → Score → Bool
  pub ge : Score → Score → Bool
  pub zero_score : Score
  pub lt-ge : (a b : Score) → ge a b ≡ true → lt a b ≡ false

-- `ControlIHave`.
pub record ControlIHave : Type 0 where
  pub topic_id : ℕ
  pub message_ids : List ℕ

-- `PeerInfo`: a peer and the bytes of its signed record, as a number, where it has one.
pub record PeerInfo : Type 0 where
  pub peer_id : ℕ
  pub signed_peer_record : Option ℕ

-- `ControlPrune`: 0 is an absent backoff, in seconds, and `peers` are those of the peer exchange.
pub record ControlPrune : Type 0 where
  pub topic_id : ℕ
  pub peers : List PeerInfo
  pub backoff : ℕ

-- `ControlMessage`. An `IWANT` and an `IDONTWANT` are their message ids, a `GRAFT` is its topic.
pub record ControlMessage : Type 0 where
  pub ihave : List ControlIHave
  pub iwant : List (List ℕ)
  pub graft : List ℕ
  pub prune : List ControlPrune
  pub idontwant : List (List ℕ)

pub record Router : Type 0 where
  pub peers : Map ℕ
  pub direct : List ℕ
  pub mesh : Map (List ℕ)
  pub fanout : Map (List ℕ)
  pub lastpub : Map ℕ
  pub gossip : Map (List ControlIHave)
  pub control : Map ControlMessage
  pub peerhave : Map ℕ
  pub peerdontwant : Map ℕ
  pub unwanted : Map (Map ℕ)
  pub iasked : Map ℕ
  pub outbound : Map Bool
  pub backoff : Map (Map ℕ)
  pub mcache : MessageCache Message
  pub gossip_tracer : GossipTracer
  pub do_px : Bool
  -- What the handlers tell the score: `AddPenalty` sums for each peer, and the calls of
  -- `tracer.Graft` and `tracer.Prune` as pairs of a peer and a topic, the latest first.
  pub penalties : Map ℕ
  pub grafted : List (ℕ × ℕ)
  pub pruned : List (ℕ × ℕ)
  -- What is put into the channel `gs.connect`: the peers and their records, the latest first.
  pub connects : List (ℕ × Option ℕ)

-- What is known of `rand.Intn`.
abbrev pub IsIntn : (ℕ → ℕ) → Type 0
IsIntn draw = (n : ℕ) → 0 < n → draw n < n

-- What a handler reads from the rest of the program, which does not change it during the call:
-- the scores, the peer filter, the seen messages, the peers of each topic (`gs.p.topics`), the
-- protocols' features, the checksum of an id, and the random draws.
module _ (s : Scores) where
  open s use {Score}

  pub record Env : Type 0 where
    pub score : ℕ → Score
    pub gossip_threshold : Score
    pub accept_px_threshold : Score
    pub publish_threshold : Score
    pub peer_filter : ℕ → ℕ → Bool
    pub seen_message : ℕ → Bool
    pub topics : Map (List ℕ)
    pub feature_mesh : ℕ → Bool
    pub feature_px : ℕ → Bool
    pub compute_checksum : ℕ → ℕ
    pub now : ℕ
    pub draws : ℕ → ℕ
    pub topic_draws : ℕ → ℕ → ℕ
    -- `gs.reducePXRecords`, with the peerstore's addresses and record of the peer.
    pub reduce_px_records : List PeerInfo → ℕ → List PeerInfo
    -- `record.ConsumeEnvelope`: nothing on an error, and else the peer of the record in the
    -- envelope, where it is a `PeerRecord`.
    pub consume_envelope : ℕ → Option (Option ℕ)
    -- Whether the channel `gs.connect` has room when the peer is offered to it.
    pub has_room : ℕ → Bool
    -- `rand.Intn(n)`, for the promise that is tracked.
    pub draw_index : ℕ → ℕ
