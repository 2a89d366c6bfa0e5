-- ===== src/Router/Tests.antt =====
-- The theorems about the router's handlers at concrete inputs.
use Prim.Native.Nat.{max}
use go_libp2p_pubsub.Prelude.{
  ℕ, ◌+◌, ◌*◌, ◌≤◌, ◌<◌, ◌≡◌, refl, ◌⊎◌, true, false, not, ◌&&◌, List, [], ◌∷◌, none, some, map,
  lookup_or, length, take, ltb, member, add, remove, IsDistinct, filter_found, ◌%◌, if◌then◌else◌,
  ◌==◌, arith,
}
use go_libp2p_pubsub.MessageCache.{get_for_peer}
use go_libp2p_pubsub.GossipTracer.{add_promise}
use go_libp2p_pubsub.Shuffle.{shuffle}
use go_libp2p_pubsub.Router.Example.{scores, params, env, draws_zero, message, router, control}
use go_libp2p_pubsub.Router.Env.{ControlPrune, Router, Env}
use go_libp2p_pubsub.Router.Backoff.{
  heartbeat_interval, time_add, clear_backoff, until, until-clear_backoff,
}
use go_libp2p_pubsub.Router.IHave.{handle_ihave}
use go_libp2p_pubsub.Router.IHave.Answer.{wanted, handle_ihave-asks}
use go_libp2p_pubsub.Router.IHave.Limits.{Arrival, clear_ihave_counters, asked_from, asked-bounded}
use go_libp2p_pubsub.Router.IWant.{handle_iwant}
use go_libp2p_pubsub.Router.IWant.Limits.{
  MaySend, times, sent_count, handle_iwant-sends, sent_count-bounded,
}
use go_libp2p_pubsub.Router.IDontWant.{
  mark, marks, all_mids, handle_idontwant, mark-handle_idontwant,
}
use go_libp2p_pubsub.Router.Peers.{get_peers}
use go_libp2p_pubsub.Router.Graft.{handle_graft}
use go_libp2p_pubsub.Router.Graft.Admission.{mesh_of, IsAdmissible}
use go_libp2p_pubsub.Router.Graft.Replies.{
  handle_graft-admits, handle_graft-answers, handle_graft-size,
}
use go_libp2p_pubsub.Router.Prune.{asked_interval, handle_prune}
use go_libp2p_pubsub.Router.Prune.Effects.{handle_prune-mesh}
use go_libp2p_pubsub.Router.Prune.KeptOut.{
  Later, sends_graft, clears, hear_all, handle_prune-keeps_out,
}
use go_libp2p_pubsub.Router.Prune.Exchange.{all_vetted, handle_prune-offers}

program : Unit {0}
unfolding handle_ihave asked_from handle_iwant handle_idontwant get_peers handle_graft handle_prune
    time_add get_for_peer shuffle add_promise
program = tt

-- A newcomer joins, a peer backed off does not, and a prune ends it.
newcomer_joins : mesh_of (handle_graft scores params env router 3 control).1 1 ≡ 2 ∷ 3 ∷ []
unfolding program
newcomer_joins = refl

backed_off_stays_out : mesh_of (handle_graft scores params env router 6 control).1 1 ≡ 2 ∷ []
unfolding program
backed_off_stays_out = refl

backed_off_is_penalised :
    lookup_or 0 6 (handle_graft scores params env router 6 control).1.penalties ≡ 1
unfolding program
backed_off_is_penalised = refl

pruned_leaves : mesh_of (handle_prune scores params env router 2 control) 1 ≡ []
unfolding program
pruned_leaves = refl

exchange_connects : (handle_prune scores params env router 2 control).connects ≡ (11, some 11) ∷ []
unfolding program
exchange_connects = refl

-- A backoff of more seconds than nanoseconds fit into 63 bits lands in the past.
long_backoff_wraps :
    ltb
      (time_add 10_000_000_000_000_000_000 (
        asked_interval scores params
          (record { topic_id = 1; peers = []; backoff = 10_000_000_000 })))
      10_000_000_000_000_000_000
    ≡ true
unfolding program
long_backoff_wraps = refl

until-clear_backoff_example : until (clear_backoff 15 1_033_000_000_000 router.backoff) 1 6 ≡ (
    if 15 % 15 == 0
    then filter_found
        (λ expire. not (ltb (expire + 2 * heartbeat_interval) 1_033_000_000_000))
        (until router.backoff 1 6)
    else until router.backoff 1 6)
until-clear_backoff_example = until-clear_backoff 15 1_033_000_000_000 1 6 router.backoff

abbrev arrivals : List (Arrival scores)
arrivals =
    record { p = 2; env = env; ctl = control } ∷ record { p = 2; env = env; ctl = control } ∷ []

asked-bounded_example :
    (n : ℕ) × (asked_from scores params 2 (clear_ihave_counters router) arrivals ≡ some n)
    × (n ≤ params.max_ihave_length)
asked-bounded_example = asked-bounded scores params 2 router arrivals (draws_zero, (draws_zero, tt))

handle_iwant-sends_example :
    MaySend scores params env 3 router 30 message
    × (times router 30 3 < times (handle_iwant scores params env router 3 control).1 30 3)
    × (scores.lt (env.score 3) env.gossip_threshold ≡ false)
unfolding program
handle_iwant-sends_example = handle_iwant-sends scores params env 3 router control 30 message refl

sent_count-bounded_example :
    sent_count scores params 3 30 router ((env, control) ∷ (env, control) ∷ []) ≤ 3
sent_count-bounded_example =
    sent_count-bounded scores params 3 30 router ((env, control) ∷ (env, control) ∷ [])

mark-handle_idontwant_example : mark (handle_idontwant params (λ k. k) router 2 control) 2 50 ≡ (
    if (2 == 2)
      && ltb (lookup_or 0 2 router.peerdontwant) params.max_idontwant_messages
      && marks (λ k. k) 50 (take params.max_idontwant_length (all_mids control.idontwant))
    then some params.idontwant_message_ttl
    else mark router 2 50)
mark-handle_idontwant_example = mark-handle_idontwant params (λ k. k) router 2 2 50 control

handle_graft-admits_example :
    (mesh_of (handle_graft scores params env router 3 control).1 1 ≡ mesh_of router 1)
    ⊎ ((mesh_of (handle_graft scores params env router 3 control).1 1 ≡ add 3 (mesh_of router 1))
        × (member 1 control.graft ≡ true)
        × IsAdmissible scores params env 3 router 1)
handle_graft-admits_example = handle_graft-admits scores params env router 3 control 1

handle_graft-answers_example :
    (member 6 (mesh_of (handle_graft scores params env router 6 control).1 1) ≡ true)
    ⊎ (member 1 (map ControlPrune.topic_id (handle_graft scores params env router 6 control).0)
        ≡ true)
handle_graft-answers_example =
    handle_graft-answers scores params env router 6 control 1 refl refl refl

handle_graft-size_example :
    length (mesh_of (handle_graft scores params env router 3 control).1 1)
    ≤ max params.d_hi (length (mesh_of router 1))
handle_graft-size_example = handle_graft-size scores params env router 3 control 1 refl

handle_prune-mesh_example : mesh_of (handle_prune scores params env router 2 control) 1 ≡ (
    if member 1 (map ControlPrune.topic_id control.prune)
    then remove 2 (mesh_of router 1)
    else mesh_of router 1)
handle_prune-mesh_example = handle_prune-mesh scores params env router 2 control 1

abbrev one_second_later : Env scores
one_second_later = record env { now = 1_001_000_000_000 }

-- Peer 2 asks twice, peer 3 asks as well, and the backoffs are cleared.
abbrev later_events : List (Env scores × Later)
later_events =
    (one_second_later, sends_graft 2 control)
    ∷ (one_second_later, sends_graft 3 control)
    ∷ (one_second_later, clears 15)
    ∷ (one_second_later, sends_graft 2 control)
    ∷ []

handle_prune-keeps_out_example :
    member 2 (
      mesh_of
        (hear_all scores params (handle_prune scores params env router 2 control) later_events)
        1)
    ≡ false
unfolding program
handle_prune-keeps_out_example =
    handle_prune-keeps_out scores params env router 2 control 0
      (record {
        topic_id = 1;
        peers = record { peer_id = 11; signed_peer_record = some 11 } ∷ [];
        backoff = 90;
      })
      later_events refl refl (omega arith, (omega arith, (omega arith, (omega arith, tt))))

handle_prune-offers_example :
    (all_vetted scores env router.peers (handle_prune scores params env router 2 control).connects
      ≡ true)
    × (length (handle_prune scores params env router 2 control).connects
        ≤ length router.connects + length control.prune * params.prune_peers)
    × ((scores.lt (env.score 2) env.accept_px_threshold ≡ false)
        ⊎ ((handle_prune scores params env router 2 control).connects ≡ router.connects))
handle_prune-offers_example = handle_prune-offers scores params env router 2 control refl

abbrev after_ihave : Router
unfolding program
after_ihave = elim (handle_ihave scores params env router 2 control) [
  | none ↦ router
  | some (iwant, gs) ↦ gs
]

abbrev no_more : List (List ℕ)
no_more = []

handle_ihave-asks_example :
    (wanted scores params env router 2 41 control.ihave ≡ true)
    × (scores.lt (env.score 2) env.gossip_threshold ≡ false)
    × (no_more ≡ [])
    × IsDistinct (41 ∷ [])
unfolding program
handle_ihave-asks_example =
    handle_ihave-asks scores params env router after_ihave 2 41 control (41 ∷ []) [] draws_zero refl
      refl
