-- ===== src/MessageCache/Tests.antt =====
-- The theorems about the message cache at concrete inputs, and runs of the code.
use go_libp2p_pubsub.Prelude.{
  ℕ, ◌≡◌, refl, true, [], ◌∷◌, none, some, is_some, length, lookup, if◌then◌else◌, arith, member,
}
use go_libp2p_pubsub.MessageCache.{
  MessageCache, new_message_cache, empty_slots, put, get, get_for_peer, get_gossip_ids, shift,
}
use go_libp2p_pubsub.MessageCache.Listing.{puts, asks, shifts, step, run, oldest, is_last}
use go_libp2p_pubsub.MessageCache.Invariant.{gossip-served}
use go_libp2p_pubsub.MessageCache.Window.{put-retained, shift-drops}

-- Messages are their own ids, all of topic 1.
abbrev id : ℕ → ℕ
id m = m

abbrev topic : ℕ → ℕ
topic m = 1

abbrev fresh : MessageCache ℕ
fresh = record { msgs = []; peertx = []; history = empty_slots 3; gossip = 2; msg_id = id }

program : Unit {0}
unfolding new_message_cache put get get_for_peer get_gossip_ids shift step run
program = tt

new_too_much_gossip : new_message_cache id 4 3 ≡ none
unfolding program
new_too_much_gossip = refl

abbrev aged : MessageCache ℕ
aged = record fresh {
  msgs = (8, 8) ∷ (9, 9) ∷ [];
  history = [] ∷ [] ∷ (record { mid = 8; topic = 1 } ∷ record { mid = 9; topic = 1 } ∷ []) ∷ [];
}

put_then_age : run topic fresh (puts 8 ∷ puts 9 ∷ shifts ∷ shifts ∷ []) ≡ some aged
unfolding program
put_then_age = refl

aged_not_advertised : get_gossip_ids aged 1 ≡ []
unfolding program
aged_not_advertised = refl

asked_twice : (get_for_peer (get_for_peer aged 8 4).1 8 4).0 ≡ some (8, 2)
unfolding program
asked_twice = refl

put-retained_example :
    (mc' : MessageCache ℕ) × (run topic fresh (puts 8 ∷ shifts ∷ asks 8 4 ∷ puts 9 ∷ shifts ∷ [])
      ≡ some mc')
    × (oldest 8 mc'.history ≡ some 2)
    × (is_some (get mc' 8) ≡ true)
put-retained_example =
    put-retained topic fresh 8 (shifts ∷ asks 8 4 ∷ puts 9 ∷ shifts ∷ []) refl (omega arith)

abbrev dropped : MessageCache ℕ
dropped = record fresh { history = empty_slots 3 }

shift-aged : shift aged ≡ some dropped
unfolding program
shift-aged = refl

shift-drops_example :
    (get dropped 8
      ≡ (if is_last (oldest 8 aged.history) (length aged.history) then none else get aged 8))
    × (lookup 8 dropped.peertx ≡ (
        if is_last (oldest 8 aged.history) (length aged.history)
        then none
        else lookup 8 aged.peertx))
shift-drops_example = shift-drops {M = ℕ} topic aged dropped 8 shift-aged

abbrev advertised : MessageCache ℕ
advertised = record fresh {
  msgs = (8, 8) ∷ [];
  history = [] ∷ (record { mid = 8; topic = 1 } ∷ []) ∷ [] ∷ [];
}

new-fresh : new_message_cache id 2 3 ≡ some fresh
unfolding program
new-fresh = refl

run-advertised : run topic fresh (puts 8 ∷ shifts ∷ []) ≡ some advertised
unfolding program
run-advertised = refl

advertises : member 8 (get_gossip_ids advertised 1) ≡ true
unfolding program
advertises = refl

gossip-served_example : is_some (get advertised 8) ≡ true
gossip-served_example =
    gossip-served topic id 2 3 fresh advertised (puts 8 ∷ shifts ∷ []) 1 8 new-fresh
      (refl, λ mc1 e1. (tt, λ mc2 e2. tt)) run-advertised advertises
