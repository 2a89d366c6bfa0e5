-- ===== src/Router/IWant.antt =====
-- gossipsub.go: `handleIWant`, which answers requests from the message cache.
pub mod Limits
use go_libp2p_pubsub.Prelude.{
  ℕ, Bool, List, [], ◌∷◌, Option, none, some, Map, has, lookup_or, insert, ltb, if◌then◌else◌,
}
use go_libp2p_pubsub.Message.{Message}
use go_libp2p_pubsub.MessageCache.{get_for_peer}
use go_libp2p_pubsub.Router.Env.{Params, Scores, ControlMessage, Router, Env}

-- The messages of a map, in the order of its entries.
abbrev pub messages_of : Map Message → List Message
messages_of [] = []
messages_of ((mid, msg) ∷ rest) = msg ∷ messages_of rest

module _ (s : Scores) where
  -- What the loop does with a message that the cache has.
  serve_found : Params → Env s → ℕ → ℕ → Option (Message × ℕ) → Map Message → Map Message
  serve_found params env p mid none ihave = ihave
  serve_found params env p mid (some (msg, count)) ihave =
      if env.peer_filter p msg.topic
      then (if ltb params.gossip_retransmission count then ihave else insert mid msg ihave)
      else ihave

  unfoldable pub serve_mid : Params → Env s → ℕ → ℕ → Router × Map Message → Router × Map Message
  unfolding serve_found
  serve_mid params env p mid (gs, ihave) =
      if has (env.compute_checksum mid) (lookup_or [] p gs.unwanted)
      then (gs, ihave)
      else let (found, mcache) = get_for_peer gs.mcache mid p in
        (record gs { mcache = mcache }, serve_found params env p mid found ihave)

  unfoldable pub serve_mids :
      Params → Env s → ℕ → List ℕ → Router × Map Message → Router × Map Message
  unfolding serve_mid
  serve_mids params env p [] state = state
  serve_mids params env p (mid ∷ mids) state =
      serve_mids params env p mids (serve_mid params env p mid state)

  unfoldable pub serve_iwants :
      Params → Env s → ℕ → List (List ℕ) → Router × Map Message → Router × Map Message
  unfolding serve_mids
  serve_iwants params env p [] state = state
  serve_iwants params env p (mids ∷ more) state =
      serve_iwants params env p more (serve_mids params env p mids state)

  -- The messages to send, by id, and the new state.
  unfoldable pub handle_iwant : Params → Env s → Router → ℕ → ControlMessage → Map Message × Router
  unfolding serve_iwants
  handle_iwant params env gs p ctl =
      if s.lt (env.score p) env.gossip_threshold
      then ([], gs)
      else let (gs', ihave) = serve_iwants params env p ctl.iwant (gs, []) in (ihave, gs')
