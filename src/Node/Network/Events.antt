-- ===== src/Node/Network/Events.antt =====
-- vdag-node/src/network.rs: the events of the swarm, gossip and the sync protocol.
use velodag_core.Prelude.{
  ℕ, ◌+◌, true, false, not, ◌||◌, Option, none, some, List, [], ◌∷◌, ◌++◌, map, ltb, ◌==◌,
  if◌then◌else◌, length, filter_b, take, ok, err,
}
use velodag_core.Types.{Hash, Bytes, VeloBlock}
use velodag_core.Node.PeerGuard.{
  PeerId, IpAddr, ConnectionDecision, allow, on_connection_established, on_connection_closed,
}
use velodag_core.Node.Sync.{SyncRequest, SyncResponse, blocks, genesis_mismatch, max_sync_blocks}
use velodag_core.Node.Network.{
  Env, NodeState, Outcome, Action, disconnect_peer_id, send_request, send_response,
  add_explicit_peer, remove_explicit_peer, dial, record_violation_and_maybe_ban,
}
use velodag_core.Node.Network.Checks.{max_gossip_message_bytes}
use velodag_core.Node.Network.Ingest.{validate_and_ingest, replay_all}

-- The parts of a `Multiaddr`.
pub data Protocol : Type 0 where
  ip4 ip6 : IpAddr → Protocol
  other_protocol : Protocol

unfoldable pub extract_ip : List Protocol → Option IpAddr
extract_ip [] = none
extract_ip (ip4 ip ∷ rest) = some ip
extract_ip (ip6 ip ∷ rest) = some ip
extract_ip (other_protocol ∷ rest) = extract_ip rest

-- `block_history.iter().map(height).max().unwrap_or(0)`
unfoldable pub max_height : List VeloBlock → ℕ
max_height [] = 0
max_height (b ∷ bs) =
    let rest = max_height bs in if ltb rest b.header.height then b.header.height else rest

unfoldable pub build_sync_response : SyncRequest → Hash → List VeloBlock → ℕ → SyncResponse
build_sync_response request genesis_hash block_history local_network_id =
    if not (request.network_id == local_network_id) || not (request.genesis_hash == genesis_hash)
    then genesis_mismatch
    else blocks (
        take max_sync_blocks
          (filter_b (λ b. ltb request.since_height b.header.height) block_history))

pub record GossipMessage : Type 0 where
  pub topic : ℕ
  pub data_bytes : Bytes

-- The events that a handler acts on; the others are one constructor.
pub data SwarmEvent : Type 0 where
  gossip_message : PeerId → GossipMessage → SwarmEvent
  mdns_discovered : List (PeerId × ℕ) → SwarmEvent
  mdns_expired : List PeerId → SwarmEvent
  sync_request_message : PeerId → SyncRequest → SwarmEvent
  sync_response_message : PeerId → SyncResponse → SwarmEvent
  outbound_failure : PeerId → SwarmEvent
  connection_established : PeerId → List Protocol → SwarmEvent
  connection_closed : PeerId → List Protocol → SwarmEvent
  other_event : SwarmEvent

-- The two requests for each peer found, in order.
pub greet : List (PeerId × ℕ) → List Action
greet [] = []
greet ((peer, address) ∷ rest) = add_explicit_peer peer ∷ dial address ∷ greet rest

module _ (env : Env) where
  unfoldable pub emit : List Action → NodeState env → NodeState env
  emit actions s = record s { outgoing = s.outgoing ++ actions }

  unfoldable pub handle_gossip_block : GossipMessage → PeerId → NodeState env → Outcome env Unit
  handle_gossip_block message propagation_source s =
      if not (message.topic == env.topic_hash)
      then (s, ok tt)
      else if ltb max_gossip_message_bytes (length message.data_bytes)
      then (record_violation_and_maybe_ban env (some propagation_source) s, ok tt)
      else elim (env.backend.block_codec.deserialize message.data_bytes) [
        | err _ ↦ (record_violation_and_maybe_ban env (some propagation_source) s, ok tt)
        | ok block ↦ validate_and_ingest env block (some propagation_source) s
      ]

  unfoldable pub handle_sync_response : PeerId → SyncResponse → NodeState env → Outcome env Unit
  unfolding emit
  handle_sync_response peer (blocks bs) s =
      replay_all env (λ b from u. validate_and_ingest env b from u) (map (λ b. (some peer, b)) bs) s
  handle_sync_response peer genesis_mismatch s = (emit (disconnect_peer_id peer ∷ []) s, ok tt)

  -- `*sync_pending = false` behind a `?`
  unfoldable pub clear_pending : Outcome env Unit → Outcome env Unit
  clear_pending (s, err e) = (s, err e)
  clear_pending (s, ok _) = (record s { sync_pending = false }, ok tt)

  -- The rest of `ConnectionEstablished`, by the decision.
  unfoldable pub connected : PeerId → ConnectionDecision → NodeState env → NodeState env
  unfolding emit
  connected peer allow s =
      emit
        (send_request peer (record {
          network_id = env.local_network_id;
          genesis_hash = env.genesis_hash;
          since_height = max_height s.block_history;
        })
          ∷ [])
        (record s { sync_pending = true })
  connected peer decision s = emit (disconnect_peer_id peer ∷ []) s

  unfoldable pub handle_p2p_events : SwarmEvent → NodeState env → Outcome env Unit
  unfolding emit clear_pending connected greet
  handle_p2p_events (gossip_message source message) s = handle_gossip_block message source s
  handle_p2p_events (mdns_discovered peers) s = (emit (greet peers) s, ok tt)
  handle_p2p_events (mdns_expired peers) s = (emit (map remove_explicit_peer peers) s, ok tt)
  handle_p2p_events (sync_request_message peer request) s = (
    emit
        (send_response peer
            (build_sync_response request env.genesis_hash s.block_history env.local_network_id)
          ∷ [])
        s,
    ok tt,
  )
  handle_p2p_events (sync_response_message peer response) s =
      clear_pending (handle_sync_response peer response s)
  handle_p2p_events (outbound_failure peer) s = (record s { sync_pending = false }, ok tt)
  handle_p2p_events (connection_established peer address) s =
      let admitted =
        on_connection_established (env.instant_at s.clock_reads) peer (extract_ip address)
          s.peer_guard in
      (
        connected peer admitted.1
            (record s { peer_guard = admitted.0; clock_reads = s.clock_reads + 1 }),
        ok tt,
      )
  handle_p2p_events (connection_closed peer address) s =
      (record s { peer_guard = on_connection_closed peer (extract_ip address) s.peer_guard }, ok tt)
  handle_p2p_events other_event s = (s, ok tt)
