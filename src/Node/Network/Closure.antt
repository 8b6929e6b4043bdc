-- ===== src/Node/Network/Closure.antt =====
-- No message of a peer breaks the graph: every event keeps it closed.
pub mod Block
use velodag_core.Prelude.{
  ℕ, zero, suc, ◌+◌, ◌≡◌, Option, none, some, List, [], ◌∷◌, ◌==◌, map, arith, length, total_size,
  ltb, ok, err, Result-cases, Bool-cases, inl, inr,
}
use velodag_core.Types.{Hash, VeloBlock}
use velodag_core.Block.{calculate_hash}
use velodag_core.Ledger.{apply_block}
use velodag_core.Storage.{load_block, save_ledger_state}
use velodag_core.Node.PeerGuard.{
  PeerId, ConnectionDecision, allow, reject_already_banned, reject_over_peer_limit,
  reject_over_ip_limit, reject_over_total_limit, on_connection_established,
}
use velodag_core.Node.Sync.{Orphan, SyncResponse, blocks, genesis_mismatch, take_ready}
use velodag_core.Node.Graph.{AllHave, IsClosed, parent_scan-AllHave, with_block-IsClosed}
use velodag_core.Node.Network.{Env, NodeState, Outcome, record_violation_and_maybe_ban}
use velodag_core.Node.Network.Checks.{
  Verdict, passed, panics, faulty, content_verdict, work_verdict, parent_scan, position_verdict,
  max_gossip_message_bytes,
}
use velodag_core.Node.Network.Ingest.{
  on_verdict, ingest_block_only, canonical_tip_after, settle_tip, persist_block, admit_block,
  after_scan, place_block, log_target, examine, replay_all, validate_loop, validate_and_ingest,
}
use velodag_core.Node.Network.Events.{
  GossipMessage, SwarmEvent, gossip_message, mdns_discovered, mdns_expired, sync_request_message,
  sync_response_message, outbound_failure, connection_established, connection_closed, other_event,
  emit, extract_ip, handle_gossip_block, handle_sync_response, clear_pending, connected,
  handle_p2p_events,
}
use velodag_core.Node.Network.Admission.{log_target-kept}
use velodag_core.Node.Network.Admission.Passed.{refresh_ledger-ghostdag}
use velodag_core.Node.Network.Closure.Block.{Closed, examine-Closed, violation-Closed}

module _ (env : Env) where
  replay_all-Closed :
      (validate : VeloBlock → Option PeerId → NodeState env → Outcome env Unit)
      → ((b : VeloBlock) (source : Option PeerId) (s : NodeState env)
          → Closed env s
          → Closed env (validate b source s).0)
      → (ready : List Orphan) (s : NodeState env) → Closed env s
      → Closed env (replay_all env validate ready s).0
  unfolding replay_all
  replay_all-Closed validate step [] s c = c
  replay_all-Closed validate step ((source, b) ∷ rest) s c =
      let r = validate b source s in
      let kept = step b source s c in
      elim (Result-cases r.1) [
        | inr (_, at) ↦ rw (at, replay_all) kept
        | inl (_, at) ↦ rw (at, replay_all) (replay_all-Closed validate step rest r.0 kept)
      ]

  validate_loop-Closed :
      (fuel : ℕ) (b : VeloBlock) (source : Option PeerId) (s : NodeState env)
      → Closed env s
      → Closed env (validate_loop env fuel b source s).0
  unfolding validate_loop
  validate_loop-Closed zero b source s c = c
  validate_loop-Closed (suc fuel) b source s c =
      let r = examine env b source s in
      let kept = examine-Closed env b source s c in
      elim (Result-cases r.1) [
        | inr (_, at) ↦ rw (at, validate_loop) kept
        | inl (none, at) ↦ rw (at, validate_loop) kept
        | inl (some h, at) ↦
            let taken = take_ready h r.0.orphans in
            rw (at, validate_loop)
              (replay_all-Closed (λ x from u. validate_loop env fuel x from u)
                (λ x from u. validate_loop-Closed fuel x from u) taken.1
                (record (r.0) { orphans = taken.0 }) kept)
      ]

  validate_and_ingest-Closed :
      (b : VeloBlock) (source : Option PeerId) (s : NodeState env)
      → Closed env s
      → Closed env (validate_and_ingest env b source s).0
  unfolding validate_and_ingest
  validate_and_ingest-Closed b source s c =
      validate_loop-Closed (total_size length s.orphans.waiting_on + 1) b source s c

  handle_gossip_block-Closed :
      (message : GossipMessage) (source : PeerId) (s : NodeState env)
      → Closed env s
      → Closed env (handle_gossip_block env message source s).0
  unfolding handle_gossip_block
  handle_gossip_block-Closed message source s c =
      elim (Bool-cases (message.topic == env.topic_hash)) [
        | inr other ↦ rw (other, handle_gossip_block) c
        | inl ours ↦ elim (Bool-cases (ltb max_gossip_message_bytes (length message.data_bytes))) [
          | inl large ↦
              rw (ours, handle_gossip_block, large) (violation-Closed env (some source) s c)
          | inr small ↦
              elim (Result-cases (env.backend.block_codec.deserialize message.data_bytes)) [
                | inr (_, at) ↦
                    rw (ours, handle_gossip_block, small, at)
                      (violation-Closed env (some source) s c)
                | inl (b, at) ↦
                    rw (ours, handle_gossip_block, small, at)
                      (validate_and_ingest-Closed b (some source) s c)
              ]
        ]
      ]

  handle_sync_response-Closed :
      (peer : PeerId) (response : SyncResponse) (s : NodeState env)
      → Closed env s
      → Closed env (handle_sync_response env peer response s).0
  unfolding handle_sync_response emit
  handle_sync_response-Closed peer genesis_mismatch s c = c
  handle_sync_response-Closed peer (blocks bs) s c =
      replay_all-Closed (λ b from u. validate_and_ingest env b from u)
        (λ b from u. validate_and_ingest-Closed b from u) (map (λ b. (some peer, b)) bs) s c

  clear_pending-Closed :
      (r : Outcome env Unit) → Closed env r.0 → Closed env (clear_pending env r).0
  unfolding clear_pending
  clear_pending-Closed (s, err e) c = c
  clear_pending-Closed (s, ok _) c = c

  connected-Closed :
      (peer : PeerId) (decision : ConnectionDecision) (s : NodeState env)
      → Closed env s
      → Closed env (connected env peer decision s)
  unfolding connected emit
  connected-Closed peer allow s c = c
  connected-Closed peer reject_already_banned s c = c
  connected-Closed peer reject_over_peer_limit s c = c
  connected-Closed peer reject_over_ip_limit s c = c
  connected-Closed peer reject_over_total_limit s c = c

  -- No event of the network, whatever a peer sends, breaks the graph: each block still stands under its
  -- own hash, with all its parents and its data, and the genesis is there.
  pub handle_p2p_events-Closed :
      (event : SwarmEvent) (s : NodeState env)
      → Closed env s
      → Closed env (handle_p2p_events env event s).0
  unfolding handle_p2p_events emit
  handle_p2p_events-Closed (gossip_message source message) s c =
      handle_gossip_block-Closed message source s c
  handle_p2p_events-Closed (mdns_discovered peers) s c = c
  handle_p2p_events-Closed (mdns_expired peers) s c = c
  handle_p2p_events-Closed (sync_request_message peer request) s c = c
  handle_p2p_events-Closed (sync_response_message peer response) s c =
      clear_pending-Closed (handle_sync_response env peer response s)
        (handle_sync_response-Closed peer response s c)
  handle_p2p_events-Closed (outbound_failure peer) s c = c
  handle_p2p_events-Closed (connection_established peer address) s c =
      let admitted =
        on_connection_established (env.instant_at s.clock_reads) peer (extract_ip address)
          s.peer_guard in
      connected-Closed peer admitted.1
        (record s { peer_guard = admitted.0; clock_reads = s.clock_reads + 1 }) c
  handle_p2p_events-Closed (connection_closed peer address) s c = c
  handle_p2p_events-Closed other_event s c = c
