-- ===== src/Node/Network.antt =====
-- vdag-node/src/network.rs: what a node does with the blocks and messages of its peers. This file has
-- the state that the handlers share and the violations; the children have the checks of a block, its
-- ingestion, and the events.
pub mod Checks
pub mod Ingest
pub mod Events
pub mod Admission
pub mod Replays
pub mod Serving
pub mod Closure
mod Tests
use velodag_core.Prelude.{
  ℕ, ◌+◌, Bool, Option, none, some, List, [], ◌∷◌, ◌++◌, if◌then◌else◌, Result,
}
use velodag_core.Types.{Hash, Bytes, VeloBlock}
use velodag_core.Ledger.{LedgerState}
use velodag_core.Crypto.{Scheme}
use velodag_core.Storage.{Backend, BlockchainStorage}
use velodag_core.Ghostdag.{GhostdagManager}
use velodag_core.Daa.{DifficultyManager}
use velodag_core.Node.PeerGuard.{PeerId, Instant, PeerGuard, record_violation}
use velodag_core.Node.Sync.{OrphanPool, SyncRequest, SyncResponse}
use velodag_core.Node.DifficultyLog.{DifficultyLog}

-- What the handlers take from outside: hashing, signatures, the database, the order in which a hash
-- map yields its keys, the readings of the two clocks one after the other, the hash of the gossip
-- topic; and the constant arguments that they pass on.
pub record Env : Type 1 where
  pub sha3 : Bytes → Hash
  pub scheme : Scheme
  pub backend : Backend
  pub key_order : List Hash → List Hash
  pub instant_at : ℕ → Instant
  pub unix_seconds_at : ℕ → ℕ
  pub topic_hash : ℕ
  pub genesis_hash : Hash
  pub difficulty_manager : DifficultyManager
  pub local_network_id : ℕ

-- What the handlers ask of the swarm. A `Multiaddr` to dial is a number that stands for it.
pub data Action : Type 0 where
  disconnect_peer_id : PeerId → Action
  send_request : PeerId → SyncRequest → Action
  send_response : PeerId → SyncResponse → Action
  add_explicit_peer : PeerId → Action
  remove_explicit_peer : PeerId → Action
  dial : ℕ → Action

-- What ends a handler early: a failure of the database, or a panic. A run that would need more fuel
-- ends in `out_of_fuel`, which is never reached.
pub data NodeError (Fault : Type 0) : Type 0 where
  storage_fault : Fault → NodeError Fault
  panicked : NodeError Fault
  out_of_fuel : NodeError Fault

module _ (env : Env) where
  -- The mutable arguments, how many clock readings were taken, and what the swarm was asked.
  pub record NodeState : Type 0 where
    pub storage : BlockchainStorage env.backend
    pub ghostdag : GhostdagManager
    pub orphans : OrphanPool
    pub block_history : List VeloBlock
    pub difficulty_log : DifficultyLog
    pub ledger_state : LedgerState
    pub current_difficulty_target : Hash
    pub peer_guard : PeerGuard
    pub sync_pending : Bool
    pub clock_reads : ℕ
    pub outgoing : List Action

  abbrev pub Outcome : Type 0 → Type 0
  Outcome A = NodeState × Result (NodeError env.backend.Fault) A

  unfoldable pub record_violation_and_maybe_ban : Option PeerId → NodeState → NodeState
  record_violation_and_maybe_ban none s = s
  record_violation_and_maybe_ban (some peer) s =
      let counted = record_violation (env.instant_at s.clock_reads) peer s.peer_guard in
      record s {
        peer_guard = counted.0;
        clock_reads = s.clock_reads + 1;
        outgoing = if counted.1 then s.outgoing ++ disconnect_peer_id peer ∷ [] else s.outgoing;
      }
