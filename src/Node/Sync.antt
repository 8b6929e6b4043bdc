-- ===== src/Node/Sync.antt =====
-- vdag-node/src/sync.rs: the messages of the sync protocol and the pool of orphans.
pub mod Orphans
mod Tests
use velodag_core.Prelude.{
  ℕ, ◌+◌, ◌-◌, Option, none, some, List, [], ◌∷◌, ◌++◌, leb, if◌then◌else◌, length, Map, lookup,
  lookup_or, insert, erase,
}
use velodag_core.Types.{Hash, VeloBlock}
use velodag_core.Node.PeerGuard.{PeerId}

abbrev pub max_sync_blocks : ℕ
max_sync_blocks = 500

pub record SyncRequest : Type 0 where
  pub network_id : ℕ
  pub genesis_hash : Hash
  pub since_height : ℕ

pub data SyncResponse : Type 0 where
  blocks : List VeloBlock → SyncResponse
  genesis_mismatch : SyncResponse

-- A waiting block with the peer that sent it, if known.
abbrev pub Orphan : Type 0
Orphan = Option PeerId × VeloBlock

pub record OrphanPool : Type 0 where
  pub waiting_on : Map (List Orphan)
  pub max_size : ℕ
  pub current_size : ℕ

-- `OrphanPool::new(max_size)`
abbrev pub new_pool : ℕ → OrphanPool
new_pool max_size = record { waiting_on = []; max_size = max_size; current_size = 0 }

-- `insert`: at the limit the orphan is dropped.
unfoldable pub insert_orphan : Hash → Option PeerId → VeloBlock → OrphanPool → OrphanPool
insert_orphan missing_parent source block p =
    if leb p.max_size p.current_size then p else record p {
      waiting_on =
          insert missing_parent (lookup_or [] missing_parent p.waiting_on ++ (source, block) ∷ [])
            p.waiting_on;
      current_size = p.current_size + 1;
    }

unfoldable pub take_ready : Hash → OrphanPool → OrphanPool × List Orphan
take_ready resolved_hash p = elim (lookup resolved_hash p.waiting_on) [
  | none ↦ (p, [])
  | some ready ↦ (
    record p {
      waiting_on = erase resolved_hash p.waiting_on;
      current_size = p.current_size - length ready;
    },
    ready,
  )
]
