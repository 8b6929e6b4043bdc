-- ===== src/Node/Startup.antt =====
-- vdag-node/src/main.rs, from the consensus subsystems to the main loop: the genesis is minted, or the
-- graph, the ledger and the target are recovered from the database.
pub mod Recovery
mod Tests
use velodag_core.Prelude.{
  ℕ, ◌*◌, false, Option, none, some, List, [], ◌∷◌, ◌++◌, ◌==◌, if◌then◌else◌, last?, insert,
  Result, ok, err,
}
use velodag_core.Types.{Hash, repeated_byte, VeloBlock}
use velodag_core.Block.{
  calculate_hash, fixed_genesis_block_for_network, fixed_genesis_hash_for_network,
}
use velodag_core.Ledger.{LedgerState, empty_ledger, apply_block}
use velodag_core.Storage.{
  BlockchainStorage, save_block, load_block, load_all_blocks, save_ledger_state, load_ledger_state,
  save_ghostdag_data,
}
use velodag_core.Ghostdag.{
  new_manager, calculate_ghostdag_data, select_canonical_tip, recompute_ledger,
}
use velodag_core.Node.PeerGuard.{new_guard}
use velodag_core.Node.Sync.{new_pool}
use velodag_core.Node.DifficultyLog.{new_log}
use velodag_core.Node.Network.{Env, NodeState, storage_fault, panicked, Outcome}

abbrev pub orphan_pool_max : ℕ
orphan_pool_max = 1_024

module _ (env : Env) where
  -- The subsystems before anything is loaded.
  unfoldable pub initial_state : BlockchainStorage env.backend → NodeState env
  initial_state storage = record {
    storage = storage;
    ghostdag = new_manager 3;
    orphans = new_pool orphan_pool_max;
    block_history = [];
    difficulty_log = new_log;
    ledger_state = empty_ledger;
    current_difficulty_target = repeated_byte 0x0f;
    peer_guard = new_guard;
    sync_pending = false;
    clock_reads = 0;
    outgoing = [];
  }

  -- The block, under the hash given, enters the graph and the history.
  unfoldable pub push_block : Hash → VeloBlock → NodeState env → NodeState env
  push_block hash block s = record s {
    ghostdag = record (s.ghostdag) {
      block_store = insert hash block s.ghostdag.block_store;
      ghostdag_cache =
          insert hash (calculate_ghostdag_data s.ghostdag block) s.ghostdag.ghostdag_cache;
    };
    block_history = s.block_history ++ block ∷ [];
  }

  -- The first start: each `unwrap` panics on an error.
  unfoldable pub mint_genesis : Hash → VeloBlock → NodeState env → Outcome env Unit
  mint_genesis hash genesis s =
      let applied = apply_block env.sha3 s.ledger_state genesis in
      let dag_data = calculate_ghostdag_data s.ghostdag genesis in
      let block_saved = save_block env.backend hash genesis s.storage in
      let data_saved = save_ghostdag_data env.backend hash dag_data block_saved.0 in
      let ledger_saved = save_ledger_state env.backend applied.0 data_saved.0 in
      let at = λ (storage : BlockchainStorage env.backend). record s {
        ledger_state = applied.0;
        storage = storage;
      } in
      elim applied.1 [
        | err _ ↦ (at s.storage, err panicked)
        | ok _ ↦ elim block_saved.1 [
          | err _ ↦ (at block_saved.0, err panicked)
          | ok _ ↦ elim data_saved.1 [
            | err _ ↦ (at data_saved.0, err panicked)
            | ok _ ↦ elim ledger_saved.1 [
              | err _ ↦ (at ledger_saved.0, err panicked)
              | ok _ ↦ (push_block hash genesis (at ledger_saved.0), ok tt)
            ]
          ]
        ]
      ]

  -- `for block in stored_blocks`: blocks of height 0 are passed over.
  unfoldable pub replay_stored : List VeloBlock → NodeState env → NodeState env
  replay_stored [] s = s
  replay_stored (block ∷ rest) s =
      let pushed = push_block (calculate_hash env.sha3 block) block s in
      replay_stored rest (if block.header.height == 0 then s else pushed)

  -- An error is logged only.
  unfoldable pub replay_all_stored : NodeState env → NodeState env
  replay_all_stored s = elim (load_all_blocks env.backend s.storage) [
    | err _ ↦ s
    | ok stored_blocks ↦ replay_stored stored_blocks s
  ]

  unfoldable pub use_snapshot : Option LedgerState → NodeState env → NodeState env
  use_snapshot none s = s
  use_snapshot (some state) s = record s { ledger_state = state }

  -- The ledger is computed afresh from the graph; the snapshot serves where this fails.
  unfoldable pub recover_ledger : Option LedgerState → NodeState env → NodeState env
  recover_ledger persisted s = elim (select_canonical_tip env.key_order s.ghostdag) [
    | none ↦ use_snapshot persisted s
    | some canonical_tip ↦ elim (recompute_ledger env.sha3 s.ghostdag canonical_tip) [
      | err _ ↦ use_snapshot persisted s
      | ok recomputed ↦ record s {
        ledger_state = recomputed;
        storage = (save_ledger_state env.backend recomputed s.storage).0;
      }
    ]
  ]

  -- `load_ledger_state`, where an error counts as no snapshot.
  unfoldable pub persisted_ledger : BlockchainStorage env.backend → Option LedgerState
  persisted_ledger storage = elim (load_ledger_state env.backend storage) [
    | err _ ↦ none
    | ok state ↦ state
  ]

  -- `match storage_engine.load_block(&genesis_hash)`
  unfoldable pub load_or_mint : NodeState env → Outcome env Unit
  load_or_mint s =
      let genesis_hash = fixed_genesis_hash_for_network env.sha3 env.local_network_id in
      let genesis = fixed_genesis_block_for_network env.local_network_id in
      elim (load_block env.backend genesis_hash s.storage) [
        | err _ ↦ (s, ok tt)
        | ok none ↦ mint_genesis genesis_hash genesis s
        | ok (some genesis_blk) ↦ (
          recover_ledger (persisted_ledger s.storage)
              (replay_all_stored (push_block genesis_hash genesis_blk s)),
          ok tt,
        )
      ]

  -- `if let Some(last_block) = block_history.last()`
  unfoldable pub resume_target : NodeState env → NodeState env
  resume_target s = elim (last? s.block_history) [
    | none ↦ s
    | some last_block ↦ record s { current_difficulty_target = last_block.header.difficulty_target }
  ]

  unfoldable pub start_up : BlockchainStorage env.backend → Outcome env Unit
  start_up storage =
      let loaded = load_or_mint (initial_state storage) in
      elim loaded.1 [ err e ↦ (loaded.0, err e) | ok _ ↦ (resume_target loaded.0, ok tt) ]
