-- ===== src/Node/Miner.antt =====
-- vdag-node/src/main.rs: the branch of the main loop that mines, once a second, and `create_block`.
pub mod Draft
pub mod Peers
pub mod Ticks
pub mod Soundness
mod Tests
use velodag_core.Prelude.{
  ℕ, ◌+◌, Option, none, some, List, [], ◌∷◌, ◌++◌, if◌then◌else◌, wrap64, lookup, insert, Result,
  ok, err,
}
use velodag_core.Types.{Hash, Bytes, repeated_byte, dev_treasury_address, Transaction, VeloBlock}
use velodag_core.Block.{calculate_subsidy_split, transaction_merkle_root, verify_coinbase_rewards}
use velodag_core.Ledger.{apply_block, select_affordable}
use velodag_core.Mempool.{Mempool, drain_to_batch}
use velodag_core.Pow.{PowManager, mine_block}
use velodag_core.Storage.{save_block, save_ledger_state, save_ghostdag_data}
use velodag_core.Ghostdag.{calculate_ghostdag_data}
use velodag_core.Node.DifficultyLog.{record_target}
use velodag_core.Node.Network.{Env, NodeState, NodeError, panicked, out_of_fuel}
use velodag_core.Node.Network.Ingest.{canonical_tip_after, settle_tip}

-- `drain_to_batch(10)`
abbrev pub batch_size : ℕ
batch_size = 10

unfoldable pub create_block : List Hash → ℕ → Hash → ℕ → Hash → ℕ → VeloBlock
create_block parents height miner_address miner dev_address dev = record {
  header = record {
    timestamp = 0;
    parents = parents;
    tx_merkle_root = 0;
    nonce = 0;
    height = height;
    difficulty_target = repeated_byte 0x0f;
  };
  transactions = [];
  coinbase_miner_address = miner_address;
  coinbase_miner_output = miner;
  coinbase_dev_address = dev_address;
  coinbase_dev_output = dev;
}

module _ (env : Env) where
  -- What the tick works on: the state that it shares with the handlers of events, the mempool that it
  -- shares with the RPC server, and the payloads that were published.
  pub record MinerState : Type 0 where
    pub node : NodeState env
    pub mempool : Mempool
    pub published : List Bytes

  abbrev pub Ticked : Type 0
  Ticked = MinerState × Result (NodeError env.backend.Fault) Unit

  -- `select_canonical_tip().unwrap_or(genesis_hash)`
  unfoldable pub selected_tip : NodeState env → Hash
  selected_tip s = canonical_tip_after env env.genesis_hash s

  -- The height of the selected tip, or 0 if it is not stored, and one more.
  unfoldable pub next_height : NodeState env → ℕ
  unfolding selected_tip
  next_height s = elim (lookup (selected_tip s) s.ghostdag.block_store) [
    | none ↦ wrap64 (0 + 1)
    | some b ↦ wrap64 (b.header.height + 1)
  ]

  module _ (miner_address : Hash) where
    -- The block to be mined, on the ledger of the state, for the candidates that were drained.
    unfoldable pub draft_block : NodeState env → List Transaction → VeloBlock
    unfolding create_block
    draft_block s candidate_txs =
        let block_height = next_height s in
        let reward = calculate_subsidy_split block_height in
        let created =
          create_block (selected_tip s ∷ []) block_height miner_address reward.0
            dev_treasury_address reward.1 in
        let affordable_txs =
          (select_affordable env.sha3 s.ledger_state candidate_txs miner_address
            dev_treasury_address).0 in
        record created {
          header = record (created.header) {
            timestamp = env.unix_seconds_at s.clock_reads;
            difficulty_target = s.current_difficulty_target;
            tx_merkle_root = transaction_merkle_root env.sha3 affordable_txs;
          };
          transactions = affordable_txs;
        }

    -- The mined block enters the graph and the history; if the database takes it, its data is saved
    -- too and it is published, if it can be encoded.
    unfoldable pub store_mined : VeloBlock → Hash → MinerState → MinerState
    store_mined block block_hash s =
        let n = s.node in
        let dag_data = calculate_ghostdag_data n.ghostdag block in
        let saved = save_block env.backend block_hash block n.storage in
        let grown = record n {
          ghostdag = record (n.ghostdag) {
            block_store = insert block_hash block n.ghostdag.block_store;
            ghostdag_cache = insert block_hash dag_data n.ghostdag.ghostdag_cache;
          };
          block_history = n.block_history ++ block ∷ [];
        } in
        elim saved.1 [
          | err _ ↦ record s { node = record grown { storage = saved.0 } }
          | ok _ ↦ record s {
            node = record grown {
              storage = (save_ghostdag_data env.backend block_hash dag_data saved.0).0;
            };
            published = elim (env.backend.block_codec.serialize block) [
              | err _ ↦ s.published
              | ok payload ↦ s.published ++ payload ∷ []
            ];
          }
        ]

    -- The ledger and the next target from the canonical order, as behind an ingestion.
    unfoldable pub settle_mined : Hash → MinerState → Ticked
    settle_mined block_hash s =
        let settled = settle_tip env block_hash s.node in
        (record s { node = settled.0 }, elim settled.1 [ err e ↦ err e | ok _ ↦ ok tt ])

    -- The target is logged before the nonce is searched, in at most `fuel` rounds.
    unfoldable pub mine_and_store : ℕ → VeloBlock → MinerState → Ticked
    mine_and_store fuel draft s =
        let target = s.node.current_difficulty_target in
        let logged = record s {
          node = record (s.node) {
            difficulty_log = record_target draft.header.height target s.node.difficulty_log;
          };
        } in
        elim (mine_block env.sha3 (record { target_difficulty = target }) fuel draft) [
          | none ↦ (logged, err out_of_fuel)
          | some (block, block_hash) ↦ settle_mined block_hash (store_mined block block_hash logged)
        ]

    -- A draft that the ledger refuses, or a ledger that cannot be saved, ends the tick; in the second
    -- case the ledger has moved.
    unfoldable pub apply_and_mine : ℕ → VeloBlock → MinerState → Ticked
    apply_and_mine fuel draft s =
        let applied = apply_block env.sha3 s.node.ledger_state draft in
        let saved = save_ledger_state env.backend applied.0 s.node.storage in
        elim applied.1 [
          | err _ ↦ (record s { node = record (s.node) { ledger_state = applied.0 } }, ok tt)
          | ok _ ↦
              let moved = record s {
                node = record (s.node) { ledger_state = applied.0; storage = saved.0 };
              } in
              elim saved.1 [ err _ ↦ (moved, ok tt) | ok _ ↦ mine_and_store fuel draft moved ]
        ]

    -- The tick's work. The candidates leave the mempool whether they are taken or not.
    unfoldable pub mine_once : ℕ → MinerState → Ticked
    mine_once fuel s =
        let drained = drain_to_batch env.key_order batch_size s.mempool in
        let draft = draft_block s.node drained.1 in
        let ready = record s {
          node = record (s.node) { clock_reads = s.node.clock_reads + 1 };
          mempool = drained.0;
        } in
        if verify_coinbase_rewards draft then apply_and_mine fuel draft ready else (ready, ok tt)

    -- The timer's branch: `_ = block_timer.tick(), if !sync_pending`.
    unfoldable pub tick : ℕ → MinerState → Ticked
    tick fuel s = if s.node.sync_pending then (s, ok tt) else mine_once fuel s
