-- ===== src/Node/Startup/Tests.antt =====
-- A node that restarts on a database with the genesis and one block.
use velodag_core.Prelude.{lookup_or}
use velodag_core.Ledger.{credit}
use velodag_core.Block.{calculate_subsidy_split}
use velodag_core.Block.{verify_coinbase_rewards}
use velodag_core.Ledger.{check}
use velodag_core.Storage.{sort_by_height}
use velodag_core.Storage.{save_ledger_state}
use velodag_core.Storage.{save_ghostdag_data}
use velodag_core.Storage.{save_block}
use velodag_core.Storage.{load_ledger_state}
use velodag_core.Storage.{insert_by_height}
use velodag_core.Storage.{decode_found}
use velodag_core.Storage.{decode_all}
use velodag_core.Prelude.{sort}
use velodag_core.Prelude.{insert_sorted}
use velodag_core.Prelude.{lookup}
use velodag_core.Prelude.{contains}
use velodag_core.Node.Startup.{use_snapshot}
use velodag_core.Node.Startup.{persisted_ledger}
use velodag_core.Node.Startup.{mint_genesis}
use velodag_core.Ledger.{apply_block}
use velodag_core.Ghostdag.{select_best_tip}
use velodag_core.Ghostdag.{scored}
use velodag_core.Ghostdag.{push_unique}
use velodag_core.Ghostdag.{push_all}
use velodag_core.Ghostdag.{linear_loop}
use velodag_core.Ghostdag.{get_linear_sort}
use velodag_core.Ghostdag.{compute_tips}
use velodag_core.Ghostdag.{calculate_ghostdag_data}
use velodag_core.Ghostdag.{all_parents}
use velodag_core.Block.{parents_bytes}
use velodag_core.Block.{hash_bytes}
use velodag_core.Block.{fixed_genesis_block_for_network}
use velodag_core.Block.{to_le_bytes}
use velodag_core.Block.{block_preimage}
use velodag_core.Node.Startup.{initial_state}
use velodag_core.Prelude.{insert}
use velodag_core.Node.Startup.{push_block}
use velodag_core.Node.Startup.{replay_stored}
use velodag_core.Node.Startup.{replay_all_stored}
use velodag_core.Node.Startup.{recover_ledger}
use velodag_core.Prelude.{last?}
use velodag_core.Node.Startup.{resume_target}
use velodag_core.Node.Startup.{load_or_mint}
use velodag_core.Prelude.{keys}
use velodag_core.Prelude.{◌≡◌, refl, some, [], ◌∷◌, filter_b, ok}
use velodag_core.Types.{Hash}
use velodag_core.Fixtures.{toy_sha3, toy_backend}
use velodag_core.Block.{calculate_hash, fixed_genesis_block, fixed_genesis_hash_for_network}
use velodag_core.Storage.{Backend, BlockchainStorage, load_block, load_all_blocks}
use velodag_core.Ghostdag.{select_canonical_tip, recompute_ledger}
use velodag_core.Node.Network.{Env, NodeState}
use velodag_core.Node.Samples.{env, arriving}
use velodag_core.Node.Startup.{start_up}
use velodag_core.Node.Startup.Recovery.{above_zero, AllHashed, start_up-recovers}

-- The empty bytes are the genesis, all others the block.
abbrev stored_backend : Backend
stored_backend = record toy_backend {
  get = λ key t. ok (some []);
  values = λ t. ok ((1 ∷ []) ∷ []);
  block_codec = record {
    serialize = λ b. ok [];
    deserialize = λ bytes. elim bytes [ [] ↦ ok fixed_genesis_block | _ ∷ _ ↦ ok arriving ];
  };
}

abbrev stored_env : Env
stored_env = record env { backend = stored_backend }

abbrev storage : BlockchainStorage stored_backend
storage = record { blocks_tree = []; ghostdag_tree = []; ledger_tree = []; db = tt }

genesis_found :
    load_block stored_backend (fixed_genesis_hash_for_network toy_sha3 1) storage
    ≡ ok (some fixed_genesis_block)
unfolding load_block
genesis_found = refl

blocks_found : load_all_blocks stored_backend storage ≡ ok (arriving ∷ [])
unfolding load_all_blocks
blocks_found = refl

start_up-recovers_example :
    ((start_up stored_env storage).1 ≡ ok tt)
    × ((start_up stored_env storage).0.block_history
        ≡ fixed_genesis_block ∷ filter_b above_zero (arriving ∷ []))
    × AllHashed stored_env
        (filter_b above_zero (arriving ∷ []))
        (start_up stored_env storage).0.ghostdag
start_up-recovers_example =
    start_up-recovers stored_env storage fixed_genesis_block (arriving ∷ []) genesis_found
      blocks_found

abbrev tip : Hash
tip = calculate_hash toy_sha3 arriving

abbrev restarted : NodeState stored_env
restarted = (start_up stored_env storage).0

tip_found : select_canonical_tip (λ ks. ks) restarted.ghostdag ≡ some tip
unfolding select_canonical_tip filter_b keys start_up load_or_mint load_block resume_target last?
    recover_ledger replay_all_stored load_all_blocks replay_stored push_block insert initial_state
    fixed_genesis_hash_for_network block_preimage to_le_bytes calculate_hash
    fixed_genesis_block_for_network hash_bytes parents_bytes all_parents calculate_ghostdag_data
    compute_tips get_linear_sort linear_loop push_all push_unique recompute_ledger scored
    select_best_tip apply_block mint_genesis persisted_ledger use_snapshot contains lookup
    insert_sorted sort decode_all decode_found insert_by_height load_ledger_state save_block
    save_ghostdag_data save_ledger_state sort_by_height fixed_genesis_block check
    verify_coinbase_rewards calculate_subsidy_split credit lookup_or
tip_found = refl

ledger_found : recompute_ledger toy_sha3 restarted.ghostdag tip ≡ ok restarted.ledger_state
unfolding recompute_ledger get_linear_sort lookup start_up load_or_mint load_block resume_target
    last? recover_ledger select_canonical_tip filter_b keys replay_all_stored load_all_blocks
    replay_stored push_block insert initial_state block_preimage calculate_hash
    fixed_genesis_block_for_network fixed_genesis_hash_for_network hash_bytes parents_bytes
    to_le_bytes all_parents calculate_ghostdag_data compute_tips linear_loop push_all push_unique
    scored select_best_tip apply_block mint_genesis persisted_ledger use_snapshot contains
    insert_sorted sort decode_all decode_found insert_by_height load_ledger_state save_block
    save_ghostdag_data save_ledger_state sort_by_height fixed_genesis_block check
    verify_coinbase_rewards calculate_subsidy_split credit lookup_or
ledger_found = refl
