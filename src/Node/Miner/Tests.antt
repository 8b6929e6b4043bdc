-- ===== src/Node/Miner/Tests.antt =====
-- The theorems on the mining loop at concrete inputs.
use velodag_core.Pow.{bump_nonce}
use velodag_core.Prelude.{false, ◌<◌, add}
use velodag_core.Ledger.{set_nonce}
use velodag_core.Ledger.{debit}
use velodag_core.Ledger.{credit}
use velodag_core.Ledger.{check}
use velodag_core.Block.{fee_distribution}
use velodag_core.Ledger.{move_funds}
use velodag_core.Prelude.{lookup_or}
use velodag_core.Ledger.{claim_id}
use velodag_core.Ledger.{try_apply_transaction}
use velodag_core.Prelude.{insert}
use velodag_core.Prelude.{contains_key}
use velodag_core.Node.Miner.{create_block}
use velodag_core.Block.{transaction_payload}
use velodag_core.Block.{transaction_id}
use velodag_core.Block.{parents_bytes}
use velodag_core.Block.{calculate_subsidy_split}
use velodag_core.Block.{apply_dev_tax_split}
use velodag_core.Ledger.{select_affordable}
use velodag_core.Block.{transaction_merkle_root}
use velodag_core.Block.{hash_bytes}
use velodag_core.Block.{to_le_bytes}
use velodag_core.Block.{block_preimage}
use velodag_core.Prelude.{contains}
use velodag_core.Prelude.{filter_b}
use velodag_core.Prelude.{
  ℕ, zero, ◌≤◌, ◌≡◌, refl, true, false, none, some, [], ◌∷◌, arith, ok, lookup, ◌-◌, sum_values,
  any_b, take, keys,
}
use velodag_core.Types.{hash_mod, VeloBlock, Transaction}
use velodag_core.Block.{calculate_hash, fixed_genesis_block, fixed_genesis_block_for_network}
use velodag_core.Crypto.{verify_transaction_signature}
use velodag_core.Node.Network.Checks.{has_bad_signature}
use velodag_core.Fixtures.{toy_sha3, alice, payment}
use velodag_core.Mempool.{new_mempool, add_transaction, drain_to_batch}
use velodag_core.Ledger.{apply_block, empty_ledger}
use velodag_core.Storage.{load_block, save_ledger_state}
use velodag_core.Pow.{verify_pow}
use velodag_core.Pow.Mining.{after_tries}
use velodag_core.Ghostdag.{select_canonical_tip, select_best_tip, compute_tips, scored, all_parents}
use velodag_core.Node.Network.{NodeState}
use velodag_core.Node.Network.Ingest.{examine, canonical_tip_after}
use velodag_core.Node.Samples.{env, env_at, node_at}
use velodag_core.Node.Miner.{MinerState, draft_block, next_height, selected_tip, tick}
use velodag_core.Node.Miner.Draft.{mined}
use velodag_core.Node.Miner.Peers.{examine-mined}
use velodag_core.Node.Miner.Ticks.{Stores, tick-Stores}

-- A payment by the address of the empty key, and a node on whose ledger it applies.
abbrev signed_payment : Transaction
signed_payment = record payment { sender = 7 }

abbrev rich_at : (time : ℕ) → NodeState (env_at time)
rich_at time = record (node_at time) {
  ledger_state = record empty_ledger { balances = (7, 5_000) ∷ [] };
}

abbrev rich : NodeState env
rich = rich_at 1_800_000_000

abbrev miner : MinerState env
miner = record {
  node = rich;
  mempool = (add_transaction toy_sha3 signed_payment new_mempool).0;
  published = [];
}

abbrev drafted : VeloBlock
drafted = draft_block env alice rich (drain_to_batch env.key_order 10 miner.mempool).1

-- The genesis is the tip.
chosen : selected_tip env rich ≡ 9
unfolding selected_tip canonical_tip_after select_canonical_tip filter_b keys contains
    fixed_genesis_block fixed_genesis_block_for_network lookup
chosen = refl

first_height : next_height env rich ≡ 1
unfolding next_height lookup canonical_tip_after select_canonical_tip filter_b keys contains
    fixed_genesis_block fixed_genesis_block_for_network
first_height = refl

drafted-verifies : verify_pow toy_sha3 (record { target_difficulty = hash_mod - 1 }) drafted ≡ true
unfolding verify_pow calculate_hash block_preimage to_le_bytes draft_block next_height lookup
    canonical_tip_after select_canonical_tip filter_b keys contains fixed_genesis_block
    fixed_genesis_block_for_network hash_bytes transaction_merkle_root select_affordable
    drain_to_batch apply_dev_tax_split calculate_subsidy_split parents_bytes transaction_id
    transaction_payload all_parents compute_tips scored select_best_tip create_block selected_tip
    take add_transaction contains_key insert try_apply_transaction claim_id lookup_or move_funds
    fee_distribution
drafted-verifies = refl

drafted-transactions : drafted.transactions ≡ signed_payment ∷ []
unfolding draft_block select_affordable drain_to_batch take keys add_transaction contains_key insert
    transaction_id transaction_payload hash_bytes to_le_bytes try_apply_transaction claim_id
    contains lookup_or move_funds fee_distribution apply_dev_tax_split calculate_subsidy_split
    transaction_merkle_root all_parents compute_tips scored select_best_tip select_canonical_tip
    check credit debit set_nonce create_block next_height selected_tip canonical_tip_after add
    filter_b lookup
drafted-transactions = refl

saves :
    (save_ledger_state env.backend
      (apply_block toy_sha3 rich.ledger_state drafted).0
      rich.storage).1
    ≡ ok tt
unfolding save_ledger_state
saves = refl

tick-Stores_example :
    ((apply_block env.sha3 rich.ledger_state drafted).1 ≡ ok tt)
    × (j : ℕ) × (j ≤ 0)
    × (verify_pow env.sha3
          (record { target_difficulty = rich.current_difficulty_target })
          (after_tries j drafted)
        ≡ true)
    × ((i : ℕ)
        → i < j
        → verify_pow env.sha3
            (record { target_difficulty = rich.current_difficulty_target })
            (after_tries i drafted)
          ≡ false)
    × Stores env alice (after_tries j drafted) (tick env alice 1 miner)
unfolding sum_values after_tries
tick-Stores_example =
    tick-Stores env alice (omega arith) 1 zero miner refl (omega arith)
      (omega (arith, first_height)) (omega arith) saves (omega arith) drafted-verifies

-- A peer whose clock is ten seconds behind.
abbrev other : NodeState (env_at 1_799_999_990)
other = rich_at 1_799_999_990

abbrev first_block : VeloBlock
first_block = mined env alice rich (signed_payment ∷ []) zero

genesis_stored : lookup (selected_tip env rich) rich.ghostdag.block_store ≡ some fixed_genesis_block
unfolding selected_tip lookup canonical_tip_after select_canonical_tip filter_b keys contains
    fixed_genesis_block fixed_genesis_block_for_network
genesis_stored = refl

well_signed : any_b (has_bad_signature env) (signed_payment ∷ []) ≡ false
unfolding any_b verify_transaction_signature
well_signed = refl

first_block-verifies :
    verify_pow toy_sha3 (record { target_difficulty = hash_mod - 1 }) first_block ≡ true
unfolding verify_pow calculate_hash block_preimage to_le_bytes after_tries draft_block next_height
    lookup canonical_tip_after select_canonical_tip filter_b keys contains fixed_genesis_block
    fixed_genesis_block_for_network hash_bytes transaction_merkle_root select_affordable
    apply_dev_tax_split calculate_subsidy_split parents_bytes transaction_id transaction_payload
    all_parents compute_tips scored select_best_tip create_block selected_tip bump_nonce
    try_apply_transaction claim_id lookup_or move_funds insert fee_distribution
first_block-verifies = refl

first_block-unknown :
    load_block env.backend (calculate_hash toy_sha3 first_block) other.storage ≡ ok none
unfolding load_block lookup
first_block-unknown = refl

other-saves :
    (save_ledger_state env.backend
      (apply_block toy_sha3 rich.ledger_state first_block).0
      other.storage).1
    ≡ ok tt
unfolding save_ledger_state
other-saves = refl

examine-mined_example :
    (examine (env_at 1_799_999_990) first_block (some 4) other).1
    ≡ ok (some (calculate_hash toy_sha3 first_block))
unfolding sum_values fixed_genesis_block fixed_genesis_block_for_network
examine-mined_example =
    examine-mined env (λ ks. ks) (λ n. n) (λ n. 1_799_999_990) alice rich other
      (signed_payment ∷ []) zero (some 4) fixed_genesis_block (omega arith) (omega arith)
      genesis_stored (omega arith) (omega arith) (ground arith) well_signed (omega arith)
      (omega arith) first_block-verifies (record { graph = refl; ledger = refl; target = refl })
      first_block-unknown other-saves
