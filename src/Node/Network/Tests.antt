-- ===== src/Node/Network/Tests.antt =====
-- A node with a genesis block that receives one block.
use velodag_core.Prelude.{
  ℕ, ◌+◌, ◌≤◌, ◌≡◌, ◌≢◌, ◌⊎◌, refl, some, List, [], ◌∷◌, length, ok, err, lookup, any_b, contains,
  filter_b, insert, keys, lookup_or, insert_sorted, sort,
}
use velodag_core.Types.{Hash, VeloBlock}
use velodag_core.Fixtures.{toy_sha3}
use velodag_core.Node.Samples.{env, node, arriving}
use velodag_core.Block.{
  calculate_hash, fixed_genesis_block, fixed_genesis_block_for_network, verify_coinbase_rewards,
  calculate_subsidy_split, verify_transaction_merkle_root, transaction_merkle_root, block_preimage,
  to_le_bytes, hash_bytes, apply_dev_tax_split, parents_bytes,
}
use velodag_core.Ledger.{apply_block, check, credit}
use velodag_core.Ghostdag.{
  find_anticone, all_parents, calculate_ghostdag_data, canonical_block_order, compute_tips,
  get_linear_sort, linear_loop, push_all, push_unique, recompute_ledger, scored, select_best_tip,
  select_canonical_tip,
}
use velodag_core.Node.Sync.{SyncRequest, blocks, genesis_mismatch}
use velodag_core.Node.Network.{NodeState, out_of_fuel}
use velodag_core.Node.Network.Ingest.{
  examine, validate_and_ingest, on_verdict, place_block, admit_block, after_scan,
  canonical_tip_after, ingest_block_only, log_target, persist_block, refresh_ledger, settle_tip,
}
use velodag_core.Node.Network.Events.{build_sync_response}
use velodag_core.Node.Network.Admission.{Admitted, examine-Admitted}
use velodag_core.Node.Network.Replays.{validate_and_ingest-Finished}
use velodag_core.Node.Network.Replays.Waiting.{pool_size}
use velodag_core.Node.Network.Serving.{AllAbove, Subsequence, build_sync_response_lem}
use velodag_core.Storage.{load_block, decode_found, save_ledger_state}
use velodag_core.Node.Network.Checks.{
  content_verdict, work_verdict, parent_scan, max_with, position_verdict,
}
use velodag_core.Pow.{verify_pow}
use velodag_core.Daa.{calculate_next_target}

abbrev arriving_hash : Hash
arriving_hash = calculate_hash toy_sha3 arriving

abbrev grown : NodeState env
grown = (examine env arriving (some 4) node).0

arriving-result : (examine env arriving (some 4) node).1 ≡ ok (some arriving_hash)
unfolding fixed_genesis_block fixed_genesis_block_for_network load_block lookup on_verdict
    content_verdict verify_coinbase_rewards calculate_subsidy_split verify_transaction_merkle_root
    transaction_merkle_root any_b work_verdict verify_pow block_preimage to_le_bytes hash_bytes
    place_block parent_scan apply_dev_tax_split parents_bytes calculate_next_target all_parents
    calculate_ghostdag_data canonical_block_order compute_tips get_linear_sort linear_loop push_all
    push_unique recompute_ledger scored select_best_tip select_canonical_tip apply_block max_with
    position_verdict admit_block after_scan canonical_tip_after ingest_block_only log_target
    persist_block refresh_ledger settle_tip contains filter_b insert keys lookup_or insert_sorted
    sort decode_found save_ledger_state check credit calculate_hash examine find_anticone
arriving-result = refl

arriving-ingested : examine env arriving (some 4) node ≡ (grown, ok (some arriving_hash))
arriving-ingested = λ i. (grown, arriving-result i)

examine-Admitted_example : (arriving_hash ≡ arriving_hash) × Admitted env arriving node grown
examine-Admitted_example =
    examine-Admitted env arriving (some 4) arriving_hash node grown arriving-ingested

validate_and_ingest-Finished_example :
    (pool_size (validate_and_ingest env arriving (some 4) node).0.orphans
      ≤ pool_size node.orphans + 1)
    × ((validate_and_ingest env arriving (some 4) node).1 ≢ err out_of_fuel)
validate_and_ingest-Finished_example = validate_and_ingest-Finished env arriving (some 4) node

abbrev request : SyncRequest
request = record { network_id = 1; genesis_hash = 9; since_height = 0 }

build_sync_response_lem_example :
    (◌≡◌ {A = ℕ} 1 1)
      × (◌≡◌ {A = ℕ} 9 9)
      × ((bs : List VeloBlock) × (build_sync_response request 9 (arriving ∷ []) 1 ≡ blocks bs)
          × (length bs ≤ 500)
          × AllAbove 0 bs
          × Subsequence bs (arriving ∷ []))
    ⊎ ((◌≢◌ {A = ℕ} 1 1) ⊎ (◌≢◌ {A = ℕ} 9 9))
      × (build_sync_response request 9 (arriving ∷ []) 1 ≡ genesis_mismatch)
build_sync_response_lem_example = build_sync_response_lem request 9 (arriving ∷ []) 1
