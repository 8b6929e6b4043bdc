-- ===== src/Block.antt =====
-- vdag-consensus/src/lib.rs, `impl VeloBlock` and the fixed genesis: encodings, identifiers, the
-- Merkle commitment, the subsidy and the fee. SHA3-256 is the parameter `sha3`.
pub mod Encoding
pub mod Merkle
pub mod Subsidy
mod Tests
use velodag_core.Prelude.{
  ℕ, zero, suc, ◌+◌, ◌*◌, ◌/◌, ◌%◌, ◌^◌, Bool, ◌&&◌, Option, none, some, List, [], ◌∷◌, ◌++◌, map,
  reverse, leb, ◌==◌, if◌then◌else◌, length, wrap64, sub64,
}
use velodag_core.Types.{
  Hash, Bytes, repeated_byte, initial_block_reward, dev_tax_percentage, blocks_per_era,
  dev_treasury_address, transaction_fee, devnet_network_id, testnet_network_id, mainnet_network_id,
  active_network_id, devnet_genesis_timestamp, testnet_genesis_timestamp, mainnet_genesis_timestamp,
  BlockHeader, Transaction, VeloBlock,
}

-- `to_le_bytes` of an integer of the given number of bytes.
unfoldable pub to_le_bytes : ℕ → ℕ → Bytes
to_le_bytes zero n = []
to_le_bytes (suc w) n = (n % 256) ∷ to_le_bytes w (n / 256)

-- The 32 bytes of a hash or an address, in their order in memory.
unfoldable pub hash_bytes : Hash → Bytes
hash_bytes h = reverse (to_le_bytes 32 h)

unfoldable pub transaction_payload : Transaction → Bytes
transaction_payload tx =
    hash_bytes tx.sender
    ++ (hash_bytes tx.recipient ++ (to_le_bytes 8 tx.amount ++ to_le_bytes 8 tx.nonce))

-- `for parent in &self.header.parents { hasher.update(parent) }`
unfoldable pub parents_bytes : List Hash → Bytes
parents_bytes [] = []
parents_bytes (p ∷ ps) = hash_bytes p ++ parents_bytes ps

-- All that `calculate_hash` feeds to the hasher.
unfoldable pub block_preimage : VeloBlock → Bytes
unfolding parents_bytes
block_preimage b =
    to_le_bytes 8 b.header.timestamp
    ++ (to_le_bytes 8 b.header.height
        ++ (parents_bytes b.header.parents
            ++ (hash_bytes b.header.tx_merkle_root
                ++ (to_le_bytes 8 b.header.nonce
                    ++ (hash_bytes b.header.difficulty_target
                        ++ (hash_bytes b.coinbase_miner_address
                            ++ hash_bytes b.coinbase_dev_address))))))

-- `layer[0]`; the default is never read, see `merkle_loop-singleton`.
pub first_or_zero : List Hash → Hash
first_or_zero [] = 0
first_or_zero (a ∷ _) = a

module _ (sha3 : Bytes → Hash) where
  unfoldable pub transaction_id : Transaction → Hash
  transaction_id tx = sha3 (transaction_payload tx ++ (tx.public_key ++ tx.signature))

  pub pair_hash : Hash → Hash → Hash
  pair_hash left right = sha3 (hash_bytes left ++ hash_bytes right)

  -- `for pair in layer.chunks(2)`: an odd last entry is paired with itself.
  pub next_layer : List Hash → List Hash
  next_layer [] = []
  next_layer (a ∷ []) = pair_hash a a ∷ []
  next_layer (a ∷ b ∷ rest) = pair_hash a b ∷ next_layer rest

  -- `while layer.len() > 1`
  pub merkle_loop : ℕ → List Hash → List Hash
  unfolding next_layer
  merkle_loop zero layer = layer
  merkle_loop (suc fuel) [] = []
  merkle_loop (suc fuel) (a ∷ []) = a ∷ []
  merkle_loop (suc fuel) (a ∷ b ∷ rest) = merkle_loop fuel (next_layer (a ∷ b ∷ rest))

  unfoldable pub transaction_merkle_root : List Transaction → Hash
  unfolding merkle_loop first_or_zero transaction_id
  transaction_merkle_root [] = 0
  transaction_merkle_root (tx ∷ txs) =
      let layer = map transaction_id (tx ∷ txs) in first_or_zero (merkle_loop (length layer) layer)

  unfoldable pub verify_transaction_merkle_root : VeloBlock → Bool
  verify_transaction_merkle_root b =
      b.header.tx_merkle_root == transaction_merkle_root b.transactions

  unfoldable pub calculate_hash : VeloBlock → Hash
  calculate_hash b = sha3 (block_preimage b)

unfoldable pub apply_dev_tax_split : ℕ → ℕ × ℕ
apply_dev_tax_split amount =
    let dev_share = wrap64 (amount * dev_tax_percentage) / 100 in
    (sub64 amount dev_share, dev_share)

unfoldable pub calculate_subsidy_split : ℕ → ℕ × ℕ
unfolding apply_dev_tax_split
calculate_subsidy_split height =
    let era = height / blocks_per_era in
    if leb 64 era
    then (0, 0)
    else (let total_subsidy = initial_block_reward / 2 ^ era in
        if total_subsidy == 0 then (0, 0) else apply_dev_tax_split total_subsidy)

-- (miner_share, dev_share, burned_share)
unfoldable pub fee_distribution : ℕ × ℕ × ℕ
unfolding apply_dev_tax_split
fee_distribution =
    let burn_share = transaction_fee / 2 in
    let split = apply_dev_tax_split (sub64 transaction_fee burn_share) in
    (split.0, split.1, burn_share)

unfoldable pub verify_coinbase_rewards : VeloBlock → Bool
verify_coinbase_rewards b =
    let expected = calculate_subsidy_split b.header.height in
    b.coinbase_miner_output == expected.0 && b.coinbase_dev_output == expected.1

pub genesis_timestamp_for_network : ℕ → Option ℕ
genesis_timestamp_for_network network_id =
    if network_id == devnet_network_id
    then some devnet_genesis_timestamp
    else (if network_id == testnet_network_id
        then some testnet_genesis_timestamp
        else (if network_id == mainnet_network_id then some mainnet_genesis_timestamp else none))

-- `unwrap_or(DEVNET_GENESIS_TIMESTAMP)`
pub genesis_timestamp_or_devnet : Option ℕ → ℕ
genesis_timestamp_or_devnet none = devnet_genesis_timestamp
genesis_timestamp_or_devnet (some t) = t

unfoldable pub fixed_genesis_block_for_network : ℕ → VeloBlock
unfolding genesis_timestamp_for_network genesis_timestamp_or_devnet
fixed_genesis_block_for_network network_id = record {
  header = record {
    timestamp = genesis_timestamp_or_devnet (genesis_timestamp_for_network network_id);
    parents = [];
    tx_merkle_root = 0;
    nonce = 0;
    height = 0;
    difficulty_target = repeated_byte 0x0f;
  };
  transactions = [];
  coinbase_miner_address = 0;
  coinbase_miner_output = 0;
  coinbase_dev_address = dev_treasury_address;
  coinbase_dev_output = 0;
}

unfoldable pub fixed_genesis_hash_for_network : (Bytes → Hash) → ℕ → Hash
unfolding calculate_hash
fixed_genesis_hash_for_network sha3 network_id =
    calculate_hash sha3 (fixed_genesis_block_for_network network_id)

unfoldable pub fixed_genesis_block : VeloBlock
fixed_genesis_block = fixed_genesis_block_for_network active_network_id

pub fixed_genesis_hash : (Bytes → Hash) → Hash
fixed_genesis_hash sha3 = calculate_hash sha3 fixed_genesis_block
