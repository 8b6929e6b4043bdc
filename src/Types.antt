-- ===== src/Types.antt =====
-- vdag-consensus/src/lib.rs: the protocol constants and the block, header and transaction structs.
-- A `[u8; 32]` is the number whose 32 big-endian bytes it is, so that `==`, `<=` and `sort` on the
-- arrays are those of the numbers; a `Vec<u8>` is a list of numbers below 256.
use velodag_core.Prelude.{ℕ, ◌*◌, ◌-◌, ◌/◌, ◌^◌, List}

abbrev pub Hash : Type 0
Hash = ℕ

abbrev pub Bytes : Type 0
Bytes = List ℕ

abbrev pub hash_mod : ℕ
hash_mod = 2 ^ 256

-- `[b; 32]`: 32 copies of one byte.
abbrev pub repeated_byte : ℕ → Hash
repeated_byte b = b * ((hash_mod - 1) / 255)

abbrev pub initial_block_reward : ℕ
initial_block_reward = 83_238

abbrev pub dev_tax_percentage : ℕ
dev_tax_percentage = 5

abbrev pub blocks_per_era : ℕ
blocks_per_era = 126_144_000

abbrev pub dev_treasury_address : Hash
dev_treasury_address = repeated_byte 0xdd

abbrev pub transaction_fee : ℕ
transaction_fee = 100

abbrev pub devnet_network_id : ℕ
devnet_network_id = 1

abbrev pub testnet_network_id : ℕ
testnet_network_id = 2

abbrev pub mainnet_network_id : ℕ
mainnet_network_id = 3

abbrev pub active_network_id : ℕ
active_network_id = devnet_network_id

abbrev pub devnet_genesis_timestamp : ℕ
devnet_genesis_timestamp = 1_700_000_000

abbrev pub testnet_genesis_timestamp : ℕ
testnet_genesis_timestamp = 1_700_000_001

abbrev pub mainnet_genesis_timestamp : ℕ
mainnet_genesis_timestamp = 1_700_000_002

pub record BlockHeader : Type 0 where
  pub timestamp : ℕ
  pub parents : List Hash
  pub tx_merkle_root : Hash
  pub nonce : ℕ
  pub height : ℕ
  pub difficulty_target : Hash

pub record Transaction : Type 0 where
  pub sender : Hash
  pub recipient : Hash
  pub amount : ℕ
  pub nonce : ℕ
  pub public_key : Bytes
  pub signature : Bytes

pub record VeloBlock : Type 0 where
  pub header : BlockHeader
  pub transactions : List Transaction
  pub coinbase_miner_address : Hash
  pub coinbase_miner_output : ℕ
  pub coinbase_dev_address : Hash
  pub coinbase_dev_output : ℕ
