-- ===== src/Fixtures.antt =====
-- Sample data that the tests of several components share.
use velodag_core.Prelude.{
  ℕ, ◌+◌, ◌-◌, ◌*◌, ◌%◌, List, [], ◌∷◌, map, some, true, Map, lookup, insert, Result, ok, err,
}
use velodag_core.Types.{Hash, Bytes, hash_mod, dev_treasury_address, Transaction, VeloBlock}
use velodag_core.Ledger.{LedgerState, empty_ledger}
use velodag_core.Crypto.{Scheme}
use velodag_core.Storage.{Backend, BlockchainStorage}

-- A stand-in for SHA3-256 that evaluates: the bytes as digits of a number.
abbrev pub toy_sha3 : Bytes → Hash
toy_sha3 [] = 7
toy_sha3 (b ∷ bs) = (b + 257 * toy_sha3 bs) % hash_mod

abbrev pub alice : Hash
alice = 1

abbrev pub bob : Hash
bob = 2

abbrev pub carol : Hash
carol = 3

abbrev pub payment : Transaction
payment = record {
  sender = alice;
  recipient = bob;
  amount = 1_000;
  nonce = 0;
  public_key = [];
  signature = [];
}

abbrev pub funded : LedgerState
funded = record { balances = (alice, 5_000) ∷ []; next_nonces = []; confirmed_transactions = [] }

-- A block of the first era with the parents, transactions, height and time given.
abbrev pub block_at : List Hash → List Transaction → ℕ → ℕ → VeloBlock
block_at parents transactions height timestamp = record {
  header = record {
    timestamp = timestamp;
    parents = parents;
    tx_merkle_root = 0;
    nonce = 0;
    height = height;
    difficulty_target = hash_mod - 1;
  };
  transactions = transactions;
  coinbase_miner_address = carol;
  coinbase_miner_output = 79_077;
  coinbase_dev_address = dev_treasury_address;
  coinbase_dev_output = 4_161;
}

-- A stand-in for the signature scheme: the signature is the message, and all verify.
abbrev pub toy_scheme : Scheme
toy_scheme = record {
  PublicKey = Bytes;
  SecretKey = Bytes;
  Signature = Bytes;
  parse_key = λ b. some b;
  key_bytes = λ k. k;
  parse_secret = λ b. some b;
  secret_bytes = λ k. k;
  parse_signature = λ b. some b;
  signature_bytes = λ s. s;
  detached_sign = λ m sk. m;
  verify_detached = λ s m pk. true;
}

-- A stand-in for the encoding of blocks, for those with no parents and no transactions.
abbrev pub toy_serialize_block : VeloBlock → Result Unit Bytes
toy_serialize_block b = elim b.header.parents [
  | _ ∷ _ ↦ err tt
  | [] ↦ elim b.transactions [
    | _ ∷ _ ↦ err tt
    | [] ↦ ok (
        b.header.timestamp ∷ b.header.tx_merkle_root ∷ b.header.nonce ∷ b.header.height
        ∷ b.header.difficulty_target ∷ b.coinbase_miner_address ∷ b.coinbase_miner_output
        ∷ b.coinbase_dev_address ∷ b.coinbase_dev_output ∷ [])
  ]
]

abbrev pub toy_deserialize_block : Bytes → Result Unit VeloBlock
toy_deserialize_block (time ∷ root ∷ nonce ∷ height ∷ target ∷ miner ∷ reward ∷ dev ∷ share ∷ []) =
    ok (record {
      header = record {
        timestamp = time;
        parents = [];
        tx_merkle_root = root;
        nonce = nonce;
        height = height;
        difficulty_target = target;
      };
      transactions = [];
      coinbase_miner_address = miner;
      coinbase_miner_output = reward;
      coinbase_dev_address = dev;
      coinbase_dev_output = share;
    })
toy_deserialize_block _ = err tt

-- The same for the ledger without entries.
abbrev pub toy_serialize_ledger : LedgerState → Result Unit Bytes
toy_serialize_ledger l = elim l.balances [
  | _ ∷ _ ↦ err tt
  | [] ↦ elim l.next_nonces [
    | _ ∷ _ ↦ err tt
    | [] ↦ elim l.confirmed_transactions [ _ ∷ _ ↦ err tt | [] ↦ ok [] ]
  ]
]

-- A stand-in for the database: a map that is always readable and writable.
abbrev pub toy_backend : Backend
toy_backend = record {
  Tree = Map Bytes;
  Db = Unit;
  Fault = Unit;
  get = λ key t. ok (lookup (toy_sha3 key) t);
  put = λ key bytes t. (insert (toy_sha3 key) bytes t, ok tt);
  values = λ t. ok (map (λ e. e.1) t);
  flush = λ d. (d, ok tt);
  block_codec = record { serialize = toy_serialize_block; deserialize = toy_deserialize_block };
  ghostdag_codec = record { serialize = λ d. ok []; deserialize = λ b. err tt };
  ledger_codec = record { serialize = toy_serialize_ledger; deserialize = λ b. ok empty_ledger };
}

abbrev pub toy_storage : BlockchainStorage toy_backend
toy_storage = record { blocks_tree = []; ghostdag_tree = []; ledger_tree = []; db = tt }
