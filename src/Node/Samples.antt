-- ===== src/Node/Samples.antt =====
-- A sample node with the fixed genesis, and a block that arrives, for the tests of Network and Miner.
use velodag_core.Prelude.{ℕ, ◌-◌, false, [], ◌∷◌, ok}
use velodag_core.Types.{VeloBlock, hash_mod}
use velodag_core.Fixtures.{toy_sha3, toy_scheme, toy_backend, block_at}
use velodag_core.Block.{fixed_genesis_block}
use velodag_core.Ledger.{empty_ledger}
use velodag_core.Ghostdag.{root_data}
use velodag_core.Storage.{Backend}
use velodag_core.Node.PeerGuard.{new_guard}
use velodag_core.Node.Sync.{new_pool}
use velodag_core.Node.DifficultyLog.{new_log}
use velodag_core.Node.Network.{Env, NodeState}

-- A database whose ledgers are always written.
abbrev pub backend : Backend
backend = record toy_backend {
  ledger_codec = record { serialize = λ l. ok []; deserialize = λ b. ok empty_ledger };
}

abbrev pub env_at : ℕ → Env
env_at time = record {
  sha3 = toy_sha3;
  scheme = toy_scheme;
  backend = backend;
  key_order = λ ks. ks;
  instant_at = λ n. n;
  unix_seconds_at = λ n. time;
  topic_hash = 5;
  genesis_hash = 9;
  difficulty_manager = record { target_block_interval = 1; window_size = 60 };
  local_network_id = 1;
}

abbrev pub env : Env
env = env_at 1_800_000_000

-- A node that knows the genesis only.
abbrev pub node_at : (time : ℕ) → NodeState (env_at time)
node_at time = record {
  storage = record { blocks_tree = []; ghostdag_tree = []; ledger_tree = []; db = tt };
  ghostdag = record {
    k = 3;
    block_store = (9, fixed_genesis_block) ∷ [];
    ghostdag_cache = (9, root_data) ∷ [];
  };
  orphans = new_pool 10;
  block_history = [];
  difficulty_log = new_log;
  ledger_state = empty_ledger;
  current_difficulty_target = hash_mod - 1;
  peer_guard = new_guard;
  sync_pending = false;
  clock_reads = 0;
  outgoing = [];
}

abbrev pub node : NodeState env
node = node_at 1_800_000_000

abbrev pub arriving : VeloBlock
arriving = block_at (9 ∷ []) [] 1 1_700_000_005
