-- ===== src/Node/MainLoop/Tests.antt =====
-- A node that gets a block from a peer, mines, and answers a client.
use velodag_core.Storage.{save_ledger_state}
use velodag_core.Storage.{save_ghostdag_data}
use velodag_core.Storage.{save_block}
use velodag_core.Ledger.{apply_block}
use velodag_core.Node.Startup.{mint_genesis}
use velodag_core.Node.Startup.{initial_state}
use velodag_core.Node.Startup.{load_or_mint}
use velodag_core.Prelude.{◌≡◌, refl, none, some, List, [], ◌∷◌, lookup, ok, err}
use velodag_core.Types.{Hash, VeloBlock}
use velodag_core.Fixtures.{toy_sha3, toy_backend, alice, block_at}
use velodag_core.Block.{
  fixed_genesis_hash_for_network, calculate_hash, fixed_genesis_block,
  fixed_genesis_block_for_network,
}
use velodag_core.Storage.{BlockchainStorage, load_block}
use velodag_core.Node.Startup.{start_up}
use velodag_core.Node.Samples.{env}
use velodag_core.Node.HexSamples.{toy_hex}
use velodag_core.Node.Rpc.{Json}
use velodag_core.Node.Network.{Env}
use velodag_core.Node.Network.Events.{gossip_message}
use velodag_core.Node.Miner.Soundness.{IsSound}
use velodag_core.Node.MainLoop.{Turn, block_timer, network_event, rpc_request, run_node}
use velodag_core.Node.MainLoop.FirstStart.{run_node-IsSound}

abbrev root : Hash
root = calculate_hash toy_sha3 fixed_genesis_block

abbrev child : VeloBlock
child = block_at (root ∷ []) [] 1 1_700_000_005

-- Every payload is the child block.
abbrev loop_env : Env
loop_env = record env {
  genesis_hash = root;
  backend = record toy_backend {
    block_codec = record { serialize = λ b. ok []; deserialize = λ bytes. ok child };
  };
}

abbrev storage : BlockchainStorage loop_env.backend
storage = record { blocks_tree = []; ghostdag_tree = []; ledger_tree = []; db = tt }

abbrev no_json : Json
no_json = record {
  Value = Unit;
  null = tt;
  read_request = λ line. err "unread";
  read_submit = λ v. err "unread";
  read_address = λ v. err "unread";
  read_status = λ v. err "unread";
}

abbrev turns : List (Turn Unit)
turns =
    network_event (gossip_message 4 (record { topic = 5; data_bytes = [] }))
    ∷ block_timer 1
    ∷ rpc_request (record { id = none; method = "version"; params = none; token = none })
    ∷ []

root-known : fixed_genesis_hash_for_network toy_sha3 1 ≡ root
unfolding fixed_genesis_hash_for_network fixed_genesis_block fixed_genesis_block_for_network
root-known = refl

no_genesis : load_block loop_env.backend root storage ≡ ok none
unfolding load_block lookup
no_genesis = refl

storage-starts : (start_up loop_env storage).1 ≡ ok tt
unfolding start_up load_or_mint load_block lookup initial_state mint_genesis apply_block
    fixed_genesis_block_for_network save_block save_ghostdag_data save_ledger_state
storage-starts = refl

run_node-IsSound_example :
    IsSound loop_env
      (λ h ks. refl)
      (run_node loop_env no_json toy_hex (some "sesame") alice turns storage).0
run_node-IsSound_example =
    run_node-IsSound loop_env (λ h ks. refl) root-known no_json toy_hex (some "sesame") alice turns
      storage no_genesis storage-starts
