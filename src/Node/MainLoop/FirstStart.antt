-- ===== src/Node/MainLoop/FirstStart.antt =====
-- A node that starts on a database without the genesis.
use Prim.Native.String.{String}
use velodag_core.Prelude.{
  ◌≡◌, refl, sym, ap, subst, ◌∙◌, Option, none, List, [], arith, any_b, contains, ok, Result-cases,
  inl, inr,
}
use velodag_core.Types.{Hash}
use velodag_core.Block.{fixed_genesis_block_for_network, fixed_genesis_hash_for_network}
use velodag_core.Ledger.{apply_block}
use velodag_core.Storage.{
  BlockchainStorage, load_block, save_block, save_ghostdag_data, save_ledger_state,
}
use velodag_core.Mempool.{new_mempool}
use velodag_core.Ghostdag.{calculate_ghostdag_data}
use velodag_core.Node.Graph.{IsClosed, lone-IsClosed}
use velodag_core.Node.Hex.{Hex}
use velodag_core.Node.Rpc.{Json}
use velodag_core.Node.Network.{Env, NodeState}
use velodag_core.Node.Network.Closure.Block.{Closed}
use velodag_core.Node.Startup.{initial_state, push_block, mint_genesis, load_or_mint, start_up}
use velodag_core.Node.Startup.Recovery.{resume_target-kept}
use velodag_core.Node.Miner.{MinerState}
use velodag_core.Node.Miner.Soundness.{IsSound}
use velodag_core.Node.MainLoop.{Turn, run_node}
use velodag_core.Node.MainLoop.Invariant.{main_loop-IsSound}

module _ (env : Env)
    (keeps : (h : Hash) (ks : List Hash) → contains h (env.key_order ks) ≡ contains h ks)
    (known : fixed_genesis_hash_for_network env.sha3 env.local_network_id ≡ env.genesis_hash) where
  -- Whatever was saved, the graph is the genesis alone.
  mint_genesis-ghostdag :
      (s : NodeState env)
      → let genesis = fixed_genesis_block_for_network env.local_network_id in
        let hash = fixed_genesis_hash_for_network env.sha3 env.local_network_id in
        (mint_genesis env hash genesis s).1 ≡ ok tt
        → (mint_genesis env hash genesis s).0.ghostdag ≡ (push_block env hash genesis s).ghostdag
  unfolding mint_genesis push_block
  mint_genesis-ghostdag s done =
      let genesis = fixed_genesis_block_for_network env.local_network_id in
      let hash = fixed_genesis_hash_for_network env.sha3 env.local_network_id in
      let applied = apply_block env.sha3 s.ledger_state genesis in
      let block_saved = save_block env.backend hash genesis s.storage in
      let data_saved =
        save_ghostdag_data env.backend hash (calculate_ghostdag_data s.ghostdag genesis)
          block_saved.0 in
      let ledger_saved = save_ledger_state env.backend applied.0 data_saved.0 in
      elim (Result-cases applied.1) [
        | inr (_, a) ↦ absurd (ground (arith, a, done))
        | inl (_, a) ↦ elim (Result-cases block_saved.1) [
          | inr (_, b) ↦ absurd (ground (arith, a, b, done))
          | inl (_, b) ↦ elim (Result-cases data_saved.1) [
            | inr (_, c) ↦ absurd (ground (arith, a, b, c, done))
            | inl (_, c) ↦ elim (Result-cases ledger_saved.1) [
              | inr (_, d) ↦ absurd (ground (arith, a, b, c, d, done))
              | inl (_, d) ↦ rw (a, mint_genesis, b, c, d) refl
            ]
          ]
        ]
      ]

  load_or_mint-mints :
      (s : NodeState env)
      → load_block env.backend env.genesis_hash s.storage ≡ ok none
      → load_or_mint env s
        ≡ mint_genesis env
            (fixed_genesis_hash_for_network env.sha3 env.local_network_id)
            (fixed_genesis_block_for_network env.local_network_id)
            s
  unfolding load_or_mint
  load_or_mint-mints s empty =
      let absent = subst (λ h. load_block env.backend h s.storage ≡ ok none) (sym known) empty in
      rw (absent, load_or_mint) refl

  first_start-Closed :
      (storage : BlockchainStorage env.backend)
      → load_block env.backend env.genesis_hash storage ≡ ok none
      → (start_up env storage).1 ≡ ok tt
      → Closed env (start_up env storage).0
  unfolding start_up initial_state push_block fixed_genesis_hash_for_network
      fixed_genesis_block_for_network
  first_start-Closed storage empty started =
      let s = initial_state env storage in
      let genesis = fixed_genesis_block_for_network env.local_network_id in
      let hash = fixed_genesis_hash_for_network env.sha3 env.local_network_id in
      let minted = mint_genesis env hash genesis s in
      let mints : load_or_mint env s ≡ minted = load_or_mint-mints s empty in
      elim (Result-cases minted.1) [
        | inr (_, failed) ↦ absurd (ground (arith, mints, failed, started))
        | inl (_, done) ↦
            let loaded : (load_or_mint env s).1 ≡ ok tt = ap (λ r. r.1) mints ∙ done in
            let graph =
              (resume_target-kept env (load_or_mint env s).0).0
              ∙ ap (λ r. r.0.ghostdag) mints
              ∙ mint_genesis-ghostdag s done in
            let alone : IsClosed env.sha3 hash (push_block env hash genesis s).ghostdag =
              lone-IsClosed env.sha3 hash genesis 3 (calculate_ghostdag_data s.ghostdag genesis)
                refl refl in
            rw (loaded, start_up)
              (subst (λ m. IsClosed env.sha3 env.genesis_hash m) (sym graph)
                (subst (λ h. IsClosed env.sha3 h (push_block env hash genesis s).ghostdag) known
                  alone))
      ]

  module _ (json : Json) (hex : Hex) (auth_token : Option String) (miner_address : Hash) where
    -- A node that knows its network's genesis, finds no block under the genesis's hash in its database,
    -- and starts without a panic has, however ticks, events of the network and requests of clients then
    -- follow one another, and whatever peers and clients send, a graph in which every block stands under
    -- its own hash, with all its parents and its data, and the genesis is there; and every transaction
    -- that waits in the mempool is well signed and of a positive amount.
    pub run_node-IsSound :
        (turns : List (Turn json.Value)) (storage : BlockchainStorage env.backend)
        → load_block env.backend env.genesis_hash storage ≡ ok none
        → (start_up env storage).1 ≡ ok tt
        → IsSound env keeps (run_node env json hex auth_token miner_address turns storage).0
    unfolding run_node any_b
    run_node-IsSound turns storage empty started =
        let s : MinerState env = record {
          node = (start_up env storage).0;
          mempool = new_mempool;
          published = [];
        } in
        rw (started, run_node)
          (main_loop-IsSound env keeps json hex auth_token miner_address turns s
            (record { closed = first_start-Closed storage empty started; signed = refl }))
