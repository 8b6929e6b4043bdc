-- ===== src/Node/Miner/Ticks.antt =====
-- What a tick does when nothing stands in its way.
use velodag_core.Prelude.{
  ℕ, zero, ◌+◌, ◌≤◌, ◌<◌, ◌≡◌, ◌≢◌, refl, sym, subst, true, false, some, arith, lookup,
  lookup-insert, sum_values, u64_mod, ok, if◌then◌else◌,
}
use velodag_core.Types.{Hash, VeloBlock, hash_mod}
use velodag_core.Block.{calculate_hash, verify_coinbase_rewards}
use velodag_core.Ledger.{apply_block}
use velodag_core.Mempool.{drain_to_batch}
use velodag_core.Storage.{save_ledger_state}
use velodag_core.Pow.{verify_pow}
use velodag_core.Pow.Mining.{after_tries, mine_block-first}
use velodag_core.Node.DifficultyLog.{record_target}
use velodag_core.Node.Network.{Env}
use velodag_core.Node.Network.Ingest.{settle_tip}
use velodag_core.Node.Network.Admission.Passed.{settle_tip-ok}
use velodag_core.Node.Miner.{
  MinerState, Ticked, batch_size, next_height, draft_block, store_mined, settle_mined,
  mine_and_store, apply_and_mine, mine_once, tick,
}
use velodag_core.Node.Miner.Draft.{draft, mined-content, draft-applies}
use velodag_core.Node.Miner.Peers.Acceptable.{settle_tip-total}

module _ (env : Env) (miner_address : Hash) where
  -- The call succeeds and leaves the block in the graph.
  abbrev pub Stores : VeloBlock → Ticked env → Type 0
  Stores b r =
      (r.1 ≡ ok tt) × (lookup (calculate_hash env.sha3 b) r.0.node.ghostdag.block_store ≡ some b)

  store_mined-lookup :
      (b : VeloBlock) (h : Hash) (s : MinerState env)
      → (lookup h (store_mined env miner_address b h s).node.ghostdag.block_store ≡ some b)
        × ((store_mined env miner_address b h s).node.current_difficulty_target
            ≡ s.node.current_difficulty_target)
  unfolding store_mined
  store_mined-lookup b h s =
      let there = lookup-insert h h b s.node.ghostdag.block_store in ground (arith, there)

  module _ (paced : 0 < env.difficulty_manager.window_size) where
    settle_mined-Stores :
        (b : VeloBlock) (s : MinerState env)
        → s.node.current_difficulty_target < hash_mod
        → lookup (calculate_hash env.sha3 b) s.node.ghostdag.block_store ≡ some b
        → Stores b (settle_mined env miner_address (calculate_hash env.sha3 b) s)
    unfolding settle_mined
    settle_mined-Stores b s range there =
        let h = calculate_hash env.sha3 b in
        let total = settle_tip-total env paced h s.node range in
        let (_, kept) =
          settle_tip-ok env h h s.node (settle_tip env h s.node).0
            (λ i. ((settle_tip env h s.node).0, total i)) in
        (rw (total, settle_mined) refl, rw kept there)

    -- If a nonce is found after k rounds, and k is less than the rounds allowed.
    mine_and_store-Stores :
        (fuel k : ℕ) (draft : VeloBlock) (s : MinerState env)
        → s.node.current_difficulty_target < hash_mod
        → k < fuel
        → verify_pow env.sha3
            (record { target_difficulty = s.node.current_difficulty_target })
            (after_tries k draft)
          ≡ true
        → (j : ℕ) × (j ≤ k)
          × (verify_pow env.sha3
                (record { target_difficulty = s.node.current_difficulty_target })
                (after_tries j draft)
              ≡ true)
          × ((i : ℕ)
              → i < j
              → verify_pow env.sha3
                  (record { target_difficulty = s.node.current_difficulty_target })
                  (after_tries i draft)
                ≡ false)
          × Stores (after_tries j draft) (mine_and_store env miner_address fuel draft s)
    unfolding mine_and_store
    mine_and_store-Stores fuel k draft s range enough good =
        let target = s.node.current_difficulty_target in
        let logged = record s {
          node = record (s.node) {
            difficulty_log = record_target draft.header.height target s.node.difficulty_log;
          };
        } in
        let (j, le, found, verified, first) =
          mine_block-first env.sha3 (record { target_difficulty = target }) fuel k draft enough
            good in
        let b = after_tries j draft in
        let h = calculate_hash env.sha3 b in
        let (there, same) = store_mined-lookup b h logged in
        (
          j,
          le,
          verified,
          first,
          rw (found, mine_and_store)
              (settle_mined-Stores b (store_mined env miner_address b h logged)
                (omega (arith, same)) there),
        )

    -- A tick of a node that is not catching up mines, where the next height is not 0, the window has
    -- at least one block, the target fits 32 bytes, and all balances and the first era's reward stay
    -- below 2^64 together: its draft applies to the ledger, and if the ledger can be saved and the
    -- draft verifies after k rounds, the tick ends within k + 1 rounds, with the block of the first
    -- verifying nonce in the graph under its hash.
    pub tick-Stores :
        (fuel k : ℕ) (s : MinerState env)
        → let draft =
            draft_block env miner_address s.node
              (drain_to_batch env.key_order batch_size s.mempool).1 in
          let applied = apply_block env.sha3 s.node.ledger_state draft in
          let meets =
            verify_pow env.sha3 (record { target_difficulty = s.node.current_difficulty_target }) in
          s.node.sync_pending ≡ false
          → s.node.current_difficulty_target < hash_mod
          → next_height env s.node ≢ 0
          → sum_values s.node.ledger_state.balances + 83_238 < u64_mod
          → (save_ledger_state env.backend applied.0 s.node.storage).1 ≡ ok tt
          → k < fuel
          → meets (after_tries k draft) ≡ true
          → (applied.1 ≡ ok tt)
            × (j : ℕ) × (j ≤ k)
            × (meets (after_tries j draft) ≡ true)
            × ((i : ℕ) → i < j → meets (after_tries i draft) ≡ false)
            × Stores (after_tries j draft) (tick env miner_address fuel s)
    unfolding tick mine_once apply_and_mine after_tries
    tick-Stores fuel k s running range high fits saves enough good =
        let drained = drain_to_batch env.key_order batch_size s.mempool in
        let draft = draft_block env miner_address s.node drained.1 in
        let applies = draft-applies env miner_address s.node drained.1 high fits in
        let rewarded : verify_coinbase_rewards draft ≡ true =
          (mined-content env miner_address s.node drained.1 zero).0 in
        let applied = apply_block env.sha3 s.node.ledger_state draft in
        let moved = record s {
          node = record (s.node) {
            clock_reads = s.node.clock_reads + 1;
            ledger_state = applied.0;
            storage = (save_ledger_state env.backend applied.0 s.node.storage).0;
          };
          mempool = drained.0;
        } in
        let (j, le, meets, first, stores) =
          mine_and_store-Stores fuel k draft moved range enough good in
        (
          applies,
          j,
          le,
          meets,
          first,
          subst
              (λ c.
                Stores (after_tries j draft)
                  (if c then (s, ok tt) else mine_once env miner_address fuel s))
              (sym running) (rw (rewarded, mine_once, applies, apply_and_mine, saves) stores),
        )
