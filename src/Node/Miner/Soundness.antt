-- ===== src/Node/Miner/Soundness.antt =====
-- What a tick keeps: the graph closed and the mempool signed.
use velodag_core.Prelude.{
  ℕ, zero, suc, ◌+◌, ◌≡◌, refl, sym, ap, ◌∙◌, subst, some, List, [], ◌∷◌, arith, leb, contains,
  if◌then◌else◌, ok, Result-cases, Option-cases, Bool-cases, inl, inr,
}
use velodag_core.Types.{Hash, Bytes, Transaction, VeloBlock}
use velodag_core.Block.{calculate_hash, verify_coinbase_rewards}
use velodag_core.Ledger.{apply_block}
use velodag_core.Mempool.{drain_to_batch}
use velodag_core.Mempool.Waiting.{NoneWaits, drain_to_batch-keeps}
use velodag_core.Pow.{PowManager, bump_nonce, mine_block}
use velodag_core.Storage.{save_block, save_ledger_state}
use velodag_core.Ghostdag.{select_canonical_tip}
use velodag_core.Ghostdag.ForkChoice.{select_canonical_tip-stored}
use velodag_core.Node.DifficultyLog.{record_target}
use velodag_core.Node.Graph.{Has, AllHave, Has-keys, with_block-IsClosed}
use velodag_core.Node.Rpc.Submission.Building.{is_bad}
use velodag_core.Node.Network.{Env, NodeState}
use velodag_core.Node.Network.Ingest.{canonical_tip_after}
use velodag_core.Node.Network.Closure.Block.{Closed, settle_tip-ghostdag}
use velodag_core.Node.Miner.{
  MinerState, batch_size, selected_tip, draft_block, store_mined, settle_mined, mine_and_store,
  apply_and_mine, mine_once, tick,
}

-- The mined block has the draft's parents, and the hash that comes with it is its own.
mine_block-parents :
    (sha3 : Bytes → Hash) (m : PowManager) (fuel : ℕ) (b mined : VeloBlock) (hash : Hash)
    → mine_block sha3 m fuel b ≡ some (mined, hash)
    → (hash ≡ calculate_hash sha3 mined) × (mined.header.parents ≡ b.header.parents)
unfolding mine_block bump_nonce
mine_block-parents sha3 m zero b mined hash h = absurd (ground (arith, h))
mine_block-parents sha3 m (suc fuel) b mined hash h =
    elim (Bool-cases (leb (calculate_hash sha3 b) m.target_difficulty)) [
      | inl now ↦
          let same : b ≡ mined = ground (arith, h, now) in
          let at : calculate_hash sha3 b ≡ hash = ground (arith, h, now) in
          (
            sym at ∙ ap (calculate_hash sha3) same,
            ap (λ (x : VeloBlock). x.header.parents) (sym same),
          )
      | inr later ↦
          mine_block-parents sha3 m fuel (bump_nonce b) mined hash (ground (arith, h, later))
    ]

module _ (env : Env)
    (keeps : (h : Hash) (ks : List Hash) → contains h (env.key_order ks) ≡ contains h ks) where
  -- The graph is closed, and all that waits in the mempool is well signed and of a positive amount.
  pub record IsSound (s : MinerState env) : Type 0 where
    pub closed : Closed env s.node
    pub signed : NoneWaits (is_bad env.scheme env.sha3) s.mempool.pending_transactions

  selected_tip-Has :
      (s : NodeState env) → Closed env s → Has (selected_tip env s) s.ghostdag.block_store
  unfolding selected_tip canonical_tip_after
  selected_tip-Has s c = elim (Option-cases (select_canonical_tip env.key_order s.ghostdag)) [
    | inl no_tip ↦ rw (no_tip, canonical_tip_after) c.rooted
    | inr (tip, chosen) ↦
        rw (chosen, canonical_tip_after)
          (Has-keys tip s.ghostdag.block_store
            (select_canonical_tip-stored env.key_order s.ghostdag tip keeps chosen))
  ]

  module _ (miner_address : Hash) where
    store_mined-Closed :
        (b : VeloBlock) (s : MinerState env)
        → AllHave b.header.parents s.node.ghostdag.block_store
        → Closed env s.node
        → Closed env (store_mined env miner_address b (calculate_hash env.sha3 b) s).node
    unfolding store_mined
    store_mined-Closed b s below c =
        let grown = with_block-IsClosed env.sha3 env.genesis_hash b s.node.ghostdag below c in
        elim (Result-cases
          (save_block env.backend (calculate_hash env.sha3 b) b s.node.storage).1) [
            | inl (_, at) ↦ rw (at, store_mined) grown
            | inr (_, at) ↦ rw (at, store_mined) grown
          ]

    mine_and_store-Closed :
        (fuel : ℕ) (draft : VeloBlock) (s : MinerState env)
        → AllHave draft.header.parents s.node.ghostdag.block_store
        → Closed env s.node
        → Closed env (mine_and_store env miner_address fuel draft s).0.node
    unfolding mine_and_store settle_mined
    mine_and_store-Closed fuel draft s below c =
        let target = s.node.current_difficulty_target in
        let logged = record s {
          node = record (s.node) {
            difficulty_log = record_target draft.header.height target s.node.difficulty_log;
          };
        } in
        elim (Option-cases
          (mine_block env.sha3 (record { target_difficulty = target }) fuel draft)) [
            | inl tired ↦ rw (tired, mine_and_store) c
            | inr ((b, hash), found) ↦
                let (own, same) =
                  mine_block-parents env.sha3 (record { target_difficulty = target }) fuel draft b
                    hash found in
                let stored = store_mined env miner_address b hash logged in
                let kept : Closed env stored.node =
                  subst (λ h. Closed env (store_mined env miner_address b h logged).node) (sym own)
                    (store_mined-Closed b logged
                      (subst (λ ps. AllHave ps s.node.ghostdag.block_store) (sym same) below) c) in
                rw (found, mine_and_store, settle_tip-ghostdag env hash stored.node) kept
          ]

    apply_and_mine-Closed :
        (fuel : ℕ) (draft : VeloBlock) (s : MinerState env)
        → AllHave draft.header.parents s.node.ghostdag.block_store
        → Closed env s.node
        → Closed env (apply_and_mine env miner_address fuel draft s).0.node
    unfolding apply_and_mine
    apply_and_mine-Closed fuel draft s below c =
        let applied = apply_block env.sha3 s.node.ledger_state draft in
        let saved = save_ledger_state env.backend applied.0 s.node.storage in
        elim (Result-cases applied.1) [
          | inr (_, at) ↦ rw (at, apply_and_mine) c
          | inl (_, at) ↦ elim (Result-cases saved.1) [
            | inr (_, failed) ↦ rw (at, apply_and_mine, failed) c
            | inl (_, done) ↦
                rw (at, apply_and_mine, done) (mine_and_store-Closed fuel draft _ below c)
          ]
        ]

    store_mined-mempool :
        (b : VeloBlock) (h : Hash) (s : MinerState env)
        → (store_mined env miner_address b h s).mempool ≡ s.mempool
    unfolding store_mined
    store_mined-mempool b h s = ground arith

    mine_and_store-mempool :
        (fuel : ℕ) (draft : VeloBlock) (s : MinerState env)
        → (mine_and_store env miner_address fuel draft s).0.mempool ≡ s.mempool
    unfolding mine_and_store settle_mined
    mine_and_store-mempool fuel draft s =
        let target = s.node.current_difficulty_target in
        let logged = record s {
          node = record (s.node) {
            difficulty_log = record_target draft.header.height target s.node.difficulty_log;
          };
        } in
        elim (Option-cases
          (mine_block env.sha3 (record { target_difficulty = target }) fuel draft)) [
            | inl tired ↦ rw (tired, mine_and_store) refl
            | inr ((b, hash), found) ↦
                rw (found, mine_and_store) (store_mined-mempool b hash logged)
          ]

    apply_and_mine-mempool :
        (fuel : ℕ) (draft : VeloBlock) (s : MinerState env)
        → (apply_and_mine env miner_address fuel draft s).0.mempool ≡ s.mempool
    unfolding apply_and_mine
    apply_and_mine-mempool fuel draft s =
        let applied = apply_block env.sha3 s.node.ledger_state draft in
        let saved = save_ledger_state env.backend applied.0 s.node.storage in
        elim (Result-cases applied.1) [
          | inr (_, at) ↦ rw (at, apply_and_mine) refl
          | inl (_, at) ↦ elim (Result-cases saved.1) [
            | inr (_, failed) ↦ rw (at, apply_and_mine, failed) refl
            | inl (_, done) ↦ rw (at, apply_and_mine, done) (mine_and_store-mempool fuel draft _)
          ]
        ]

    draft-parents :
        (s : NodeState env) (txs : List Transaction)
        → (draft_block env miner_address s txs).header.parents ≡ selected_tip env s ∷ []
    unfolding draft_block
    draft-parents s txs = refl

    mine_once-IsSound :
        (fuel : ℕ) (s : MinerState env) → IsSound s → IsSound (mine_once env miner_address fuel s).0
    unfolding mine_once
    mine_once-IsSound fuel s sound =
        let drained = drain_to_batch env.key_order batch_size s.mempool in
        let draft = draft_block env miner_address s.node drained.1 in
        let ready = record s {
          node = record (s.node) { clock_reads = s.node.clock_reads + 1 };
          mempool = drained.0;
        } in
        let left =
          drain_to_batch-keeps (is_bad env.scheme env.sha3) env.key_order batch_size s.mempool
            sound.signed in
        let below : AllHave draft.header.parents s.node.ghostdag.block_store =
          subst (λ ps. AllHave ps s.node.ghostdag.block_store)
            (sym (draft-parents s.node drained.1)) (selected_tip-Has s.node sound.closed, tt) in
        elim (Bool-cases (verify_coinbase_rewards draft)) [
          | inr wrong ↦ rw (wrong, mine_once) (record { closed = sound.closed; signed = left })
          | inl good ↦
              rw (good, mine_once)
                (record {
                  closed = apply_and_mine-Closed fuel draft ready below sound.closed;
                  signed = rw (apply_and_mine-mempool fuel draft ready) left;
                })
        ]

    pub tick-IsSound :
        (fuel : ℕ) (s : MinerState env) → IsSound s → IsSound (tick env miner_address fuel s).0
    unfolding tick
    tick-IsSound fuel s sound = elim (Bool-cases s.node.sync_pending) [
      | inl waiting ↦
          subst (λ c. IsSound (if c then (s, ok tt) else mine_once env miner_address fuel s).0)
            (sym waiting) sound
      | inr free ↦
          subst (λ c. IsSound (if c then (s, ok tt) else mine_once env miner_address fuel s).0)
            (sym free) (mine_once-IsSound fuel s sound)
    ]
