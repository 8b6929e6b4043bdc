-- ===== src/Node/Startup/Recovery.antt =====
-- What a restarted node has recovered.
use velodag_core.Prelude.{
  append-nil, append_assoc, ◌≡◌, refl, sym, ap, ◌∙◌, subst, Bool, not, Option, none, some, List, [],
  ◌∷◌, ◌++◌, arith, ◌==◌, if◌then◌else◌, filter_b, lookup, lookup-insert, inl, inr, Bool-cases, ok,
}
use velodag_core.Types.{Hash, VeloBlock}
use velodag_core.Block.{calculate_hash, fixed_genesis_hash_for_network}
use velodag_core.Ledger.{LedgerState}
use velodag_core.Storage.{BlockchainStorage, load_block, load_all_blocks}
use velodag_core.Ghostdag.{GhostdagManager, select_canonical_tip, recompute_ledger}
use velodag_core.Node.Network.{Env, NodeState}
use velodag_core.Node.Startup.{
  initial_state, push_block, replay_stored, replay_all_stored, use_snapshot, recover_ledger,
  persisted_ledger, load_or_mint, resume_target, start_up,
}

pub above_zero : VeloBlock → Bool
above_zero b = not (b.header.height == 0)

module _ (env : Env) where
  -- The graph has a block under the hash, with that hash.
  abbrev pub HasHash : Hash → NodeState env → Type 0
  HasHash h s =
      (b : VeloBlock) × (lookup h s.ghostdag.block_store ≡ some b) × (calculate_hash env.sha3 b ≡ h)

  push_block-HasHash :
      (h : Hash) (b : VeloBlock) (s : NodeState env)
      → HasHash h s
      → HasHash h (push_block env (calculate_hash env.sha3 b) b s)
  unfolding push_block
  push_block-HasHash h b s (c, at, same) =
      let hb = calculate_hash env.sha3 b in
      let step = lookup-insert hb h b s.ghostdag.block_store in
      elim (Bool-cases (hb == h)) [
        | inl equal ↦ (b, ground (arith, step, equal), ground (arith, equal))
        | inr other ↦ (c, ground (arith, step, other, at), same)
      ]

  push_block-HasOwn :
      (b : VeloBlock) (s : NodeState env)
      → HasHash (calculate_hash env.sha3 b) (push_block env (calculate_hash env.sha3 b) b s)
  unfolding push_block
  push_block-HasOwn b s =
      let hb = calculate_hash env.sha3 b in
      let step = lookup-insert hb hb b s.ghostdag.block_store in (b, ground (arith, step), refl)

  -- One round of the replay.
  stepped : VeloBlock → NodeState env → NodeState env
  stepped b s = if b.header.height == 0 then s else push_block env (calculate_hash env.sha3 b) b s

  stepped-HasHash :
      (h : Hash) (b : VeloBlock) (s : NodeState env) → HasHash h s → HasHash h (stepped b s)
  unfolding stepped
  stepped-HasHash h b s has = elim (Bool-cases (b.header.height == 0)) [
    | inl low ↦ rw low has
    | inr high ↦ rw high (push_block-HasHash h b s has)
  ]

  replay_stored-HasHash :
      (h : Hash) (bs : List VeloBlock) (s : NodeState env)
      → HasHash h s
      → HasHash h (replay_stored env bs s)
  unfolding replay_stored stepped
  replay_stored-HasHash h [] s has = has
  replay_stored-HasHash h (b ∷ bs) s has =
      replay_stored-HasHash h bs (stepped b s) (stepped-HasHash h b s has)

  -- For each of the blocks the graph has a block under its hash, with that hash.
  abbrev pub AllHashed : List VeloBlock → GhostdagManager → Type 0
  AllHashed [] m = Unit
  AllHashed (b ∷ bs) m =
      ((c : VeloBlock) × (lookup (calculate_hash env.sha3 b) m.block_store ≡ some c)
        × (calculate_hash env.sha3 c ≡ calculate_hash env.sha3 b))
      × AllHashed bs m

  replay_stored-AllHashed :
      (bs : List VeloBlock) (s : NodeState env)
      → AllHashed (filter_b above_zero bs) (replay_stored env bs s).ghostdag
  unfolding replay_stored filter_b above_zero
  replay_stored-AllHashed [] s = tt
  replay_stored-AllHashed (b ∷ bs) s = elim (Bool-cases (b.header.height == 0)) [
    | inl low ↦ rw (low, replay_stored) (replay_stored-AllHashed bs s)
    | inr high ↦
        let pushed = push_block env (calculate_hash env.sha3 b) b s in
        rw (high, replay_stored)
          (
            replay_stored-HasHash (calculate_hash env.sha3 b) bs pushed (push_block-HasOwn b s),
            replay_stored-AllHashed bs pushed,
          )
  ]

  push_block-history :
      (h : Hash) (b : VeloBlock) (s : NodeState env)
      → (push_block env h b s).block_history ≡ s.block_history ++ b ∷ []
  unfolding push_block
  push_block-history h b s = refl

  replay_stored-history :
      (bs : List VeloBlock) (s : NodeState env)
      → (replay_stored env bs s).block_history ≡ s.block_history ++ filter_b above_zero bs
  unfolding replay_stored filter_b above_zero push_block
  replay_stored-history [] s = sym (append-nil s.block_history)
  replay_stored-history (b ∷ bs) s = elim (Bool-cases (b.header.height == 0)) [
    | inl low ↦ rw (low, replay_stored) (replay_stored-history bs s)
    | inr high ↦
        let pushed = push_block env (calculate_hash env.sha3 b) b s in
        rw (high, replay_stored)
          (replay_stored-history bs pushed
            ∙ append_assoc s.block_history (b ∷ []) (filter_b above_zero bs))
  ]

  recover_ledger-kept :
      (persisted : Option LedgerState) (s : NodeState env)
      → ((recover_ledger env persisted s).ghostdag ≡ s.ghostdag)
        × ((recover_ledger env persisted s).block_history ≡ s.block_history)
  unfolding recover_ledger use_snapshot
  recover_ledger-kept none s = (ground arith, ground arith)
  recover_ledger-kept (some l) s = (ground arith, ground arith)

  pub resume_target-kept :
      (s : NodeState env)
      → ((resume_target env s).ghostdag ≡ s.ghostdag)
        × ((resume_target env s).block_history ≡ s.block_history)
        × ((resume_target env s).ledger_state ≡ s.ledger_state)
  unfolding resume_target
  resume_target-kept s = (ground arith, ground arith, ground arith)

  recovers :
      (persisted : Option LedgerState) (s : NodeState env) (tip : Hash) (l : LedgerState)
      → select_canonical_tip env.key_order s.ghostdag ≡ some tip
      → recompute_ledger env.sha3 s.ghostdag tip ≡ ok l
      → (recover_ledger env persisted s).ledger_state ≡ l
  unfolding recover_ledger
  recovers persisted s tip l chosen replayed = ground (arith, chosen, replayed)

  load_or_mint-resumes :
      (s : NodeState env) (g : VeloBlock) (bs : List VeloBlock)
      → let genesis_hash = fixed_genesis_hash_for_network env.sha3 env.local_network_id in
        load_block env.backend genesis_hash s.storage ≡ ok (some g)
        → load_all_blocks env.backend s.storage ≡ ok bs
        → load_or_mint env s ≡ (
          recover_ledger env
              (persisted_ledger env s.storage)
              (replay_stored env bs (push_block env genesis_hash g s)),
          ok tt,
        )
  unfolding load_or_mint replay_all_stored push_block
  load_or_mint-resumes s g bs found stored =
      rw (found, load_or_mint, stored, replay_all_stored) refl

  module _ (storage : BlockchainStorage env.backend) (g : VeloBlock) (bs : List VeloBlock)
      (found : load_block env.backend
          (fixed_genesis_hash_for_network env.sha3 env.local_network_id)
          storage
        ≡ ok (some g))
      (stored : load_all_blocks env.backend storage ≡ ok bs) where
    seeded : NodeState env
    seeded =
        push_block env (fixed_genesis_hash_for_network env.sha3 env.local_network_id) g
          (initial_state env storage)

    -- The state before the target is taken from the last block.
    recovered : NodeState env
    recovered = recover_ledger env (persisted_ledger env storage) (replay_stored env bs seeded)

    start_up-recovered : start_up env storage ≡ (resume_target env recovered, ok tt)
    unfolding start_up recovered seeded initial_state
    start_up-recovered =
        ground (arith, load_or_mint-resumes (initial_state env storage) g bs found stored)

    -- A node whose database has the genesis and yields its blocks starts without a panic. Its history
    -- is the genesis and then the stored blocks above height 0, in the order in which they come, and
    -- for each of these the graph has a block under its hash, with that hash.
    pub start_up-recovers :
        ((start_up env storage).1 ≡ ok tt)
        × ((start_up env storage).0.block_history ≡ g ∷ filter_b above_zero bs)
        × AllHashed (filter_b above_zero bs) (start_up env storage).0.ghostdag
    unfolding recovered seeded initial_state push_block
    start_up-recovers =
        let (graph, history) =
          recover_ledger-kept (persisted_ledger env storage) (replay_stored env bs seeded) in
        let (graph', history', _) = resume_target-kept recovered in
        let whole = replay_stored-AllHashed bs seeded in
        rw start_up-recovered (
          refl,
          history' ∙ history ∙ replay_stored-history bs seeded,
          subst (AllHashed (filter_b above_zero bs)) (sym (graph' ∙ graph)) whole,
        )

    -- Its ledger is the one that the recovered graph gives at its canonical tip, whatever snapshot was
    -- stored.
    pub start_up-ledger :
        (tip : Hash) (l : LedgerState)
        → select_canonical_tip env.key_order (start_up env storage).0.ghostdag ≡ some tip
        → recompute_ledger env.sha3 (start_up env storage).0.ghostdag tip ≡ ok l
        → (start_up env storage).0.ledger_state ≡ l
    unfolding recovered
    start_up-ledger tip l chosen replayed =
        let whole = replay_stored env bs seeded in
        let persisted = persisted_ledger env storage in
        let (graph, _) = recover_ledger-kept persisted whole in
        let (graph', _, ledger) = resume_target-kept recovered in
        let at : (start_up env storage).0.ghostdag ≡ whole.ghostdag =
          ap (λ r. r.0.ghostdag) start_up-recovered ∙ graph' ∙ graph in
        ap (λ r. r.0.ledger_state) start_up-recovered
        ∙ ledger
        ∙ recovers persisted whole tip l
            (subst (λ m. select_canonical_tip env.key_order m ≡ some tip) at chosen)
            (subst (λ m. recompute_ledger env.sha3 m tip ≡ ok l) at replayed)
