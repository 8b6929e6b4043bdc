-- ===== src/Node/Miner/Peers/Acceptable.antt =====
-- What makes a node ingest a block.
use velodag_core.Prelude.{
  ◌+◌, ◌≤◌, ◌<◌, ◌≡◌, ◌≢◌, refl, ap, true, false, Option, none, some, [], ◌∷◌, arith, length, any_b,
  lookup, wrap64, saturating_add64, ok,
}
use velodag_core.Types.{Hash, VeloBlock, hash_mod}
use velodag_core.Block.{calculate_hash, verify_coinbase_rewards, verify_transaction_merkle_root}
use velodag_core.Ledger.{apply_block}
use velodag_core.Storage.{load_block, save_ledger_state}
use velodag_core.Pow.{verify_pow}
use velodag_core.Daa.Window.{calculate_next_target-total}
use velodag_core.Ghostdag.{canonical_block_order}
use velodag_core.Node.PeerGuard.{PeerId}
use velodag_core.Node.Network.{Env, NodeState}
use velodag_core.Node.Network.Checks.{
  passed, has_bad_signature, content_verdict, work_verdict, parent_scan, position_verdict, max_with,
  has_no_parents,
}
use velodag_core.Node.Network.Ingest.{
  on_verdict, ingest_block_only, canonical_tip_after, refresh_ledger, settle_tip, persist_block,
  admit_block, after_scan, place_block, log_target, examine,
}
use velodag_core.Node.DifficultyLog.{DifficultyLog, record_target}

module _ (env : Env) where
  -- What makes `examine` ingest a block of one parent that is stored: the positive form of its checks.
  pub record Acceptable (b : VeloBlock) (s : NodeState env) : Type 0 where
    pub unknown : load_block env.backend (calculate_hash env.sha3 b) s.storage ≡ ok none
    pub small : length b.transactions ≤ 5_000
    pub rewarded : verify_coinbase_rewards b ≡ true
    pub committed : verify_transaction_merkle_root env.sha3 b ≡ true
    pub signatures : any_b (has_bad_signature env) b.transactions ≡ false
    pub target : b.header.difficulty_target ≡ s.current_difficulty_target
    pub worked :
        verify_pow env.sha3 (record { target_difficulty = s.current_difficulty_target }) b ≡ true
    pub parent_hash : Hash
    pub parent : VeloBlock
    pub parents : b.header.parents ≡ parent_hash ∷ []
    pub stored : lookup parent_hash s.ghostdag.block_store ≡ some parent
    pub above : b.header.height ≢ 0
    pub height : b.header.height ≡ wrap64 (parent.header.height + 1)
    pub not_before : parent.header.timestamp ≤ b.header.timestamp
    pub not_after : b.header.timestamp ≤ saturating_add64 (env.unix_seconds_at s.clock_reads) 30
    pub applies : (apply_block env.sha3 s.ledger_state b).1 ≡ ok tt
    pub saved :
        (save_ledger_state env.backend (apply_block env.sha3 s.ledger_state b).0 s.storage).1
        ≡ ok tt

  -- The log of targets is not looked at.
  relogged :
      (b : VeloBlock) (s : NodeState env) (l : DifficultyLog)
      → Acceptable b s
      → Acceptable b (record s { difficulty_log = l })
  relogged b s l a = record {
    unknown = a.unknown;
    small = a.small;
    rewarded = a.rewarded;
    committed = a.committed;
    signatures = a.signatures;
    target = a.target;
    worked = a.worked;
    parent_hash = a.parent_hash;
    parent = a.parent;
    parents = a.parents;
    stored = a.stored;
    above = a.above;
    height = a.height;
    not_before = a.not_before;
    not_after = a.not_after;
    applies = a.applies;
    saved = a.saved;
  }

  content-passes :
      (b : VeloBlock) (s : NodeState env) → Acceptable b s → content_verdict env b ≡ passed
  unfolding content_verdict
  content-passes b s a = ground (arith, a.small, a.rewarded, a.committed, a.signatures)

  work-passes :
      (b : VeloBlock) (s : NodeState env)
      → Acceptable b s
      → work_verdict env s.current_difficulty_target b ≡ passed
  unfolding work_verdict
  work-passes b s a = ground (arith, a.target, a.worked)

  scan-finds :
      (b : VeloBlock) (s : NodeState env) (a : Acceptable b s)
      → parent_scan s.ghostdag.block_store b.header.parents none none
        ≡ ok (some a.parent.header.height, some a.parent.header.timestamp)
  unfolding parent_scan max_with
  scan-finds b s a = rw (a.parents, a.stored, parent_scan) refl

  position-passes :
      (b : VeloBlock) (s : NodeState env) (a : Acceptable b s)
      → position_verdict b
          (some a.parent.header.height)
          (some a.parent.header.timestamp)
          (env.unix_seconds_at s.clock_reads)
        ≡ passed
  unfolding position_verdict
  position-passes b s a =
      let p : has_no_parents b.header.parents ≡ has_no_parents (a.parent_hash ∷ []) =
        ap has_no_parents a.parents in
      ground (arith, a.above, a.height, a.not_before, a.not_after, p)

  refresh_ledger-target :
      (tip : Hash) (s : NodeState env)
      → (refresh_ledger env tip s).current_difficulty_target ≡ s.current_difficulty_target
  unfolding refresh_ledger
  refresh_ledger-target tip s = ground arith

  module _ (paced : 0 < env.difficulty_manager.window_size) where
    pub settle_tip-total :
        (hash : Hash) (s : NodeState env)
        → s.current_difficulty_target < hash_mod
        → (settle_tip env hash s).1 ≡ ok (some hash)
    unfolding settle_tip
    settle_tip-total hash s range =
        let tip = canonical_tip_after env hash s in
        let refreshed = refresh_ledger env tip s in
        let fits : refreshed.current_difficulty_target < hash_mod =
          omega (arith, refresh_ledger-target tip s) in
        let (t, found, _) =
          calculate_next_target-total env.difficulty_manager
            (canonical_block_order refreshed.ghostdag tip) refreshed.current_difficulty_target paced
            fits in
        rw (found, settle_tip) refl

    admit_block-ingests :
        (b : VeloBlock) (source : Option PeerId) (s : NodeState env)
        → s.current_difficulty_target < hash_mod
        → (apply_block env.sha3 s.ledger_state b).1 ≡ ok tt
        → (save_ledger_state env.backend (apply_block env.sha3 s.ledger_state b).0 s.storage).1
          ≡ ok tt
        → (admit_block env b source s).1 ≡ ok (some (calculate_hash env.sha3 b))
    unfolding admit_block persist_block ingest_block_only
    admit_block-ingests b source s range applies saved =
        rw (applies, admit_block, saved, persist_block)
          (settle_tip-total (calculate_hash env.sha3 b) _ range)

    place_block-ingests :
        (b : VeloBlock) (source : Option PeerId) (s : NodeState env)
        → s.current_difficulty_target < hash_mod
        → Acceptable b s
        → (place_block env b source s).1 ≡ ok (some (calculate_hash env.sha3 b))
    unfolding place_block after_scan on_verdict
    place_block-ingests b source s range a =
        rw (scan-finds b s a, after_scan, position-passes b s a, on_verdict)
          (admit_block-ingests b source (record s { clock_reads = s.clock_reads + 1 }) range
            a.applies a.saved)

    -- A block that is acceptable is ingested: `examine` passes it and returns its hash.
    pub examine-ingests :
        (b : VeloBlock) (source : Option PeerId) (s : NodeState env)
        → s.current_difficulty_target < hash_mod
        → Acceptable b s
        → (examine env b source s).1 ≡ ok (some (calculate_hash env.sha3 b))
    unfolding examine on_verdict log_target
    examine-ingests b source s range a =
        let logged : log_target env b s ≡ record s {
          difficulty_log =
              record_target b.header.height s.current_difficulty_target s.difficulty_log;
        } =
          ground (arith, a.above) in
        rw (a.unknown, examine, content-passes b s a, on_verdict, work-passes b s a, logged)
          (place_block-ingests b source
            (record s {
              difficulty_log =
                  record_target b.header.height s.current_difficulty_target s.difficulty_log;
            })
            range (relogged b s _ a))
