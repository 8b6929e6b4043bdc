-- ===== src/Node/Network/Admission.antt =====
-- A block that enters the graph has passed every check.
pub mod Passed
use velodag_core.Prelude.{
  ap, ◌∙◌, subst, ℕ, ◌+◌, ◌≤◌, ◌≡◌, ◌≢◌, inl, inr, refl, true, false, Option, none, some, arith,
  lookup, length, any_b, wrap64, saturating_add64, Result, ok, err, Result-cases, lookup-insert,
}
use velodag_core.Types.{Hash, VeloBlock}
use velodag_core.Block.{
  calculate_subsidy_split, apply_dev_tax_split, calculate_hash, verify_coinbase_rewards,
  verify_transaction_merkle_root,
}
use velodag_core.Ledger.{LedgerState, apply_block}
use velodag_core.Ghostdag.{GhostdagManager, recompute_ledger}
use velodag_core.Storage.{load_block, save_ledger_state}
use velodag_core.Pow.{verify_pow}
use velodag_core.Node.PeerGuard.{PeerId}
use velodag_core.Node.Network.{Env, NodeError, panicked, Outcome, NodeState}
use velodag_core.Node.Network.Checks.{
  Verdict, passed, panics, faulty, precedes, has_bad_signature, content_verdict, work_verdict,
  parent_scan, position_verdict,
}
use velodag_core.Node.Network.Ingest.{
  on_verdict, examine, place_block, after_scan, admit_block, persist_block, log_target, settle_tip,
  refresh_ledger, canonical_tip_after, ingest_block_only,
}
use velodag_core.Node.Network.Admission.Passed.{
  admit_block-ok, content-passed, on_verdict-passed, position-passed, work-passed,
}

module _ (env : Env) where
  -- What holds when the call, from the state `s`, has put the block into the graph of `t`.
  pub record Admitted (b : VeloBlock) (s t : NodeState env) : Type 0 where
    pub above_genesis : b.header.height ≢ 0
    pub unknown : load_block env.backend (calculate_hash env.sha3 b) s.storage ≡ ok none
    pub small : length b.transactions ≤ 5_000
    pub rewarded : verify_coinbase_rewards b ≡ true
    pub committed : verify_transaction_merkle_root env.sha3 b ≡ true
    pub signatures : any_b (has_bad_signature env) b.transactions ≡ false
    pub target : b.header.difficulty_target ≡ s.current_difficulty_target
    pub worked :
        verify_pow env.sha3 (record { target_difficulty = s.current_difficulty_target }) b ≡ true
    pub parent_height : ℕ
    pub parent_times : Option ℕ
    pub scanned :
        parent_scan s.ghostdag.block_store b.header.parents none none
        ≡ ok (some parent_height, parent_times)
    pub height : b.header.height ≡ wrap64 (parent_height + 1)
    pub not_before : precedes b.header.timestamp parent_times ≡ false
    pub not_after : b.header.timestamp ≤ saturating_add64 (env.unix_seconds_at s.clock_reads) 30
    pub applies : (apply_block env.sha3 s.ledger_state b).1 ≡ ok tt
    pub stored : lookup (calculate_hash env.sha3 b) t.ghostdag.block_store ≡ some b

  rewarded-output :
      (b : VeloBlock)
      → verify_coinbase_rewards b ≡ true
      → b.coinbase_miner_output ≡ (calculate_subsidy_split b.header.height).0
  unfolding verify_coinbase_rewards
  rewarded-output b h = ground arith

  first_output :
      (b : VeloBlock)
      → verify_coinbase_rewards b ≡ true
      → b.header.height ≡ 0
      → b.coinbase_miner_output ≡ 79_077
  unfolding calculate_subsidy_split apply_dev_tax_split
  first_output b h at = rewarded-output b h ∙ ap (λ k. (calculate_subsidy_split k).0) at

  -- Height 0 cannot pass: its coinbase would have to be both the first era's reward and nothing.
  height_zero-refused :
      (b : VeloBlock) (l : LedgerState)
      → verify_coinbase_rewards b ≡ true
      → (apply_block env.sha3 l b).1 ≡ ok tt
      → b.header.height ≢ 0
  unfolding apply_block
  height_zero-refused b l rewarded applies zero_height =
      ground (arith, applies, zero_height, first_output b rewarded zero_height)

  record Placed (b : VeloBlock) (s : NodeState env) (h : Hash) (t : NodeState env) : Type 0 where
    heights : Option ℕ
    times : Option ℕ
    scanned : parent_scan s.ghostdag.block_store b.header.parents none none ≡ ok (heights, times)
    position : position_verdict b heights times (env.unix_seconds_at s.clock_reads) ≡ passed
    applies : (apply_block env.sha3 s.ledger_state b).1 ≡ ok tt
    hash : h ≡ calculate_hash env.sha3 b
    stored : lookup h t.ghostdag.block_store ≡ some b

  place_block-ok :
      (b : VeloBlock) (source : Option PeerId) (h : Hash) (s t : NodeState env)
      → place_block env b source s ≡ (t, ok (some h))
      → Placed b s h t
  unfolding place_block
  place_block-ok b source h s t e =
      elim (Result-cases (parent_scan s.ghostdag.block_store b.header.parents none none)) [
        | inr (missing, scan) ↦ absurd (ground (arith, e, scan))
        | inl ((heights, times), scan) ↦
            let verdict = position_verdict b heights times (env.unix_seconds_at s.clock_reads) in
            let next = record s { clock_reads = s.clock_reads + 1 } in
            let at : on_verdict env verdict source next (λ u. admit_block env b source u)
                ≡ (t, ok (some h)) =
              subst (λ r. after_scan env b source s r ≡ (t, ok (some h))) scan e in
            let (position, admitted) =
              on_verdict-passed env verdict source next t (λ u. admit_block env b source u) h at in
            let (applies, hash, stored) = admit_block-ok env b source h next t admitted in
            record {
              heights = heights;
              times = times;
              scanned = scan;
              position = position;
              applies = applies;
              hash = hash;
              stored = stored;
            }
      ]

  -- The state in which the graph is looked at differs from the first one in the log of targets only.
  pub log_target-kept :
      (b : VeloBlock) (s : NodeState env)
      → ((log_target env b s).ghostdag ≡ s.ghostdag)
        × ((log_target env b s).ledger_state ≡ s.ledger_state)
        × ((log_target env b s).clock_reads ≡ s.clock_reads)
  unfolding log_target
  log_target-kept b s = (ground arith, ground arith, ground arith)

  record Opened (b : VeloBlock) (source : Option PeerId) (s t : NodeState env) (h : Hash)
      : Type 0 where
    unknown : load_block env.backend (calculate_hash env.sha3 b) s.storage ≡ ok none
    content : content_verdict env b ≡ passed
    work : work_verdict env s.current_difficulty_target b ≡ passed
    placed : Placed b (log_target env b s) h t

  examine-Opened :
      (b : VeloBlock) (source : Option PeerId) (h : Hash) (s t : NodeState env)
      → examine env b source s ≡ (t, ok (some h))
      → Opened b source s t h
  unfolding examine
  examine-Opened b source h s t e =
      let rest = λ (u : NodeState env). place_block env b source (log_target env b u) in
      let works = λ (u : NodeState env).
        on_verdict env (work_verdict env u.current_difficulty_target b) source u rest in
      let opened : on_verdict env (content_verdict env b) source s works ≡ (t, ok (some h)) =
        ground (arith, e) in
      let unknown : load_block env.backend (calculate_hash env.sha3 b) s.storage ≡ ok none =
        ground (arith, e) in
      let (content, next) =
        on_verdict-passed env (content_verdict env b) source s t works h opened in
      let (work, last) =
        on_verdict-passed env (work_verdict env s.current_difficulty_target b) source s t rest h
          next in
      record {
        unknown = unknown;
        content = content;
        work = work;
        placed = place_block-ok b source h (log_target env b s) t last;
      }

  -- A block that a call of `validate_and_ingest` puts into the graph has passed every check: it is
  -- new, above height 0, with at most 5,000 transactions, each well signed and all committed to, the
  -- coinbase of its height, the target in force and a hash that meets it, one more than its highest
  -- parent's height, a time not before its parents' and at most 30 seconds ahead of the clock, and it
  -- applies to the ledger. It then stands in the graph under its hash, which is the hash returned.
  pub examine-Admitted :
      (b : VeloBlock) (source : Option PeerId) (h : Hash) (s t : NodeState env)
      → examine env b source s ≡ (t, ok (some h))
      → (h ≡ calculate_hash env.sha3 b) × Admitted b s t
  examine-Admitted b source h s t e =
      let o = examine-Opened b source h s t e in
      let p = o.placed in
      let (graph, ledger, clock) = log_target-kept b s in
      let (small, rewarded, committed, signatures) = content-passed env b o.content in
      let above = height_zero-refused b (log_target env b s).ledger_state rewarded p.applies in
      let (target, worked) = work-passed env s.current_difficulty_target b above o.work in
      let (m, is_m, height, not_before, not_after) =
        position-passed b p.heights p.times (env.unix_seconds_at (log_target env b s).clock_reads)
          above p.position in
      (
        p.hash,
        record {
          above_genesis = above;
          unknown = o.unknown;
          small = small;
          rewarded = rewarded;
          committed = committed;
          signatures = signatures;
          target = target;
          worked = worked;
          parent_height = m;
          parent_times = p.times;
          scanned =
              subst
                (λ (g : GhostdagManager).
                  parent_scan g.block_store b.header.parents none none ≡ ok (some m, p.times))
                graph (p.scanned ∙ ap (λ k. ok (k, p.times)) is_m);
          height = height;
          not_before = not_before;
          not_after =
              subst (λ n. b.header.timestamp ≤ saturating_add64 (env.unix_seconds_at n) 30) clock
                not_after;
          applies =
              subst (λ (l : LedgerState). (apply_block env.sha3 l b).1 ≡ ok tt) ledger p.applies;
          stored = subst (λ k. lookup k t.ghostdag.block_store ≡ some b) p.hash p.stored;
        },
      )
