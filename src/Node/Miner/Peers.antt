-- ===== src/Node/Miner/Peers.antt =====
-- A block that one node mines is ingested by another that sees the same graph, ledger and target.
pub mod Acceptable
use velodag_core.Prelude.{
  ℕ, ◌+◌, ◌≤◌, ◌<◌, ◌≡◌, ◌≢◌, refl, sym, ap, ◌∙◌, subst, true, false, Option, none, some, List, [],
  ◌∷◌, arith, length, any_b, lookup, sum_values, u64_mod, wrap64, saturating_add64, ok,
}
use velodag_core.Types.{Hash, VeloBlock, hash_mod, Transaction}
use velodag_core.Block.{calculate_hash, verify_coinbase_rewards, verify_transaction_merkle_root}
use velodag_core.Ledger.{apply_block}
use velodag_core.Storage.{load_block, save_ledger_state}
use velodag_core.Pow.{verify_pow}
use velodag_core.Daa.Window.{calculate_next_target-total}
use velodag_core.Ghostdag.{canonical_block_order}
use velodag_core.Node.PeerGuard.{PeerId}
use velodag_core.Node.Network.{Env, NodeState}
use velodag_core.Node.Network.Checks.{
  passed, has_bad_signature, content_verdict, work_verdict, parent_scan, position_verdict, max_with,
  has_no_parents,
}
use velodag_core.Node.Network.Ingest.{
  on_verdict, ingest_block_only, canonical_tip_after, refresh_ledger, settle_tip, persist_block,
  admit_block, after_scan, place_block, log_target, examine,
}
use velodag_core.Node.DifficultyLog.{DifficultyLog, record_target}
use velodag_core.Node.Miner.{selected_tip, next_height, draft_block}
use velodag_core.Node.Miner.Draft.{
  mined, mined-draft, mined-content, apply_block-mined, draft-applies,
}
use velodag_core.Node.Miner.Peers.Acceptable.{examine-ingests}

-- A node that sees the same graph, ledger and target as another, with clocks and key order of its own.
module _ (env : Env) (order : List Hash → List Hash) (instants seconds : ℕ → ℕ) where
  abbrev pub other_env : Env
  other_env = record env { key_order = order; instant_at = instants; unix_seconds_at = seconds }

  pub record SeesTheSame (s : NodeState env) (p : NodeState other_env) : Type 0 where
    pub graph : p.ghostdag ≡ s.ghostdag
    pub ledger : p.ledger_state ≡ s.ledger_state
    pub target : p.current_difficulty_target ≡ s.current_difficulty_target

  -- What a miner drafts on a stored tip, and mines to the target, is ingested by every peer that sees
  -- the same graph, ledger and target, does not have the block yet and can save its ledger, if no
  -- candidate has a bad signature, the miner's clock is neither behind the tip's time nor more than 30
  -- seconds ahead of the peer's, and all balances stay below 2^64 together.
  pub examine-mined :
      (miner_address : Hash) (s : NodeState env) (p : NodeState other_env)
      (candidates : List Transaction) (tries : ℕ) (source : Option PeerId) (tip : VeloBlock)
      → let b = mined env miner_address s candidates tries in
        let now = env.unix_seconds_at s.clock_reads in
        0 < env.difficulty_manager.window_size
        → s.current_difficulty_target < hash_mod
        → lookup (selected_tip env s) s.ghostdag.block_store ≡ some tip
        → tip.header.height + 1 < u64_mod
        → tip.header.timestamp ≤ now
        → now ≤ saturating_add64 (seconds p.clock_reads) 30
        → any_b (has_bad_signature env) candidates ≡ false
        → length candidates ≤ 5_000
        → sum_values s.ledger_state.balances + 83_238 < u64_mod
        → verify_pow env.sha3 (record { target_difficulty = s.current_difficulty_target }) b ≡ true
        → SeesTheSame s p
        → load_block env.backend (calculate_hash env.sha3 b) p.storage ≡ ok none
        → (save_ledger_state env.backend (apply_block env.sha3 s.ledger_state b).0 p.storage).1
          ≡ ok tt
        → (examine other_env b source p).1 ≡ ok (some (calculate_hash env.sha3 b))
  unfolding draft_block next_height
  examine-mined miner_address s p candidates tries source tip paced range at high time clock signed
        few fits worked same unknown saves =
      let b = mined env miner_address s candidates tries in
      let (rewarded, committed, short, signatures) =
        mined-content env miner_address s candidates tries in
      let one : next_height env s ≡ wrap64 (tip.header.height + 1) = rw (at, next_height) refl in
      let above : next_height env s ≢ 0 = λ e. absurd (omega (arith, one, e)) in
      let shape = mined-draft env miner_address s candidates tries in
      let applies : (apply_block env.sha3 s.ledger_state b).1 ≡ ok tt =
        ap (λ r. r.1) (apply_block-mined env miner_address s candidates tries s.ledger_state)
        ∙ draft-applies env miner_address s candidates above fits in
      examine-ingests other_env paced b source p (omega (arith, same.target)) (record {
        unknown = unknown;
        small = omega (arith, short);
        rewarded = rewarded;
        committed = committed;
        signatures = signatures signed;
        target = ap (λ (x : VeloBlock). x.header.difficulty_target) shape ∙ sym same.target;
        worked = rw same.target worked;
        parent_hash = selected_tip env s;
        parent = tip;
        parents = ap (λ (x : VeloBlock). x.header.parents) shape;
        stored = rw same.graph at;
        above = λ e. above (sym (ap (λ (x : VeloBlock). x.header.height) shape) ∙ e);
        height = ap (λ (x : VeloBlock). x.header.height) shape ∙ one;
        not_before = omega (arith, time, ap (λ (x : VeloBlock). x.header.timestamp) shape);
        not_after =
            subst (λ n. n ≤ saturating_add64 (seconds p.clock_reads) 30)
              (sym (ap (λ (x : VeloBlock). x.header.timestamp) shape)) clock;
        applies = rw same.ledger applies;
        saved = rw same.ledger saves;
      })
