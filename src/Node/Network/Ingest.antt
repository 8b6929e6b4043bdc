-- ===== src/Node/Network/Ingest.antt =====
-- vdag-node/src/network.rs: `validate_and_ingest` and `ingest_block_only`.
use velodag_core.Prelude.{
  ℕ, zero, suc, ◌+◌, Option, none, some, List, [], ◌∷◌, ◌++◌, ◌==◌, if◌then◌else◌, length,
  total_size, insert, Result, ok, err,
}
use velodag_core.Types.{Hash, VeloBlock}
use velodag_core.Block.{calculate_hash}
use velodag_core.Ledger.{apply_block}
use velodag_core.Storage.{save_block, load_block, save_ledger_state, save_ghostdag_data}
use velodag_core.Ghostdag.{
  calculate_ghostdag_data, select_canonical_tip, recompute_ledger, canonical_block_order,
}
use velodag_core.Daa.{calculate_next_target}
use velodag_core.Node.PeerGuard.{PeerId}
use velodag_core.Node.Sync.{Orphan, insert_orphan, take_ready}
use velodag_core.Node.DifficultyLog.{record_target}
use velodag_core.Node.Network.{
  Env, NodeState, storage_fault, panicked, out_of_fuel, Outcome, record_violation_and_maybe_ban,
}
use velodag_core.Node.Network.Checks.{
  Verdict, passed, panics, faulty, content_verdict, work_verdict, parent_scan, position_verdict,
}

module _ (env : Env) where
  -- A rejected block ends the call with a violation; a block that passes goes on.
  unfoldable pub on_verdict :
      Verdict
      → Option PeerId
      → NodeState env
      → (NodeState env → Outcome env (Option Hash))
      → Outcome env (Option Hash)
  on_verdict passed source s rest = rest s
  on_verdict panics source s rest = (s, err panicked)
  on_verdict (faulty _) source s rest = (record_violation_and_maybe_ban env source s, ok none)

  -- The errors of the two writes are dropped.
  unfoldable pub ingest_block_only : VeloBlock → NodeState env → NodeState env
  ingest_block_only block s =
      let hash = calculate_hash env.sha3 block in
      let dag_data = calculate_ghostdag_data s.ghostdag block in
      let with_block = (save_block env.backend hash block s.storage).0 in
      record s {
        storage = (save_ghostdag_data env.backend hash dag_data with_block).0;
        ghostdag = record (s.ghostdag) {
          block_store = insert hash block s.ghostdag.block_store;
          ghostdag_cache = insert hash dag_data s.ghostdag.ghostdag_cache;
        };
        block_history = s.block_history ++ block ∷ [];
      }

  -- `select_canonical_tip().unwrap_or(ingested_hash)`
  unfoldable pub canonical_tip_after : Hash → NodeState env → Hash
  canonical_tip_after ingested_hash s = elim (select_canonical_tip env.key_order s.ghostdag) [
    | none ↦ ingested_hash
    | some tip ↦ tip
  ]

  -- The ledger of the canonical order replaces the incremental one, if the replay succeeds.
  unfoldable pub refresh_ledger : Hash → NodeState env → NodeState env
  refresh_ledger tip s = elim (recompute_ledger env.sha3 s.ghostdag tip) [
    | err _ ↦ s
    | ok recomputed ↦ record s {
      ledger_state = recomputed;
      storage = (save_ledger_state env.backend recomputed s.storage).0;
    }
  ]

  -- Behind the ingestion: the ledger and the next target from the canonical order.
  unfoldable pub settle_tip : Hash → NodeState env → Outcome env (Option Hash)
  settle_tip ingested_hash s =
      let tip = canonical_tip_after ingested_hash s in
      let refreshed = refresh_ledger tip s in
      elim (calculate_next_target env.difficulty_manager
        (canonical_block_order refreshed.ghostdag tip) refreshed.current_difficulty_target) [
          | none ↦ (refreshed, err panicked)
          | some target ↦
              (record refreshed { current_difficulty_target = target }, ok (some ingested_hash))
        ]

  -- If the ledger cannot be persisted the call ends, with the ledger changed.
  unfoldable pub persist_block : VeloBlock → NodeState env → Outcome env (Option Hash)
  persist_block block s =
      let saved = save_ledger_state env.backend s.ledger_state s.storage in
      let stored = record s { storage = saved.0 } in
      elim saved.1 [
        | err _ ↦ (stored, ok none)
        | ok _ ↦ settle_tip (calculate_hash env.sha3 block) (ingest_block_only block stored)
      ]

  unfoldable pub admit_block : VeloBlock → Option PeerId → NodeState env → Outcome env (Option Hash)
  admit_block block source s =
      let applied = apply_block env.sha3 s.ledger_state block in
      let moved = record s { ledger_state = applied.0 } in
      elim applied.1 [
        | err _ ↦ (record_violation_and_maybe_ban env source moved, ok none)
        | ok _ ↦ persist_block block moved
      ]

  -- Behind the loop over the parents.
  unfoldable pub after_scan :
      VeloBlock
      → Option PeerId
      → NodeState env
      → Result Hash (Option ℕ × Option ℕ)
      → Outcome env (Option Hash)
  after_scan block source s (err missing) =
      (record s { orphans = insert_orphan missing source block s.orphans }, ok none)
  after_scan block source s (ok (max_height, max_timestamp)) =
      on_verdict
        (position_verdict block max_height max_timestamp (env.unix_seconds_at s.clock_reads)) source
        (record s { clock_reads = s.clock_reads + 1 }) (λ t. admit_block block source t)

  -- Step 3: a block with a parent that is not stored waits for it.
  unfoldable pub place_block : VeloBlock → Option PeerId → NodeState env → Outcome env (Option Hash)
  unfolding after_scan
  place_block block source s =
      after_scan block source s (parent_scan s.ghostdag.block_store block.header.parents none none)

  -- Step 2's last line, above height 0.
  unfoldable pub log_target : VeloBlock → NodeState env → NodeState env
  log_target block s = if block.header.height == 0 then s else record s {
    difficulty_log = record_target block.header.height s.current_difficulty_target s.difficulty_log;
  }

  -- The call up to the replay of orphans: the hash that was ingested, if any.
  unfoldable pub examine : VeloBlock → Option PeerId → NodeState env → Outcome env (Option Hash)
  examine block source s = elim (load_block env.backend (calculate_hash env.sha3 block) s.storage) [
    | err fault ↦ (s, err (storage_fault fault))
    | ok (some _) ↦ (s, ok none)
    | ok none ↦ on_verdict (content_verdict env block) source s (λ t.
        on_verdict (work_verdict env t.current_difficulty_target block) source t
          (λ u. place_block block source (log_target block u)))
  ]

  -- `for (orphan_source, orphan) in ready { …?; }`
  unfoldable pub replay_all :
      (VeloBlock → Option PeerId → NodeState env → Outcome env Unit)
      → List Orphan
      → NodeState env
      → Outcome env Unit
  replay_all validate [] s = (s, ok tt)
  replay_all validate ((source, block) ∷ rest) s =
      let r = validate block source s in
      elim r.1 [ err e ↦ (r.0, err e) | ok _ ↦ replay_all validate rest r.0 ]

  -- The recursion of `validate_and_ingest` through the orphans, as deep as `fuel` allows.
  unfoldable pub validate_loop : ℕ → VeloBlock → Option PeerId → NodeState env → Outcome env Unit
  validate_loop zero block source s = (s, err out_of_fuel)
  validate_loop (suc fuel) block source s =
      let r = examine block source s in
      elim r.1 [
        | err e ↦ (r.0, err e)
        | ok none ↦ (r.0, ok tt)
        | ok (some ingested_hash) ↦
            let taken = take_ready ingested_hash r.0.orphans in
            replay_all (λ b from u. validate_loop fuel b from u) taken.1
              (record (r.0) { orphans = taken.0 })
      ]

  -- Each level of the recursion takes at least one orphan out of the pool.
  unfoldable pub validate_and_ingest : VeloBlock → Option PeerId → NodeState env → Outcome env Unit
  unfolding validate_loop
  validate_and_ingest block source s =
      validate_loop (total_size length s.orphans.waiting_on + 1) block source s
