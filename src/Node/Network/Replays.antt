-- ===== src/Node/Network/Replays.antt =====
-- The replay of orphans ends: each level of the recursion takes an orphan out of the pool.
pub mod Waiting
use velodag_core.Prelude.{
  ℕ, zero, suc, ◌+◌, ◌≤◌, ◌<◌, ◌≡◌, ◌≢◌, refl, ap, ◌∙◌, subst, inl, inr, Option, none, some, List,
  [], ◌∷◌, ◌++◌, arith, length, length-append, Map, lookup, lookup_or, erase, total_size, size_at,
  total_size-insert, Result, ok, err, Result-cases, Option-cases,
}
use velodag_core.Types.{Hash, VeloBlock}
use velodag_core.Block.{calculate_hash}
use velodag_core.Ledger.{apply_block}
use velodag_core.Storage.{load_block, save_ledger_state}
use velodag_core.Node.PeerGuard.{PeerId}
use velodag_core.Node.Sync.{OrphanPool, Orphan, insert_orphan, take_ready}
use velodag_core.Node.Network.{
  Env, NodeState, storage_fault, out_of_fuel, Outcome, record_violation_and_maybe_ban,
}
use velodag_core.Node.Network.Checks.{
  Verdict, passed, panics, faulty, content_verdict, work_verdict, parent_scan, position_verdict,
}
use velodag_core.Node.Network.Ingest.{
  on_verdict, ingest_block_only, canonical_tip_after, refresh_ledger, settle_tip, persist_block,
  admit_block, after_scan, place_block, log_target, examine, replay_all, validate_loop,
  validate_and_ingest,
}
use velodag_core.Node.Network.Replays.Waiting.{
  Bounded, on_verdict-Bounded, place_block-Bounded, pool_size, take_ready-size, waiting_in,
}

module _ (env : Env) where
  log_target-orphans :
      (b : VeloBlock) (s : NodeState env) → (log_target env b s).orphans ≡ s.orphans
  unfolding log_target
  log_target-orphans b s = ground arith

  examine-Bounded :
      (b : VeloBlock) (source : Option PeerId) (s : NodeState env)
      → Bounded env (waiting_in env s) (examine env b source s)
  unfolding examine
  examine-Bounded b source s =
      by_load (load_block env.backend (calculate_hash env.sha3 b) s.storage)
    where
      placed : Bounded env (waiting_in env s) (place_block env b source (log_target env b s))
      placed =
          subst (λ p. Bounded env (pool_size p) (place_block env b source (log_target env b s)))
            (log_target-orphans b s) (place_block-Bounded env b source (log_target env b s))

      by_load :
          (r : Result env.backend.Fault (Option VeloBlock))
          → Bounded env (waiting_in env s) (elim r [
            | err fault ↦ (s, err (storage_fault fault))
            | ok (some _) ↦ (s, ok none)
            | ok none ↦ on_verdict env (content_verdict env b) source s (λ t.
                on_verdict env
                  (work_verdict env t.current_difficulty_target b)
                  source
                  t
                  (λ u. place_block env b source (log_target env b u)))
          ])
      by_load (err fault) =
          (omega arith, λ e. absurd (ground (arith, e)), λ h e. absurd (ground (arith, e)))
      by_load (ok (some _)) =
          (omega arith, λ e. absurd (ground (arith, e)), λ h e. absurd (ground (arith, e)))
      by_load (ok none) =
          on_verdict-Bounded env (content_verdict env b) source s _ (waiting_in env s) (omega arith)
            (on_verdict-Bounded env (work_verdict env s.current_difficulty_target b) source s _
              (waiting_in env s) (omega arith) placed)

  -- What a finished call leaves in the pool, and that it did not run out of fuel.
  abbrev Finished : ℕ → Outcome env Unit → Type 0
  Finished n r = (waiting_in env r.0 ≤ n + 1) × (r.1 ≢ err out_of_fuel)

  replay_all-Finished :
      (validate : VeloBlock → Option PeerId → NodeState env → Outcome env Unit) (n : ℕ)
      → ((b : VeloBlock) (source : Option PeerId) (u : NodeState env)
          → waiting_in env u < n
          → Finished (waiting_in env u) (validate b source u))
      → (ready : List Orphan) (s : NodeState env) → waiting_in env s + length ready ≤ n
      → (waiting_in env (replay_all env validate ready s).0 ≤ waiting_in env s + length ready)
        × ((replay_all env validate ready s).1 ≢ err out_of_fuel)
  unfolding replay_all
  replay_all-Finished validate n step [] s le = (omega arith, λ e. absurd (ground (arith, e)))
  replay_all-Finished validate n step ((source, b) ∷ rest) s le =
      let r = validate b source s in
      let (size, enough) = step b source s (omega arith) in
      elim (Result-cases r.1) [
        | inr (e, at) ↦
            (ground (arith, at), λ out. absurd (enough (at ∙ (ground (arith, at, out)))))
        | inl (_, at) ↦
            let later = replay_all-Finished validate n step rest r.0 (omega arith) in
            (ground (arith, at, later.0), λ out. absurd (ground (arith, at, out, later.1)))
      ]

  validate_loop-Finished :
      (fuel : ℕ) (b : VeloBlock) (source : Option PeerId) (s : NodeState env)
      → waiting_in env s < fuel
      → Finished (waiting_in env s) (validate_loop env fuel b source s)
  unfolding validate_loop
  validate_loop-Finished zero b source s lt = absurd (omega arith)
  validate_loop-Finished (suc fuel) b source s lt =
      let r = examine env b source s in
      let (size, enough, ingested) = examine-Bounded b source s in
      elim (Result-cases r.1) [
        | inr (e, at) ↦ (ground (arith, at, size), λ out. absurd (ground (arith, at, out, enough)))
        | inl (none, at) ↦ (ground (arith, at, size), λ out. absurd (ground (arith, at, out)))
        | inl (some h, at) ↦
            let taken = take_ready h r.0.orphans in
            let fewer = ingested h at in
            let room = take_ready-size h r.0.orphans in
            let next = record (r.0) { orphans = taken.0 } in
            let (left, all) =
              replay_all-Finished (λ c from u. validate_loop env fuel c from u)
                (waiting_in env (r.0))
                (λ c from u less. validate_loop-Finished fuel c from u (omega arith)) taken.1 next
                (omega arith) in
            (ground (arith, at, left), λ out. absurd (ground (arith, at, out, all)))
      ]

  -- A call of `validate_and_ingest` always ends, however the orphans that it wakes wake others, and
  -- it leaves at most one more block waiting than it found.
  pub validate_and_ingest-Finished :
      (b : VeloBlock) (source : Option PeerId) (s : NodeState env)
      → (pool_size (validate_and_ingest env b source s).0.orphans ≤ pool_size s.orphans + 1)
        × ((validate_and_ingest env b source s).1 ≢ err out_of_fuel)
  unfolding validate_and_ingest
  validate_and_ingest-Finished b source s =
      validate_loop-Finished (pool_size s.orphans + 1) b source s (omega arith)
