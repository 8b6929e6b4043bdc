-- ===== src/Node/Network/Closure/Block.antt =====
-- The checks and the insertion of one block keep the graph closed.
use velodag_core.Prelude.{◌+◌, ◌≡◌, Option, none, some, arith, Result-cases, inl, inr}
use velodag_core.Types.{Hash, VeloBlock}
use velodag_core.Block.{calculate_hash}
use velodag_core.Ledger.{apply_block}
use velodag_core.Storage.{load_block, save_ledger_state}
use velodag_core.Node.PeerGuard.{PeerId}
use velodag_core.Node.Graph.{AllHave, IsClosed, parent_scan-AllHave, with_block-IsClosed}
use velodag_core.Node.Network.{Env, NodeState, Outcome, record_violation_and_maybe_ban}
use velodag_core.Node.Network.Checks.{
  Verdict, passed, panics, faulty, content_verdict, work_verdict, parent_scan, position_verdict,
}
use velodag_core.Node.Network.Ingest.{
  on_verdict, ingest_block_only, canonical_tip_after, settle_tip, persist_block, admit_block,
  after_scan, place_block, log_target, examine,
}
use velodag_core.Node.Network.Admission.{log_target-kept}
use velodag_core.Node.Network.Admission.Passed.{refresh_ledger-ghostdag}

module _ (env : Env) where
  -- The node's graph is closed.
  abbrev pub Closed : NodeState env → Type 0
  Closed s = IsClosed env.sha3 env.genesis_hash s.ghostdag

  pub violation-Closed :
      (source : Option PeerId) (s : NodeState env)
      → Closed s
      → Closed (record_violation_and_maybe_ban env source s)
  unfolding record_violation_and_maybe_ban
  violation-Closed none s c = c
  violation-Closed (some peer) s c = c

  pub settle_tip-ghostdag :
      (h : Hash) (s : NodeState env) → (settle_tip env h s).0.ghostdag ≡ s.ghostdag
  unfolding settle_tip
  settle_tip-ghostdag h s =
      ground (arith, refresh_ledger-ghostdag env (canonical_tip_after env h s) s)

  persist_block-Closed :
      (b : VeloBlock) (s : NodeState env)
      → AllHave b.header.parents s.ghostdag.block_store
      → Closed s
      → Closed (persist_block env b s).0
  unfolding persist_block ingest_block_only
  persist_block-Closed b s below c =
      let saved = save_ledger_state env.backend s.ledger_state s.storage in
      let stored = record s { storage = saved.0 } in
      let hash = calculate_hash env.sha3 b in
      elim (Result-cases saved.1) [
        | inr (_, failed) ↦ rw (failed, persist_block) c
        | inl (_, done) ↦
            rw (done, persist_block, settle_tip-ghostdag hash (ingest_block_only env b stored))
              (with_block-IsClosed env.sha3 env.genesis_hash b s.ghostdag below c)
      ]

  admit_block-Closed :
      (b : VeloBlock) (source : Option PeerId) (s : NodeState env)
      → AllHave b.header.parents s.ghostdag.block_store
      → Closed s
      → Closed (admit_block env b source s).0
  unfolding admit_block
  admit_block-Closed b source s below c =
      let applied = apply_block env.sha3 s.ledger_state b in
      let moved = record s { ledger_state = applied.0 } in
      elim (Result-cases applied.1) [
        | inr (_, failed) ↦ rw (failed, admit_block) (violation-Closed source moved c)
        | inl (_, done) ↦ rw (done, admit_block) (persist_block-Closed b moved below c)
      ]

  on_verdict-Closed :
      (v : Verdict) (source : Option PeerId) (s : NodeState env)
      (rest : NodeState env → Outcome env (Option Hash))
      → Closed s
      → Closed (rest s).0
      → Closed (on_verdict env v source s rest).0
  unfolding on_verdict
  on_verdict-Closed passed source s rest c after = after
  on_verdict-Closed panics source s rest c after = c
  on_verdict-Closed (faulty r) source s rest c after = violation-Closed source s c

  place_block-Closed :
      (b : VeloBlock) (source : Option PeerId) (s : NodeState env)
      → Closed s
      → Closed (place_block env b source s).0
  unfolding place_block after_scan
  place_block-Closed b source s c =
      elim (Result-cases (parent_scan s.ghostdag.block_store b.header.parents none none)) [
        | inr (missing, scan) ↦ rw (scan, after_scan) c
        | inl ((heights, times), scan) ↦
            let below =
              parent_scan-AllHave s.ghostdag.block_store b.header.parents none none (heights, times)
                scan in
            let next = record s { clock_reads = s.clock_reads + 1 } in
            rw (scan, after_scan)
              (on_verdict-Closed
                (position_verdict b heights times (env.unix_seconds_at s.clock_reads)) source next
                (λ u. admit_block env b source u) c (admit_block-Closed b source next below c))
      ]

  pub examine-Closed :
      (b : VeloBlock) (source : Option PeerId) (s : NodeState env)
      → Closed s
      → Closed (examine env b source s).0
  unfolding examine
  examine-Closed b source s c =
      elim (Result-cases (load_block env.backend (calculate_hash env.sha3 b) s.storage)) [
        | inr (fault, at) ↦ rw (at, examine) c
        | inl (some _, at) ↦ rw (at, examine) c
        | inl (none, at) ↦
            let logged : Closed (log_target env b s) = rw (log_target-kept env b s).0 c in
            rw (at, examine)
              (on_verdict-Closed (content_verdict env b) source s _ c (
                on_verdict-Closed (work_verdict env s.current_difficulty_target b) source s _ c
                  (place_block-Closed b source (log_target env b s) logged)))
      ]
