-- ===== src/Node/Network/Replays/Waiting.antt =====
-- How many blocks wait before and behind each step of the ingestion.
use velodag_core.Prelude.{
  ℕ, ◌+◌, ◌≤◌, ◌≡◌, ◌≢◌, refl, ap, inl, inr, Option, none, some, List, [], ◌∷◌, ◌++◌, arith, length,
  length-append, Map, lookup, lookup_or, erase, total_size, size_at, total_size-insert, Result, ok,
  err, Option-cases,
}
use velodag_core.Types.{Hash, VeloBlock}
use velodag_core.Block.{calculate_hash}
use velodag_core.Ledger.{apply_block}
use velodag_core.Storage.{save_ledger_state}
use velodag_core.Node.PeerGuard.{PeerId}
use velodag_core.Node.Sync.{OrphanPool, Orphan, insert_orphan, take_ready}
use velodag_core.Node.Network.{Env, NodeState, out_of_fuel, Outcome, record_violation_and_maybe_ban}
use velodag_core.Node.Network.Checks.{
  Verdict, passed, panics, faulty, parent_scan, position_verdict,
}
use velodag_core.Node.Network.Ingest.{
  on_verdict, ingest_block_only, canonical_tip_after, refresh_ledger, settle_tip, persist_block,
  admit_block, after_scan, place_block,
}

-- The number of blocks that wait.
abbrev pub pool_size : OrphanPool → ℕ
pool_size p = total_size length p.waiting_on

insert_orphan-size :
    (h : Hash) (source : Option PeerId) (b : VeloBlock) (p : OrphanPool)
    → pool_size (insert_orphan h source b p) ≤ pool_size p + 1
unfolding insert_orphan lookup_or
insert_orphan-size h source b p = elim (Option-cases (lookup h p.waiting_on)) [
  | inl e ↦ ground (arith, e, total_size-insert length h ((source, b) ∷ []) p.waiting_on)
  | inr (os, e) ↦ ground (
    arith,
    e,
    total_size-insert length h (os ++ (source, b) ∷ []) p.waiting_on,
    length-append os ((source, b) ∷ []),
  )
]

total_size-erase-le :
    (k : Hash) (m : Map (List Orphan))
    → total_size length (erase k m) + size_at length (lookup k m) ≤ total_size length m
unfolding erase lookup
total_size-erase-le k [] = omega arith
total_size-erase-le k ((j, os) ∷ m) = ground (arith, total_size-erase-le k m)

pub take_ready-size :
    (h : Hash) (p : OrphanPool)
    → pool_size (take_ready h p).0 + length (take_ready h p).1 ≤ pool_size p
unfolding take_ready
take_ready-size h p = ground (arith, total_size-erase-le h p.waiting_on)

module _ (env : Env) where
  -- The call leaves the pool as it was.
  abbrev Keeps : NodeState env → Outcome env (Option Hash) → Type 0
  Keeps s r = (r.0.orphans ≡ s.orphans) × (r.1 ≢ err out_of_fuel)

  violation-orphans :
      (source : Option PeerId) (s : NodeState env)
      → (record_violation_and_maybe_ban env source s).orphans ≡ s.orphans
  unfolding record_violation_and_maybe_ban
  violation-orphans none s = refl
  violation-orphans (some peer) s = refl

  refresh_ledger-orphans :
      (tip : Hash) (s : NodeState env) → (refresh_ledger env tip s).orphans ≡ s.orphans
  unfolding refresh_ledger
  refresh_ledger-orphans tip s = ground arith

  settle_tip-Keeps : (h : Hash) (s : NodeState env) → Keeps s (settle_tip env h s)
  unfolding settle_tip
  settle_tip-Keeps h s = (
    ground (arith, refresh_ledger-orphans (canonical_tip_after env h s) s),
    λ e. absurd (ground (arith, e)),
  )

  persist_block-Keeps : (b : VeloBlock) (s : NodeState env) → Keeps s (persist_block env b s)
  unfolding persist_block ingest_block_only
  persist_block-Keeps b s =
      let saved = save_ledger_state env.backend s.ledger_state s.storage in
      let stored = record s { storage = saved.0 } in
      let settled = settle_tip-Keeps (calculate_hash env.sha3 b) (ingest_block_only env b stored) in
      (ground (arith, settled.0), λ e. absurd (ground (arith, e, settled.1)))

  admit_block-Keeps :
      (b : VeloBlock) (source : Option PeerId) (s : NodeState env)
      → Keeps s (admit_block env b source s)
  unfolding admit_block
  admit_block-Keeps b source s =
      let moved = record s { ledger_state = (apply_block env.sha3 s.ledger_state b).0 } in
      let kept = persist_block-Keeps b moved in
      (
        ground (arith, kept.0, violation-orphans source moved),
        λ e. absurd (ground (arith, e, kept.1)),
      )

  abbrev pub waiting_in : NodeState env → ℕ
  waiting_in s = pool_size s.orphans

  -- One more block may wait after the call, but none more if it has ingested one.
  abbrev pub Bounded : ℕ → Outcome env (Option Hash) → Type 0
  Bounded n r =
      (waiting_in r.0 ≤ n + 1)
      × (r.1 ≢ err out_of_fuel)
      × ((h : Hash) → r.1 ≡ ok (some h) → waiting_in r.0 ≤ n)

  Keeps-Bounded :
      (s : NodeState env) (r : Outcome env (Option Hash)) → Keeps s r → Bounded (waiting_in s) r
  Keeps-Bounded s r (same, enough) =
      let size : waiting_in r.0 ≡ waiting_in s = ap (λ p. pool_size p) same in
      (omega arith, enough, λ h e. omega arith)

  pub on_verdict-Bounded :
      (v : Verdict) (source : Option PeerId) (s : NodeState env)
      (rest : NodeState env → Outcome env (Option Hash)) (n : ℕ)
      → waiting_in s ≤ n
      → Bounded n (rest s)
      → Bounded n (on_verdict env v source s rest)
  unfolding on_verdict
  on_verdict-Bounded passed source s rest n le b = b
  on_verdict-Bounded panics source s rest n le b =
      (omega arith, λ e. absurd (ground (arith, e)), λ h e. omega arith)
  on_verdict-Bounded (faulty r) source s rest n le b =
      let same : waiting_in (record_violation_and_maybe_ban env source s) ≡ waiting_in s =
        ap (λ p. pool_size p) (violation-orphans source s) in
      (omega arith, λ e. absurd (ground (arith, e)), λ h e. omega arith)

  pub place_block-Bounded :
      (b : VeloBlock) (source : Option PeerId) (s : NodeState env)
      → Bounded (waiting_in s) (place_block env b source s)
  unfolding place_block after_scan
  place_block-Bounded b source s =
      by_scan (parent_scan s.ghostdag.block_store b.header.parents none none)
    where
      by_scan :
          (r : Result Hash (Option ℕ × Option ℕ))
          → Bounded (waiting_in s) (after_scan env b source s r)
      by_scan (err missing) = (
        insert_orphan-size missing source b s.orphans,
        λ e. absurd (ground (arith, e)),
        λ h e. absurd (ground (arith, e)),
      )
      by_scan (ok (heights, times)) =
          let next = record s { clock_reads = s.clock_reads + 1 } in
          on_verdict-Bounded (position_verdict b heights times (env.unix_seconds_at s.clock_reads))
            source next (λ u. admit_block env b source u) (waiting_in s) (omega arith)
            (Keeps-Bounded next (admit_block env b source next) (admit_block-Keeps b source next))
