-- ===== src/Node/Network/Admission/Passed.antt =====
-- What a verdict that passes shows of a block, and what the last steps of the ingestion do.
use velodag_core.Prelude.{
  ℕ, ◌+◌, ◌≤◌, ◌≡◌, ◌≢◌, inl, inr, refl, true, false, Option, none, some, arith, lookup, length,
  any_b, wrap64, saturating_add64, Result, ok, err, Result-cases, lookup-insert,
}
use velodag_core.Types.{Hash, VeloBlock}
use velodag_core.Block.{calculate_hash, verify_coinbase_rewards, verify_transaction_merkle_root}
use velodag_core.Ledger.{apply_block}
use velodag_core.Ghostdag.{recompute_ledger}
use velodag_core.Storage.{save_ledger_state}
use velodag_core.Pow.{verify_pow}
use velodag_core.Node.PeerGuard.{PeerId}
use velodag_core.Node.Network.{Env, NodeError, panicked, Outcome, NodeState}
use velodag_core.Node.Network.Checks.{
  Verdict, passed, panics, faulty, precedes, has_bad_signature, content_verdict, work_verdict,
  position_verdict,
}
use velodag_core.Node.Network.Ingest.{
  on_verdict, admit_block, persist_block, settle_tip, refresh_ledger, canonical_tip_after,
  ingest_block_only,
}

pub content-passed :
    (env : Env) (b : VeloBlock)
    → content_verdict env b ≡ passed
    → (length b.transactions ≤ 5_000)
      × (verify_coinbase_rewards b ≡ true)
      × (verify_transaction_merkle_root env.sha3 b ≡ true)
      × (any_b (has_bad_signature env) b.transactions ≡ false)
unfolding content_verdict
content-passed env b h = ground arith

pub work-passed :
    (env : Env) (target : Hash) (b : VeloBlock)
    → b.header.height ≢ 0
    → work_verdict env target b ≡ passed
    → (b.header.difficulty_target ≡ target)
      × (verify_pow env.sha3 (record { target_difficulty = target }) b ≡ true)
unfolding work_verdict
work-passed env target b high h = ground arith

pub position-passed :
    (b : VeloBlock) (heights times : Option ℕ) (now : ℕ)
    → b.header.height ≢ 0
    → position_verdict b heights times now ≡ passed
    → (h : ℕ) × (heights ≡ some h)
      × (b.header.height ≡ wrap64 (h + 1))
      × (precedes b.header.timestamp times ≡ false)
      × (b.header.timestamp ≤ saturating_add64 now 30)
unfolding position_verdict
position-passed b none times now high h = absurd (ground arith)
position-passed b (some m) times now high h = (m, refl, ground arith, ground arith, ground arith)

module _ (env : Env) where
  pub on_verdict-passed :
      (v : Verdict) (source : Option PeerId) (s t : NodeState env)
      (rest : NodeState env → Outcome env (Option Hash)) (h : Hash)
      → on_verdict env v source s rest ≡ (t, ok (some h))
      → (v ≡ passed) × (rest s ≡ (t, ok (some h)))
  unfolding on_verdict
  on_verdict-passed passed source s t rest h e = (refl, e)
  on_verdict-passed panics source s t rest h e = absurd (differ (λ i. (e i).1))
    where
      differ :
          ◌≡◌ {A = Result (NodeError env.backend.Fault) (Option Hash)} (err panicked) (ok (some h))
          → ⊥
      differ p = cc
  on_verdict-passed (faulty r) source s t rest h e = absurd (differ (λ i. (e i).1))
    where
      differ :
          ◌≡◌ {A = Result (NodeError env.backend.Fault) (Option Hash)} (ok none) (ok (some h)) → ⊥
      differ p = cc

  pub refresh_ledger-ghostdag :
      (tip : Hash) (s : NodeState env) → (refresh_ledger env tip s).ghostdag ≡ s.ghostdag
  unfolding refresh_ledger
  refresh_ledger-ghostdag tip s = elim (Result-cases (recompute_ledger env.sha3 s.ghostdag tip)) [
    | inl (l, e) ↦ rw (e, refresh_ledger) refl
    | inr (l, e) ↦ rw (e, refresh_ledger) refl
  ]

  pub settle_tip-ok :
      (hash h : Hash) (s t : NodeState env)
      → settle_tip env hash s ≡ (t, ok (some h))
      → (h ≡ hash) × (t.ghostdag ≡ s.ghostdag)
  unfolding settle_tip
  settle_tip-ok hash h s t e =
      ground (arith, e, refresh_ledger-ghostdag (canonical_tip_after env hash s) s)

  ingest_block_only-lookup :
      (b : VeloBlock) (s : NodeState env)
      → lookup (calculate_hash env.sha3 b) (ingest_block_only env b s).ghostdag.block_store ≡ some b
  unfolding ingest_block_only
  ingest_block_only-lookup b s =
      let hash = calculate_hash env.sha3 b in
      ground (arith, lookup-insert hash hash b s.ghostdag.block_store)

  persist_block-ok :
      (b : VeloBlock) (h : Hash) (s t : NodeState env)
      → persist_block env b s ≡ (t, ok (some h))
      → (h ≡ calculate_hash env.sha3 b) × (lookup h t.ghostdag.block_store ≡ some b)
  unfolding persist_block
  persist_block-ok b h s t e =
      let saved = save_ledger_state env.backend s.ledger_state s.storage in
      let stored = record s { storage = saved.0 } in
      ground (
        arith,
        e,
        settle_tip-ok (calculate_hash env.sha3 b) h (ingest_block_only env b stored) t,
        ingest_block_only-lookup b stored,
      )

  pub admit_block-ok :
      (b : VeloBlock) (source : Option PeerId) (h : Hash) (s t : NodeState env)
      → admit_block env b source s ≡ (t, ok (some h))
      → ((apply_block env.sha3 s.ledger_state b).1 ≡ ok tt)
        × (h ≡ calculate_hash env.sha3 b)
        × (lookup h t.ghostdag.block_store ≡ some b)
  unfolding admit_block
  admit_block-ok b source h s t e =
      let moved = record s { ledger_state = (apply_block env.sha3 s.ledger_state b).0 } in
      ground (arith, e, persist_block-ok b h moved t)
