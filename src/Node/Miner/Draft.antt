-- ===== src/Node/Miner/Draft.antt =====
-- The block that a tick drafts: it applies to the miner's ledger, and its mined form passes the checks
-- of a peer.
use velodag_core.Prelude.{
  ℕ, zero, ◌+◌, ◌≤◌, ◌<◌, ◌≡◌, ◌≢◌, refl, Bool, true, false, List, map, arith, length, any_b,
  sum_values, u64_mod, wrap64, ==_self, ok,
}
use velodag_core.Types.{Hash, dev_treasury_address, Transaction, VeloBlock}
use velodag_core.Block.{
  calculate_subsidy_split, transaction_merkle_root, verify_coinbase_rewards,
  verify_transaction_merkle_root,
}
use velodag_core.Ledger.{apply_block, select_affordable, LedgerState}
use velodag_core.Ledger.Select.{
  Split, neither, accepted, refused, select_affordable-Split, select_affordable-applies,
}
use velodag_core.Ledger.Acceptance.{apply_block-accepts, apply_block-nonce}
use velodag_core.Pow.Mining.{after_tries, after_tries-nonce}
use velodag_core.Node.Network.{Env, NodeState}
use velodag_core.Node.Network.Checks.{has_bad_signature}
use velodag_core.Node.Miner.{next_height, draft_block}

-- No element of a part passes a test that none of the whole passes.
any_b-Split :
    (p : Transaction → Bool) (all left right : List Transaction)
    → Split all left right
    → any_b p all ≡ false
    → any_b p left ≡ false
unfolding any_b
any_b-Split p _ _ _ neither none_ = refl
any_b-Split p _ _ _ (accepted {all} {left} {right} tx rest) none_ =
    ground (arith, none_, any_b-Split p all left right rest)
any_b-Split p _ _ _ (refused {all} {left} {right} tx rest) none_ =
    ground (arith, none_, any_b-Split p all left right rest)

length-Split : (all left right : List Transaction) → Split all left right → length left ≤ length all
length-Split _ _ _ neither = omega arith
length-Split _ _ _ (accepted {all} {left} {right} tx rest) =
    omega (arith, length-Split all left right rest)
length-Split _ _ _ (refused {all} {left} {right} tx rest) =
    omega (arith, length-Split all left right rest)

module _ (env : Env) (miner_address : Hash) (s : NodeState env)
    (candidates : List Transaction) where
  abbrev pub draft : VeloBlock
  draft = draft_block env miner_address s candidates

  -- The draft once its nonce has been counted up so often.
  abbrev pub mined : ℕ → VeloBlock
  mined tries = after_tries tries draft

  pub mined-draft :
      (tries : ℕ)
      → mined tries ≡ record draft { header = record (draft.header) { nonce = wrap64 (0 + tries) } }
  unfolding draft_block
  mined-draft tries = after_tries-nonce tries draft (omega arith)

  selected-Split : Split candidates draft.transactions (
      map
        (λ x. x.0)
        (select_affordable env.sha3 s.ledger_state candidates miner_address dev_treasury_address).1)
  unfolding draft_block
  selected-Split =
      select_affordable-Split env.sha3 miner_address dev_treasury_address s.ledger_state candidates

  -- What the mined block has whatever its nonce is: the coinbase of its height, the root of its
  -- transactions, no more transactions than candidates, and a bad signature only if a candidate has.
  pub mined-content :
      (tries : ℕ)
      → (verify_coinbase_rewards (mined tries) ≡ true)
        × (verify_transaction_merkle_root env.sha3 (mined tries) ≡ true)
        × (length (mined tries).transactions ≤ length candidates)
        × (any_b (has_bad_signature env) candidates ≡ false
            → any_b (has_bad_signature env) (mined tries).transactions ≡ false)
  unfolding draft_block verify_coinbase_rewards verify_transaction_merkle_root
  mined-content tries =
      let reward = calculate_subsidy_split (next_height env s) in
      rw (mined-draft tries) (
        rw (==_self reward.0, ==_self reward.1) refl,
        ==_self (transaction_merkle_root env.sha3 draft.transactions),
        length-Split candidates draft.transactions _ selected-Split,
        any_b-Split (has_bad_signature env) candidates draft.transactions _ selected-Split,
      )

  -- The mined block acts on any ledger as its draft does.
  pub apply_block-mined :
      (tries : ℕ) (l : LedgerState)
      → apply_block env.sha3 l (mined tries) ≡ apply_block env.sha3 l draft
  apply_block-mined tries l =
      rw (mined-draft tries) (apply_block-nonce env.sha3 draft l (wrap64 (0 + tries)))

  -- The draft applies to the ledger that it was made on.
  pub draft-applies :
      next_height env s ≢ 0
      → sum_values s.ledger_state.balances + 83_238 < u64_mod
      → (apply_block env.sha3 s.ledger_state draft).1 ≡ ok tt
  unfolding draft_block after_tries
  draft-applies high fits =
      let (u, applied) =
        select_affordable-applies env.sha3 miner_address dev_treasury_address s.ledger_state
          candidates (omega arith) in
      apply_block-accepts env.sha3 draft s.ledger_state u high (mined-content zero).0 refl applied
        fits
