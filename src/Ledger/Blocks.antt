-- ===== src/Ledger/Blocks.antt =====
-- What a block does to the ledger when it is accepted.
use velodag_core.Prelude.{
  ◌≡◌, ◌≢◌, refl, sym, ap, subst, true, false, List, [], ◌∷◌, arith, ◌==◌, ==_iff, Bool-cases, inl,
  inr, Result, ok, err, >>=-eq-ok, >>-eq-ok, fail-ne-ok,
}
use velodag_core.Types.{Hash, Bytes, dev_treasury_address, Transaction, VeloBlock}
use velodag_core.Block.{verify_coinbase_rewards}
use velodag_core.Ledger.{
  LedgerError, invalid_coinbase, invalid_treasury_address, miner_balance_overflow,
  treasury_balance_overflow, LedgerState, Scratch, scratch_of, check, credit, commit,
  try_apply_transaction, apply_transactions, apply_body, apply_block, is_nonempty,
}
use velodag_core.Ledger.Steps.{
  raise, Applied, try_apply_transaction-Applied, check-eq-ok, credit-eq-ok,
}

commit-eq-ok :
    (s s' : LedgerState) (r : Scratch × Result LedgerError Unit)
    → commit s r ≡ (s', ok tt)
    → (t : Scratch) × (r ≡ (t, ok tt)) × ((commit s (t, ok tt)).0 ≡ s')
unfolding commit
commit-eq-ok s s' (t, ok _) h = (t, refl, ap (λ v. v.0) h)
commit-eq-ok s s' (t, err e) h = absurd (fail-ne-ok e s s' tt h)

is_nonempty-false : (txs : List Transaction) → is_nonempty txs ≡ false → txs ≡ []
unfolding is_nonempty
is_nonempty-false [] h = refl
is_nonempty-false (tx ∷ txs) h = cc

module _ (sha3 : Bytes → Hash) where
  -- The first transaction of a list that succeeds, and the rest.
  pub apply_transactions-cons :
      (tx : Transaction) (txs : List Transaction) (miner dev : Hash) (s t : Scratch)
      → apply_transactions sha3 (tx ∷ txs) miner dev s ≡ (t, ok tt)
      → (u : Scratch) × Applied sha3 tx miner dev s u
        × (apply_transactions sha3 txs miner dev u ≡ (t, ok tt))
  unfolding apply_transactions
  apply_transactions-cons tx txs miner dev s t h =
      let first = try_apply_transaction sha3 tx miner dev in
      let (_, e, rest) = >>=-eq-ok first _ s t tt h in
      ((first s).0, try_apply_transaction-Applied sha3 tx miner dev s (first s).0 e, rest)

  pub apply_transactions-nil :
      (miner dev : Hash) (s t : Scratch)
      → apply_transactions sha3 [] miner dev s ≡ (t, ok tt)
      → t ≡ s
  unfolding apply_transactions
  apply_transactions-nil miner dev s t h = ap (λ r. r.0) (sym h)

  -- An accepted block above height 0: `after` is the scratch state behind its transactions.
  pub record Accepted (s s' : LedgerState) (b : VeloBlock) : Type 0 where
    pub after : Scratch
    pub rewarded : verify_coinbase_rewards b ≡ true
    pub treasury : b.coinbase_dev_address ≡ dev_treasury_address
    pub applied :
        apply_transactions sha3 b.transactions b.coinbase_miner_address b.coinbase_dev_address
          (scratch_of s)
        ≡ (after, ok tt)
    pub balances :
        s'.balances
        ≡ raise b.coinbase_dev_address b.coinbase_dev_output
            (raise b.coinbase_miner_address b.coinbase_miner_output after.balances)
    pub nonces : s'.next_nonces ≡ after.next_nonces
    pub confirmed : s'.confirmed_transactions ≡ after.confirmed_transactions

  body-Accepted :
      (s : LedgerState) (b : VeloBlock) (t : Scratch)
      → apply_body sha3 b (scratch_of s) ≡ (t, ok tt)
      → Accepted s (commit s (t, ok tt)).0 b
  unfolding apply_body commit
  body-Accepted s b t h =
      let start = scratch_of s in
      let good = verify_coinbase_rewards b in
      let (rewarded, h₁) =
        >>-eq-ok (check good invalid_coinbase) _ start start t tt
          (check-eq-ok good invalid_coinbase start) h in
      let ours = b.coinbase_dev_address == dev_treasury_address in
      let (treasury, h₂) =
        >>-eq-ok (check ours invalid_treasury_address) _ start start t tt
          (check-eq-ok ours invalid_treasury_address start) h₁ in
      let txs =
        apply_transactions sha3 b.transactions b.coinbase_miner_address b.coinbase_dev_address in
      let (_, applied, h₃) = >>=-eq-ok txs _ start t tt h₂ in
      let u : Scratch = (txs start).0 in
      let (_, h₄) =
        >>-eq-ok (credit b.coinbase_miner_address b.coinbase_miner_output miner_balance_overflow) _
          u _ t tt
          (credit-eq-ok b.coinbase_miner_address b.coinbase_miner_output miner_balance_overflow u)
          h₃ in
      let (_, at) =
        credit-eq-ok b.coinbase_dev_address b.coinbase_dev_output treasury_balance_overflow _ t
          h₄ in
      record {
        after = u;
        rewarded = rewarded;
        treasury = (==_iff b.coinbase_dev_address dev_treasury_address).0 treasury;
        applied = applied;
        balances = ap (λ (v : Scratch). v.balances) at;
        nonces = ap (λ (v : Scratch). v.next_nonces) at;
        confirmed = ap (λ (v : Scratch). v.confirmed_transactions) at;
      }

  pub apply_block-Accepted :
      (s s' : LedgerState) (b : VeloBlock)
      → b.header.height ≢ 0
      → apply_block sha3 s b ≡ (s', ok tt)
      → Accepted s s' b
  unfolding apply_block
  apply_block-Accepted s s' b high h = elim (Bool-cases (b.header.height == 0)) [
    | inl zero_height ↦ absurd (high ((==_iff b.header.height 0).0 zero_height))
    | inr above ↦
        let (t, ends, at) = commit-eq-ok s s' (apply_body sha3 b (scratch_of s)) (rw above at h) in
        subst (λ v. Accepted s v b) at (body-Accepted s b t ends)
  ]

  -- An accepted block of height 0 has no transactions and changes nothing.
  pub apply_block-zero :
      (s s' : LedgerState) (b : VeloBlock)
      → (b.header.height == 0) ≡ true
      → apply_block sha3 s b ≡ (s', ok tt)
      → (b.transactions ≡ []) × (s' ≡ s)
  unfolding apply_block
  apply_block-zero s s' b low h = elim (Bool-cases (is_nonempty b.transactions)) [
    | inl spends ↦ absurd (ground (arith, low, h, spends))
    | inr empty ↦ (is_nonempty-false b.transactions empty, ground (arith, low, h, empty))
  ]
