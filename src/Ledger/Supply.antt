-- ===== src/Ledger/Supply.antt =====
-- The sum of all balances: a transaction burns half its fee, a block adds its reward.
use velodag_core.Prelude.{
  ℕ, ◌+◌, ◌-◌, ◌*◌, ◌/◌, ◌≤◌, ◌≡◌, ◌≢◌, refl, ap, true, List, [], ◌∷◌, arith, Map, length,
  lookup_or, sum_values, sum_values-insert, ok,
}
use velodag_core.Types.{Hash, Bytes, transaction_fee, blocks_per_era, Transaction, VeloBlock}
use velodag_core.Block.{fee_distribution, verify_coinbase_rewards}
use velodag_core.Block.Subsidy.{era_reward, subsidy_split-sum}
use velodag_core.Ledger.{LedgerState, Scratch, scratch_of, apply_transactions, apply_block}
use velodag_core.Ledger.Steps.{raise, charged, settled}
use velodag_core.Ledger.Blocks.{
  apply_transactions-cons, apply_transactions-nil, apply_block-Accepted,
}

-- What of a fee nobody receives.
abbrev pub burned_per_transaction : ℕ
burned_per_transaction = 50

-- The shares of the fee: 48 for the miner, 2 for the treasury, and 50 burned make 100.
pub fee_shares :
    (fee_distribution.0 ≡ 48)
    × (fee_distribution.1 ≡ 2)
    × (fee_distribution.0 + fee_distribution.1 + burned_per_transaction ≡ transaction_fee)
unfolding fee_distribution
fee_shares = (refl, refl, refl)

pub sum_values-raise : (k v : ℕ) (m : Map ℕ) → sum_values (raise k v m) ≡ sum_values m + v
sum_values-raise k v m = omega (arith, sum_values-insert k (lookup_or 0 k m + v) m)

pub sum_values-settled :
    (tx : Transaction) (miner dev : Hash) (m : Map ℕ)
    → tx.amount + transaction_fee ≤ lookup_or 0 tx.sender m
    → sum_values (settled tx miner dev m) + burned_per_transaction ≡ sum_values m
sum_values-settled tx miner dev m h =
    let paid : Map ℕ = charged tx m in
    let received : Map ℕ = raise tx.recipient tx.amount paid in
    omega (
      arith,
      fee_shares,
      sum_values-raise dev fee_distribution.1 (raise miner fee_distribution.0 received),
      sum_values-raise miner fee_distribution.0 received,
      sum_values-raise tx.recipient tx.amount paid,
      sum_values-insert tx.sender (lookup_or 0 tx.sender m - (tx.amount + transaction_fee)) m,
    )

module _ (sha3 : Bytes → Hash) where
  pub sum_values-apply_transactions :
      (txs : List Transaction) (miner dev : Hash) (s t : Scratch)
      → apply_transactions sha3 txs miner dev s ≡ (t, ok tt)
      → sum_values t.balances + burned_per_transaction * length txs ≡ sum_values s.balances
  sum_values-apply_transactions [] miner dev s t h = omega (
    arith,
    ap (λ (u : Scratch). sum_values u.balances) (apply_transactions-nil sha3 miner dev s t h),
  )
  sum_values-apply_transactions (tx ∷ txs) miner dev s t h =
      let (u, first, rest) = apply_transactions-cons sha3 tx txs miner dev s t h in
      omega (
        arith,
        sum_values-apply_transactions txs miner dev u t rest,
        ap sum_values first.balances,
        sum_values-settled tx miner dev s.balances first.covered,
      )

  -- `LedgerState`'s whole money.
  abbrev pub supply : LedgerState → ℕ
  supply s = sum_values s.balances

  pub coinbase-sum :
      (b : VeloBlock)
      → verify_coinbase_rewards b ≡ true
      → b.coinbase_miner_output + b.coinbase_dev_output
        ≡ era_reward (b.header.height / blocks_per_era)
  unfolding verify_coinbase_rewards
  coinbase-sum b h = ground (arith, subsidy_split-sum b.header.height)

  -- When a block above height 0 is accepted, the sum of all balances grows by exactly the reward of
  -- its era, less the burned half of each transaction's fee.
  pub apply_block-supply :
      (s s' : LedgerState) (b : VeloBlock)
      → b.header.height ≢ 0
      → apply_block sha3 s b ≡ (s', ok tt)
      → sum_values s'.balances + burned_per_transaction * length b.transactions
        ≡ sum_values s.balances + era_reward (b.header.height / blocks_per_era)
  apply_block-supply s s' b high h =
      let a = apply_block-Accepted sha3 s s' b high h in
      let u = a.after in
      let mined = raise b.coinbase_miner_address b.coinbase_miner_output u.balances in
      omega (
        arith,
        ap sum_values a.balances,
        sum_values-raise b.coinbase_dev_address b.coinbase_dev_output mined,
        sum_values-raise b.coinbase_miner_address b.coinbase_miner_output u.balances,
        sum_values-apply_transactions b.transactions b.coinbase_miner_address b.coinbase_dev_address
            (scratch_of s) u a.applied,
        coinbase-sum b a.rewarded,
      )
