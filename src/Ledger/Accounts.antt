-- ===== src/Ledger/Accounts.antt =====
-- The books of one account over a block: what it received and what it paid.
use velodag_core.Prelude.{
  ℕ, ◌+◌, ◌-◌, ◌≤◌, ◌≡◌, ◌≢◌, ap, List, [], ◌∷◌, arith, ◌==◌, if◌then◌else◌, Map, lookup_or,
  lookup_or-insert, ok,
}
use velodag_core.Types.{Hash, Bytes, transaction_fee, Transaction, VeloBlock}
use velodag_core.Block.{fee_distribution}
use velodag_core.Ledger.{LedgerState, Scratch, scratch_of, balance, apply_transactions, apply_block}
use velodag_core.Ledger.Steps.{raise, charged}
use velodag_core.Ledger.Blocks.{
  apply_transactions-cons, apply_transactions-nil, apply_block-Accepted,
}

abbrev pub when_is : Hash → Hash → ℕ → ℕ
when_is a b v = if b == a then v else 0

-- What `a` receives from the transactions: transfers, and the shares of the fees.
pub received : Hash → Hash → Hash → List Transaction → ℕ
received a miner dev [] = 0
received a miner dev (tx ∷ txs) =
    when_is a tx.recipient tx.amount
    + when_is a miner fee_distribution.0
    + when_is a dev fee_distribution.1
    + received a miner dev txs

-- What `a` pays as a sender: amounts and fees.
pub paid : Hash → List Transaction → ℕ
paid a [] = 0
paid a (tx ∷ txs) = when_is a tx.sender (tx.amount + transaction_fee) + paid a txs

lookup_or-raise :
    (a k : Hash) (v : ℕ) (m : Map ℕ) → lookup_or 0 a (raise k v m) ≡ lookup_or 0 a m + when_is a k v
lookup_or-raise a k v m = ground (arith, lookup_or-insert 0 k a (lookup_or 0 k m + v) m)

lookup_or-charged :
    (a : Hash) (tx : Transaction) (m : Map ℕ)
    → tx.amount + transaction_fee ≤ lookup_or 0 tx.sender m
    → lookup_or 0 a (charged tx m) + when_is a tx.sender (tx.amount + transaction_fee)
      ≡ lookup_or 0 a m
lookup_or-charged a tx m h = ground (
  arith,
  lookup_or-insert 0 tx.sender a (lookup_or 0 tx.sender m - (tx.amount + transaction_fee)) m,
)

module _ (sha3 : Bytes → Hash) (a : Hash) where
  apply_transactions-books :
      (txs : List Transaction) (miner dev : Hash) (s t : Scratch)
      → apply_transactions sha3 txs miner dev s ≡ (t, ok tt)
      → lookup_or 0 a t.balances + paid a txs ≡ lookup_or 0 a s.balances + received a miner dev txs
  unfolding paid received
  apply_transactions-books [] miner dev s t h = omega (
    arith,
    ap (λ (u : Scratch). lookup_or 0 a u.balances) (apply_transactions-nil sha3 miner dev s t h),
  )
  apply_transactions-books (tx ∷ txs) miner dev s t h =
      let (u, first, rest) = apply_transactions-cons sha3 tx txs miner dev s t h in
      let m₁ : Map ℕ = charged tx s.balances in
      let m₂ : Map ℕ = raise tx.recipient tx.amount m₁ in
      let m₃ : Map ℕ = raise miner fee_distribution.0 m₂ in
      omega (
        arith,
        apply_transactions-books txs miner dev u t rest,
        ap (lookup_or 0 a) first.balances,
        lookup_or-raise a dev fee_distribution.1 m₃,
        lookup_or-raise a miner fee_distribution.0 m₂,
        lookup_or-raise a tx.recipient tx.amount m₁,
        lookup_or-charged a tx s.balances first.covered,
      )

  -- When a block above height 0 is accepted, each account has what it had before, plus all transfers
  -- to it, its shares of the fees and of the coinbase, less all amounts and fees that it sent.
  pub apply_block-books :
      (s s' : LedgerState) (b : VeloBlock)
      → b.header.height ≢ 0
      → apply_block sha3 s b ≡ (s', ok tt)
      → balance s' a + paid a b.transactions
        ≡ balance s a
          + received a b.coinbase_miner_address b.coinbase_dev_address b.transactions
          + when_is a b.coinbase_miner_address b.coinbase_miner_output
          + when_is a b.coinbase_dev_address b.coinbase_dev_output
  unfolding balance
  apply_block-books s s' b high h =
      let c = apply_block-Accepted sha3 s s' b high h in
      let u = c.after in
      let mined = raise b.coinbase_miner_address b.coinbase_miner_output u.balances in
      omega (
        arith,
        ap (lookup_or 0 a) c.balances,
        lookup_or-raise a b.coinbase_dev_address b.coinbase_dev_output mined,
        lookup_or-raise a b.coinbase_miner_address b.coinbase_miner_output u.balances,
        apply_transactions-books b.transactions b.coinbase_miner_address b.coinbase_dev_address
            (scratch_of s) u c.applied,
      )
