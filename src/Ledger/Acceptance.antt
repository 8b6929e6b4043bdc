-- ===== src/Ledger/Acceptance.antt =====
-- When a block is accepted: what suffices for each step of `apply_block` to succeed.
use velodag_core.Prelude.{
  ℕ, ◌+◌, ◌/◌, ◌<◌, ◌≡◌, ◌≢◌, refl, true, arith, sum_values, ◌==◌, u64_mod, ok, ==_iff,
}
use velodag_core.Types.{Hash, Bytes, dev_treasury_address, blocks_per_era, VeloBlock}
use velodag_core.Block.{verify_coinbase_rewards}
use velodag_core.Block.Subsidy.{era_reward-le}
use velodag_core.Ledger.{
  LedgerError, miner_balance_overflow, treasury_balance_overflow, LedgerState, Scratch, scratch_of,
  check, credit, commit, apply_transactions, apply_body, apply_block,
}
use velodag_core.Ledger.Steps.{raise}
use velodag_core.Ledger.Supply.{coinbase-sum, sum_values-raise, sum_values-apply_transactions}
use velodag_core.Ledger.Select.Covered.{lookup_or-le-sum_values}

-- A credit that keeps all balances together below 2^64 succeeds.
credit-ok :
    (address : Hash) (amount : ℕ) (e : LedgerError) (s : Scratch)
    → sum_values s.balances + amount < u64_mod
    → credit address amount e s ≡ (record s { balances = raise address amount s.balances }, ok tt)
unfolding credit
credit-ok address amount e s fits = ground (arith, lookup_or-le-sum_values address s.balances)

module _ (sha3 : Bytes → Hash) where
  apply_body-ok :
      (b : VeloBlock) (s u : Scratch)
      → verify_coinbase_rewards b ≡ true
      → b.coinbase_dev_address ≡ dev_treasury_address
      → apply_transactions sha3 b.transactions b.coinbase_miner_address b.coinbase_dev_address s
        ≡ (u, ok tt)
      → sum_values u.balances + (b.coinbase_miner_output + b.coinbase_dev_output) < u64_mod
      → (t : Scratch) × (apply_body sha3 b s ≡ (t, ok tt))
  unfolding apply_body check
  apply_body-ok b s u rewarded ours applied fits =
      let mined = record u {
        balances = raise b.coinbase_miner_address b.coinbase_miner_output u.balances;
      } in
      let first =
        credit-ok b.coinbase_miner_address b.coinbase_miner_output miner_balance_overflow u
          (omega arith) in
      let second =
        credit-ok b.coinbase_dev_address b.coinbase_dev_output treasury_balance_overflow mined (
          omega (
            arith,
            sum_values-raise b.coinbase_miner_address b.coinbase_miner_output u.balances,
          )) in
      let paid : (b.coinbase_dev_address == dev_treasury_address) ≡ true =
        (==_iff b.coinbase_dev_address dev_treasury_address).1 ours in
      (
        record u { balances = raise b.coinbase_dev_address b.coinbase_dev_output mined.balances },
        rw (rewarded, paid, applied, first, second) refl,
      )

  -- A block above height 0 with the coinbase of its height, whose transactions apply one after the
  -- other, is accepted while all balances and the first era's reward stay below 2^64 together.
  pub apply_block-accepts :
      (b : VeloBlock) (s : LedgerState) (u : Scratch)
      → b.header.height ≢ 0
      → verify_coinbase_rewards b ≡ true
      → b.coinbase_dev_address ≡ dev_treasury_address
      → apply_transactions sha3 b.transactions b.coinbase_miner_address b.coinbase_dev_address
          (scratch_of s)
        ≡ (u, ok tt)
      → sum_values s.balances + 83_238 < u64_mod
      → (apply_block sha3 s b).1 ≡ ok tt
  unfolding apply_block commit
  apply_block-accepts b s u high rewarded ours applied fits =
      let spent =
        sum_values-apply_transactions sha3 b.transactions b.coinbase_miner_address
          b.coinbase_dev_address (scratch_of s) u applied in
      let (t, done) = apply_body-ok b (scratch_of s) u rewarded ours applied (
        omega (
          arith,
          spent,
          coinbase-sum sha3 b rewarded,
          era_reward-le (b.header.height / blocks_per_era),
        )) in
      ground (arith, high, done)

  -- The nonce of a block does not matter to the ledger.
  pub apply_block-nonce :
      (b : VeloBlock) (s : LedgerState) (n : ℕ)
      → apply_block sha3 s (record b { header = record (b.header) { nonce = n } })
        ≡ apply_block sha3 s b
  unfolding apply_block apply_body verify_coinbase_rewards
  apply_block-nonce b s n = refl
