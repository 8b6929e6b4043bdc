-- ===== src/Ledger.antt =====
-- vdag-consensus/src/lib.rs, `LedgerState`: balances, nonces and confirmed transactions; the effect
-- of a transaction, of a block, and the dry run over mempool candidates.
pub mod Steps
pub mod Blocks
pub mod Accounts
pub mod Supply
pub mod Replay
pub mod Emission
pub mod Select
pub mod Acceptance
mod Tests
use velodag_core.Prelude.{
  ℕ, ◌+◌, Bool, true, false, not, ◌&&◌, ◌||◌, Option, none, some, List, [], ◌∷◌, ◌==◌,
  if◌then◌else◌, Map, lookup_or, insert, contains, add, wrap64, checked_add, checked_sub, Result,
  ok, err, Exec, succeed, fail, reads, ok_or, ◌>>=◌, ◌>>◌,
}
use velodag_core.Types.{Hash, Bytes, dev_treasury_address, transaction_fee, Transaction, VeloBlock}
use velodag_core.Block.{transaction_id, fee_distribution, verify_coinbase_rewards}

-- The texts of the errors, one constructor each.
pub data LedgerError : Type 0 where
  genesis_spendable invalid_coinbase invalid_treasury_address : LedgerError
  miner_balance_overflow treasury_balance_overflow : LedgerError
  duplicate_transaction amount_not_positive : LedgerError
  invalid_nonce : ℕ → ℕ → LedgerError
  cost_overflow insufficient_balance recipient_overflow : LedgerError
  miner_fee_overflow treasury_fee_overflow : LedgerError

pub record LedgerState : Type 0 where
  pub balances : Map ℕ
  pub next_nonces : Map ℕ
  pub confirmed_transactions : List Hash

-- `LedgerState::default()`
abbrev pub empty_ledger : LedgerState
empty_ledger = record { balances = []; next_nonces = []; confirmed_transactions = [] }

unfoldable pub balance : LedgerState → Hash → ℕ
balance s address = lookup_or 0 address s.balances

unfoldable pub has_confirmed : LedgerState → Hash → Bool
has_confirmed s tx_id = contains tx_id s.confirmed_transactions

-- The local copies that a block is applied to, and the ids seen in the block.
pub record Scratch : Type 0 where
  pub balances : Map ℕ
  pub next_nonces : Map ℕ
  pub confirmed_transactions : List Hash
  pub block_transactions : List Hash

abbrev pub Step : Type 0 → Type 0
Step A = Exec Scratch LedgerError A

-- `insert` into both sets; the second is not reached if the first has the id already.
unfoldable pub claim_id : Hash → Step Unit
claim_id tx_id s =
    if contains tx_id s.block_transactions
    then (s, err duplicate_transaction)
    else (let claimed = record s { block_transactions = add tx_id s.block_transactions } in
        if contains tx_id s.confirmed_transactions then (claimed, err duplicate_transaction) else (
          record claimed { confirmed_transactions = add tx_id s.confirmed_transactions },
          ok tt,
        ))

unfoldable pub check : Bool → LedgerError → Step Unit
check test e s = if test then (s, ok tt) else (s, err e)

-- `balances.insert(address, balance.checked_sub(cost).ok_or(…)?)`
unfoldable pub debit : Hash → ℕ → Step Unit
debit address cost s = elim (checked_sub (lookup_or 0 address s.balances) cost) [
  | none ↦ (s, err insufficient_balance)
  | some remaining ↦ (record s { balances = insert address remaining s.balances }, ok tt)
]

-- `balances.insert(address, balance.checked_add(amount).ok_or(…)?)`
unfoldable pub credit : Hash → ℕ → LedgerError → Step Unit
credit address amount e s = elim (checked_add (lookup_or 0 address s.balances) amount) [
  | none ↦ (s, err e)
  | some sum ↦ (record s { balances = insert address sum s.balances }, ok tt)
]

unfoldable pub set_nonce : Hash → ℕ → Step Unit
set_nonce sender n s = (record s { next_nonces = insert sender n s.next_nonces }, ok tt)

-- The clones of the three fields, with an empty set of block transactions.
abbrev pub scratch_of : LedgerState → Scratch
scratch_of s = record {
  balances = s.balances;
  next_nonces = s.next_nonces;
  confirmed_transactions = s.confirmed_transactions;
  block_transactions = [];
}

is_nonempty : List Transaction → Bool
is_nonempty [] = false
is_nonempty (_ ∷ _) = true

-- The scratch state is written back at the end, and after an early return it is dropped.
pub commit : LedgerState → Scratch × Result LedgerError Unit → LedgerState × Result LedgerError Unit
commit s (t, ok _) = (
  record {
    balances = t.balances;
    next_nonces = t.next_nonces;
    confirmed_transactions = t.confirmed_transactions;
  },
  ok tt,
)
commit s (t, err e) = (s, err e)

-- The moves of `try_apply_transaction`: the sender's debit, and the three credits.
unfoldable pub move_funds : Transaction → ℕ → Hash → Hash → Step Unit
unfolding debit credit
move_funds tx total_cost miner_address dev_address = do
  debit tx.sender total_cost
  credit tx.recipient tx.amount recipient_overflow
  credit miner_address fee_distribution.0 miner_fee_overflow
  credit dev_address fee_distribution.1 treasury_fee_overflow

-- `Ok(()) => accepted.push(tx), Err(reason) => rejected.push((tx, reason))`
unfoldable pub route :
    Transaction
    → Result LedgerError Unit
    → List Transaction × List (Transaction × LedgerError)
    → List Transaction × List (Transaction × LedgerError)
route tx (ok _) rest = (tx ∷ rest.0, rest.1)
route tx (err reason) rest = (rest.0, (tx, reason) ∷ rest.1)

module _ (sha3 : Bytes → Hash) where
  unfoldable pub try_apply_transaction : Transaction → Hash → Hash → Step Unit
  unfolding check set_nonce
  try_apply_transaction tx miner_address dev_address = do
    claim_id (transaction_id sha3 tx)
    check (not (tx.amount == 0)) amount_not_positive
    expected_nonce ← reads (λ s. lookup_or 0 tx.sender s.next_nonces)
    check (tx.nonce == expected_nonce) (invalid_nonce expected_nonce tx.nonce)
    total_cost ← ok_or (checked_add tx.amount transaction_fee) cost_overflow
    move_funds tx total_cost miner_address dev_address
    set_nonce tx.sender (wrap64 (expected_nonce + 1))

  -- `for tx in &block.transactions { … ?; }`
  pub apply_transactions : List Transaction → Hash → Hash → Step Unit
  apply_transactions [] miner_address dev_address = succeed tt
  apply_transactions (tx ∷ txs) miner_address dev_address =
      try_apply_transaction tx miner_address dev_address
      >> apply_transactions txs miner_address dev_address

  -- The body of a block above height 0, on the scratch state.
  pub apply_body : VeloBlock → Step Unit
  unfolding apply_transactions
  apply_body block = do
    check (verify_coinbase_rewards block) invalid_coinbase
    check (block.coinbase_dev_address == dev_treasury_address) invalid_treasury_address
    apply_transactions block.transactions block.coinbase_miner_address block.coinbase_dev_address
    credit block.coinbase_miner_address block.coinbase_miner_output miner_balance_overflow
    credit block.coinbase_dev_address block.coinbase_dev_output treasury_balance_overflow

  unfoldable pub apply_block : LedgerState → VeloBlock → LedgerState × Result LedgerError Unit
  unfolding apply_body commit is_nonempty
  apply_block s block =
      if block.header.height == 0
      then (if is_nonempty block.transactions
            || (not (block.coinbase_miner_output == 0) || not (block.coinbase_dev_output == 0))
          then (s, err genesis_spendable)
          else (s, ok tt))
      else commit s (apply_body block (scratch_of s))

  pub select_loop :
      List Transaction → Hash → Hash → Scratch → List Transaction × List (Transaction × LedgerError)
  unfolding route
  select_loop [] miner_address dev_address s = ([], [])
  select_loop (tx ∷ txs) miner_address dev_address s =
      let applied = try_apply_transaction tx miner_address dev_address s in
      let rest = select_loop txs miner_address dev_address applied.0 in route tx applied.1 rest

  unfoldable pub select_affordable :
      LedgerState
      → List Transaction
      → Hash
      → Hash
      → List Transaction × List (Transaction × LedgerError)
  unfolding select_loop
  select_affordable s candidates miner_address dev_address =
      select_loop candidates miner_address dev_address (scratch_of s)
