-- ===== src/Ledger/Tests.antt =====
-- Runs of the ledger on sample data.
use velodag_core.Prelude.{
  ◌&&◌, ℕ, ◌+◌, ◌*◌, ◌^◌, ◌<◌, ◌≤◌, ◌||◌, add, insert, ◌≡◌, ◌≢◌, refl, true, false, List, [], ◌∷◌,
  arith, contains, lookup_or, sum_values, wrap64, ok, err,
}
use velodag_core.Types.{Transaction, VeloBlock, dev_treasury_address}
use velodag_core.Fixtures.{toy_sha3, alice, bob, carol, payment, funded, block_at}
use velodag_core.Block.{
  transaction_id, transaction_payload, hash_bytes, to_le_bytes, calculate_subsidy_split,
  fee_distribution, verify_coinbase_rewards,
}
use velodag_core.Block.Subsidy.{era_reward}
use velodag_core.Ledger.{
  LedgerState, insufficient_balance, Scratch, scratch_of, empty_ledger, duplicate_transaction,
  balance, has_confirmed, apply_block, select_affordable, claim_id, check, debit, credit, set_nonce,
  move_funds, try_apply_transaction,
}
use velodag_core.Ledger.Select.{try_apply_transaction-refused}
use velodag_core.Ledger.Emission.{started, accepted, supply-le-supply_cap}
use velodag_core.Ledger.Supply.{apply_block-supply, burned_per_transaction}
use velodag_core.Ledger.Accounts.{apply_block-books, paid, received, when_is}
use velodag_core.Ledger.Replay.{
  apply_block-confirmed, apply_block-nonces, ids, sent_count, unrepeated,
}

abbrev paying_block : VeloBlock
paying_block = block_at (9 ∷ []) (payment ∷ []) 1 100

abbrev paid_ledger : LedgerState
paid_ledger = (apply_block toy_sha3 funded paying_block).0

one≢zero : ◌≢◌ {A = ℕ} 1 0
one≢zero e = absurd (omega arith)

paying_block-accepted : apply_block toy_sha3 funded paying_block ≡ (paid_ledger, ok tt)
unfolding apply_block try_apply_transaction claim_id check debit credit set_nonce move_funds
    verify_coinbase_rewards calculate_subsidy_split fee_distribution contains lookup_or insert
paying_block-accepted = refl

apply_block-supply_example :
    sum_values paid_ledger.balances + burned_per_transaction * 1
    ≡ sum_values funded.balances + era_reward 0
apply_block-supply_example =
    apply_block-supply toy_sha3 funded paid_ledger paying_block one≢zero paying_block-accepted

apply_block-books_example :
    balance paid_ledger alice + paid alice (payment ∷ [])
    ≡ balance funded alice
      + received alice carol dev_treasury_address (payment ∷ [])
      + when_is alice carol 79_077
      + when_is alice dev_treasury_address 4_161
apply_block-books_example =
    apply_block-books toy_sha3 alice funded paid_ledger paying_block one≢zero paying_block-accepted

apply_block-confirmed_example :
    (has_confirmed paid_ledger 5
      ≡ (contains 5 (ids toy_sha3 (payment ∷ [])) || has_confirmed funded 5))
    × ((contains 5 (ids toy_sha3 (payment ∷ [])) && has_confirmed funded 5) ≡ false)
    × (unrepeated (ids toy_sha3 (payment ∷ [])) ≡ true)
apply_block-confirmed_example =
    apply_block-confirmed toy_sha3 funded paid_ledger paying_block 5 paying_block-accepted

apply_block-nonces_example :
    lookup_or 0 alice paid_ledger.next_nonces
    ≡ wrap64 (lookup_or 0 alice funded.next_nonces + sent_count alice (payment ∷ []))
unfolding lookup_or
apply_block-nonces_example =
    apply_block-nonces toy_sha3 funded paid_ledger paying_block alice (omega arith)
      paying_block-accepted

abbrev candidates : List Transaction
candidates = payment ∷ payment ∷ []

funded-fits : sum_values funded.balances < 2 ^ 64
unfolding sum_values
funded-fits = omega arith

-- A payment that waits twice is taken once.
payment_once :
    select_affordable toy_sha3 funded candidates carol bob
    ≡ (payment ∷ [], (payment, duplicate_transaction) ∷ [])
unfolding select_affordable try_apply_transaction claim_id check debit credit set_nonce move_funds
    fee_distribution contains lookup_or insert add transaction_id transaction_payload hash_bytes
    to_le_bytes
payment_once = refl

-- Bob has nothing to pay with.
abbrev unpaid : Transaction
unpaid = record payment { sender = bob; recipient = alice; nonce = 0 }

abbrev left_over : Scratch
left_over = (try_apply_transaction toy_sha3 unpaid carol bob (scratch_of funded)).0

unpaid-refused :
    try_apply_transaction toy_sha3 unpaid carol bob (scratch_of funded)
    ≡ (left_over, err insufficient_balance)
unfolding try_apply_transaction claim_id check debit credit set_nonce move_funds fee_distribution
    contains lookup_or insert add transaction_id transaction_payload hash_bytes to_le_bytes
unpaid-refused = refl

try_apply_transaction-refused_example :
    (left_over.balances ≡ funded.balances) × (left_over.next_nonces ≡ funded.next_nonces)
try_apply_transaction-refused_example =
    try_apply_transaction-refused toy_sha3 carol bob unpaid (scratch_of funded) left_over
      insufficient_balance funded-fits unpaid-refused

-- One empty block at height 1, on the empty ledger.
abbrev lone_block : VeloBlock
lone_block = block_at (9 ∷ []) [] 1 100

abbrev mined_ledger : LedgerState
mined_ledger = (apply_block toy_sha3 empty_ledger lone_block).0

lone_block-accepted : apply_block toy_sha3 empty_ledger lone_block ≡ (mined_ledger, ok tt)
unfolding apply_block check debit credit verify_coinbase_rewards calculate_subsidy_split lookup_or
    insert
lone_block-accepted = refl

supply-le-supply_cap_example : sum_values mined_ledger.balances ≤ 21_000_000 * 1_000_000
supply-le-supply_cap_example =
    supply-le-supply_cap toy_sha3 2 mined_ledger
      (accepted lone_block started (omega arith) lone_block-accepted)
