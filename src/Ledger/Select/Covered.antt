-- ===== src/Ledger/Select/Covered.antt =====
-- What decides whether `try_apply_transaction` succeeds while no balance can overflow, and what it leaves.
use velodag_core.Prelude.{
  ℕ, ◌+◌, ◌-◌, ◌≤◌, ◌<◌, ◌≡◌, sym, ap, ◌∙◌, ◌⊎◌, inl, inr, true, false, List, arith, subst, Map,
  lookup_or, insert, sum_values, sum_values-insert, contains, add, contains-add, wrap64, u64_mod,
  ok, err,
}
use velodag_core.Types.{Hash, Bytes, transaction_fee, Transaction}
use velodag_core.Block.{transaction_id, fee_distribution}
use velodag_core.Ledger.{
  LedgerError, insufficient_balance, Scratch, claim_id, debit, credit, move_funds,
  try_apply_transaction,
}
use velodag_core.Ledger.Steps.{raise, charged, settled, Applied, try_apply_transaction-Applied}
use velodag_core.Ledger.Supply.{fee_shares, sum_values-raise, sum_values-settled}

pub lookup_or-le-sum_values : (k : Hash) (m : Map ℕ) → lookup_or 0 k m ≤ sum_values m
lookup_or-le-sum_values k m = omega (arith, sum_values-insert k 0 m)

credit-fits :
    (a : Hash) (v : ℕ) (e : LedgerError) (s : Scratch)
    → sum_values s.balances + v < u64_mod
    → credit a v e s ≡ (record s { balances = raise a v s.balances }, ok tt)
unfolding credit
credit-fits a v e s h = ground (arith, lookup_or-le-sum_values a s.balances)

debit-covered :
    (a : Hash) (v : ℕ) (s : Scratch)
    → v ≤ lookup_or 0 a s.balances
    → debit a v s
      ≡ (record s { balances = insert a (lookup_or 0 a s.balances - v) s.balances }, ok tt)
unfolding debit
debit-covered a v s h = ground arith

-- The balances sum to less than 2 ^ 64, so no credit of a transfer can overflow.
module _ (tx : Transaction) (miner dev : Hash) (s : Scratch)
    (fits : sum_values s.balances < u64_mod) where
  move_funds-covered :
      tx.amount + transaction_fee ≤ lookup_or 0 tx.sender s.balances
      → move_funds tx (tx.amount + transaction_fee) miner dev s
        ≡ (record s { balances = settled tx miner dev s.balances }, ok tt)
  unfolding move_funds
  move_funds-covered covered =
      let cost = tx.amount + transaction_fee in
      let m₁ : Map ℕ = charged tx s.balances in
      let m₂ : Map ℕ = raise tx.recipient tx.amount m₁ in
      let m₃ : Map ℕ = raise miner fee_distribution.0 m₂ in
      let spent =
        sum_values-insert tx.sender
          (lookup_or 0 tx.sender s.balances - (tx.amount + transaction_fee)) s.balances in
      let s₂ = sum_values-raise tx.recipient tx.amount m₁ in
      let s₃ = sum_values-raise miner fee_distribution.0 m₂ in
      rw (
        debit-covered tx.sender (tx.amount + transaction_fee) s covered,
        credit-fits tx.recipient tx.amount _ (record s { balances = m₁ }) (omega (arith, spent)),
        credit-fits miner fee_distribution.0 _ (record s { balances = m₂ })
            (omega (arith, spent, s₂, fee_shares)),
        credit-fits dev fee_distribution.1 _ (record s { balances = m₃ })
            (omega (arith, spent, s₂, s₃, fee_shares)),
      )

  move_funds-short :
      ¬ (tx.amount + transaction_fee ≤ lookup_or 0 tx.sender s.balances)
      → move_funds tx (tx.amount + transaction_fee) miner dev s ≡ (s, err insufficient_balance)
  unfolding move_funds debit
  move_funds-short short = ground arith

-- The sets of one scratch state are within those of another that agrees in all else.
pub record Within (r s : Scratch) : Type 0 where
  pub balances : r.balances ≡ s.balances
  pub nonces : r.next_nonces ≡ s.next_nonces
  pub in_block :
      (i : Hash) → contains i r.block_transactions ≡ true → contains i s.block_transactions ≡ true
  pub confirmed :
      (i : Hash)
      → contains i r.confirmed_transactions ≡ true
      → contains i s.confirmed_transactions ≡ true

module _ (sha3 : Bytes → Hash) (tx : Transaction) (miner dev : Hash) where
  abbrev id : Hash
  id = transaction_id sha3 tx

  pub advance : Scratch → Scratch
  advance s = record {
    balances = settled tx miner dev s.balances;
    next_nonces = insert tx.sender (wrap64 (tx.nonce + 1)) s.next_nonces;
    confirmed_transactions = add id s.confirmed_transactions;
    block_transactions = add id s.block_transactions;
  }

  claimed : Scratch → Scratch
  claimed s = record s {
    confirmed_transactions = add id s.confirmed_transactions;
    block_transactions = add id s.block_transactions;
  }

  record Admissible (s : Scratch) : Type 0 where
    new_in_block : contains id s.block_transactions ≡ false
    new_in_ledger : contains id s.confirmed_transactions ≡ false
    positive : 0 < tx.amount
    in_order : tx.nonce ≡ lookup_or 0 tx.sender s.next_nonces
    covered : tx.amount + transaction_fee ≤ lookup_or 0 tx.sender s.balances

  try-Admissible :
      (s : Scratch)
      → sum_values s.balances < u64_mod
      → Admissible s
      → try_apply_transaction sha3 tx miner dev s ≡ (advance s, ok tt)
  unfolding try_apply_transaction claim_id advance claimed
  try-Admissible s fits a = ground (
    arith,
    lookup_or-le-sum_values tx.sender s.balances,
    move_funds-covered tx miner dev (claimed s) fits a.covered,
  )

  -- A transaction that fails has changed nothing but the two sets of ids.
  try-refused :
      (s t : Scratch) (e : LedgerError)
      → sum_values s.balances < u64_mod
      → try_apply_transaction sha3 tx miner dev s ≡ (t, err e)
      → (t ≡ s)
        ⊎ (t ≡ record s { block_transactions = add id s.block_transactions })
        ⊎ (t ≡ claimed s)
  unfolding try_apply_transaction claim_id claimed
  try-refused s t e fits h = ground (
    arith,
    lookup_or-le-sum_values tx.sender s.balances,
    move_funds-covered tx miner dev (claimed s) fits,
    move_funds-short tx miner dev (claimed s) fits,
  )

  contains-add_of :
      (i : Hash) (xs : List Hash) → contains i xs ≡ true → contains i (add id xs) ≡ true
  contains-add_of i xs h = rw (contains-add id i xs, h) (ground arith)

  pub Within-refused :
      (r s t : Scratch) (e : LedgerError)
      → sum_values s.balances < u64_mod
      → try_apply_transaction sha3 tx miner dev s ≡ (t, err e)
      → Within r s
      → Within r t
  Within-refused r s t e fits h w = elim (try-refused s t e fits h) [
    | inl same ↦ subst (Within r) (sym same) w
    | inr (inl seen) ↦ subst (Within r) (sym seen) (record {
      balances = w.balances;
      nonces = w.nonces;
      in_block = λ i q. contains-add_of i s.block_transactions (w.in_block i q);
      confirmed = w.confirmed;
    })
    | inr (inr both) ↦ subst (Within r) (sym both) (
        unfold claimed in
        record {
          balances = w.balances;
          nonces = w.nonces;
          in_block = λ i q. contains-add_of i s.block_transactions (w.in_block i q);
          confirmed = λ i q. contains-add_of i s.confirmed_transactions (w.confirmed i q);
        })
  ]

  Within-advance : (r s : Scratch) → Within r s → Within (advance r) (advance s)
  unfolding advance
  Within-advance r s w = record {
    balances = ap (settled tx miner dev) w.balances;
    nonces = ap (insert tx.sender (wrap64 (tx.nonce + 1))) w.nonces;
    in_block = λ i h. ground (
      arith,
      contains-add id i r.block_transactions,
      contains-add id i s.block_transactions,
      w.in_block i,
    );
    confirmed = λ i h. ground (
      arith,
      contains-add id i r.confirmed_transactions,
      contains-add id i s.confirmed_transactions,
      w.confirmed i,
    );
  }

  Applied-Admissible : (s t : Scratch) → Applied sha3 tx miner dev s t → Admissible s
  Applied-Admissible s t a = record {
    new_in_block = a.new_in_block;
    new_in_ledger = a.new_in_ledger;
    positive = a.positive;
    in_order = a.in_order;
    covered = a.covered;
  }

  Admissible-Within : (r s : Scratch) → Within r s → Admissible s → Admissible r
  Admissible-Within r s w a = record {
    new_in_block = ground (arith, w.in_block id, a.new_in_block);
    new_in_ledger = ground (arith, w.confirmed id, a.new_in_ledger);
    positive = a.positive;
    in_order = rw w.nonces a.in_order;
    covered = rw w.balances a.covered;
  }

  sum_values-advance :
      (s : Scratch)
      → Admissible s
      → sum_values s.balances < u64_mod
      → sum_values (advance s).balances < u64_mod
  unfolding advance
  sum_values-advance s a fits = omega (arith, sum_values-settled tx miner dev s.balances a.covered)

  -- A transaction that the dry run accepts is accepted by a run with fewer ids, to the same end.
  pub accepted_also :
      (r s t : Scratch)
      → sum_values s.balances < u64_mod
      → Within r s
      → try_apply_transaction sha3 tx miner dev s ≡ (t, ok tt)
      → (try_apply_transaction sha3 tx miner dev r ≡ (advance r, ok tt))
        × Within (advance r) t
        × (sum_values t.balances < u64_mod)
  accepted_also r s t fits w h =
      let a = Applied-Admissible s t (try_apply_transaction-Applied sha3 tx miner dev s t h) in
      let at : advance s ≡ t = ap (λ x. x.0) (sym (try-Admissible s fits a) ∙ h) in
      (
        try-Admissible r (rw w.balances fits) (Admissible-Within r s w a),
        subst (Within (advance r)) at (Within-advance r s w),
        subst (λ (u : Scratch). sum_values u.balances < u64_mod) at (sum_values-advance s a fits),
      )
