-- ===== src/Ledger/Steps.antt =====
-- What a transaction does to the scratch state when it is applied.
use velodag_core.Prelude.{
  ℕ, ◌+◌, ◌-◌, ◌≤◌, ◌<◌, ◌≡◌, Bool, true, false, arith, ◌==◌, Map, lookup_or, insert, contains, add,
  wrap64, u64_mod, ok, ok_or, >>-eq-ok, not, fail-ne-ok, checked_add, ltb, Bool-cases, inl, inr,
  ◌>>=◌, ap, sym, ==_iff,
}
use velodag_core.Types.{Hash, Bytes, transaction_fee, Transaction}
use velodag_core.Block.{transaction_id, fee_distribution}
use velodag_core.Ledger.{
  Step, cost_overflow, amount_not_positive, invalid_nonce, LedgerError, recipient_overflow,
  miner_fee_overflow, move_funds, Scratch, claim_id, check, debit, credit, try_apply_transaction,
}

-- `balances.insert(k, balance + v)`
abbrev pub raise : Hash → ℕ → Map ℕ → Map ℕ
raise k v m = insert k (lookup_or 0 k m + v) m

abbrev pub charged : Transaction → Map ℕ → Map ℕ
charged tx m = insert tx.sender (lookup_or 0 tx.sender m - (tx.amount + transaction_fee)) m

-- The balances after a transaction: the sender pays amount and fee, then come three credits.
abbrev pub settled : Transaction → Hash → Hash → Map ℕ → Map ℕ
settled tx miner dev m =
    raise dev fee_distribution.1
      (raise miner fee_distribution.0 (raise tx.recipient tx.amount (charged tx m)))

pub debit-eq-ok :
    (a : Hash) (v : ℕ) (s t : Scratch)
    → debit a v s ≡ (t, ok tt)
    → (v ≤ lookup_or 0 a s.balances)
      × (t ≡ record s { balances = insert a (lookup_or 0 a s.balances - v) s.balances })
unfolding debit
debit-eq-ok a v s t h = ground arith

pub credit-eq-ok :
    (a : Hash) (v : ℕ) (e : LedgerError) (s t : Scratch)
    → credit a v e s ≡ (t, ok tt)
    → (lookup_or 0 a s.balances + v < u64_mod) × (t ≡ record s { balances = raise a v s.balances })
unfolding credit
credit-eq-ok a v e s t h = ground arith

move_funds-eq-ok :
    (tx : Transaction) (miner dev : Hash) (s t : Scratch)
    → move_funds tx (tx.amount + transaction_fee) miner dev s ≡ (t, ok tt)
    → (tx.amount + transaction_fee ≤ lookup_or 0 tx.sender s.balances)
      × (t ≡ record s { balances = settled tx miner dev s.balances })
unfolding move_funds
move_funds-eq-ok tx miner dev s t h =
    let (covered, h₁) =
      >>-eq-ok (debit tx.sender (tx.amount + transaction_fee)) _ s _ t tt (debit-eq-ok _ _ s) h in
    let (_, h₂) =
      >>-eq-ok (credit tx.recipient tx.amount recipient_overflow) _ _ _ t tt (credit-eq-ok _ _ _ _)
        h₁ in
    let (_, h₃) =
      >>-eq-ok (credit miner fee_distribution.0 miner_fee_overflow) _ _ _ t tt
        (credit-eq-ok _ _ _ _) h₂ in
    (covered, (credit-eq-ok _ _ _ _ t h₃).1)

claim_id-eq-ok :
    (i : Hash) (s t : Scratch)
    → claim_id i s ≡ (t, ok tt)
    → ((contains i s.block_transactions ≡ false) × (contains i s.confirmed_transactions ≡ false))
      × (t ≡ record s {
        block_transactions = add i s.block_transactions;
        confirmed_transactions = add i s.confirmed_transactions;
      })
unfolding claim_id
claim_id-eq-ok i s t h = ground arith

pub check-eq-ok :
    (b : Bool) (e : LedgerError) (s t : Scratch) → check b e s ≡ (t, ok tt) → (b ≡ true) × (t ≡ s)
unfolding check
check-eq-ok b e s t h = ground arith

-- The sum that a successful block goes on with is exact.
checked_add-eq-ok :
    (a b : ℕ) (e : LedgerError) (k : ℕ → Step Unit) (s t : Scratch)
    → (ok_or (checked_add a b) e >>= k) s ≡ (t, ok tt)
    → k (a + b) s ≡ (t, ok tt)
checked_add-eq-ok a b e k s t h = elim (Bool-cases (ltb (a + b) u64_mod)) [
  | inl fits ↦ rw fits at h
  | inr over ↦ absurd (fail-ne-ok e s t tt (rw over at h))
]

module _ (sha3 : Bytes → Hash) (tx : Transaction) (miner dev : Hash) where
  pub record Applied (s t : Scratch) : Type 0 where
    pub new_in_block : contains (transaction_id sha3 tx) s.block_transactions ≡ false
    pub new_in_ledger : contains (transaction_id sha3 tx) s.confirmed_transactions ≡ false
    pub positive : 0 < tx.amount
    pub in_order : tx.nonce ≡ lookup_or 0 tx.sender s.next_nonces
    pub covered : tx.amount + transaction_fee ≤ lookup_or 0 tx.sender s.balances
    pub balances : t.balances ≡ settled tx miner dev s.balances
    pub nonces : t.next_nonces ≡ insert tx.sender (wrap64 (tx.nonce + 1)) s.next_nonces
    pub confirmed : t.confirmed_transactions ≡ add (transaction_id sha3 tx) s.confirmed_transactions
    pub in_block : t.block_transactions ≡ add (transaction_id sha3 tx) s.block_transactions

  pub try_apply_transaction-Applied :
      (s t : Scratch) → try_apply_transaction sha3 tx miner dev s ≡ (t, ok tt) → Applied s t
  unfolding try_apply_transaction
  try_apply_transaction-Applied s t h =
      let id : Hash = transaction_id sha3 tx in
      let nonce : ℕ = lookup_or 0 tx.sender s.next_nonces in
      let claimed : Scratch = record s {
        confirmed_transactions = add id s.confirmed_transactions;
        block_transactions = add id s.block_transactions;
      } in
      let (fresh, h₁) = >>-eq-ok (claim_id id) _ s claimed t tt (claim_id-eq-ok id s) h in
      let positive = not (tx.amount == 0) in
      let (p, h₂) =
        >>-eq-ok (check positive amount_not_positive) _ claimed claimed t tt
          (check-eq-ok positive amount_not_positive claimed) h₁ in
      let next = tx.nonce == nonce in
      let (q, h₃) =
        >>-eq-ok (check next (invalid_nonce nonce tx.nonce)) _ claimed claimed t tt
          (check-eq-ok next (invalid_nonce nonce tx.nonce) claimed) h₂ in
      let h₄ = checked_add-eq-ok tx.amount transaction_fee cost_overflow _ claimed t h₃ in
      let (covered, h₅) =
        >>-eq-ok (move_funds tx (tx.amount + transaction_fee) miner dev) _ claimed _ t tt
          (move_funds-eq-ok tx miner dev claimed) h₄ in
      let at = ap (λ r. r.0) (sym h₅) in
      let in_order : tx.nonce ≡ nonce = (==_iff tx.nonce nonce).0 q in
      record {
        new_in_block = fresh.0;
        new_in_ledger = fresh.1;
        positive = ground arith;
        in_order = in_order;
        covered = covered;
        balances = ap (λ (u : Scratch). u.balances) at;
        nonces = rw in_order (ap (λ (u : Scratch). u.next_nonces) at);
        confirmed = ap (λ (u : Scratch). u.confirmed_transactions) at;
        in_block = ap (λ (u : Scratch). u.block_transactions) at;
      }
