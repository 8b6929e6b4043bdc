-- ===== src/Ledger/Select.antt =====
-- `select_affordable`: what it accepts does apply, in that order, from the same ledger.
pub mod Covered
use velodag_core.Prelude.{
  ℕ, ◌+◌, ◌-◌, ◌≤◌, ◌<◌, ◌≡◌, refl, sym, ap, ◌∙◌, ◌⊎◌, inl, inr, true, false, List, [], ◌∷◌, arith,
  subst, Exec-cases, Map, lookup_or, insert, sum_values, sum_values-insert, contains, add,
  contains-add, wrap64, u64_mod, ok, err, map,
}
use velodag_core.Types.{Hash, Bytes, transaction_fee, Transaction}
use velodag_core.Block.{transaction_id, fee_distribution}
use velodag_core.Ledger.{
  LedgerError, insufficient_balance, LedgerState, Scratch, scratch_of, claim_id, debit, credit,
  move_funds, try_apply_transaction, apply_transactions, route, select_loop, select_affordable,
}
use velodag_core.Ledger.Steps.{raise, charged, settled, Applied, try_apply_transaction-Applied}
use velodag_core.Ledger.Supply.{fee_shares, sum_values-raise, sum_values-settled}
use velodag_core.Ledger.Select.Covered.{Within, Within-refused, accepted_also, advance}

-- Each of the transactions stands in exactly one of two lists, in the order it had.
pub data Split : List Transaction → List Transaction → List Transaction → Type 0 where
  neither : Split [] [] []
  accepted :
      {all left right : List Transaction} (tx : Transaction)
      → Split all left right
      → Split (tx ∷ all) (tx ∷ left) right
  refused :
      {all left right : List Transaction} (tx : Transaction)
      → Split all left right
      → Split (tx ∷ all) left (tx ∷ right)

module _ (sha3 : Bytes → Hash) (miner dev : Hash) where
  apply_transactions-step :
      (tx : Transaction) (txs : List Transaction) (r u t : Scratch)
      → try_apply_transaction sha3 tx miner dev r ≡ (u, ok tt)
      → apply_transactions sha3 txs miner dev u ≡ (t, ok tt)
      → apply_transactions sha3 (tx ∷ txs) miner dev r ≡ (t, ok tt)
  unfolding apply_transactions
  apply_transactions-step tx txs r u t first rest = rw first rest

  select_loop-ok :
      (tx : Transaction) (txs : List Transaction) (s t : Scratch)
      → try_apply_transaction sha3 tx miner dev s ≡ (t, ok tt)
      → select_loop sha3 (tx ∷ txs) miner dev s
        ≡ (tx ∷ (select_loop sha3 txs miner dev t).0, (select_loop sha3 txs miner dev t).1)
  unfolding select_loop
  select_loop-ok tx txs s t h = ap (λ p. route tx p.1 (select_loop sha3 txs miner dev p.0)) h

  select_loop-err :
      (tx : Transaction) (txs : List Transaction) (s t : Scratch) (e : LedgerError)
      → try_apply_transaction sha3 tx miner dev s ≡ (t, err e)
      → select_loop sha3 (tx ∷ txs) miner dev s
        ≡ ((select_loop sha3 txs miner dev t).0, (tx, e) ∷ (select_loop sha3 txs miner dev t).1)
  unfolding select_loop
  select_loop-err tx txs s t e h = ap (λ p. route tx p.1 (select_loop sha3 txs miner dev p.0)) h

  abbrev Applies : List Transaction → Scratch → Type 0
  Applies txs r = (t : Scratch) × (apply_transactions sha3 txs miner dev r ≡ (t, ok tt))

  select_loop-Applies :
      (txs : List Transaction) (r s : Scratch)
      → sum_values s.balances < u64_mod
      → Within r s
      → Applies (select_loop sha3 txs miner dev s).0 r
  unfolding select_loop apply_transactions
  select_loop-Applies [] r s fits w = (r, refl)
  select_loop-Applies (tx ∷ txs) r s fits w =
      elim (Exec-cases (try_apply_transaction sha3 tx miner dev s)) [
        | inl (t, _, good) ↦
            let (first, w', fits') = accepted_also sha3 tx miner dev r s t fits w good in
            let (u, rest) = select_loop-Applies txs (advance sha3 tx miner dev r) t fits' w' in
            subst (λ l. Applies l.0 r) (sym (select_loop-ok tx txs s t good))
              (u, apply_transactions-step tx _ r _ u first rest)
        | inr (t, e, bad) ↦
            let w' = Within-refused sha3 tx miner dev r s t e fits bad w in
            let fits' = refused-fits r s t w w' fits in
            subst (λ l. Applies l.0 r) (sym (select_loop-err tx txs s t e bad))
              (select_loop-Applies txs r t fits' w')
      ]
    where
      refused-fits :
          (r s t : Scratch)
          → Within r s
          → Within r t
          → sum_values s.balances < u64_mod
          → sum_values t.balances < u64_mod
      refused-fits r s t w w' h = rw (sym w'.balances ∙ w.balances) h

  -- While all balances together stay below 2^64, a transaction that fails, whichever of its steps
  -- fails, leaves all balances and all next nonces as they were.
  pub try_apply_transaction-refused :
      (tx : Transaction) (s t : Scratch) (e : LedgerError)
      → sum_values s.balances < u64_mod
      → try_apply_transaction sha3 tx miner dev s ≡ (t, err e)
      → (t.balances ≡ s.balances) × (t.next_nonces ≡ s.next_nonces)
  try_apply_transaction-refused tx s t e fits h =
      let same =
        Within-refused sha3 tx miner dev s s t e fits h
          (record { balances = refl; nonces = refl; in_block = λ i q. q; confirmed = λ i q. q }) in
      (sym same.balances, sym same.nonces)

  -- While all balances together stay below 2^64, the transactions that `select_affordable` accepts,
  -- taken in the order it returns them, apply to the same ledger without an error.
  pub select_affordable-applies :
      (s : LedgerState) (candidates : List Transaction)
      → sum_values s.balances < u64_mod
      → (t : Scratch) × (apply_transactions sha3
            (select_affordable sha3 s candidates miner dev).0
            miner
            dev
            (scratch_of s)
          ≡ (t, ok tt))
  unfolding select_affordable
  select_affordable-applies s candidates fits =
      select_loop-Applies candidates (scratch_of s) (scratch_of s) fits
        (record { balances = refl; nonces = refl; in_block = λ i h. h; confirmed = λ i h. h })

  abbrev SplitBy : List Transaction → List Transaction × List (Transaction × LedgerError) → Type 0
  SplitBy all r = Split all r.0 (map (λ x. x.0) r.1)

  select_loop-Split :
      (txs : List Transaction) (s : Scratch) → SplitBy txs (select_loop sha3 txs miner dev s)
  unfolding select_loop
  select_loop-Split [] s = neither
  select_loop-Split (tx ∷ txs) s = elim (Exec-cases (try_apply_transaction sha3 tx miner dev s)) [
    | inl (t, _, good) ↦
        subst (SplitBy (tx ∷ txs)) (sym (select_loop-ok tx txs s t good))
          (accepted tx (select_loop-Split txs t))
    | inr (t, e, bad) ↦
        subst (SplitBy (tx ∷ txs)) (sym (select_loop-err tx txs s t e bad))
          (refused tx (select_loop-Split txs t))
  ]

  -- No candidate is lost: each is accepted, or refused with a reason, and both lists keep the order.
  pub select_affordable-Split :
      (s : LedgerState) (candidates : List Transaction)
      → Split candidates
          (select_affordable sha3 s candidates miner dev).0
          (map (λ x. x.0) (select_affordable sha3 s candidates miner dev).1)
  unfolding select_affordable
  select_affordable-Split s candidates = select_loop-Split candidates (scratch_of s)
