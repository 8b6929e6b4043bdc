-- ===== src/Ledger/Replay.antt =====
-- Replay protection: ids are applied once, and nonces run without gaps.
use velodag_core.Prelude.{
  Bool, true, false, not, ◌&&◌, contains-add, ℕ, ◌+◌, ◌<◌, ◌≡◌, ◌≢◌, refl, sym, subst, Bool-cases,
  inl, inr, ap, ◌∙◌, List, [], ◌∷◌, arith, ◌==◌, ◌||◌, if◌then◌else◌, lookup_or, lookup_or-insert,
  contains, wrap64, u64_mod, ok, map,
}
use velodag_core.Types.{Hash, Bytes, Transaction, VeloBlock}
use velodag_core.Block.{transaction_id}
use velodag_core.Ledger.{
  LedgerState, Scratch, scratch_of, has_confirmed, apply_transactions, apply_block,
}
use velodag_core.Ledger.Blocks.{
  apply_transactions-cons, apply_transactions-nil, apply_block-Accepted, apply_block-zero,
}

-- How many of the transactions the account sent.
pub sent_count : Hash → List Transaction → ℕ
sent_count a [] = 0
sent_count a (tx ∷ txs) = (if tx.sender == a then 1 else 0) + sent_count a txs

-- No id stands in the list twice.
pub unrepeated : List Hash → Bool
unrepeated [] = true
unrepeated (x ∷ xs) = not (contains x xs) && unrepeated xs

module _ (sha3 : Bytes → Hash) where
  -- The ids of a block's transactions.
  abbrev pub ids : List Transaction → List Hash
  ids = map (transaction_id sha3)

  -- After the transactions exactly the old ids and theirs are confirmed, and theirs are all new.
  confirmed-apply_transactions :
      (txs : List Transaction) (miner dev : Hash) (s t : Scratch) (i : Hash)
      → apply_transactions sha3 txs miner dev s ≡ (t, ok tt)
      → (contains i t.confirmed_transactions
          ≡ (contains i (ids txs) || contains i s.confirmed_transactions))
        × (contains i (ids txs) ≡ true → contains i s.confirmed_transactions ≡ false)
  unfolding contains
  confirmed-apply_transactions [] miner dev s t i h = (
    ap (λ (u : Scratch). contains i u.confirmed_transactions)
        (apply_transactions-nil sha3 miner dev s t h),
    λ e. cc,
  )
  confirmed-apply_transactions (tx ∷ txs) miner dev s t i h =
      let (u, first, rest) = apply_transactions-cons sha3 tx txs miner dev s t h in
      let id : Hash = transaction_id sha3 tx in
      let grown = ap (contains i) first.confirmed ∙ contains-add id i s.confirmed_transactions in
      let (all, new) = confirmed-apply_transactions txs miner dev u t i rest in
      let old = first.new_in_ledger in
      let same : id ≡ i
          → contains id s.confirmed_transactions ≡ contains i s.confirmed_transactions =
        λ e. ap (λ j. contains j s.confirmed_transactions) e in
      ground (arith, grown, all, new, old, same)

  unrepeated-apply_transactions :
      (txs : List Transaction) (miner dev : Hash) (s t : Scratch)
      → apply_transactions sha3 txs miner dev s ≡ (t, ok tt)
      → unrepeated (ids txs) ≡ true
  unfolding unrepeated
  unrepeated-apply_transactions [] miner dev s t h = refl
  unrepeated-apply_transactions (tx ∷ txs) miner dev s t h =
      let (u, first, rest) = apply_transactions-cons sha3 tx txs miner dev s t h in
      let id = transaction_id sha3 tx in
      let later = confirmed-apply_transactions txs miner dev u t id rest in
      let taken : contains id u.confirmed_transactions ≡ true =
        ap (contains id) first.confirmed
        ∙ contains-add id id s.confirmed_transactions
        ∙ (ground arith) in
      ground (arith, later.1, taken, unrepeated-apply_transactions txs miner dev u t rest)

  abbrev Confirms : LedgerState → LedgerState → List Transaction → Hash → Type 0
  Confirms s s' txs i =
      (has_confirmed s' i ≡ (contains i (ids txs) || has_confirmed s i))
      × ((contains i (ids txs) && has_confirmed s i) ≡ false)
      × (unrepeated (ids txs) ≡ true)

  empty-Confirms : (s : LedgerState) (i : Hash) → Confirms s s [] i
  unfolding contains unrepeated
  empty-Confirms s i = (refl, refl, refl)

  above_zero-Confirms :
      (s s' : LedgerState) (b : VeloBlock) (i : Hash)
      → b.header.height ≢ 0
      → apply_block sha3 s b ≡ (s', ok tt)
      → Confirms s s' b.transactions i
  unfolding has_confirmed
  above_zero-Confirms s s' b i high h =
      let a = apply_block-Accepted sha3 s s' b high h in
      let (all, new) =
        confirmed-apply_transactions b.transactions b.coinbase_miner_address b.coinbase_dev_address
          (scratch_of s) a.after i a.applied in
      (
        ap (contains i) a.confirmed ∙ all,
        ground (arith, new),
        unrepeated-apply_transactions b.transactions b.coinbase_miner_address b.coinbase_dev_address
            (scratch_of s) a.after a.applied,
      )

  -- After an accepted block an id is confirmed exactly if it was before or is in the block. An id of
  -- the block was not confirmed before, and none stands in the block twice.
  pub apply_block-confirmed :
      (s s' : LedgerState) (b : VeloBlock) (i : Hash)
      → apply_block sha3 s b ≡ (s', ok tt)
      → (has_confirmed s' i ≡ (contains i (ids b.transactions) || has_confirmed s i))
        × ((contains i (ids b.transactions) && has_confirmed s i) ≡ false)
        × (unrepeated (ids b.transactions) ≡ true)
  apply_block-confirmed s s' b i h = elim (Bool-cases (b.header.height == 0)) [
    | inl low ↦
        let (no_txs, same) = apply_block-zero sha3 s s' b low h in
        subst (λ txs. Confirms s s' txs i) (sym no_txs)
          (subst (λ v. Confirms s v [] i) (sym same) (empty-Confirms s i))
    | inr above ↦ above_zero-Confirms s s' b i (λ e. absurd (ground (arith, above, e))) h
  ]

  nonces-apply_transactions :
      (txs : List Transaction) (miner dev : Hash) (s t : Scratch) (a : Hash)
      → apply_transactions sha3 txs miner dev s ≡ (t, ok tt)
      → lookup_or 0 a s.next_nonces < u64_mod
      → (lookup_or 0 a t.next_nonces ≡ wrap64 (lookup_or 0 a s.next_nonces + sent_count a txs))
  unfolding sent_count
  nonces-apply_transactions [] miner dev s t a h fits = omega (
    arith,
    ap (λ (u : Scratch). lookup_or 0 a u.next_nonces) (apply_transactions-nil sha3 miner dev s t h),
  )
  nonces-apply_transactions (tx ∷ txs) miner dev s t a h fits =
      let (u, first, rest) = apply_transactions-cons sha3 tx txs miner dev s t h in
      let next =
        ap (lookup_or 0 a) first.nonces
        ∙ lookup_or-insert 0 tx.sender a (wrap64 (tx.nonce + 1)) s.next_nonces in
      let same : tx.sender ≡ a → lookup_or 0 tx.sender s.next_nonces ≡ lookup_or 0 a s.next_nonces =
        λ e. ap (λ k. lookup_or 0 k s.next_nonces) e in
      ground (arith, next, first.in_order, same, nonces-apply_transactions txs miner dev u t a rest)

  -- After an accepted block each account's next nonce has moved by the number of its transactions in
  -- the block, wrapping at 2^64, if it was below 2^64 before.
  pub apply_block-nonces :
      (s s' : LedgerState) (b : VeloBlock) (a : Hash)
      → lookup_or 0 a s.next_nonces < u64_mod
      → apply_block sha3 s b ≡ (s', ok tt)
      → lookup_or 0 a s'.next_nonces
        ≡ wrap64 (lookup_or 0 a s.next_nonces + sent_count a b.transactions)
  unfolding sent_count
  apply_block-nonces s s' b a fits h = elim (Bool-cases (b.header.height == 0)) [
    | inl low ↦
        let (no_txs, same) = apply_block-zero sha3 s s' b low h in
        ap (λ (v : LedgerState). lookup_or 0 a v.next_nonces) same
        ∙ (omega (arith, fits))
        ∙ ap (λ txs. wrap64 (lookup_or 0 a s.next_nonces + sent_count a txs)) (sym no_txs)
    | inr above ↦
        let c = apply_block-Accepted sha3 s s' b (λ e. absurd (ground (arith, above, e))) h in
        ap (lookup_or 0 a) c.nonces
        ∙ nonces-apply_transactions b.transactions b.coinbase_miner_address b.coinbase_dev_address
            (scratch_of s) c.after a c.applied fits
  ]
