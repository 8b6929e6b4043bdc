-- ===== src/Mempool/Waiting.antt =====
-- What holds of all transactions that wait holds of each batch.
use velodag_core.Prelude.{
  ℕ, ◌≤◌, ◌≡◌, refl, ap, Bool, false, some, List, [], ◌∷◌, arith, length, take, length-take-le,
  any_b, Map, lookup, erase, insert, keys, Option-cases, inl, inr,
}
use velodag_core.Types.{Hash, Bytes, Transaction}
use velodag_core.Block.{transaction_id}
use velodag_core.Mempool.{Mempool, add_transaction, remove_all, drain_to_batch}
use velodag_core.Mempool.Draining.{length-remove_all}

module _ (p : Transaction → Bool) where
  -- No transaction that waits in the map passes the test.
  abbrev pub NoneWaits : Map Transaction → Type 0
  NoneWaits m = any_b (λ e. p e.1) m ≡ false

  lookup-NoneWaits :
      (k : Hash) (tx : Transaction) (m : Map Transaction)
      → NoneWaits m
      → lookup k m ≡ some tx
      → p tx ≡ false
  unfolding any_b lookup
  lookup-NoneWaits k tx [] h found = cc
  lookup-NoneWaits k tx ((j, v) ∷ m) h found =
      ground (arith, h, found, lookup-NoneWaits k tx m, (λ (e : v ≡ tx). ap p e))

  erase-NoneWaits : (k : Hash) (m : Map Transaction) → NoneWaits m → NoneWaits (erase k m)
  unfolding any_b erase
  erase-NoneWaits k [] h = refl
  erase-NoneWaits k ((j, v) ∷ m) h = ground (arith, h, erase-NoneWaits k m)

  remove_all-NoneWaits :
      (ks : List Hash) (m : Map Transaction) → NoneWaits m → any_b p (remove_all ks m).1 ≡ false
  unfolding any_b remove_all
  remove_all-NoneWaits [] m h = refl
  remove_all-NoneWaits (k ∷ ks) m h = elim (Option-cases (lookup k m)) [
    | inl gone ↦ rw (gone, any_b) (remove_all-NoneWaits ks (erase k m) (erase-NoneWaits k m h))
    | inr (tx, found) ↦
        let fine = lookup-NoneWaits k tx m h found in
        rw (found, any_b, fine) (remove_all-NoneWaits ks (erase k m) (erase-NoneWaits k m h))
  ]

  -- A batch has at most the size asked for, and none of it passes the test.
  pub drain_to_batch-NoneWaits :
      (key_order : List Hash → List Hash) (max : ℕ) (pool : Mempool)
      → NoneWaits pool.pending_transactions
      → (any_b p (drain_to_batch key_order max pool).1 ≡ false)
        × (length (drain_to_batch key_order max pool).1 ≤ max)
  unfolding drain_to_batch
  drain_to_batch-NoneWaits key_order max pool h =
      let chosen = take max (key_order (keys pool.pending_transactions)) in
      (
        remove_all-NoneWaits chosen pool.pending_transactions h,
        omega (
          arith,
          length-remove_all chosen pool.pending_transactions,
          length-take-le max (key_order (keys pool.pending_transactions)),
        ),
      )

  insert-NoneWaits :
      (k : Hash) (tx : Transaction) (m : Map Transaction)
      → NoneWaits m
      → p tx ≡ false
      → NoneWaits (insert k tx m)
  unfolding any_b insert
  insert-NoneWaits k tx [] h fine = ground arith
  insert-NoneWaits k tx ((j, v) ∷ m) h fine = ground (arith, h, fine, insert-NoneWaits k tx m)

  -- A transaction that does not pass the test may be added.
  pub add_transaction-NoneWaits :
      (sha3 : Bytes → Hash) (tx : Transaction) (pool : Mempool)
      → NoneWaits pool.pending_transactions
      → p tx ≡ false
      → NoneWaits (add_transaction sha3 tx pool).0.pending_transactions
  unfolding add_transaction
  add_transaction-NoneWaits sha3 tx pool h fine =
      ground
        (arith, h, fine, insert-NoneWaits (transaction_id sha3 tx) tx pool.pending_transactions)

  remove_all-keeps :
      (ks : List Hash) (m : Map Transaction) → NoneWaits m → NoneWaits (remove_all ks m).0
  unfolding remove_all
  remove_all-keeps [] m h = h
  remove_all-keeps (k ∷ ks) m h =
      let ih = remove_all-keeps ks (erase k m) (erase-NoneWaits k m h) in
      elim (Option-cases (lookup k m)) [
        | inl gone ↦ rw (gone, remove_all) ih
        | inr (tx, found) ↦ rw (found, remove_all) ih
      ]

  -- What waits on after a batch was drained does not pass the test either.
  pub drain_to_batch-keeps :
      (key_order : List Hash → List Hash) (max : ℕ) (pool : Mempool)
      → NoneWaits pool.pending_transactions
      → NoneWaits (drain_to_batch key_order max pool).0.pending_transactions
  unfolding drain_to_batch
  drain_to_batch-keeps key_order max pool h =
      remove_all-keeps (take max (key_order (keys pool.pending_transactions)))
        pool.pending_transactions h
