-- ===== src/Mempool/Draining.antt =====
-- Draining moves transactions from the queue to the batch: none is lost and none stays in both.
use velodag_core.Prelude.{
  ℕ, ◌≤◌, ◌≡◌, refl, ap, ◌∙◌, true, false, none, some, ◌⊎◌, Bool-cases, ==_iff, Option-cases, inl,
  inr, List, [], ◌∷◌, arith, ◌==◌, if◌then◌else◌, length, take, length-take-le, contains, Map,
  lookup, erase, keys, contains_key, lookup-insert, lookup-erase,
}
use velodag_core.Types.{Hash, Bytes, Transaction}
use velodag_core.Block.{transaction_id}
use velodag_core.Mempool.{Mempool, add_transaction, remove_all, drain_to_batch}

-- The transaction that waits under an id is the one added, and adding one twice changes nothing.
pub add_transaction-lookup :
    (sha3 : Bytes → Hash) (tx : Transaction) (p : Mempool) (i : Hash)
    → let added = add_transaction sha3 tx p in
      let id = transaction_id sha3 tx in
      (lookup i added.0.pending_transactions ≡ (
        if added.1
        then (if id == i then some tx else lookup i p.pending_transactions)
        else lookup i p.pending_transactions))
      × (add_transaction sha3 tx added.0 ≡ (added.0, false))
unfolding add_transaction contains_key
add_transaction-lookup sha3 tx p i =
    let id = transaction_id sha3 tx in
    ground (
      arith,
      lookup-insert id i tx p.pending_transactions,
      lookup-insert id id tx p.pending_transactions,
    )

pub length-remove_all :
    (ks : List Hash) (m : Map Transaction) → length (remove_all ks m).1 ≤ length ks
unfolding remove_all
length-remove_all [] m = omega arith
length-remove_all (k ∷ ks) m = ground (arith, length-remove_all ks (erase k m))

lookup-remove_all :
    (ks : List Hash) (m : Map Transaction) (i : Hash)
    → lookup i (remove_all ks m).0 ≡ (if contains i ks then none else lookup i m)
unfolding remove_all contains
lookup-remove_all [] m i = refl
lookup-remove_all (k ∷ ks) m i =
    ground (arith, lookup-remove_all ks (erase k m) i, lookup-erase k i m)

-- What stands in a list of transactions, by index of the first.
pub data Listed (tx : Transaction) : List Transaction → Type 0 where
  first : (txs : List Transaction) → Listed tx (tx ∷ txs)
  later : {txs : List Transaction} (other : Transaction) → Listed tx txs → Listed tx (other ∷ txs)

Listed-remove_all :
    (ks : List Hash) (m : Map Transaction) (i : Hash) (tx : Transaction)
    → contains i ks ≡ true
    → lookup i m ≡ some tx
    → Listed tx (remove_all ks m).1
unfolding remove_all contains
Listed-remove_all [] m i tx c h = cc
Listed-remove_all (k ∷ ks) m i tx c h = elim (Bool-cases (k == i)) [
  | inl same ↦
      let here : lookup k m ≡ some tx = ap (λ j. lookup j m) ((==_iff k i).0 same) ∙ h in
      rw (here, remove_all) (first _)
  | inr other ↦
      let ih =
        Listed-remove_all ks (erase k m) i tx (ground arith) (ground (arith, lookup-erase k i m)) in
      elim (Option-cases (lookup k m)) [
        | inl none_ ↦ rw (none_, remove_all) ih
        | inr (tx', e) ↦ rw (e, remove_all) (later tx' ih)
      ]
]

-- A batch has at most the size asked for. What waited under an id still waits unless the id is among
-- the first keys that the map yields, in which case it is in the batch and waits no longer.
pub drain_to_batch_moves :
    (key_order : List Hash → List Hash) (max : ℕ) (p : Mempool) (i : Hash) (tx : Transaction)
    → lookup i p.pending_transactions ≡ some tx
    → let drained = drain_to_batch key_order max p in
      let chosen = take max (key_order (keys p.pending_transactions)) in
      (length drained.1 ≤ max)
      × ((contains i chosen ≡ true)
            × Listed tx drained.1
            × (lookup i drained.0.pending_transactions ≡ none)
          ⊎ (contains i chosen ≡ false) × (lookup i drained.0.pending_transactions ≡ some tx))
unfolding drain_to_batch
drain_to_batch_moves key_order max p i tx h =
    let m = p.pending_transactions in
    let chosen = take max (key_order (keys m)) in
    (
      omega (arith, length-remove_all chosen m, length-take-le max (key_order (keys m))),
      elim (Bool-cases (contains i chosen)) [
        | inl out ↦ inl (
          out,
          Listed-remove_all chosen m i tx out h,
          ground (arith, lookup-remove_all chosen m i),
        )
        | inr in_ ↦ inr (in_, ground (arith, lookup-remove_all chosen m i))
      ],
    )
