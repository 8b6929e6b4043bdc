-- ===== src/Mempool.antt =====
-- vdag-consensus/src/lib.rs, `Mempool`: the queue of transactions that wait for a block. The order in
-- which the hash map yields its keys is the parameter `key_order`.
pub mod Draining
pub mod Waiting
mod Tests
use velodag_core.Prelude.{
  ℕ, Bool, true, false, Option, none, some, List, [], ◌∷◌, if◌then◌else◌, take, Map, lookup, insert,
  erase, contains_key, keys,
}
use velodag_core.Types.{Hash, Bytes, Transaction}
use velodag_core.Block.{transaction_id}

pub record Mempool : Type 0 where
  pub pending_transactions : Map Transaction

abbrev pub new_mempool : Mempool
new_mempool = record { pending_transactions = [] }

unfoldable pub add_transaction : (Bytes → Hash) → Transaction → Mempool → Mempool × Bool
add_transaction sha3 tx p =
    let tx_id = transaction_id sha3 tx in
    if contains_key tx_id p.pending_transactions
    then (p, false)
    else (record p { pending_transactions = insert tx_id tx p.pending_transactions }, true)

-- `for key in keys { if let Some(tx) = remove(&key) { batch.push(tx) } }`
pub remove_all : List Hash → Map Transaction → Map Transaction × List Transaction
remove_all [] m = (m, [])
remove_all (key ∷ rest) m =
    let later = remove_all rest (erase key m) in
    elim (lookup key m) [ none ↦ later | some tx ↦ (later.0, tx ∷ later.1) ]

unfoldable pub drain_to_batch : (List Hash → List Hash) → ℕ → Mempool → Mempool × List Transaction
unfolding remove_all
drain_to_batch key_order max_batch_size p =
    let drained =
      remove_all (take max_batch_size (key_order (keys p.pending_transactions)))
        p.pending_transactions in
    (record p { pending_transactions = drained.0 }, drained.1)
