-- ===== src/Mempool/Tests.antt =====
-- A queue with one waiting payment.
use velodag_core.Prelude.{
  ◌≤◌, ◌≡◌, ◌⊎◌, refl, true, false, none, some, [], ◌∷◌, lookup, keys, take, contains, length,
}
use velodag_core.Fixtures.{payment}
use velodag_core.Mempool.{Mempool, drain_to_batch}
use velodag_core.Mempool.Draining.{Listed, drain_to_batch_moves}

abbrev waiting : Mempool
waiting = record { pending_transactions = (4, payment) ∷ (6, payment) ∷ [] }

waiting-6 : lookup 6 waiting.pending_transactions ≡ some payment
unfolding lookup
waiting-6 = refl

drain_to_batch_moves_example :
    let drained = drain_to_batch (λ ks. ks) 1 waiting in
    let chosen = take 1 (keys waiting.pending_transactions) in
    (length drained.1 ≤ 1)
    × ((contains 6 chosen ≡ true)
          × Listed payment drained.1
          × (lookup 6 drained.0.pending_transactions ≡ none)
        ⊎ (contains 6 chosen ≡ false) × (lookup 6 drained.0.pending_transactions ≡ some payment))
drain_to_batch_moves_example = drain_to_batch_moves (λ ks. ks) 1 waiting 6 payment waiting-6
