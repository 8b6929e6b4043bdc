-- ===== src/Node/Network/Serving.antt =====
-- What a node answers to a peer that catches up.
use velodag_core.Prelude.{
  ℕ, zero, suc, ◌≢◌, ==_iff, ◌≤◌, ◌<◌, ◌≡◌, ◌⊎◌, inl, inr, refl, Bool, false, List, [], ◌∷◌, arith,
  ltb, ltb→lt, ◌==◌, length, filter_b, take, length-take-le, Bool-cases,
}
use velodag_core.Types.{Hash, VeloBlock}
use velodag_core.Node.Sync.{SyncRequest, blocks, genesis_mismatch}
use velodag_core.Node.Network.Events.{build_sync_response}

-- Every block of the list is above a height.
pub AllAbove : ℕ → List VeloBlock → Type 0
AllAbove h [] = Unit
AllAbove h (b ∷ bs) = (h < b.header.height) × AllAbove h bs

-- The first list's elements stand in the second in the same order.
pub data Subsequence : List VeloBlock → List VeloBlock → Type 0 where
  done : {ys : List VeloBlock} → Subsequence [] ys
  keep :
      {xs ys : List VeloBlock} (b : VeloBlock) → Subsequence xs ys → Subsequence (b ∷ xs) (b ∷ ys)
  skip : {xs ys : List VeloBlock} (b : VeloBlock) → Subsequence xs ys → Subsequence xs (b ∷ ys)

above : ℕ → VeloBlock → Bool
above h b = ltb h b.header.height

filter_b-AllAbove : (n h : ℕ) (bs : List VeloBlock) → AllAbove h (take n (filter_b (above h) bs))
unfolding take filter_b AllAbove above
filter_b-AllAbove zero h bs = tt
filter_b-AllAbove (suc n) h [] = tt
filter_b-AllAbove (suc n) h (b ∷ bs) = elim (Bool-cases (ltb h b.header.height)) [
  | inl over ↦ rw over (ltb→lt _ _ over, filter_b-AllAbove n h bs)
  | inr under ↦ rw under (filter_b-AllAbove (suc n) h bs)
]

filter_b-Subsequence :
    (n h : ℕ) (bs : List VeloBlock) → Subsequence (take n (filter_b (above h) bs)) bs
unfolding take filter_b above
filter_b-Subsequence zero h bs = done
filter_b-Subsequence (suc n) h [] = done
filter_b-Subsequence (suc n) h (b ∷ bs) = elim (Bool-cases (ltb h b.header.height)) [
  | inl over ↦ rw over (keep b (filter_b-Subsequence n h bs))
  | inr under ↦ rw under (skip b (filter_b-Subsequence (suc n) h bs))
]

-- A request for the node's network and genesis gets at most 500 blocks, all above the height asked
-- for and in the order in which the node came to know them; any other request gets the mismatch.
pub build_sync_response_lem :
    (request : SyncRequest) (genesis : Hash) (history : List VeloBlock) (network : ℕ)
    → (request.network_id ≡ network)
        × (request.genesis_hash ≡ genesis)
        × ((bs : List VeloBlock) × (build_sync_response request genesis history network ≡ blocks bs)
            × (length bs ≤ 500)
            × AllAbove request.since_height bs
            × Subsequence bs history)
      ⊎ ((request.network_id ≢ network) ⊎ (request.genesis_hash ≢ genesis))
        × (build_sync_response request genesis history network ≡ genesis_mismatch)
unfolding build_sync_response above
build_sync_response_lem request genesis history network =
    let h = request.since_height in
    elim (Bool-cases (request.network_id == network)) [
      | inr other ↦ inr (inl (differs _ _ other), rw other refl)
      | inl net ↦ elim (Bool-cases (request.genesis_hash == genesis)) [
        | inr other ↦ inr (inr (differs _ _ other), rw (net, other) refl)
        | inl gen ↦ inl (
          (==_iff _ _).0 net,
          (==_iff _ _).0 gen,
          (
            take 500 (filter_b (above h) history),
            rw (net, gen) refl,
            length-take-le 500 (filter_b (above h) history),
            filter_b-AllAbove 500 h history,
            filter_b-Subsequence 500 h history,
          ),
        )
      ]
    ]
  where
    differs : (a b : ℕ) → (a == b) ≡ false → a ≢ b
    differs a b e p = absurd (ground arith)
