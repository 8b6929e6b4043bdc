-- ===== src/Block/Merkle.antt =====
-- The Merkle commitment: the loop ends with one hash; an odd list and the list with its last entry
-- doubled have the same root.
use velodag_core.Prelude.{
  ℕ, zero, suc, ◌+◌, ◌*◌, ◌≤◌, ◌<◌, ◌≡◌, refl, sym, ap, ◌∙◌, List, [], ◌∷◌, ◌++◌, map, arith,
  length, length-append,
}
use velodag_core.Types.{Hash, Bytes, Transaction}
use velodag_core.Block.{
  transaction_id, pair_hash, next_layer, merkle_loop, first_or_zero, transaction_merkle_root,
}

map-append :
    (f : Transaction → Hash) (xs ys : List Transaction) → map f (xs ++ ys) ≡ map f xs ++ map f ys
map-append f [] ys = refl
map-append f (x ∷ xs) ys = ap (◌∷◌ (f x)) (map-append f xs ys)

length-map : (f : Transaction → Hash) (xs : List Transaction) → length (map f xs) ≡ length xs
length-map f [] = refl
length-map f (x ∷ xs) = ap suc (length-map f xs)

module _ (sha3 : Bytes → Hash) where
  length-next_layer :
      (xs : List Hash) → length (next_layer sha3 xs) + length (next_layer sha3 xs) ≤ length xs + 1
  unfolding next_layer
  length-next_layer [] = omega arith
  length-next_layer (a ∷ []) = omega arith
  length-next_layer (a ∷ b ∷ rest) = omega (arith, length-next_layer rest)

  -- Each round at least halves the layer, so as many rounds as there are entries are enough.
  pub merkle_loop-singleton :
      (fuel : ℕ) (a : Hash) (xs : List Hash)
      → length xs < fuel
      → (root : Hash) × (merkle_loop sha3 fuel (a ∷ xs) ≡ root ∷ [])
  unfolding merkle_loop next_layer
  merkle_loop-singleton zero a xs lt = absurd (omega arith)
  merkle_loop-singleton (suc fuel) a [] lt = (a, refl)
  merkle_loop-singleton (suc fuel) a (b ∷ rest) lt =
      merkle_loop-singleton fuel (pair_hash sha3 a b) (next_layer sha3 rest)
        (omega (arith, length-next_layer rest))

  -- More fuel than needed changes nothing.
  merkle_loop-fuel :
      (fuel more : ℕ) (xs : List Hash)
      → length xs ≤ fuel
      → length xs ≤ more
      → merkle_loop sha3 fuel xs ≡ merkle_loop sha3 more xs
  unfolding merkle_loop next_layer
  merkle_loop-fuel zero zero xs le le' = refl
  merkle_loop-fuel zero (suc more) [] le le' = refl
  merkle_loop-fuel zero (suc more) (a ∷ xs) le le' = absurd (omega arith)
  merkle_loop-fuel (suc fuel) zero [] le le' = refl
  merkle_loop-fuel (suc fuel) zero (a ∷ xs) le le' = absurd (omega arith)
  merkle_loop-fuel (suc fuel) (suc more) [] le le' = refl
  merkle_loop-fuel (suc fuel) (suc more) (a ∷ []) le le' = refl
  merkle_loop-fuel (suc fuel) (suc more) (a ∷ b ∷ rest) le le' =
      let half = length-next_layer rest in
      merkle_loop-fuel fuel more (pair_hash sha3 a b ∷ next_layer sha3 rest) (omega (arith, half))
        (omega (arith, half))

  next_layer-doubled :
      (n : ℕ) (front : List Hash) (a : Hash)
      → length front ≡ 2 * n
      → next_layer sha3 (front ++ a ∷ a ∷ []) ≡ next_layer sha3 (front ++ a ∷ [])
  unfolding next_layer
  next_layer-doubled n [] a e = refl
  next_layer-doubled n (b ∷ []) a e = absurd (omega arith)
  next_layer-doubled zero (b ∷ c ∷ front) a e = absurd (omega arith)
  next_layer-doubled (suc n) (b ∷ c ∷ front) a e =
      ap (◌∷◌ (pair_hash sha3 b c)) (next_layer-doubled n front a (omega arith))

  -- The root of a layer of hashes.
  root_of : List Hash → Hash
  root_of layer = first_or_zero (merkle_loop sha3 (length layer) layer)

  -- One round does not change the root of a layer of two or more.
  root_of-next_layer :
      (a b : Hash) (rest : List Hash)
      → root_of (a ∷ b ∷ rest) ≡ root_of (next_layer sha3 (a ∷ b ∷ rest))
  unfolding root_of merkle_loop next_layer
  root_of-next_layer a b rest = ap first_or_zero (
      merkle_loop-fuel (suc (length rest)) (suc (length (next_layer sha3 rest)))
        (pair_hash sha3 a b ∷ next_layer sha3 rest) (omega (arith, length-next_layer rest))
        (omega arith))

  root_of-doubled :
      (n : ℕ) (front : List Hash) (a : Hash)
      → length front ≡ 2 * suc n
      → root_of (front ++ a ∷ a ∷ []) ≡ root_of (front ++ a ∷ [])
  root_of-doubled n [] a e = absurd (omega arith)
  root_of-doubled n (b ∷ []) a e = absurd (omega arith)
  root_of-doubled n (b ∷ c ∷ front) a e =
      root_of-next_layer b c (front ++ a ∷ a ∷ [])
      ∙ ap root_of (next_layer-doubled (suc n) (b ∷ c ∷ front) a e)
      ∙ sym (root_of-next_layer b c (front ++ a ∷ []))

  root_of-transactions :
      (txs : List Transaction)
      → 0 < length txs
      → transaction_merkle_root sha3 txs ≡ root_of (map (transaction_id sha3) txs)
  unfolding transaction_merkle_root root_of
  root_of-transactions [] h = absurd (omega arith)
  root_of-transactions (tx ∷ txs) h = refl

  -- Where an odd number of transactions, three or more, is followed by a copy of the last one, the
  -- root stays: the header of one list commits to the other list too.
  pub transaction_merkle_root-doubled :
      (n : ℕ) (front : List Transaction) (tx : Transaction)
      → length front ≡ 2 * suc n
      → transaction_merkle_root sha3 (front ++ tx ∷ tx ∷ [])
        ≡ transaction_merkle_root sha3 (front ++ tx ∷ [])
  transaction_merkle_root-doubled n front tx e =
      let id = transaction_id sha3 in
      root_of-transactions (front ++ tx ∷ tx ∷ [])
        (omega (arith, length-append front (tx ∷ tx ∷ [])))
      ∙ ap root_of (map-append id front (tx ∷ tx ∷ []))
      ∙ root_of-doubled n (map id front) (id tx) (length-map id front ∙ e)
      ∙ sym (ap root_of (map-append id front (tx ∷ [])))
      ∙ sym (root_of-transactions (front ++ tx ∷ []) (omega (arith, length-append front (tx ∷ []))))
