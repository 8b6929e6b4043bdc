-- ===== src/Ghostdag/Growth.antt =====
-- The data of a new block keeps the graph's data well formed: what `get_linear_sort` relies on.
use velodag_core.Prelude.{
  ◌+◌, ◌<◌, ◌≡◌, ap, ◌∙◌, inl, inr, true, none, some, List, [], ◌∷◌, arith, ◌==◌, if◌then◌else◌,
  length, contains, Map, lookup, insert, lookup-insert, u64_mod, Bool-cases,
}
use velodag_core.Types.{Hash, VeloBlock}
use velodag_core.Ghostdag.{GhostdagData, GhostdagManager, calculate_ghostdag_data}
use velodag_core.Ghostdag.Coloring.{calculate_ghostdag_data-colors}
use velodag_core.Ghostdag.Order.{IsFalling}

-- A block's selected parent has data.
unfoldable pub IsClosed : Map GhostdagData → Type 0
IsClosed cache =
    (h sp : Hash) (d : GhostdagData)
    → lookup h cache ≡ some d
    → d.selected_parent ≡ some sp
    → (e : GhostdagData) × (lookup sp cache ≡ some e)

length-contains : (x : Hash) (xs : List Hash) → contains x xs ≡ true → 0 < length xs
unfolding contains
length-contains x [] c = absurd (ground (arith, c))
length-contains x (y ∷ xs) c = omega arith

module _ (m : GhostdagManager) (b : VeloBlock) (hash : Hash) where
  -- The data that the block gets, and the cache with it.
  abbrev data_of : GhostdagData
  data_of = calculate_ghostdag_data m b

  abbrev grown : Map GhostdagData
  grown = insert hash data_of m.ghostdag_cache

  -- When a block with a hash that has no data yet is added to a graph in which selected parents have
  -- data and lower scores, and its score does not wrap, this holds of the greater graph too.
  pub calculate_ghostdag_data-IsFalling :
      IsFalling m.ghostdag_cache
      → IsClosed m.ghostdag_cache
      → lookup hash m.ghostdag_cache ≡ none
      → ((sp : Hash) (p : GhostdagData)
          → lookup sp m.ghostdag_cache ≡ some p
          → p.blue_score + length data_of.blues < u64_mod)
      → IsFalling grown × IsClosed grown
  unfolding IsFalling IsClosed
  calculate_ghostdag_data-IsFalling falls closed fresh fits = (falling, closing)
    where
      at :
          (k : Hash)
          → lookup k grown ≡ (if hash == k then some data_of else lookup k m.ghostdag_cache)
      at k = lookup-insert hash k data_of m.ghostdag_cache

      old :
          (k : Hash) (e : GhostdagData)
          → lookup k m.ghostdag_cache ≡ some e
          → lookup k grown ≡ some e
      old k e has =
          ground
            (arith, has, at k, fresh, (λ (q : hash ≡ k). ap (λ j. lookup j m.ghostdag_cache) q))

      closing :
          (h sp : Hash) (d : GhostdagData)
          → lookup h grown ≡ some d
          → d.selected_parent ≡ some sp
          → (e : GhostdagData) × (lookup sp grown ≡ some e)
      closing h sp d has chosen = elim (Bool-cases (hash == h)) [
        | inl new ↦
            let same : data_of ≡ d = ground (arith, at h, new, has) in
            let (_, (p, found, _, _, _)) =
              calculate_ghostdag_data-colors m b sp sp
                (ap (λ x. x.selected_parent) same ∙ chosen) in
            (p, old sp p found)
        | inr was ↦
            let (e, found) = closed h sp d (ground (arith, at h, was, has)) chosen in
            (e, old sp e found)
      ]

      falling :
          (h sp : Hash) (d e : GhostdagData)
          → lookup h grown ≡ some d
          → d.selected_parent ≡ some sp
          → lookup sp grown ≡ some e
          → e.blue_score < d.blue_score
      falling h sp d e has chosen parent = elim (Bool-cases (hash == h)) [
        | inl new ↦
            let same : data_of ≡ d = ground (arith, at h, new, has) in
            let (_, (p, found, blue, score, _)) =
              calculate_ghostdag_data-colors m b sp sp
                (ap (λ x. x.selected_parent) same ∙ chosen) in
            let some_blue = length-contains sp data_of.blues blue in
            let room = fits sp p found in
            let its : e ≡ p = ground (arith, parent, old sp p found) in
            let higher : p.blue_score < data_of.blue_score =
              omega (arith, score, some_blue, room) in
            ground (arith, higher, its, same)
        | inr was ↦
            let before : lookup h m.ghostdag_cache ≡ some d = ground (arith, at h, was, has) in
            let (p, found) = closed h sp d before chosen in
            let its : e ≡ p = ground (arith, parent, old sp p found) in
            let lower = falls h sp d p before chosen found in ground (arith, lower, its)
      ]
