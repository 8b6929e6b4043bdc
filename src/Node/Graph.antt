-- ===== src/Node/Graph.antt =====
-- What holds of a node's graph: blocks stand under their hashes, with their parents and their data.
use velodag_core.Prelude.{
  ℕ, ◌≡◌, refl, sym, ap, ◌∙◌, subst, true, Option, some, List, [], ◌∷◌, arith, ◌==◌, ==_iff, Map,
  contains, keys, lookup, insert, lookup-insert, ok, Option-cases, Bool-cases, inl, inr,
}
use velodag_core.Types.{Hash, Bytes, VeloBlock}
use velodag_core.Block.{calculate_hash}
use velodag_core.Ghostdag.{GhostdagManager, GhostdagData, calculate_ghostdag_data}
use velodag_core.Node.Network.Checks.{parent_scan, max_with}

-- The key has a value.
abbrev pub Has {ℓ} : {V : Type ℓ} → Hash → Map V → Type ℓ
Has {V} h m = (v : V) × (lookup h m ≡ some v)

abbrev pub AllHave {ℓ} : {V : Type ℓ} → List Hash → Map V → Type ℓ
AllHave [] m = Unit
AllHave (h ∷ hs) m = Has h m × AllHave hs m

Has-insert {ℓ} :
    {V : Type ℓ} (h at : Hash) (new : V) (m : Map V) → Has h m → Has h (insert at new m)
Has-insert h at new m (v, found) = elim (Bool-cases (at == h)) [
  | inl same ↦ (new, ground (arith, lookup-insert at h new m, same))
  | inr other ↦ (v, ground (arith, lookup-insert at h new m, other, found))
]

pub Has-inserted {ℓ} : {V : Type ℓ} (at : Hash) (new : V) (m : Map V) → Has at (insert at new m)
Has-inserted at new m = (new, ground (arith, lookup-insert at at new m))

AllHave-insert {ℓ} :
    {V : Type ℓ} (hs : List Hash) (at : Hash) (new : V) (m : Map V)
    → AllHave hs m
    → AllHave hs (insert at new m)
AllHave-insert [] at new m all = tt
AllHave-insert (h ∷ hs) at new m all =
    (Has-insert h at new m all.0, AllHave-insert hs at new m all.1)

-- The loop over the parents succeeds only if all of them are stored.
pub parent_scan-AllHave :
    (store : Map VeloBlock) (ps : List Hash) (height time : Option ℕ) (r : Option ℕ × Option ℕ)
    → parent_scan store ps height time ≡ ok r
    → AllHave ps store
unfolding parent_scan
parent_scan-AllHave store [] height time r h = tt
parent_scan-AllHave store (p ∷ ps) height time r h = elim (Option-cases (lookup p store)) [
  | inl missing ↦ absurd (ground (arith, h, missing))
  | inr (b, found) ↦ (
    (b, found),
    parent_scan-AllHave store ps (max_with height b.header.height)
        (max_with time b.header.timestamp) r (rw (found, parent_scan) at h),
  )
]

module _ (sha3 : Bytes → Hash) (genesis_hash : Hash) where
  -- Each block of the graph stands under its own hash, all its parents are in the graph, and it has
  -- data; and the genesis is there.
  pub record IsClosed (m : GhostdagManager) : Type 0 where
    pub rooted : Has genesis_hash m.block_store
    pub hashed :
        (h : Hash) (b : VeloBlock) → lookup h m.block_store ≡ some b → calculate_hash sha3 b ≡ h
    pub parents :
        (h : Hash) (b : VeloBlock)
        → lookup h m.block_store ≡ some b
        → AllHave b.header.parents m.block_store
    pub coloured : (h : Hash) → Has h m.block_store → Has h m.ghostdag_cache

  -- The graph with one block more, as it is inserted.
  abbrev pub with_block : VeloBlock → GhostdagManager → GhostdagManager
  with_block b m = record m {
    block_store = insert (calculate_hash sha3 b) b m.block_store;
    ghostdag_cache = insert (calculate_hash sha3 b) (calculate_ghostdag_data m b) m.ghostdag_cache;
  }

  -- A block whose parents are in the graph may be added.
  pub with_block-IsClosed :
      (b : VeloBlock) (m : GhostdagManager)
      → AllHave b.header.parents m.block_store
      → IsClosed m
      → IsClosed (with_block b m)
  with_block-IsClosed b m below c =
      let at = calculate_hash sha3 b in
      record {
        rooted = Has-insert genesis_hash at b m.block_store c.rooted;
        hashed = λ h x found. elim (Bool-cases (at == h)) [
          | inl same ↦ ground (
            arith,
            lookup-insert at h b m.block_store,
            same,
            found,
            (λ (e : b ≡ x). ap (calculate_hash sha3) e),
          )
          | inr other ↦
              c.hashed h x (ground (arith, lookup-insert at h b m.block_store, other, found))
        ];
        parents = λ h x found. elim (Bool-cases (at == h)) [
          | inl same ↦
              let is_b : b ≡ x = ground (arith, lookup-insert at h b m.block_store, same, found) in
              subst (λ (y : VeloBlock). AllHave y.header.parents (insert at b m.block_store)) is_b
                (AllHave-insert b.header.parents at b m.block_store below)
          | inr other ↦
              AllHave-insert x.header.parents at b m.block_store
                (c.parents h x (ground (arith, lookup-insert at h b m.block_store, other, found)))
        ];
        coloured = λ h has. elim (Bool-cases (at == h)) [
          | inl same ↦
              subst (λ k. Has k (insert at (calculate_ghostdag_data m b) m.ghostdag_cache))
                ((==_iff at h).0 same)
                (Has-inserted at (calculate_ghostdag_data m b) m.ghostdag_cache)
          | inr other ↦ Has-insert h at (calculate_ghostdag_data m b) m.ghostdag_cache (
              c.coloured h
                (has.0, ground (arith, lookup-insert at h b m.block_store, other, has.1)))
        ];
      }

  -- A graph of one block without parents, which is the genesis.
  pub lone-IsClosed :
      (b : VeloBlock) (k : ℕ) (d : GhostdagData)
      → b.header.parents ≡ []
      → calculate_hash sha3 b ≡ genesis_hash
      → IsClosed (record {
        k = k;
        block_store = insert genesis_hash b [];
        ghostdag_cache = insert genesis_hash d [];
      })
  unfolding lookup insert
  lone-IsClosed b k d no_parents is_genesis = record {
    rooted = Has-inserted genesis_hash b [];
    hashed = λ h x found. elim (Bool-cases (genesis_hash == h)) [
      | inl same ↦
          let is_b : b ≡ x = ground (arith, found, same) in
          sym (ap (calculate_hash sha3) is_b) ∙ is_genesis ∙ ground (arith, same)
      | inr other ↦ absurd (ground (arith, found, other))
    ];
    parents = λ h x found. elim (Bool-cases (genesis_hash == h)) [
      | inl same ↦
          let is_b : b ≡ x = ground (arith, found, same) in
          subst (λ (y : VeloBlock). AllHave y.header.parents (insert genesis_hash b [])) is_b
            (subst (λ ps. AllHave ps (insert genesis_hash b [])) (sym no_parents) tt)
      | inr other ↦ absurd (ground (arith, found, other))
    ];
    coloured = λ h has. elim (Bool-cases (genesis_hash == h)) [
      | inl same ↦ (d, ground (arith, same))
      | inr other ↦ absurd (ground (arith, has.1, other))
    ];
  }

-- A key that is listed has a value.
pub Has-keys {ℓ} : {V : Type ℓ} (h : Hash) (m : Map V) → contains h (keys m) ≡ true → Has h m
unfolding lookup keys contains
Has-keys h [] listed = absurd (ground (arith, listed))
Has-keys h ((k, v) ∷ m) listed = elim (Bool-cases (k == h)) [
  | inl same ↦ (v, rw same refl)
  | inr other ↦ let (w, found) = Has-keys h m (ground (arith, listed, other)) in (w, rw other found)
]
