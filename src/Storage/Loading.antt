-- ===== src/Storage/Loading.antt =====
-- Loading all blocks: none is lost or invented, and they come in the order of their heights.
use mathlib.Core.List.{Perm}
use mathlib.Core.List.Perm
use velodag_core.Prelude.{
  ℕ, ◌≤◌, ◌≡◌, List, [], ◌∷◌, arith, leb, leb→le, Bool-cases, inl, inr, Result-cases, ok, subst,
}
use velodag_core.Types.{Bytes, VeloBlock}
use velodag_core.Storage.{
  insert_by_height, sort_by_height, load_all_blocks, Backend, BlockchainStorage, decode_all,
}

-- The heights do not fall along the list: each block is at most as high as those behind it.
abbrev pub AllFrom : ℕ → List VeloBlock → Type 0
AllFrom h [] = Unit
AllFrom h (b ∷ bs) = (h ≤ b.header.height) × AllFrom h bs

abbrev pub Rising : List VeloBlock → Type 0
Rising [] = Unit
Rising (b ∷ bs) = AllFrom b.header.height bs × Rising bs

AllFrom-weaken : (h k : ℕ) (bs : List VeloBlock) → h ≤ k → AllFrom k bs → AllFrom h bs
AllFrom-weaken h k [] le all = tt
AllFrom-weaken h k (b ∷ bs) le all = (omega (arith, all.0), AllFrom-weaken h k bs le all.1)

insert_by_height-AllFrom :
    (h : ℕ) (b : VeloBlock) (bs : List VeloBlock)
    → h ≤ b.header.height
    → AllFrom h bs
    → AllFrom h (insert_by_height b bs)
unfolding insert_by_height
insert_by_height-AllFrom h b [] le all = (le, tt)
insert_by_height-AllFrom h b (c ∷ cs) le all =
    elim (Bool-cases (leb b.header.height c.header.height)) [
      | inl low ↦ rw low (le, all)
      | inr high ↦ rw high (all.0, insert_by_height-AllFrom h b cs le all.1)
    ]

insert_by_height-Rising :
    (b : VeloBlock) (bs : List VeloBlock) → Rising bs → Rising (insert_by_height b bs)
unfolding insert_by_height
insert_by_height-Rising b [] rising = (tt, tt)
insert_by_height-Rising b (c ∷ cs) rising =
    elim (Bool-cases (leb b.header.height c.header.height)) [
      | inl low ↦
          let le = leb→le b.header.height c.header.height low in
          rw low ((le, AllFrom-weaken b.header.height c.header.height cs le rising.0), rising)
      | inr high ↦ rw high (
        insert_by_height-AllFrom c.header.height b cs (ground (arith, high)) rising.0,
        insert_by_height-Rising b cs rising.1,
      )
    ]

sort_by_height-Rising : (bs : List VeloBlock) → Rising (sort_by_height bs)
unfolding sort_by_height
sort_by_height-Rising [] = tt
sort_by_height-Rising (b ∷ bs) =
    insert_by_height-Rising b (sort_by_height bs) (sort_by_height-Rising bs)

insert_by_height-Perm :
    (b : VeloBlock) (bs : List VeloBlock) → Perm (b ∷ bs) (insert_by_height b bs)
unfolding insert_by_height
insert_by_height-Perm b [] = Perm.refl (b ∷ [])
insert_by_height-Perm b (c ∷ cs) = elim (Bool-cases (leb b.header.height c.header.height)) [
  | inl low ↦ rw low (Perm.refl (b ∷ c ∷ cs))
  | inr high ↦ rw high (Perm.trans (Perm.swap c b cs) (Perm.cons c (insert_by_height-Perm b cs)))
]

sort_by_height-Perm : (bs : List VeloBlock) → Perm bs (sort_by_height bs)
unfolding sort_by_height
sort_by_height-Perm [] = Perm.refl []
sort_by_height-Perm (b ∷ bs) =
    Perm.trans (Perm.cons b (sort_by_height-Perm bs)) (insert_by_height-Perm b (sort_by_height bs))

-- What `load_all_blocks` returns is a rearrangement of the blocks that the values of the tree decode
-- to, in which no block stands behind a higher one.
pub load_all_blocks-Rising :
    (backend : Backend) (s : BlockchainStorage backend) (entries : List Bytes) (bs : List VeloBlock)
    → backend.values s.blocks_tree ≡ ok entries
    → load_all_blocks backend s ≡ ok bs
    → Rising bs
      × (decoded : List VeloBlock) × (decode_all backend.block_codec entries ≡ ok decoded)
      × Perm decoded bs
unfolding load_all_blocks
load_all_blocks-Rising backend s entries bs read loaded =
    elim (Result-cases (decode_all backend.block_codec entries)) [
      | inr (e, bad) ↦ absurd (ground (arith, read, loaded, bad))
      | inl (decoded, good) ↦
          let at : sort_by_height decoded ≡ bs = ground (arith, read, loaded, good) in
          (
            subst Rising at (sort_by_height-Rising decoded),
            decoded,
            good,
            subst (Perm decoded) at (sort_by_height-Perm decoded),
          )
    ]
