-- ===== src/Storage/Tests.antt =====
-- Saving and loading on the toy database.
use mathlib.Core.List.{Perm}
use velodag_core.Storage.Loading.{Rising, load_all_blocks-Rising}
use velodag_core.Prelude.{◌≡◌, refl, some, List, [], ◌∷◌, arith, lookup-insert, ok}
use velodag_core.Types.{VeloBlock}
use velodag_core.Fixtures.{toy_sha3, toy_backend, toy_storage, block_at}
use velodag_core.Ledger.{empty_ledger}
use velodag_core.Storage.{
  Backend, BlockchainStorage, decode_all, insert_by_height, sort_by_height, load_all_blocks,
  save_block, load_block, save_ledger_state,
}
use velodag_core.Storage.Reloading.{IsReliable, load_block-save_block}

toy_backend-IsReliable : IsReliable toy_backend
toy_backend-IsReliable = record {
  decodes_block = λ b bytes e. ground arith;
  decodes_ledger = λ l bytes e. ground arith;
  reads_back = λ key bytes t e. ground (arith, lookup-insert (toy_sha3 key) (toy_sha3 key) bytes t);
}

abbrev plain_block : VeloBlock
plain_block = block_at [] [] 1 100

abbrev with_block : BlockchainStorage toy_backend
with_block = (save_block toy_backend 77 plain_block toy_storage).0

plain_block-saved : save_block toy_backend 77 plain_block toy_storage ≡ (with_block, ok tt)
unfolding save_block
plain_block-saved = refl

plain_block-reloaded : load_block toy_backend 77 with_block ≡ ok (some plain_block)
plain_block-reloaded =
    (load_block-save_block toy_backend toy_backend-IsReliable 77 plain_block toy_storage with_block
      plain_block-saved).0

abbrev with_ledger : BlockchainStorage toy_backend
with_ledger = (save_ledger_state toy_backend empty_ledger toy_storage).0

empty_ledger-saved : save_ledger_state toy_backend empty_ledger toy_storage ≡ (with_ledger, ok tt)
unfolding save_ledger_state
empty_ledger-saved = refl

-- A database that yields a block of height 2 before one of height 1.
abbrev unsorted : Backend
unsorted = record toy_backend {
  values = λ t. ok ([] ∷ (1 ∷ []) ∷ []);
  block_codec = record {
    serialize = λ b. ok [];
    deserialize =
        λ bytes. elim bytes [ [] ↦ ok (block_at [] [] 2 100) | _ ∷ _ ↦ ok (block_at [] [] 1 100) ];
  };
}

abbrev unsorted_storage : BlockchainStorage unsorted
unsorted_storage = record { blocks_tree = []; ghostdag_tree = []; ledger_tree = []; db = tt }

unsorted-loaded :
    load_all_blocks unsorted unsorted_storage
    ≡ ok (block_at [] [] 1 100 ∷ block_at [] [] 2 100 ∷ [])
unfolding load_all_blocks decode_all sort_by_height insert_by_height
unsorted-loaded = refl

load_all_blocks-Rising_example :
    Rising (block_at [] [] 1 100 ∷ block_at [] [] 2 100 ∷ [])
    × (decoded : List VeloBlock) × (decode_all unsorted.block_codec ([] ∷ (1 ∷ []) ∷ [])
        ≡ ok decoded)
    × Perm decoded (block_at [] [] 1 100 ∷ block_at [] [] 2 100 ∷ [])
load_all_blocks-Rising_example =
    load_all_blocks-Rising unsorted unsorted_storage ([] ∷ (1 ∷ []) ∷ [])
      (block_at [] [] 1 100 ∷ block_at [] [] 2 100 ∷ []) refl unsorted-loaded
