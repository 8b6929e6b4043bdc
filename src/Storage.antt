-- ===== src/Storage.antt =====
-- vdag-consensus/src/lib.rs, `BlockchainStorage`: the three trees of blocks, colourings and the
-- ledger. The database and the binary encoding are the parameter `Backend`.
pub mod Reloading
pub mod Loading
mod Tests
use velodag_core.Prelude.{
  ℕ, Option, none, some, List, [], ◌∷◌, leb, if◌then◌else◌, Result, ok, err, Exec, succeed, fail,
  ◌>>=◌, ◌>>◌,
}
use velodag_core.Types.{Hash, Bytes, VeloBlock}
use velodag_core.Block.{hash_bytes}
use velodag_core.Ledger.{LedgerState}
use velodag_core.Ghostdag.{GhostdagData}

-- `bincode::serialize` and `bincode::deserialize` at one type.
pub record Codec (Fault A : Type 0) : Type 0 where
  pub serialize : A → Result Fault Bytes
  pub deserialize : Bytes → Result Fault A

pub record Backend : Type 1 where
  pub Tree : Type 0
  pub Db : Type 0
  pub Fault : Type 0
  pub get : Bytes → Tree → Result Fault (Option Bytes)
  pub put : Bytes → Bytes → Tree → Tree × Result Fault Unit
  pub values : Tree → Result Fault (List Bytes)
  pub flush : Db → Db × Result Fault Unit
  pub block_codec : Codec Fault VeloBlock
  pub ghostdag_codec : Codec Fault GhostdagData
  pub ledger_codec : Codec Fault LedgerState

-- The fields of `BlockchainStorage`.
pub record BlockchainStorage (backend : Backend) : Type 0 where
  pub blocks_tree : backend.Tree
  pub ghostdag_tree : backend.Tree
  pub ledger_tree : backend.Tree
  pub db : backend.Db

-- `b"current"`
abbrev pub current_key : Bytes
current_key = 99 ∷ 117 ∷ 114 ∷ 114 ∷ 101 ∷ 110 ∷ 116 ∷ []

-- `Some(bytes) => Ok(Some(deserialize(bytes)?)), None => Ok(None)`
unfoldable pub decode_found :
    {Fault A : Type 0} → Codec Fault A → Result Fault (Option Bytes) → Result Fault (Option A)
decode_found codec (err e) = err e
decode_found codec (ok none) = ok none
decode_found codec (ok (some bytes)) = elim (codec.deserialize bytes) [
  | err e ↦ err e
  | ok a ↦ ok (some a)
]

unfoldable pub decode_all : {Fault A : Type 0} → Codec Fault A → List Bytes → Result Fault (List A)
decode_all codec [] = ok []
decode_all codec (bytes ∷ rest) = elim (codec.deserialize bytes) [
  | err e ↦ err e
  | ok a ↦ elim (decode_all codec rest) [ err e ↦ err e | ok decoded ↦ ok (a ∷ decoded) ]
]

-- `sort_by_key` on the heights is stable: a block goes before those that are not lower.
unfoldable pub insert_by_height : VeloBlock → List VeloBlock → List VeloBlock
insert_by_height b [] = b ∷ []
insert_by_height b (c ∷ cs) =
    let rest = insert_by_height b cs in
    if leb b.header.height c.header.height then b ∷ (c ∷ cs) else c ∷ rest

unfoldable pub sort_by_height : List VeloBlock → List VeloBlock
unfolding insert_by_height
sort_by_height [] = []
sort_by_height (b ∷ bs) = insert_by_height b (sort_by_height bs)

module _ (backend : Backend) where
  -- The value of `?` on a pure result.
  abbrev pub try_result :
      {A : Type 0} → Result backend.Fault A → Exec (BlockchainStorage backend) backend.Fault A
  try_result r s = (s, r)

  flush_db : Exec (BlockchainStorage backend) backend.Fault Unit
  flush_db s = let flushed = backend.flush s.db in (record s { db = flushed.0 }, flushed.1)

  put_block : Bytes → Bytes → Exec (BlockchainStorage backend) backend.Fault Unit
  put_block key bytes s =
      let r = backend.put key bytes s.blocks_tree in (record s { blocks_tree = r.0 }, r.1)

  put_ghostdag : Bytes → Bytes → Exec (BlockchainStorage backend) backend.Fault Unit
  put_ghostdag key bytes s =
      let r = backend.put key bytes s.ghostdag_tree in (record s { ghostdag_tree = r.0 }, r.1)

  put_ledger : Bytes → Bytes → Exec (BlockchainStorage backend) backend.Fault Unit
  put_ledger key bytes s =
      let r = backend.put key bytes s.ledger_tree in (record s { ledger_tree = r.0 }, r.1)

  unfoldable pub save_block : Hash → VeloBlock → Exec (BlockchainStorage backend) backend.Fault Unit
  unfolding put_block flush_db
  save_block block_hash block = do
    bytes ← try_result (backend.block_codec.serialize block)
    put_block (hash_bytes block_hash) bytes
    flush_db

  unfoldable pub load_block :
      Hash → BlockchainStorage backend → Result backend.Fault (Option VeloBlock)
  unfolding decode_found
  load_block block_hash s =
      decode_found backend.block_codec (backend.get (hash_bytes block_hash) s.blocks_tree)

  unfoldable pub load_all_blocks : BlockchainStorage backend → Result backend.Fault (List VeloBlock)
  unfolding decode_all sort_by_height
  load_all_blocks s = elim (backend.values s.blocks_tree) [
    | err e ↦ err e
    | ok entries ↦ elim (decode_all backend.block_codec entries) [
      | err e ↦ err e
      | ok blocks ↦ ok (sort_by_height blocks)
    ]
  ]

  unfoldable pub save_ledger_state :
      LedgerState → Exec (BlockchainStorage backend) backend.Fault Unit
  unfolding put_ledger flush_db
  save_ledger_state state = do
    bytes ← try_result (backend.ledger_codec.serialize state)
    put_ledger current_key bytes
    flush_db

  unfoldable pub load_ledger_state :
      BlockchainStorage backend → Result backend.Fault (Option LedgerState)
  unfolding decode_found
  load_ledger_state s = decode_found backend.ledger_codec (backend.get current_key s.ledger_tree)

  unfoldable pub save_ghostdag_data :
      Hash → GhostdagData → Exec (BlockchainStorage backend) backend.Fault Unit
  unfolding put_ghostdag flush_db
  save_ghostdag_data block_hash data_ = do
    bytes ← try_result (backend.ghostdag_codec.serialize data_)
    put_ghostdag (hash_bytes block_hash) bytes
    flush_db

  unfoldable pub load_ghostdag_data :
      Hash → BlockchainStorage backend → Result backend.Fault (Option GhostdagData)
  unfolding decode_found
  load_ghostdag_data block_hash s =
      decode_found backend.ghostdag_codec (backend.get (hash_bytes block_hash) s.ghostdag_tree)
