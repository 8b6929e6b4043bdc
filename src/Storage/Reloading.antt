-- ===== src/Storage/Reloading.antt =====
-- What is saved is loaded again.
use velodag_core.Prelude.{sym, ◌>>◌, ◌≡◌, some, arith, ok, >>=-eq-ok}
use velodag_core.Types.{Hash, Bytes, VeloBlock}
use velodag_core.Block.{hash_bytes}
use velodag_core.Ledger.{LedgerState}
use velodag_core.Storage.{
  Backend, BlockchainStorage, current_key, decode_found, try_result, put_block, flush_db,
  save_block, load_block, put_ledger, save_ledger_state, load_ledger_state,
}

-- What is documented of the encoding, and of a database tree: a successful write is read back.
pub record IsReliable (backend : Backend) : Type 0 where
  pub decodes_block :
      (b : VeloBlock) (bytes : Bytes)
      → backend.block_codec.serialize b ≡ ok bytes
      → backend.block_codec.deserialize bytes ≡ ok b
  pub decodes_ledger :
      (l : LedgerState) (bytes : Bytes)
      → backend.ledger_codec.serialize l ≡ ok bytes
      → backend.ledger_codec.deserialize bytes ≡ ok l
  pub reads_back :
      (key bytes : Bytes) (t : backend.Tree)
      → (backend.put key bytes t).1 ≡ ok tt
      → backend.get key (backend.put key bytes t).0 ≡ ok (some bytes)

module _ (backend : Backend) (reliable : IsReliable backend) where
  -- A block that `save_block` has saved without an error is the one that `load_block` returns for its
  -- hash; the ledger that is stored stays.
  pub load_block-save_block :
      (h : Hash) (b : VeloBlock) (s s' : BlockchainStorage backend)
      → save_block backend h b s ≡ (s', ok tt)
      → (load_block backend h s' ≡ ok (some b))
        × (load_ledger_state backend s' ≡ load_ledger_state backend s)
  unfolding save_block load_block load_ledger_state decode_found put_block flush_db
  load_block-save_block h b s s' e =
      let (bytes, encoded, stored) =
        >>=-eq-ok (try_result backend (backend.block_codec.serialize b))
          (λ v. put_block backend (hash_bytes h) v >> flush_db backend) s s' tt e in
      let (_, written, flushed) =
        >>=-eq-ok (put_block backend (hash_bytes h) bytes) (λ _. flush_db backend) s s' tt stored in
      let at : s'.blocks_tree ≡ (backend.put (hash_bytes h) bytes s.blocks_tree).0 =
        sym (λ i. (flushed i).0.blocks_tree) in
      let kept : s'.ledger_tree ≡ s.ledger_tree = sym (λ i. (flushed i).0.ledger_tree) in
      let coded : backend.block_codec.serialize b ≡ ok bytes = λ i. (encoded i).1 in
      let done : (backend.put (hash_bytes h) bytes s.blocks_tree).1 ≡ ok tt = λ i. (written i).1 in
      ground (
        arith,
        at,
        kept,
        reliable.decodes_block b bytes coded,
        reliable.reads_back (hash_bytes h) bytes s.blocks_tree done,
      )

  -- The ledger that `save_ledger_state` has saved without an error is the one that
  -- `load_ledger_state` returns; the blocks that are stored stay.
  pub load_ledger_state-save_ledger_state :
      (l : LedgerState) (h : Hash) (s s' : BlockchainStorage backend)
      → save_ledger_state backend l s ≡ (s', ok tt)
      → (load_ledger_state backend s' ≡ ok (some l))
        × (load_block backend h s' ≡ load_block backend h s)
  unfolding save_ledger_state load_block load_ledger_state decode_found put_ledger flush_db
  load_ledger_state-save_ledger_state l h s s' e =
      let (bytes, encoded, stored) =
        >>=-eq-ok (try_result backend (backend.ledger_codec.serialize l))
          (λ v. put_ledger backend current_key v >> flush_db backend) s s' tt e in
      let (_, written, flushed) =
        >>=-eq-ok (put_ledger backend current_key bytes) (λ _. flush_db backend) s s' tt stored in
      let at : s'.ledger_tree ≡ (backend.put current_key bytes s.ledger_tree).0 =
        sym (λ i. (flushed i).0.ledger_tree) in
      let kept : s'.blocks_tree ≡ s.blocks_tree = sym (λ i. (flushed i).0.blocks_tree) in
      let coded : backend.ledger_codec.serialize l ≡ ok bytes = λ i. (encoded i).1 in
      let done : (backend.put current_key bytes s.ledger_tree).1 ≡ ok tt = λ i. (written i).1 in
      ground (
        arith,
        at,
        kept,
        reliable.decodes_ledger l bytes coded,
        reliable.reads_back current_key bytes s.ledger_tree done,
      )
