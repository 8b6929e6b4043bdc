-- ===== src/Node/Sync/Tests.antt =====
-- A pool of one sample orphan.
use velodag_core.Prelude.{
  ◌≤◌, ◌≡◌, none, some, [], ◌∷◌, ◌++◌, ◌==◌, if◌then◌else◌, arith, lookup, lookup_or,
}
use velodag_core.Types.{VeloBlock}
use velodag_core.Fixtures.{block_at}
use velodag_core.Node.Sync.{new_pool, insert_orphan, take_ready}
use velodag_core.Node.Sync.Orphans.{
  waiting, arrived, resolved, run, run-IsCounted, take_ready-insert_orphan,
}

abbrev orphan : VeloBlock
orphan = block_at (9 ∷ []) [] 5 100

run-IsCounted_example :
    (waiting
        (run (arrived 9 none orphan ∷ arrived 8 (some 1) orphan ∷ resolved 9 ∷ []) (new_pool 2))
      ≡ (run
          (arrived 9 none orphan ∷ arrived 8 (some 1) orphan ∷ resolved 9 ∷ [])
          (new_pool 2)).current_size)
    × (waiting
          (run (arrived 9 none orphan ∷ arrived 8 (some 1) orphan ∷ resolved 9 ∷ []) (new_pool 2))
        ≤ 2)
run-IsCounted_example =
    run-IsCounted (arrived 9 none orphan ∷ arrived 8 (some 1) orphan ∷ resolved 9 ∷ []) 2

take_ready-insert_orphan_example :
    let taken = take_ready 9 (insert_orphan 9 (some 1) orphan (new_pool 2)) in
    (taken.1 ≡ lookup_or [] 9 (new_pool 2).waiting_on ++ (some 1, orphan) ∷ [])
    × (lookup 7 taken.0.waiting_on ≡ (if 9 == 7 then none else lookup 7 (new_pool 2).waiting_on))
take_ready-insert_orphan_example =
    take_ready-insert_orphan 9 7 (some 1) orphan (new_pool 2) (omega arith)
