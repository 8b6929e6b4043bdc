-- ===== src/Ghostdag/Graph.antt =====
-- vdag-consensus/src/ghostdag.rs: the graph, and the searches for pasts and anticones.
use velodag_core.Prelude.{
  ℕ, zero, suc, ◌+◌, not, ◌&&◌, Option, none, some, List, [], ◌∷◌, ◌++◌, ◌==◌, if◌then◌else◌,
  length, contains, add, Map, lookup,
}
use velodag_core.Types.{Hash, VeloBlock}

pub record GhostdagData : Type 0 where
  pub blue_score : ℕ
  pub selected_parent : Option Hash
  pub blues : List Hash
  pub reds : List Hash

pub record GhostdagManager : Type 0 where
  pub k : ℕ
  pub block_store : Map VeloBlock
  pub ghostdag_cache : Map GhostdagData

-- `GhostdagManager::new(k)`
abbrev pub new_manager : ℕ → GhostdagManager
new_manager k = record { k = k; block_store = []; ghostdag_cache = [] }

-- The parents of a stored block; a block that is not stored has none to follow.
unfoldable pub parents_of : Map VeloBlock → Hash → List Hash
parents_of store h = elim (lookup h store) [ none ↦ [] | some b ↦ b.header.parents ]

-- `for parent in parents { if !seen.contains(parent) { seen.insert(parent); queue.push_back(parent) } }`
unfoldable pub push_new : List Hash → List Hash → List Hash → List Hash × List Hash
push_new [] seen queue = (seen, queue)
push_new (p ∷ ps) seen queue =
    let known = contains p seen in
    push_new ps (add p seen) (if known then queue else queue ++ p ∷ [])

-- `while let Some(hash) = queue.pop_front()`, over the blocks that each hash leads to.
unfoldable pub explore : (Hash → List Hash) → ℕ → List Hash → List Hash → List Hash
unfolding push_new
explore next zero seen queue = seen
explore next (suc fuel) seen [] = seen
explore next (suc fuel) seen (h ∷ queue) =
    let pushed = push_new (next h) seen queue in explore next fuel pushed.0 pushed.1

-- All parents that stored blocks name: no hash but these is ever pushed.
unfoldable pub all_parents : Map VeloBlock → List Hash
all_parents [] = []
all_parents ((h, b) ∷ store) = b.header.parents ++ all_parents store

unfoldable pub get_past_set : GhostdagManager → Hash → List Hash
unfolding explore
get_past_set m h =
    explore (parents_of m.block_store) (length (all_parents m.block_store) + 2) [] (h ∷ [])

-- The bootstrap of `find_anticone`: every parent but the selected one, queued and visited.
unfoldable pub other_parents : Hash → List Hash → List Hash
other_parents sp [] = []
other_parents sp (p ∷ ps) = if p == sp then other_parents sp ps else p ∷ other_parents sp ps

-- `if !anticone.contains(&h) { anticone.push(h) }`
unfoldable pub push_unique : List Hash → Hash → List Hash
push_unique xs h = if contains h xs then xs else xs ++ h ∷ []

module _ (store : Map VeloBlock) (sp : Hash) (sp_past : List Hash) where
  -- A queued hash in the past of the selected parent, or that parent, is skipped.
  unfoldable pub anticone_loop : ℕ → List Hash → List Hash → List Hash → List Hash
  anticone_loop zero anticone visited queue = anticone
  anticone_loop (suc fuel) anticone visited [] = anticone
  anticone_loop (suc fuel) anticone visited (h ∷ queue) =
      let outside = not (contains h sp_past) && not (h == sp) in
      let pushed = push_new (if outside then parents_of store h else []) visited queue in
      anticone_loop fuel (if outside then push_unique anticone h else anticone) pushed.0 pushed.1

unfoldable pub find_anticone : GhostdagManager → VeloBlock → Hash → List Hash
unfolding anticone_loop other_parents push_new push_unique
find_anticone m current_block selected_parent =
    let queue = other_parents selected_parent current_block.header.parents in
    anticone_loop m.block_store selected_parent (get_past_set m selected_parent)
      (length queue + length (all_parents m.block_store) + 1) [] queue queue
