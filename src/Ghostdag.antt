-- ===== src/Ghostdag.antt =====
-- vdag-consensus/src/ghostdag.rs: the block graph, the colouring of its blocks, fork choice, the
-- linear order and the replay of the ledger.
mod Graph
pub mod Past
pub mod Anticone
pub mod Coloring
pub mod Winners
pub mod ForkChoice
pub mod Order
pub mod Growth
mod Tests
use velodag_core.Prelude.{
  ℕ, zero, suc, ◌+◌, ◌≡◌, Bool, true, false, not, ◌&&◌, ◌||◌, Option, none, some, List, [], ◌∷◌,
  ◌++◌, reverse, ltb, leb, ◌==◌, if◌then◌else◌, length, filter_b, contains, add, sort, Map, lookup,
  keys, wrap64, Result, ok, err,
}
use velodag_core.Types.{Hash, Bytes, VeloBlock}
use velodag_core.Ledger.{LedgerState, LedgerError, empty_ledger, apply_block}
pub use velodag_core.Ghostdag.Graph.{GhostdagData, GhostdagManager, new_manager}
unfoldable pub use velodag_core.Ghostdag.Graph.{
  parents_of, push_new, explore, all_parents, get_past_set, other_parents, push_unique,
  anticone_loop, find_anticone,
}

-- Neither block is in the past of the other.
pub unrelated : GhostdagManager → Hash → Hash → Bool
unrelated m a b = not (contains b (get_past_set m a)) && not (contains a (get_past_set m b))

-- How many of the other blues are in the anticone of `blue`.
pub anticone_count : GhostdagManager → Hash → List Hash → ℕ
unfolding unrelated
anticone_count m blue [] = 0
anticone_count m blue (other ∷ rest) =
    (if not (other == blue) && unrelated m blue other then 1 else 0) + anticone_count m blue rest

-- The loop over the blues that are left, of all current blues.
pub no_conflict : GhostdagManager → Hash → List Hash → List Hash → Bool
unfolding unrelated anticone_count
no_conflict m candidate current_blues [] = true
no_conflict m candidate current_blues (blue ∷ rest) =
    not (
      unrelated m blue candidate
      && not (blue == candidate)
      && leb m.k (anticone_count m blue current_blues))
    && no_conflict m candidate current_blues rest

unfoldable pub can_be_blue : GhostdagManager → Hash → List Hash → Bool
unfolding no_conflict
can_be_blue m candidate current_blues = no_conflict m candidate current_blues current_blues

-- The candidates that have data, each with its blue score.
unfoldable pub scored : Map GhostdagData → List Hash → List (Hash × ℕ)
scored cache [] = []
scored cache (h ∷ hs) = elim (lookup h cache) [
  | none ↦ scored cache hs
  | some d ↦ (h, d.blue_score) ∷ scored cache hs
]

-- `max_by_key` keeps the last of equal maxima.
pub last_max : Hash × ℕ → List (Hash × ℕ) → Hash × ℕ
last_max best [] = best
last_max best (x ∷ xs) = last_max (if ltb x.1 best.1 then best else x) xs

pub select_parent : Map GhostdagData → List Hash → Option Hash
unfolding last_max scored
select_parent cache parents = elim (scored cache parents) [
  | [] ↦ none
  | x ∷ xs ↦ some (last_max x xs).0
]

-- `for a in blues_of_parent { if !blues.contains(a) { blues.push(a) } }`
pub inherit : List Hash → List Hash → List Hash
unfolding push_unique
inherit [] blues = blues
inherit (a ∷ rest) blues = inherit rest (push_unique blues a)

pub color : GhostdagManager → List Hash → List Hash → List Hash → List Hash × List Hash
color m [] blues reds = (blues, reds)
color m (c ∷ cs) blues reds =
    let blue = can_be_blue m c blues in
    color m cs (if blue then blues ++ c ∷ [] else blues) (if blue then reds else reds ++ c ∷ [])

-- The blues that a child takes over from its selected parent.
pub inherited_blues : Map GhostdagData → Hash → List Hash
unfolding inherit
inherited_blues cache sp = elim (lookup sp cache) [ none ↦ [] | some d ↦ inherit d.blues (sp ∷ []) ]

pub parent_blue_score : Map GhostdagData → Hash → ℕ
parent_blue_score cache sp = elim (lookup sp cache) [ none ↦ 0 | some d ↦ d.blue_score ]

-- Steps 3 to 5, below a selected parent.
pub data_below : GhostdagManager → VeloBlock → Hash → GhostdagData
unfolding inherited_blues parent_blue_score color
data_below m block sp =
    let colored =
      color m (sort (find_anticone m block sp)) (inherited_blues m.ghostdag_cache sp) [] in
    record {
      blue_score = wrap64 (parent_blue_score m.ghostdag_cache sp + length colored.0);
      selected_parent = some sp;
      blues = colored.0;
      reds = colored.1;
    }

-- The data of a block without parents, and of one none of whose parents has data.
abbrev pub root_data : GhostdagData
root_data = record { blue_score = 0; selected_parent = none; blues = []; reds = [] }

unfoldable pub calculate_ghostdag_data : GhostdagManager → VeloBlock → GhostdagData
unfolding select_parent data_below
calculate_ghostdag_data m block = elim (select_parent m.ghostdag_cache block.header.parents) [
  | none ↦ root_data
  | some sp ↦ data_below m block sp
]

-- `for block in local_set { if !order.contains(&block) { order.push(block) } }`
unfoldable pub push_all : List Hash → List Hash → List Hash
unfolding push_unique
push_all [] order = order
push_all (h ∷ hs) order = push_all hs (push_unique order h)

-- The selected-parent chain from a hash on, as far as `fuel` and the cache reach.
unfoldable pub linear_loop : Map GhostdagData → ℕ → List Hash → Option Hash → List Hash
unfolding push_all
linear_loop cache zero order current = order
linear_loop cache (suc fuel) order none = order
linear_loop cache (suc fuel) order (some h) = elim (lookup h cache) [
  | none ↦ order
  | some d ↦
      linear_loop cache fuel (push_unique (push_all (sort (d.blues ++ d.reds)) order) h)
        d.selected_parent
]

-- One round for each unit of blue score, and two: scores fall along the chain.
pub chain_fuel : Map GhostdagData → Hash → ℕ
chain_fuel cache tip = elim (lookup tip cache) [ none ↦ 2 | some d ↦ d.blue_score + 2 ]

unfoldable pub get_linear_sort : GhostdagManager → Hash → List Hash
unfolding linear_loop chain_fuel
get_linear_sort m tip =
    reverse (linear_loop m.ghostdag_cache (chain_fuel m.ghostdag_cache tip) [] (some tip))

-- The order in which the hash map yields its keys is the parameter `key_order`.
unfoldable pub compute_tips : (List Hash → List Hash) → GhostdagManager → List Hash
unfolding all_parents
compute_tips key_order m =
    filter_b (λ h. not (contains h (all_parents m.block_store))) (key_order (keys m.block_store))

-- The comparison of `select_best_tip`: by score, then by the lower hash.
pub beats : Hash × ℕ → Hash × ℕ → Bool
beats a b = ltb b.1 a.1 || (a.1 == b.1 && ltb a.0 b.0)

-- `max_by` with that comparison.
pub best_of : Hash × ℕ → List (Hash × ℕ) → Hash × ℕ
unfolding beats
best_of best [] = best
best_of best (x ∷ xs) = best_of (if beats best x then best else x) xs

unfoldable pub select_best_tip : GhostdagManager → List Hash → Option Hash
unfolding scored best_of
select_best_tip m candidates = elim (scored m.ghostdag_cache candidates) [
  | [] ↦ none
  | x ∷ xs ↦ some (best_of x xs).0
]

unfoldable pub select_canonical_tip : (List Hash → List Hash) → GhostdagManager → Option Hash
unfolding compute_tips select_best_tip
select_canonical_tip key_order m = select_best_tip m (compute_tips key_order m)

pub data ReplayError : Type 0 where
  missing_block : Hash → ReplayError
  refused_block : LedgerError → ReplayError

-- `ledger.apply_block(block)?`, then the rest of the loop.
pub after_block :
    LedgerState × Result LedgerError Unit
    → (LedgerState → Result ReplayError LedgerState)
    → Result ReplayError LedgerState
after_block (ledger, ok _) rest = rest ledger
after_block (ledger, err e) rest = err (refused_block e)

module _ (sha3 : Bytes → Hash) where
  pub replay : GhostdagManager → List Hash → LedgerState → Result ReplayError LedgerState
  replay m [] ledger = ok ledger
  replay m (h ∷ hs) ledger = elim (lookup h m.block_store) [
    | none ↦ err (missing_block h)
    | some b ↦ after_block (apply_block sha3 ledger b) (λ next. replay m hs next)
  ]

  unfoldable pub recompute_ledger : GhostdagManager → Hash → Result ReplayError LedgerState
  unfolding replay after_block
  recompute_ledger m tip = replay m (get_linear_sort m tip) empty_ledger

-- `filter_map(|hash| self.block_store.get(hash).cloned())`
pub stored_blocks : Map VeloBlock → List Hash → List VeloBlock
stored_blocks store [] = []
stored_blocks store (h ∷ hs) = elim (lookup h store) [
  | none ↦ stored_blocks store hs
  | some b ↦ b ∷ stored_blocks store hs
]

unfoldable pub canonical_block_order : GhostdagManager → Hash → List VeloBlock
unfolding stored_blocks
canonical_block_order m tip = stored_blocks m.block_store (get_linear_sort m tip)
