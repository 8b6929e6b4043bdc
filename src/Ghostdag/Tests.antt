-- ===== src/Ghostdag/Tests.antt =====
-- A diamond of four blocks: 9 below 10 and 11, and 12 above both.
use velodag_core.Prelude.{
  add, insert, none, u64_mod, sort, insert_sorted, arith, ◌+◌, ◌≡◌, ◌≤◌, ◌<◌, refl, ◌⊎◌, ◌↔◌, true,
  false, ◌||◌, some, List, [], ◌∷◌, ◌++◌, reverse, ◌==◌, length, contains, lookup, wrap64,
}
use velodag_core.Types.{Hash, VeloBlock}
use velodag_core.Fixtures.{block_at}
use velodag_core.Ghostdag.{
  can_be_blue, push_unique, all_parents, linear_loop, chain_fuel, GhostdagData, GhostdagManager,
  parents_of, get_past_set, other_parents, find_anticone, calculate_ghostdag_data, scored,
  select_best_tip, select_canonical_tip, get_linear_sort, push_all, push_unique, root_data,
}
use velodag_core.Ghostdag.Past.{Ancestor, get_past_set-Ancestor}
use velodag_core.Ghostdag.Anticone.{outside, followed, Reached, find_anticone-Reached}
use velodag_core.Ghostdag.Coloring.{calculate_ghostdag_data-colors}
use velodag_core.Ghostdag.ForkChoice.{select_best_tip-wins, select_canonical_tip-order}
use velodag_core.Ghostdag.Growth.{IsClosed, calculate_ghostdag_data-IsFalling}
use velodag_core.Ghostdag.Order.{IsFalling, get_linear_sort-enough, get_linear_sort-tip_first}
use velodag_core.Ghostdag.Order.Extension.{contains-reverse}

abbrev side : GhostdagData
side = record { blue_score = 1; selected_parent = some 9; blues = 9 ∷ []; reds = [] }

abbrev joining : VeloBlock
joining = block_at (10 ∷ 11 ∷ []) [] 2 102

abbrev diamond : GhostdagManager
diamond = record {
  k = 3;
  block_store =
      (9, block_at [] [] 0 100)
      ∷ (10, block_at (9 ∷ []) [] 1 101)
      ∷ (11, block_at (9 ∷ []) [] 1 101)
      ∷ (12, joining)
      ∷ [];
  ghostdag_cache = (9, root_data) ∷ (10, side) ∷ (11, side) ∷ [];
}

get_past_set-Ancestor_example :
    (contains 9 (get_past_set diamond 12) ≡ true) ↔ Ancestor (parents_of diamond.block_store) 12 9
get_past_set-Ancestor_example = get_past_set-Ancestor diamond 12 9

find_anticone-Reached_example :
    (contains 10 (find_anticone diamond joining 11) ≡ true)
    ↔ (outside 11 (get_past_set diamond 11) 10 ≡ true)
      × Reached
          (followed diamond.block_store 11 (get_past_set diamond 11))
          (other_parents 11 (10 ∷ 11 ∷ []))
          10
find_anticone-Reached_example = find_anticone-Reached diamond joining 11 10

joining-parent : (calculate_ghostdag_data diamond joining).selected_parent ≡ some 11
unfolding calculate_ghostdag_data scored lookup
joining-parent = refl

calculate_ghostdag_data-colors_example :
    let d = calculate_ghostdag_data diamond joining in
    (contains 11 (10 ∷ 11 ∷ []) ≡ true)
    × ((p : GhostdagData) × (lookup 11 diamond.ghostdag_cache ≡ some p)
        × (contains 11 d.blues ≡ true)
        × (d.blue_score ≡ wrap64 (p.blue_score + length d.blues))
        × ((contains 10 d.blues || contains 10 d.reds) ≡ (
            contains 10 (find_anticone diamond joining 11) || (contains 10 p.blues || 10 == 11))))
calculate_ghostdag_data-colors_example =
    calculate_ghostdag_data-colors diamond joining 11 10 joining-parent

lower_hash : select_best_tip diamond (11 ∷ 10 ∷ []) ≡ some 10
unfolding select_best_tip scored lookup
lower_hash = refl

listed : contains 11 (11 ∷ 10 ∷ []) ≡ true
unfolding contains
listed = refl

has_data : lookup 11 diamond.ghostdag_cache ≡ some side
unfolding lookup
has_data = refl

select_best_tip-wins_example :
    (contains 10 (11 ∷ 10 ∷ []) ≡ true)
    × ((d : GhostdagData) × (lookup 10 diamond.ghostdag_cache ≡ some d)
        × ((1 < d.blue_score) ⊎ ((d.blue_score ≡ 1) × (10 ≤ 11))))
select_best_tip-wins_example =
    select_best_tip-wins diamond (11 ∷ 10 ∷ []) 10 11 side lower_hash listed has_data

select_canonical_tip-order_example :
    select_canonical_tip (λ ks. ks) diamond ≡ select_canonical_tip (λ ks. reverse ks) diamond
select_canonical_tip-order_example =
    select_canonical_tip-order (λ ks. ks) (λ ks. reverse ks) diamond (λ h ks. refl)
      (λ h ks. contains-reverse h ks)

not_own : contains 11 (9 ∷ []) ≡ false
unfolding contains
not_own = refl

its_parent : contains 9 (9 ∷ []) ≡ true
unfolding contains
its_parent = refl

get_linear_sort-tip_first_example :
    (front : List Hash) × (back : List Hash) × (get_linear_sort diamond 11 ≡ front ++ 11 ∷ back)
    × (contains 9 back ≡ true)
    × (contains 11 back ≡ false)
get_linear_sort-tip_first_example =
    get_linear_sort-tip_first diamond 11 9 side has_data not_own its_parent

-- The block 11 and its parent 9, in the order of the replay.
order_of_two : get_linear_sort diamond 11 ≡ 11 ∷ 9 ∷ []
unfolding get_linear_sort push_all push_unique sort insert_sorted lookup contains
order_of_two = refl

diamond-IsFalling : IsFalling diamond.ghostdag_cache
unfolding IsFalling lookup
diamond-IsFalling h sp d e own chosen its = ground (arith, own, chosen, its)

get_linear_sort-enough_example :
    reverse
      (linear_loop diamond.ghostdag_cache (chain_fuel diamond.ghostdag_cache 11 + 7) [] (some 11))
    ≡ get_linear_sort diamond 11
get_linear_sort-enough_example = get_linear_sort-enough diamond 11 7 diamond-IsFalling

diamond-IsClosed : IsClosed diamond.ghostdag_cache
unfolding IsClosed lookup
diamond-IsClosed h sp d own chosen = (root_data, ground (arith, own, chosen))

three_blues : length (calculate_ghostdag_data diamond joining).blues ≡ 3
unfolding calculate_ghostdag_data scored lookup find_anticone get_past_set can_be_blue contains sort
    insert_sorted push_unique all_parents parents_of add
three_blues = refl

low_scores :
    (sp : Hash) (p : GhostdagData)
    → lookup sp diamond.ghostdag_cache ≡ some p
    → p.blue_score + length (calculate_ghostdag_data diamond joining).blues < u64_mod
unfolding lookup
low_scores sp p has = let low : p.blue_score ≤ 1 = ground (arith, has) in omega (arith, three_blues)

unscored : lookup 12 diamond.ghostdag_cache ≡ none
unfolding lookup
unscored = refl

calculate_ghostdag_data-IsFalling_example :
    IsFalling (insert 12 (calculate_ghostdag_data diamond joining) diamond.ghostdag_cache)
    × IsClosed (insert 12 (calculate_ghostdag_data diamond joining) diamond.ghostdag_cache)
calculate_ghostdag_data-IsFalling_example =
    calculate_ghostdag_data-IsFalling diamond joining 12 diamond-IsFalling diamond-IsClosed unscored
      low_scores
