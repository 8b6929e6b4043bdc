-- ===== src/Ghostdag/Order.antt =====
-- The linear order of the blocks below a tip.
pub mod Extension
use mathlib.Core.List.{reverse-append}
use velodag_core.Prelude.{
  contains-nil, ℕ, zero, suc, ◌+◌, ◌≤◌, ◌<◌, ◌≡◌, refl, sym, ap, ◌∙◌, Bool, true, false, ◌||◌, inl,
  inr, Option, none, some, List, [], ◌∷◌, ◌++◌, reverse, arith, ◌==◌, if◌then◌else◌, contains,
  contains-cons, contains-append, contains-sort, sort, Map, lookup, Option-cases,
}
use velodag_core.Types.{Hash}
use velodag_core.Ghostdag.{
  GhostdagData, GhostdagManager, push_unique, push_all, linear_loop, chain_fuel, get_linear_sort,
}
use velodag_core.Ghostdag.Order.Extension.{
  Extends, contains-push_all, contains-reverse, linear_loop-Extends, push_unique-new,
}

-- The order with its tip, and what the rest of the chain appends to it.
chain_order :
    (cache : Map GhostdagData) (tip : Hash) (d : GhostdagData)
    → lookup tip cache ≡ some d
    → Extends
        (push_unique (push_all (sort (d.blues ++ d.reds)) []) tip)
        (linear_loop cache (chain_fuel cache tip) [] (some tip))
unfolding linear_loop chain_fuel Extends
chain_order cache tip d has =
    let fuel : chain_fuel cache tip ≡ suc (d.blue_score + 1) = ground (arith, has) in
    let grown = push_unique (push_all (sort (d.blues ++ d.reds)) []) tip in
    let (more, e) = linear_loop-Extends cache (d.blue_score + 1) grown d.selected_parent in
    let first : linear_loop cache (suc (d.blue_score + 1)) [] (some tip)
        ≡ linear_loop cache (d.blue_score + 1) grown d.selected_parent =
      ap
        (λ o. elim o [
          | none ↦ []
          | some c ↦
              linear_loop cache (d.blue_score + 1)
                (push_unique (push_all (sort (c.blues ++ c.reds)) []) tip) c.selected_parent
        ])
        has in
    (more, ap (λ n. linear_loop cache n [] (some tip)) fuel ∙ first ∙ e)

-- In the linear order of a tip with data that does not colour the tip itself, every block that the
-- data colours blue or red stands behind the tip, and the tip does not come again.
pub get_linear_sort-tip_first :
    (m : GhostdagManager) (tip h : Hash) (d : GhostdagData)
    → lookup tip m.ghostdag_cache ≡ some d
    → contains tip (d.blues ++ d.reds) ≡ false
    → contains h (d.blues ++ d.reds) ≡ true
    → (front : List Hash) × (back : List Hash) × (get_linear_sort m tip ≡ front ++ tip ∷ back)
      × (contains h back ≡ true)
      × (contains tip back ≡ false)
unfolding get_linear_sort Extends
get_linear_sort-tip_first m tip h d has absent colored =
    let below = push_all (sort (d.blues ++ d.reds)) [] in
    let holds : (k : Hash) → contains k below ≡ contains k (d.blues ++ d.reds) = λ k.
      contains-push_all (sort (d.blues ++ d.reds)) [] k
      ∙ (ground (arith, contains-sort k (d.blues ++ d.reds), contains-nil k)) in
    let (more, e) = chain_order m.ghostdag_cache tip d has in
    let appended : push_unique below tip ≡ below ++ tip ∷ [] =
      push_unique-new below tip (holds tip ∙ absent) in
    (
      reverse more,
      reverse below,
      ap reverse (e ∙ ap (λ l. l ++ more) appended)
          ∙ reverse-append (below ++ tip ∷ []) more
          ∙ ap (λ l. reverse more ++ l) (reverse-append below (tip ∷ [])),
      contains-reverse h below ∙ holds h ∙ colored,
      contains-reverse tip below ∙ holds tip ∙ absent,
    )

-- Scores fall from a block with data to its selected parent, as `calculate_ghostdag_data` makes them
-- while they stay below 2^64.
unfoldable pub IsFalling : Map GhostdagData → Type 0
IsFalling cache =
    (h sp : Hash) (d e : GhostdagData)
    → lookup h cache ≡ some d
    → d.selected_parent ≡ some sp
    → lookup sp cache ≡ some e
    → e.blue_score < d.blue_score

-- The rounds that do something.
needed : Map GhostdagData → Option Hash → ℕ
needed cache none = 0
needed cache (some h) = elim (lookup h cache) [ none ↦ 0 | some d ↦ d.blue_score + 1 ]

needed-falls :
    (cache : Map GhostdagData) (h : Hash) (d : GhostdagData)
    → IsFalling cache
    → lookup h cache ≡ some d
    → needed cache d.selected_parent ≤ d.blue_score
unfolding needed IsFalling
needed-falls cache h d falls has = by_parent d.selected_parent refl
  where
    by_data :
        (sp : Hash)
        → d.selected_parent ≡ some sp
        → (o : Option GhostdagData) → lookup sp cache ≡ o
        → ◌≤◌ (elim o [ none ↦ 0 | some e ↦ e.blue_score + 1 ]) d.blue_score
    by_data sp at none missing = omega arith
    by_data sp at (some e) found = omega (arith, falls h sp d e has at found)

    by_parent : (o : Option Hash) → d.selected_parent ≡ o → needed cache o ≤ d.blue_score
    by_parent none at = omega arith
    by_parent (some sp) at = by_data sp at (lookup sp cache) refl

linear_loop-fuel :
    (cache : Map GhostdagData) (fuel more : ℕ) (order : List Hash) (current : Option Hash)
    → IsFalling cache
    → needed cache current ≤ fuel
    → needed cache current ≤ more
    → linear_loop cache fuel order current ≡ linear_loop cache more order current
unfolding linear_loop needed
linear_loop-fuel cache zero zero order current falls le le' = refl
linear_loop-fuel cache zero (suc more) order none falls le le' = refl
linear_loop-fuel cache (suc fuel) zero order none falls le le' = refl
linear_loop-fuel cache (suc fuel) (suc more) order none falls le le' = refl
linear_loop-fuel cache zero (suc more) order (some h) falls le le' = ground (arith, le)
linear_loop-fuel cache (suc fuel) zero order (some h) falls le le' = ground (arith, le')
linear_loop-fuel cache (suc fuel) (suc more) order (some h) falls le le' =
    let step = λ (f : ℕ) (o : Option GhostdagData). elim o as (λ _. List Hash) [
      | none ↦ order
      | some c ↦
          linear_loop cache f (push_unique (push_all (sort (c.blues ++ c.reds)) order) h)
            c.selected_parent
    ] in
    elim (Option-cases (lookup h cache)) [
      | inl e ↦ ap (step fuel) e ∙ sym (ap (step more) e)
      | inr (d, e) ↦
          let down = needed-falls cache h d falls e in
          let need : needed cache (some h) ≡ d.blue_score + 1 = ground (arith, e) in
          ap (step fuel) e
          ∙ linear_loop-fuel cache fuel more
              (push_unique (push_all (sort (d.blues ++ d.reds)) order) h) d.selected_parent falls
              (omega arith) (omega arith)
          ∙ sym (ap (step more) e)
    ]

-- Where scores fall along the selected parents, the rounds that `get_linear_sort` allows are enough:
-- with any number of further rounds the order is the same.
pub get_linear_sort-enough :
    (m : GhostdagManager) (tip : Hash) (extra : ℕ)
    → IsFalling m.ghostdag_cache
    → reverse (linear_loop m.ghostdag_cache (chain_fuel m.ghostdag_cache tip + extra) [] (some tip))
      ≡ get_linear_sort m tip
unfolding get_linear_sort chain_fuel needed
get_linear_sort-enough m tip extra falls =
    let within : needed m.ghostdag_cache (some tip) ≤ chain_fuel m.ghostdag_cache tip =
      elim (Option-cases (lookup tip m.ghostdag_cache)) [
        | inl e ↦ ground (arith, e)
        | inr (d, e) ↦ ground (arith, e)
      ] in
    ap reverse (
      linear_loop-fuel m.ghostdag_cache (chain_fuel m.ghostdag_cache tip + extra)
        (chain_fuel m.ghostdag_cache tip) [] (some tip) falls (omega arith) within)
