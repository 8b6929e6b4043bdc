-- ===== src/Ghostdag/Order/Extension.antt =====
-- How the linear order grows from round to round.
use mathlib.Core.List.{reverse-append}
use velodag_core.Ghostdag.Coloring.{contains-push_unique}
use velodag_core.Prelude.{
  append-nil, append_assoc, ℕ, zero, suc, ◌≡◌, refl, sym, ap, ◌∙◌, Bool, true, false, ◌||◌, Option,
  none, some, List, [], ◌∷◌, ◌++◌, reverse, arith, if◌then◌else◌, contains, contains-cons,
  contains-append, sort, Map, lookup,
}
use velodag_core.Types.{Hash}
use velodag_core.Ghostdag.{GhostdagData, push_unique, push_all, linear_loop}

-- The order so far is a beginning of the order in the end.
unfoldable pub Extends : List Hash → List Hash → Type 0
Extends xs ys = (more : List Hash) × (ys ≡ xs ++ more)

Extends-trans : (xs ys zs : List Hash) → Extends xs ys → Extends ys zs → Extends xs zs
unfolding Extends
Extends-trans xs ys zs (a, e) (b, f) = (a ++ b, f ∙ ap (λ l. l ++ b) e ∙ append_assoc xs a b)

push_unique-Extends : (xs : List Hash) (h : Hash) → Extends xs (push_unique xs h)
unfolding Extends push_unique
push_unique-Extends xs h = by_test (contains h xs)
  where
    by_test : (b : Bool) → (more : List Hash) × ((if b then xs else xs ++ h ∷ []) ≡ xs ++ more)
    by_test true = ([], sym (append-nil xs))
    by_test false = (h ∷ [], refl)

push_all-Extends : (hs xs : List Hash) → Extends xs (push_all hs xs)
unfolding push_all Extends
push_all-Extends [] xs = ([], sym (append-nil xs))
push_all-Extends (h ∷ hs) xs =
    Extends-trans xs (push_unique xs h) (push_all hs (push_unique xs h)) (push_unique-Extends xs h)
      (push_all-Extends hs (push_unique xs h))

pub linear_loop-Extends :
    (cache : Map GhostdagData) (fuel : ℕ) (order : List Hash) (current : Option Hash)
    → Extends order (linear_loop cache fuel order current)
unfolding linear_loop Extends
linear_loop-Extends cache zero order current = ([], sym (append-nil order))
linear_loop-Extends cache (suc fuel) order none = ([], sym (append-nil order))
linear_loop-Extends cache (suc fuel) order (some h) = by_data (lookup h cache) (λ d.
    Extends-trans order (grown d) (linear_loop cache fuel (grown d) d.selected_parent)
      (Extends-trans order (push_all (sort (d.blues ++ d.reds)) order) (grown d)
        (push_all-Extends (sort (d.blues ++ d.reds)) order)
        (push_unique-Extends (push_all (sort (d.blues ++ d.reds)) order) h))
      (linear_loop-Extends cache fuel (grown d) d.selected_parent))
  where
    grown : GhostdagData → List Hash
    grown d = push_unique (push_all (sort (d.blues ++ d.reds)) order) h

    by_data :
        (o : Option GhostdagData)
        → ((d : GhostdagData) → Extends order (linear_loop cache fuel (grown d) d.selected_parent))
        → (more : List Hash) × (elim o [
          | none ↦ order
          | some d ↦ linear_loop cache fuel (grown d) d.selected_parent
        ]
            ≡ order ++ more)
    by_data none step = ([], sym (append-nil order))
    by_data (some d) step = step d

pub contains-push_all :
    (hs order : List Hash) (k : Hash)
    → contains k (push_all hs order) ≡ (contains k hs || contains k order)
unfolding push_all contains
contains-push_all [] order k = refl
contains-push_all (h ∷ hs) order k =
    ground (arith, contains-push_all hs (push_unique order h) k, contains-push_unique k h order)

pub push_unique-new :
    (xs : List Hash) (h : Hash) → contains h xs ≡ false → push_unique xs h ≡ xs ++ h ∷ []
unfolding push_unique
push_unique-new xs h e = ground (arith, e)

pub contains-reverse : (k : Hash) (xs : List Hash) → contains k (reverse xs) ≡ contains k xs
unfolding contains
contains-reverse k [] = refl
contains-reverse k (x ∷ xs) =
    ap (contains k) (reverse-append (x ∷ []) xs)
    ∙ contains-append k (reverse xs) (x ∷ [])
    ∙ (ground (arith, contains-reverse k xs, contains-cons k x xs, contains-cons k x []))
