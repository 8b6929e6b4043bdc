-- ===== src/Ghostdag/Anticone.antt =====
-- The search of `find_anticone` ends and finds exactly the mergeset.
use mathlib.Core.Bool.{false≢true}
use velodag_core.Prelude.{
  ℕ, zero, suc, ◌+◌, ◌<◌, ◌≡◌, ap, ◌∙◌, subst, ◌⊎◌, inl, inr, ◌↔◌, Bool, true, not, ◌&&◌, ◌||◌,
  List, [], ◌∷◌, arith, ◌==◌, if◌then◌else◌, length, contains, contains-cons, Map, Bool-cases,
}
use velodag_core.Types.{Hash, VeloBlock}
use velodag_core.Ghostdag.{
  GhostdagManager, parents_of, push_new, push_unique, all_parents, get_past_set, other_parents,
  anticone_loop, find_anticone,
}
use velodag_core.Ghostdag.Past.{
  contains-push_new, push_new-measure, unseen, unseen-le, parents_of-all_parents,
}
use velodag_core.Ghostdag.Coloring.{contains-push_unique}

-- Not the selected parent, and not in its past.
pub outside : Hash → List Hash → Hash → Bool
outside sp sp_past h = not (contains h sp_past) && not (h == sp)

-- What the search follows from a hash: its parents, unless it is inside.
pub followed : Map VeloBlock → Hash → List Hash → Hash → List Hash
followed store sp sp_past h = if outside sp sp_past h then parents_of store h else []

-- A start of the search, or a parent that it follows from a hash that it has reached.
pub data Reached (next : Hash → List Hash) (starts : List Hash) : Hash → Type 0 where
  start : {a : Hash} → contains a starts ≡ true → Reached next starts a
  follow : {b a : Hash} → Reached next starts b → contains a (next b) ≡ true → Reached next starts a

module _ (store : Map VeloBlock) (sp : Hash) (sp_past : List Hash) (starts : List Hash) where
  abbrev next : Hash → List Hash
  next h = followed store sp sp_past h

  record Inv (anticone visited queue : List Hash) : Type 0 where
    visited_sound : (x : Hash) → contains x visited ≡ true → Reached next starts x
    queued : (x : Hash) → contains x queue ≡ true → contains x visited ≡ true
    anticone_sound :
        (x : Hash)
        → contains x anticone ≡ true
        → (outside sp sp_past x ≡ true) × Reached next starts x
    begun : (x : Hash) → contains x starts ≡ true → contains x visited ≡ true
    collected :
        (x : Hash)
        → contains x visited ≡ true
        → outside sp sp_past x ≡ true
        → (contains x queue ≡ true) ⊎ (contains x anticone ≡ true)
    closed :
        (x p : Hash)
        → contains x visited ≡ true
        → contains p (next x) ≡ true
        → (contains x queue ≡ true) ⊎ (contains p visited ≡ true)

  collect : Hash → List Hash → List Hash
  collect h anticone = if outside sp sp_past h then push_unique anticone h else anticone

  contains-collect :
      (h x : Hash) (anticone : List Hash)
      → contains x (collect h anticone) ≡ (contains x anticone || (h == x && outside sp sp_past h))
  unfolding collect
  contains-collect h x anticone = ground (arith, contains-push_unique x h anticone)

  Inv-step :
      (anticone visited queue : List Hash) (h : Hash)
      → Inv anticone visited (h ∷ queue)
      → Inv
          (collect h anticone)
          (push_new (next h) visited queue).0
          (push_new (next h) visited queue).1
  Inv-step anticone visited queue h v =
      let here : contains h (h ∷ queue) ≡ true = contains-cons h h queue ∙ (ground arith) in
      let reached : Reached next starts h = v.visited_sound h (v.queued h here) in
      record {
        visited_sound = λ x c. elim (Bool-cases (contains x visited)) [
          | inl old ↦ v.visited_sound x old
          | inr new ↦
              follow reached (ground (arith, c, new, contains-push_new (next h) visited queue x))
        ];
        queued = λ x c. ground (
          arith,
          contains-push_new (next h) visited queue x,
          contains-cons x h queue,
          v.queued x,
        );
        anticone_sound = λ x c. elim (Bool-cases (contains x anticone)) [
          | inl old ↦ v.anticone_sound x old
          | inr new ↦
              let at : h ≡ x = ground (arith, c, new, contains-collect h x anticone) in
              let out : outside sp sp_past h ≡ true =
                ground (arith, c, new, contains-collect h x anticone) in
              (
                subst (λ k. outside sp sp_past k ≡ true) at out,
                subst (λ k. Reached next starts k) at reached,
              )
        ];
        begun = λ x c. ground (arith, contains-push_new (next h) visited queue x, v.begun x);
        collected = λ x c out. ground (
          arith,
          c,
          out,
          contains-push_new (next h) visited queue x,
          contains-collect h x anticone,
          contains-cons x h queue,
          v.collected x,
          (λ (e : h ≡ x). ap (outside sp sp_past) e),
        );
        closed = λ x p c edge. ground (
          arith,
          c,
          edge,
          contains-push_new (next h) visited queue x,
          contains-push_new (next h) visited queue p,
          contains-cons x h queue,
          v.closed x p,
          (λ (e : h ≡ x). ap (λ k. contains p (next k)) e),
        );
      }

  -- What the search follows is named as a parent by a stored block.
  followed-all_parents :
      (h p : Hash) → contains p (next h) ≡ true → contains p (all_parents store) ≡ true
  unfolding followed contains
  followed-all_parents h p c = ground (arith, c, parents_of-all_parents store h p)

  anticone_loop-Inv :
      (fuel : ℕ) (anticone visited queue : List Hash)
      → length queue + unseen visited (all_parents store) < fuel
      → Inv anticone visited queue
      → (seen : List Hash) × Inv
          (anticone_loop store sp sp_past fuel anticone visited queue)
          seen
          []
  unfolding anticone_loop collect followed outside
  anticone_loop-Inv zero anticone visited queue lt v = absurd (omega arith)
  anticone_loop-Inv (suc fuel) anticone visited [] lt v = (visited, v)
  anticone_loop-Inv (suc fuel) anticone visited (h ∷ queue) lt v =
      anticone_loop-Inv fuel (collect h anticone) (push_new (next h) visited queue).0
        (push_new (next h) visited queue).1
        (omega (
          arith,
          push_new-measure (next h) visited queue (all_parents store) (followed-all_parents h),
        ))
        (Inv-step anticone visited queue h v)

  none_in : (y : Hash) → contains y [] ≡ true → ⊥
  unfolding contains
  none_in y c = false≢true c

  visits :
      {anticone : List Hash} (seen : List Hash)
      → Inv anticone seen []
      → {y : Hash} → Reached next starts y
      → contains y seen ≡ true
  visits seen v (start {a = y} c) = v.begun y c
  visits seen v (follow {b = b} {a = y} r edge) = elim (v.closed b y (visits seen v r) edge) [
    | inl q ↦ absurd (none_in b q)
    | inr c ↦ c
  ]

  -- With fuel for the starts and all parents that stored blocks name, the search ends, and holds what
  -- is outside and reached.
  anticone_loop-Reached :
      (fuel : ℕ) (x : Hash)
      → length starts + length (all_parents store) < fuel
      → (contains x (anticone_loop store sp sp_past fuel [] starts starts) ≡ true)
        ↔ (outside sp sp_past x ≡ true) × Reached next starts x
  anticone_loop-Reached fuel x lt =
      let (seen, v) =
        anticone_loop-Inv fuel [] starts starts
          (omega (arith, unseen-le starts (all_parents store))) Inv-start in
      (v.anticone_sound x, λ (out, r). found seen v x out (visits seen v r))
    where
      Inv-start : Inv [] starts starts
      Inv-start =
          unfold contains in
          record {
            visited_sound = λ y c. start c;
            queued = λ y c. c;
            anticone_sound = λ y c. absurd (false≢true c);
            begun = λ y c. c;
            collected = λ y c out. inl c;
            closed = λ y p c edge. inl c;
          }

      found :
          (seen : List Hash)
          → Inv (anticone_loop store sp sp_past fuel [] starts starts) seen []
          → (y : Hash) → outside sp sp_past y ≡ true
          → contains y seen ≡ true
          → contains y (anticone_loop store sp sp_past fuel [] starts starts) ≡ true
      found seen v y out c = elim (v.collected y c out) [ inl q ↦ absurd (none_in y q) | inr a ↦ a ]

-- A block is in the list that `find_anticone` returns exactly if it is neither the selected parent nor
-- in its past, and is another parent of the block or an ancestor of one through such blocks: whatever
-- the store, the search ends.
pub find_anticone-Reached :
    (m : GhostdagManager) (b : VeloBlock) (sp a : Hash)
    → (contains a (find_anticone m b sp) ≡ true)
      ↔ (outside sp (get_past_set m sp) a ≡ true)
        × Reached
            (followed m.block_store sp (get_past_set m sp))
            (other_parents sp b.header.parents)
            a
unfolding find_anticone
find_anticone-Reached m b sp a =
    let queue = other_parents sp b.header.parents in
    anticone_loop-Reached m.block_store sp (get_past_set m sp) queue
      (length queue + length (all_parents m.block_store) + 1) a (omega arith)
