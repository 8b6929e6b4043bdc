-- ===== src/Ghostdag/Past.antt =====
-- The breadth-first search of `get_past_set` ends and finds exactly the ancestors.
use mathlib.Core.Bool.{false≢true}
use velodag_core.Prelude.{
  subst, ℕ, zero, suc, ◌+◌, ◌≤◌, ◌<◌, ◌≡◌, refl, ap, ◌⊎◌, inl, inr, ◌↔◌, true, false, not, ◌&&◌,
  ◌||◌, List, [], ◌∷◌, ◌++◌, arith, if◌then◌else◌, length, length-append, contains, contains-cons,
  contains-append, add, contains-add, Map, lookup,
}
use velodag_core.Types.{Hash, VeloBlock}
use velodag_core.Ghostdag.{
  GhostdagManager, parents_of, push_new, explore, all_parents, get_past_set,
}

-- `a` is an ancestor of `h`: a parent of it, or of an ancestor.
pub data Ancestor (next : Hash → List Hash) (h : Hash) : Hash → Type 0 where
  parent : {a : Hash} → contains a (next h) ≡ true → Ancestor next h a
  further : {b a : Hash} → Ancestor next h b → contains a (next b) ≡ true → Ancestor next h a

pub contains-push_new :
    (ps seen queue : List Hash) (x : Hash)
    → (contains x (push_new ps seen queue).0 ≡ (contains x seen || contains x ps))
      × (contains x (push_new ps seen queue).1
          ≡ (contains x queue || (contains x ps && not (contains x seen))))
unfolding push_new contains
contains-push_new [] seen queue x = (ground arith, ground arith)
contains-push_new (p ∷ ps) seen queue x =
    let known = contains p seen in
    let ih = contains-push_new ps (add p seen) (if known then queue else queue ++ p ∷ []) x in
    let same : p ≡ x → contains p seen ≡ contains x seen = λ e. ap (λ k. contains k seen) e in
    (
      ground (arith, ih, contains-add p x seen, same),
      ground (arith, ih, contains-add p x seen, same, contains-append x queue (p ∷ [])),
    )

-- The entries of a list that are not among those seen.
pub unseen : List Hash → List Hash → ℕ
unseen seen [] = 0
unseen seen (x ∷ u) = (if contains x seen then 0 else 1) + unseen seen u

unseen-add-le : (p : Hash) (seen u : List Hash) → unseen (add p seen) u ≤ unseen seen u
unfolding unseen
unseen-add-le p seen [] = omega arith
unseen-add-le p seen (x ∷ u) = ground (arith, contains-add p x seen, unseen-add-le p seen u)

unseen-add-lt :
    (p : Hash) (seen u : List Hash)
    → contains p u ≡ true
    → contains p seen ≡ false
    → unseen (add p seen) u < unseen seen u
unfolding unseen contains
unseen-add-lt p seen [] h e = cc
unseen-add-lt p seen (x ∷ u) h e = ground (
  arith,
  contains-add p x seen,
  unseen-add-le p seen u,
  unseen-add-lt p seen u,
  (λ (q : x ≡ p). ap (λ k. contains k seen) q),
)

-- Each push pays for itself: what is queued and what is still unseen do not grow together.
pub push_new-measure :
    (ps seen queue u : List Hash)
    → ((x : Hash) → contains x ps ≡ true → contains x u ≡ true)
    → length (push_new ps seen queue).1 + unseen (push_new ps seen queue).0 u
      ≤ length queue + unseen seen u
unfolding push_new
push_new-measure [] seen queue u h = omega arith
push_new-measure (p ∷ ps) seen queue u h =
    let known = contains p seen in
    let ih =
      push_new-measure ps (add p seen) (if known then queue else queue ++ p ∷ []) u
        (λ x c. h x (rw (contains-cons x p ps) (ground arith))) in
    ground (
      arith,
      ih,
      unseen-add-le p seen u,
      unseen-add-lt p seen u (h p (rw (contains-cons p p ps) (ground arith))),
      length-append queue (p ∷ []),
    )

module _ (next : Hash → List Hash) (universe : List Hash)
    (covers : (h p : Hash) → contains p (next h) ≡ true → contains p universe ≡ true)
    (start : Hash) where
  record Inv (seen queue : List Hash) : Type 0 where
    seen_sound : (x : Hash) → contains x seen ≡ true → Ancestor next start x
    queue_sound : (x : Hash) → contains x queue ≡ true → (x ≡ start) ⊎ Ancestor next start x
    closed :
        (x p : Hash)
        → (x ≡ start) ⊎ (contains x seen ≡ true)
        → contains p (next x) ≡ true
        → (contains x queue ≡ true) ⊎ (contains p seen ≡ true)

  -- What the head of the queue leads to is an ancestor.
  child :
      (seen queue : List Hash) (h x : Hash)
      → Inv seen (h ∷ queue)
      → contains x (next h) ≡ true
      → Ancestor next start x
  child seen queue h x v c = elim (v.queue_sound h (rw (contains-cons h h queue) (ground arith))) [
    | inl at ↦ parent (subst (λ k. contains x (next k) ≡ true) at c)
    | inr a ↦ further a c
  ]

  Inv-step :
      (seen queue : List Hash) (h : Hash)
      → Inv seen (h ∷ queue)
      → Inv (push_new (next h) seen queue).0 (push_new (next h) seen queue).1
  Inv-step seen queue h v = record {
    seen_sound = λ x c.
        ground
          (arith, contains-push_new (next h) seen queue x, v.seen_sound x, child seen queue h x v);
    queue_sound = λ x c. ground (
      arith,
      contains-push_new (next h) seen queue x,
      contains-cons x h queue,
      v.queue_sound x,
      child seen queue h x v,
    );
    closed = λ x p from edge. ground (
      arith,
      contains-push_new (next h) seen queue x,
      contains-push_new (next h) seen queue p,
      contains-cons x h queue,
      v.closed x p,
      (λ (e : h ≡ x). ap (λ k. contains p (next k)) e),
    );
  }

  -- With an empty queue the seen set is closed, so it holds every ancestor.
  complete :
      (seen : List Hash) → Inv seen [] → {x : Hash} → Ancestor next start x → contains x seen ≡ true
  unfolding contains
  complete seen v (parent {a = x} c) = ground (arith, v.closed start x (inl refl) c)
  complete seen v (further {b = b} {a = x} a c) =
      ground (arith, v.closed b x (inr (complete seen v a)) c)

  -- With fuel for all that may still be queued, the loop ends with an empty queue.
  explore-Inv :
      (fuel : ℕ) (seen queue : List Hash)
      → length queue + unseen seen universe < fuel
      → Inv seen queue
      → Inv (explore next fuel seen queue) []
  unfolding explore
  explore-Inv zero seen queue lt v = absurd (omega arith)
  explore-Inv (suc fuel) seen [] lt v = v
  explore-Inv (suc fuel) seen (h ∷ queue) lt v =
      explore-Inv fuel (push_new (next h) seen queue).0 (push_new (next h) seen queue).1
        (omega (arith, push_new-measure (next h) seen queue universe (covers h)))
        (Inv-step seen queue h v)

  -- The search from one hash, with fuel for the universe, finds exactly the ancestors.
  explore-Ancestor :
      (fuel : ℕ)
      → 1 + unseen [] universe < fuel
      → (x : Hash) → (contains x (explore next fuel [] (start ∷ [])) ≡ true) ↔ Ancestor next start x
  explore-Ancestor fuel lt x =
      let begin : Inv [] (start ∷ []) = Inv-start in
      let end = explore-Inv fuel [] (start ∷ []) lt begin in
      (end.seen_sound x, complete (explore next fuel [] (start ∷ [])) end)
    where
      Inv-start : Inv [] (start ∷ [])
      Inv-start =
          unfold contains in
          record {
            seen_sound = λ y c. absurd (false≢true c);
            queue_sound = λ y c. inl (ground arith);
            closed = λ y p from edge. inl (ground arith);
          }

pub unseen-le : (seen u : List Hash) → unseen seen u ≤ length u
unfolding unseen
unseen-le seen [] = omega arith
unseen-le seen (x ∷ u) = ground (arith, unseen-le seen u)

unseen-nil : (u : List Hash) → unseen [] u ≡ length u
unfolding unseen contains
unseen-nil [] = refl
unseen-nil (x ∷ u) = omega (arith, unseen-nil u)

pub parents_of-all_parents :
    (store : Map VeloBlock) (h p : Hash)
    → contains p (parents_of store h) ≡ true
    → contains p (all_parents store) ≡ true
unfolding parents_of all_parents lookup contains
parents_of-all_parents [] h p c = c
parents_of-all_parents ((j, b) ∷ store) h p c = ground (
  arith,
  contains-append p b.header.parents (all_parents store),
  parents_of-all_parents store h p,
)

-- A hash is in the set that `get_past_set` returns exactly if it is an ancestor of the block by the
-- parent pointers of the stored blocks: whatever the store, cycles included, the search ends.
pub get_past_set-Ancestor :
    (m : GhostdagManager) (h a : Hash)
    → (contains a (get_past_set m h) ≡ true) ↔ Ancestor (parents_of m.block_store) h a
unfolding get_past_set
get_past_set-Ancestor m h a =
    let store = m.block_store in
    explore-Ancestor (parents_of store) (all_parents store) (parents_of-all_parents store) h
      (length (all_parents store) + 2) (omega (arith, unseen-nil (all_parents store))) a
