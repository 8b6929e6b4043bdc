-- ===== src/Ghostdag/ForkChoice.antt =====
-- Fork choice: the tip with the greatest score, and on a tie the lowest hash, in whatever order the
-- tips are enumerated.
use velodag_core.Prelude.{
  ℕ, ◌≤◌, ◌<◌, ◌≡◌, refl, sym, ap, ◌∙◌, subst, ◌⊎◌, Bool, true, not, ◌&&◌, Option, none, some, List,
  [], ◌∷◌, arith, filter_b, contains, Map, lookup, keys,
}
use velodag_core.Types.{Hash}
use velodag_core.Ghostdag.{
  GhostdagData, GhostdagManager, scored, best_of, select_best_tip, all_parents, compute_tips,
  select_canonical_tip,
}
use velodag_core.Ghostdag.Winners.{
  Wins, In, In-scored, scored-In, tip_of, tip_of-WinsAll, tip_of-order,
}

select_best_tip-tip_of :
    (m : GhostdagManager) (hs : List Hash)
    → select_best_tip m hs ≡ tip_of (scored m.ghostdag_cache hs)
unfolding select_best_tip tip_of
select_best_tip-tip_of m hs = by_list (scored m.ghostdag_cache hs)
  where
    by_list :
        (l : List (Hash × ℕ))
        → ◌≡◌ {A = Option Hash} (elim l [ [] ↦ none | x ∷ xs ↦ some (best_of x xs).0 ]) (tip_of l)
    by_list [] = refl
    by_list (x ∷ xs) = refl

same_members :
    (cache : Map GhostdagData) (hs ks : List Hash)
    → ((h : Hash) → contains h hs ≡ true → contains h ks ≡ true)
    → (x : Hash × ℕ) → In x (scored cache hs)
    → In x (scored cache ks)
same_members cache hs ks sub (h, n) i =
    let s = In-scored cache hs (h, n) i in
    let (d, has, at) = s.scores in
    subst (λ j. In (h, j) (scored cache ks)) (sym at) (scored-In cache ks h d (sub h s.listed) has)

-- The tip that is selected is a candidate with data, and no candidate has a greater score, or the
-- same score and a lower hash.
pub select_best_tip-wins :
    (m : GhostdagManager) (candidates : List Hash) (tip c : Hash) (e : GhostdagData)
    → select_best_tip m candidates ≡ some tip
    → contains c candidates ≡ true
    → lookup c m.ghostdag_cache ≡ some e
    → (contains tip candidates ≡ true)
      × ((d : GhostdagData) × (lookup tip m.ghostdag_cache ≡ some d)
          × ((e.blue_score < d.blue_score) ⊎ ((d.blue_score ≡ e.blue_score) × (tip ≤ c))))
unfolding Wins
select_best_tip-wins m candidates tip c e chosen listed has =
    let l = scored m.ghostdag_cache candidates in
    let w = tip_of-WinsAll l tip (sym (select_best_tip-tip_of m candidates) ∙ chosen) in
    let s = In-scored m.ghostdag_cache candidates (tip, w.score) w.stands in
    let (d, at, score) = s.scores in
    let won = w.wins (c, e.blue_score) (scored-In m.ghostdag_cache candidates c e listed has) in
    (s.listed, (d, at, ground (arith, won, score)))

contains-filter_b :
    (p : Hash → Bool) (h : Hash) (xs : List Hash)
    → contains h (filter_b p xs) ≡ (contains h xs && p h)
unfolding contains filter_b
contains-filter_b p h [] = refl
contains-filter_b p h (x ∷ xs) = ground (arith, contains-filter_b p h xs, (λ (e : x ≡ h). ap p e))

contains-compute_tips :
    (order : List Hash → List Hash) (m : GhostdagManager)
    → ((h : Hash) (ks : List Hash) → contains h (order ks) ≡ contains h ks)
    → (h : Hash)
    → contains h (compute_tips order m)
      ≡ (contains h (keys m.block_store) && not (contains h (all_parents m.block_store)))
unfolding compute_tips
contains-compute_tips order m keeps h =
    contains-filter_b (λ k. not (contains k (all_parents m.block_store))) h
      (order (keys m.block_store))
    ∙ ap (λ b. b && not (contains h (all_parents m.block_store))) (keeps h (keys m.block_store))

-- Whatever the order in which the blocks' keys are enumerated, the canonical tip is the same: nodes
-- with the same blocks choose the same tip.
pub select_canonical_tip-order :
    (order order' : List Hash → List Hash) (m : GhostdagManager)
    → ((h : Hash) (ks : List Hash) → contains h (order ks) ≡ contains h ks)
    → ((h : Hash) (ks : List Hash) → contains h (order' ks) ≡ contains h ks)
    → select_canonical_tip order m ≡ select_canonical_tip order' m
unfolding select_canonical_tip
select_canonical_tip-order order order' m keeps keeps' =
    let hs = compute_tips order m in
    let ks = compute_tips order' m in
    let same : (h : Hash) → contains h hs ≡ contains h ks =
      λ h. contains-compute_tips order m keeps h ∙ sym (contains-compute_tips order' m keeps' h) in
    select_best_tip-tip_of m hs
    ∙ tip_of-order (scored m.ghostdag_cache hs) (scored m.ghostdag_cache ks)
        (same_members m.ghostdag_cache hs ks (λ h c. sym (same h) ∙ c))
        (same_members m.ghostdag_cache ks hs (λ h c. same h ∙ c))
    ∙ sym (select_best_tip-tip_of m ks)

-- The canonical tip is a stored block.
pub select_canonical_tip-stored :
    (order : List Hash → List Hash) (m : GhostdagManager) (tip : Hash)
    → ((h : Hash) (ks : List Hash) → contains h (order ks) ≡ contains h ks)
    → select_canonical_tip order m ≡ some tip
    → contains tip (keys m.block_store) ≡ true
unfolding select_canonical_tip
select_canonical_tip-stored order m tip keeps chosen =
    let hs = compute_tips order m in
    let l = scored m.ghostdag_cache hs in
    let w = tip_of-WinsAll l tip (sym (select_best_tip-tip_of m hs) ∙ chosen) in
    let s = In-scored m.ghostdag_cache hs (tip, w.score) w.stands in
    ground (arith, s.listed, contains-compute_tips order m keeps tip)
