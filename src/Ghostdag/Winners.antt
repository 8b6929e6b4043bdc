-- ===== src/Ghostdag/Winners.antt =====
-- The winner of a list of scored candidates.
use mathlib.Core.Bool.{false≢true}
use velodag_core.Prelude.{
  ℕ, ◌≤◌, ◌<◌, ◌≡◌, refl, sym, ap, ◌∙◌, subst, ◌⊎◌, inl, inr, Bool, true, false, Option, none, some,
  List, [], ◌∷◌, arith, ◌==◌, ==_iff, if◌then◌else◌, contains, contains-cons, Map, lookup,
  Bool-cases,
}
use velodag_core.Types.{Hash}
use velodag_core.Ghostdag.{GhostdagData, scored, beats, best_of}

-- The first is at least as good as the second: a greater score, or an equal one and no greater hash.
unfoldable pub Wins : Hash × ℕ → Hash × ℕ → Type 0
Wins a b = (b.1 < a.1) ⊎ ((a.1 ≡ b.1) × (a.0 ≤ b.0))

Wins-refl : (a : Hash × ℕ) → Wins a a
unfolding Wins
Wins-refl a = inr (refl, omega arith)

Wins-trans : (a b c : Hash × ℕ) → Wins a b → Wins b c → Wins a c
unfolding Wins
Wins-trans a b c u v = ground (arith, u, v)

beats-Wins : (a b : Hash × ℕ) → beats a b ≡ true → Wins a b
unfolding Wins beats
beats-Wins a b h = ground arith

beats-Loses : (a b : Hash × ℕ) → beats a b ≡ false → Wins b a
unfolding Wins beats
beats-Loses a b h = ground arith

-- The winner of two.
better : Hash × ℕ → Hash × ℕ → Hash × ℕ
better best x = if beats best x then best else x

better-Wins : (best x : Hash × ℕ) → Wins (better best x) best × Wins (better best x) x
unfolding better
better-Wins best x = by_test (beats best x) refl
  where
    by_test :
        (b : Bool)
        → beats best x ≡ b
        → Wins (if b then best else x) best × Wins (if b then best else x) x
    by_test true e = (Wins-refl best, beats-Wins best x e)
    by_test false e = (beats-Loses best x e, Wins-refl x)

pub data In (x : Hash × ℕ) : List (Hash × ℕ) → Type 0 where
  here : {xs : List (Hash × ℕ)} → In x (x ∷ xs)
  there : {xs : List (Hash × ℕ)} (y : Hash × ℕ) → In x xs → In x (y ∷ xs)

best_of-In : (best : Hash × ℕ) (xs : List (Hash × ℕ)) → In (best_of best xs) (best ∷ xs)
unfolding best_of
best_of-In best [] = here
best_of-In best (x ∷ xs) = by_test (beats best x) (best_of-In best xs) (best_of-In x xs)
  where
    widen : (y : Hash × ℕ) → In y (best ∷ xs) → In y (best ∷ x ∷ xs)
    widen y here = here
    widen y (there _ i) = there best (there x i)

    by_test :
        (b : Bool)
        → In (best_of best xs) (best ∷ xs)
        → In (best_of x xs) (x ∷ xs)
        → In (best_of (if b then best else x) xs) (best ∷ x ∷ xs)
    by_test true i j = widen (best_of best xs) i
    by_test false i j = there best j

best_of-Wins :
    (best : Hash × ℕ) (xs : List (Hash × ℕ)) (y : Hash × ℕ)
    → In y (best ∷ xs)
    → Wins (best_of best xs) y
unfolding best_of better
best_of-Wins best [] y here = Wins-refl best
best_of-Wins best [] y (there _ i) = elim i [ ]
best_of-Wins best (x ∷ xs) y here =
    Wins-trans _ _ _ (best_of-Wins (better best x) xs (better best x) here) (better-Wins best x).0
best_of-Wins best (x ∷ xs) y (there _ here) =
    Wins-trans _ _ _ (best_of-Wins (better best x) xs (better best x) here) (better-Wins best x).1
best_of-Wins best (x ∷ xs) y (there _ (there _ i)) = best_of-Wins (better best x) xs y (there _ i)

-- A candidate with data, and its score.
pub record Scored (cache : Map GhostdagData) (candidates : List Hash) (x : Hash × ℕ) : Type 0 where
  pub listed : contains x.0 candidates ≡ true
  pub scores : (d : GhostdagData) × (lookup x.0 cache ≡ some d) × (x.1 ≡ d.blue_score)

pub In-scored :
    (cache : Map GhostdagData) (hs : List Hash) (x : Hash × ℕ)
    → In x (scored cache hs)
    → Scored cache hs x
unfolding scored
In-scored cache [] x i = elim i [ ]
In-scored cache (h ∷ hs) x i = by_data (lookup h cache) refl x (λ k. In-scored cache hs x k) i
  where
    grow : (z : Hash × ℕ) → Scored cache hs z → Scored cache (h ∷ hs) z
    grow z s = record {
      listed = contains-cons z.0 h hs ∙ (ground (arith, s.listed));
      scores = s.scores;
    }

    first : (d : GhostdagData) → lookup h cache ≡ some d → Scored cache (h ∷ hs) (h, d.blue_score)
    first d e = record { listed = contains-cons h h hs ∙ (ground arith); scores = (d, e, refl) }

    by_data :
        (o : Option GhostdagData)
        → lookup h cache ≡ o
        → (z : Hash × ℕ) → (In z (scored cache hs) → Scored cache hs z)
        → In z (elim o [ none ↦ scored cache hs | some d ↦ (h, d.blue_score) ∷ scored cache hs ])
        → Scored cache (h ∷ hs) z
    by_data none e z ih i = grow z (ih i)
    by_data (some d) e z ih here = first d e
    by_data (some d) e z ih (there _ i) = grow z (ih i)

pub scored-In :
    (cache : Map GhostdagData) (hs : List Hash) (c : Hash) (d : GhostdagData)
    → contains c hs ≡ true
    → lookup c cache ≡ some d
    → In (c, d.blue_score) (scored cache hs)
unfolding scored contains
scored-In cache [] c d listed has = absurd (false≢true listed)
scored-In cache (h ∷ hs) c d listed has =
    by_key (λ l. scored-In cache hs c d l has) (Bool-cases (h == c))
  where
    by_data :
        (o : Option GhostdagData)
        → In (c, d.blue_score) (scored cache hs)
        → In
            (c, d.blue_score)
            (elim o [ none ↦ scored cache hs | some e ↦ (h, e.blue_score) ∷ scored cache hs ])
    by_data none i = i
    by_data (some e) i = there _ i

    by_key :
        (contains c hs ≡ true → In (c, d.blue_score) (scored cache hs))
        → ((h == c) ≡ true) ⊎ ((h == c) ≡ false)
        → In (c, d.blue_score) (scored cache (h ∷ hs))
    by_key ih (inl same) =
        let at : lookup h cache ≡ some d = ap (λ k. lookup k cache) ((==_iff h c).0 same) ∙ has in
        subst
          (λ o.
            In (c, d.blue_score)
              (elim o [ none ↦ scored cache hs | some e ↦ (h, e.blue_score) ∷ scored cache hs ]))
          (sym at)
          (subst (λ k. In (c, d.blue_score) ((k, d.blue_score) ∷ scored cache hs))
            (sym ((==_iff h c).0 same)) here)
    by_key ih (inr other) = by_data (lookup h cache) (ih (ground (arith, listed, other)))

-- The winner of the scored candidates, before its score is dropped.
unfoldable pub tip_of : List (Hash × ℕ) → Option Hash
tip_of [] = none
tip_of (x ∷ xs) = some (best_of x xs).0

-- The tip of a list of scored candidates stands in it and wins against all of it.
pub record WinsAll (l : List (Hash × ℕ)) (tip : Hash) : Type 0 where
  pub score : ℕ
  pub stands : In (tip, score) l
  pub wins : (y : Hash × ℕ) → In y l → Wins (tip, score) y

pub tip_of-WinsAll : (l : List (Hash × ℕ)) (tip : Hash) → tip_of l ≡ some tip → WinsAll l tip
unfolding tip_of
tip_of-WinsAll [] tip e = absurd (ground (arith, e))
tip_of-WinsAll (x ∷ xs) tip e =
    let at : (best_of x xs).0 ≡ tip = cc in
    subst (λ t. WinsAll (x ∷ xs) t) at
      (record {
        score = (best_of x xs).1;
        stands = best_of-In x xs;
        wins = λ y i. best_of-Wins x xs y i;
      })

-- Two lists with the same elements have the same tip.
pub tip_of-order :
    (l k : List (Hash × ℕ))
    → ((x : Hash × ℕ) → In x l → In x k)
    → ((x : Hash × ℕ) → In x k → In x l)
    → tip_of l ≡ tip_of k
unfolding tip_of Wins
tip_of-order [] [] to from = refl
tip_of-order [] (y ∷ ys) to from = elim (from y here) [ ]
tip_of-order (x ∷ xs) [] to from = elim (to x here) [ ]
tip_of-order (x ∷ xs) (y ∷ ys) to from =
    let a = best_of x xs in
    let b = best_of y ys in
    let u = best_of-Wins x xs b (from b (best_of-In y ys)) in
    let v = best_of-Wins y ys a (to a (best_of-In x xs)) in
    let same : a.0 ≡ b.0 = ground (arith, u, v) in ap some same
