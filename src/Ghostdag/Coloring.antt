-- ===== src/Ghostdag/Coloring.antt =====
-- What `calculate_ghostdag_data` makes of a block: its selected parent, its score, and that all of its
-- mergeset is coloured.
use velodag_core.Prelude.{
  contains-nil, ℕ, ◌+◌, ◌≡◌, refl, sym, ap, ◌∙◌, subst, Bool, true, false, ◌||◌, Option, none, some,
  List, [], ◌∷◌, ◌++◌, arith, ltb, ◌==◌, if◌then◌else◌, length, contains, contains-cons,
  contains-append, contains-sort, sort, Map, lookup, wrap64,
}
use velodag_core.Types.{Hash, VeloBlock}
use velodag_core.Ghostdag.{
  GhostdagData, GhostdagManager, push_unique, find_anticone, can_be_blue, scored, last_max,
  select_parent, inherit, color, inherited_blues, parent_blue_score, data_below,
  calculate_ghostdag_data, root_data,
}

pub contains-push_unique :
    (k h : Hash) (xs : List Hash) → contains k (push_unique xs h) ≡ (contains k xs || h == k)
unfolding push_unique
contains-push_unique k h xs = ground (
  arith,
  contains-append k xs (h ∷ []),
  contains-cons k h [],
  contains-nil k,
  (λ (e : h ≡ k). ap (λ j. contains j xs) e),
)

-- Every candidate gets one of the two colours, and nothing that was coloured loses its colour.
contains-color :
    (m : GhostdagManager) (cs blues reds : List Hash) (k : Hash)
    → ((contains k (color m cs blues reds).0 || contains k (color m cs blues reds).1)
        ≡ (contains k cs || (contains k blues || contains k reds)))
      × (contains k blues ≡ true → contains k (color m cs blues reds).0 ≡ true)
unfolding color contains
contains-color m [] blues reds k = (refl, λ h. h)
contains-color m (c ∷ cs) blues reds k =
    let blue = can_be_blue m c blues in
    let (all, kept) =
      contains-color m cs (if blue then blues ++ c ∷ [] else blues)
        (if blue then reds else reds ++ c ∷ []) k in
    (
      ground (arith, all, contains-append k blues (c ∷ []), contains-append k reds (c ∷ [])),
      λ h. kept (ground (arith, h, contains-append k blues (c ∷ []))),
    )

contains-inherit :
    (olds blues : List Hash) (k : Hash)
    → contains k (inherit olds blues) ≡ (contains k olds || contains k blues)
unfolding inherit contains
contains-inherit [] blues k = refl
contains-inherit (a ∷ olds) blues k =
    ground (arith, contains-inherit olds (push_unique blues a) k, contains-push_unique k a blues)

Every : (Hash × ℕ → Type 0) → List (Hash × ℕ) → Type 0
Every P [] = Unit
Every P (x ∷ xs) = P x × Every P xs

none≢some : {a : Hash} → ◌≡◌ {A = Option Hash} none (some a) → ⊥
none≢some e = cc

last_max-listed :
    (P : Hash × ℕ → Type 0) (xs : List (Hash × ℕ)) (best : Hash × ℕ)
    → P best
    → Every P xs
    → P (last_max best xs)
unfolding last_max Every
last_max-listed P [] best p ps = p
last_max-listed P (x ∷ xs) best p (q, qs) =
    last_max-listed P xs (if ltb x.1 best.1 then best else x) (either (ltb x.1 best.1)) qs
  where
    either : (b : Bool) → P (if b then best else x)
    either true = p
    either false = q

scored-Every :
    (cache : Map GhostdagData) (all hs : List Hash)
    → ((h : Hash) → contains h hs ≡ true → contains h all ≡ true)
    → Every
        (λ x. (contains x.0 all ≡ true) × ((d : GhostdagData) × (lookup x.0 cache ≡ some d)))
        (scored cache hs)
unfolding scored Every
scored-Every cache all [] sub = tt
scored-Every cache all (h ∷ hs) sub =
    by_data (lookup h cache) refl (sub h (contains-cons h h hs ∙ (ground arith)))
      (scored-Every cache all hs (λ g c. sub g (contains-cons g h hs ∙ (ground (arith, c)))))
  where
    P : Hash × ℕ → Type 0
    P x = (contains x.0 all ≡ true) × ((d : GhostdagData) × (lookup x.0 cache ≡ some d))

    by_data :
        (o : Option GhostdagData)
        → lookup h cache ≡ o
        → contains h all ≡ true
        → Every P (scored cache hs)
        → Every P (elim o [ none ↦ scored cache hs | some d ↦ (h, d.blue_score) ∷ scored cache hs ])
    by_data none e c rest = rest
    by_data (some d) e c rest = ((c, (d, e)), rest)

select_parent-some :
    (cache : Map GhostdagData) (parents : List Hash) (sp : Hash)
    → select_parent cache parents ≡ some sp
    → (contains sp parents ≡ true) × ((d : GhostdagData) × (lookup sp cache ≡ some d))
unfolding select_parent Every
select_parent-some cache parents sp e =
    by_list (scored cache parents) (scored-Every cache parents parents (λ h c. c)) e
  where
    P : Hash × ℕ → Type 0
    P x = (contains x.0 parents ≡ true) × ((d : GhostdagData) × (lookup x.0 cache ≡ some d))

    by_list :
        (l : List (Hash × ℕ))
        → Every P l
        → ◌≡◌ {A = Option Hash} (elim l [ [] ↦ none | x ∷ xs ↦ some (last_max x xs).0 ]) (some sp)
        → P (sp, 0)
    by_list [] ps e = absurd (none≢some e)
    by_list (x ∷ xs) (p, ps) e =
        let at : (last_max x xs).0 ≡ sp = cc in
        subst (λ h. P (h, 0)) at (last_max-listed (λ y. P (y.0, 0)) xs x p ps)

selected-below :
    (m : GhostdagManager) (b : VeloBlock) (sp : Hash)
    → (calculate_ghostdag_data m b).selected_parent ≡ some sp
    → (select_parent m.ghostdag_cache b.header.parents ≡ some sp)
      × (calculate_ghostdag_data m b ≡ data_below m b sp)
unfolding calculate_ghostdag_data data_below
selected-below m b sp e = by_parent (select_parent m.ghostdag_cache b.header.parents) e
  where
    made : Option Hash → GhostdagData
    made o = elim o [ none ↦ root_data | some q ↦ data_below m b q ]

    by_parent :
        (o : Option Hash)
        → (made o).selected_parent ≡ some sp
        → (o ≡ some sp) × (made o ≡ data_below m b sp)
    by_parent none e = absurd (none≢some e)
    by_parent (some q) e = let at : q ≡ sp = cc in (e, ap (λ h. data_below m b h) at)

below-colors :
    (m : GhostdagManager) (b : VeloBlock) (sp h : Hash) (p : GhostdagData)
    → lookup sp m.ghostdag_cache ≡ some p
    → let d = data_below m b sp in
      (contains sp d.blues ≡ true)
      × (d.blue_score ≡ wrap64 (p.blue_score + length d.blues))
      × ((contains h d.blues || contains h d.reds)
          ≡ (contains h (find_anticone m b sp) || (contains h p.blues || h == sp)))
unfolding data_below inherited_blues parent_blue_score contains
below-colors m b sp h p has =
    let cs = sort (find_anticone m b sp) in
    let old = inherited_blues m.ghostdag_cache sp in
    let at : old ≡ inherit p.blues (sp ∷ []) = ground (arith, has) in
    let score : parent_blue_score m.ghostdag_cache sp ≡ p.blue_score = ground (arith, has) in
    let starts : contains sp old ≡ true =
      ap (contains sp) at ∙ contains-inherit p.blues (sp ∷ []) sp ∙ (ground arith) in
    let (all, _) = contains-color m cs old [] h in
    let (_, kept) = contains-color m cs old [] sp in
    let first : contains h old ≡ (contains h p.blues || h == sp) =
      ap (contains h) at ∙ contains-inherit p.blues (sp ∷ []) h ∙ (ground arith) in
    (
      kept starts,
      ap (λ n. wrap64 (n + length (color m cs old []).0)) score,
      ground (arith, all, first, contains-sort h (find_anticone m b sp)),
    )

-- The data of a block with a selected parent: that is a parent with data, and a blue itself; the
-- score is the parent's and the number of blues; the parent's blues, the parent and the mergeset are
-- coloured, and nothing else is.
pub calculate_ghostdag_data-colors :
    (m : GhostdagManager) (b : VeloBlock) (sp h : Hash)
    → (calculate_ghostdag_data m b).selected_parent ≡ some sp
    → let d = calculate_ghostdag_data m b in
      (contains sp b.header.parents ≡ true)
      × ((p : GhostdagData) × (lookup sp m.ghostdag_cache ≡ some p)
          × (contains sp d.blues ≡ true)
          × (d.blue_score ≡ wrap64 (p.blue_score + length d.blues))
          × ((contains h d.blues || contains h d.reds)
              ≡ (contains h (find_anticone m b sp) || (contains h p.blues || h == sp))))
calculate_ghostdag_data-colors m b sp h e =
    let (chosen, at) = selected-below m b sp e in
    let (listed, (p, has)) = select_parent-some m.ghostdag_cache b.header.parents sp chosen in
    let (blue, score, all) = below-colors m b sp h p has in
    (
      listed,
      (
        p,
        has,
        subst (λ d. contains sp d.blues ≡ true) (sym at) blue,
        subst (λ d. d.blue_score ≡ wrap64 (p.blue_score + length d.blues)) (sym at) score,
        subst
            (λ d.
              (contains h d.blues || contains h d.reds)
              ≡ (contains h (find_anticone m b sp) || (contains h p.blues || h == sp)))
            (sym at) all,
      ),
    )
