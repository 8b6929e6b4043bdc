-- ===== src/Node/Sync/Orphans.antt =====
-- The size that the pool counts is the number of blocks that wait, and none is lost or kept twice.
use velodag_core.Prelude.{
  ◌==◌, if◌then◌else◌, ℕ, ◌≤◌, ◌<◌, ◌≡◌, refl, Option, none, some, List, [], ◌∷◌, ◌++◌, Bool-cases,
  Option-cases, inl, inr, ap, arith, leb, length, length-append, Map, lookup, lookup_or, insert,
  lookup-insert, lookup-erase, Distinct, insert-Distinct, erase-Distinct, total_size, size_at,
  total_size-insert, total_size-erase,
}
use velodag_core.Types.{Hash, VeloBlock}
use velodag_core.Node.PeerGuard.{PeerId}
use velodag_core.Node.Sync.{Orphan, OrphanPool, new_pool, insert_orphan, take_ready}

-- The number of blocks that wait, under any parent.
abbrev pub waiting : OrphanPool → ℕ
waiting p = total_size (length {A = Orphan}) p.waiting_on

pub record IsCounted (p : OrphanPool) : Type 0 where
  pub distinct : Distinct p.waiting_on
  pub counted : waiting p ≡ p.current_size
  pub within : p.current_size ≤ p.max_size

pub data Event : Type 0 where
  arrived : Hash → Option PeerId → VeloBlock → Event
  resolved : Hash → Event

pub step : Event → OrphanPool → OrphanPool
step (arrived h source b) p = insert_orphan h source b p
step (resolved h) p = (take_ready h p).0

pub run : List Event → OrphanPool → OrphanPool
unfolding step
run [] p = p
run (e ∷ es) p = run es (step e p)

length_waiting :
    (h : Hash) (m : Map (List Orphan)) → length (lookup_or [] h m) ≡ size_at length (lookup h m)
unfolding lookup_or
length_waiting h m = ground arith

insert_orphan-IsCounted :
    (h : Hash) (source : Option PeerId) (b : VeloBlock) (p : OrphanPool)
    → IsCounted p
    → IsCounted (insert_orphan h source b p)
unfolding insert_orphan
insert_orphan-IsCounted h source b p v = elim (Bool-cases (leb p.max_size p.current_size)) [
  | inl full ↦ rw full v
  | inr room ↦
      let before = lookup_or [] h p.waiting_on in
      let after = before ++ (source, b) ∷ [] in
      rw room (record {
        distinct = insert-Distinct h after p.waiting_on v.distinct;
        counted = omega (
          arith,
          v.counted,
          total_size-insert (length {A = Orphan}) h after p.waiting_on,
          length-append before ((source, b) ∷ []),
          length_waiting h p.waiting_on,
        );
        within = ground arith;
      })
]

-- What waits under one parent is part of what waits.
take_ready-IsCounted : (h : Hash) (p : OrphanPool) → IsCounted p → IsCounted (take_ready h p).0
unfolding take_ready
take_ready-IsCounted h p v = elim (Option-cases (lookup h p.waiting_on)) [
  | inl nothing ↦ rw (nothing, take_ready) v
  | inr (ready, e) ↦
      let sizes = total_size-erase (length {A = Orphan}) h p.waiting_on v.distinct in
      let found : size_at (length {A = Orphan}) (lookup h p.waiting_on) ≡ length ready =
        ap (size_at length) e in
      rw (e, take_ready)
        (record {
          distinct = erase-Distinct h p.waiting_on v.distinct;
          counted = omega (arith, v.counted, sizes, found);
          within = omega (arith, v.within);
        })
]

run_from-IsCounted : (es : List Event) (p : OrphanPool) → IsCounted p → IsCounted (run es p)
unfolding run step
run_from-IsCounted [] p v = v
run_from-IsCounted (arrived h source b ∷ es) p v =
    run_from-IsCounted es (insert_orphan h source b p) (insert_orphan-IsCounted h source b p v)
run_from-IsCounted (resolved h ∷ es) p v =
    run_from-IsCounted es (take_ready h p).0 (take_ready-IsCounted h p v)

max_size-run : (es : List Event) (p : OrphanPool) → (run es p).max_size ≡ p.max_size
unfolding run step insert_orphan take_ready
max_size-run [] p = refl
max_size-run (arrived h source b ∷ es) p =
    ground (arith, max_size-run es (insert_orphan h source b p))
max_size-run (resolved h ∷ es) p = ground (arith, max_size-run es (take_ready h p).0)

-- Whatever orphans arrive and whatever hashes are resolved, the pool's counter is the number of
-- blocks that wait, and it never passes the limit that the pool was made with.
pub run-IsCounted :
    (es : List Event) (max : ℕ)
    → (waiting (run es (new_pool max)) ≡ (run es (new_pool max)).current_size)
      × (waiting (run es (new_pool max)) ≤ max)
run-IsCounted es max =
    let start : IsCounted (new_pool max) = record {
      distinct = tt;
      counted = refl;
      within = omega arith;
    } in
    let v = run_from-IsCounted es (new_pool max) start in
    (v.counted, omega (arith, v.counted, v.within, max_size-run es (new_pool max)))

-- While there is room, an orphan that is inserted comes back, with its sender and behind those that
-- waited for the same parent before, when that parent is resolved; nothing waits for it any longer,
-- and what waits for other parents stays.
pub take_ready-insert_orphan :
    (h j : Hash) (source : Option PeerId) (b : VeloBlock) (p : OrphanPool)
    → p.current_size < p.max_size
    → let taken = take_ready h (insert_orphan h source b p) in
      (taken.1 ≡ lookup_or [] h p.waiting_on ++ (source, b) ∷ [])
      × (lookup j taken.0.waiting_on ≡ (if h == j then none else lookup j p.waiting_on))
unfolding insert_orphan take_ready
take_ready-insert_orphan h j source b p room =
    let after = lookup_or [] h p.waiting_on ++ (source, b) ∷ [] in
    let m = insert h after p.waiting_on in
    let here : lookup h m ≡ some after = ground (arith, lookup-insert h h after p.waiting_on) in
    (ground arith, ground (arith, lookup-erase h j m, lookup-insert h j after p.waiting_on))
