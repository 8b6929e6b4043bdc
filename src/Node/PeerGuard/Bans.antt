-- ===== src/Node/PeerGuard/Bans.antt =====
-- When a peer gets banned, and how long the ban lasts.
use velodag_core.Prelude.{
  ◌+◌, ◌≤◌, ◌<◌, ◌≡◌, true, false, Option, none, some, List, [], ◌∷◌, arith, ◌==◌, lookup,
  lookup_or, length, lookup-insert, lookup-erase, lookup_or-insert,
}
use velodag_core.Node.PeerGuard.{
  PeerId, IpAddr, Instant, PeerGuard, reject_already_banned, is_banned, on_connection_established,
  record_violation, next32, ban_duration,
}

-- For an hour from the violation that reports a ban, the peer is refused and the guard stays as it is.
pub record_violation-bans :
    (now later : Instant) (p : PeerId) (ip : Option IpAddr) (g g' : PeerGuard)
    → record_violation now p g ≡ (g', true)
    → later < now + ban_duration
    → on_connection_established later p ip g' ≡ (g', reject_already_banned)
unfolding record_violation on_connection_established is_banned
record_violation-bans now later p ip g g' h early =
    let until : lookup p g'.banned_until ≡ some (now + ban_duration) =
      ground (arith, lookup-insert p p (now + ban_duration) g.banned_until) in
    ground arith

-- From an hour after the violation that reports a ban, the peer is not banned any longer, and asking
-- for it forgets its violations.
pub record_violation-expires :
    (now later : Instant) (p : PeerId) (g g' : PeerGuard)
    → record_violation now p g ≡ (g', true)
    → now + ban_duration ≤ later
    → ((is_banned later p g').1 ≡ false) × (lookup p (is_banned later p g').0.violations ≡ none)
unfolding record_violation is_banned
record_violation-expires now later p g g' h late =
    let until : lookup p g'.banned_until ≡ some (now + ban_duration) =
      ground (arith, lookup-insert p p (now + ban_duration) g.banned_until) in
    (ground arith, ground (arith, lookup-erase p p g'.violations))

-- The violations of one peer at the given times, first to last.
unfoldable pub violate_all : PeerId → List Instant → PeerGuard → PeerGuard
unfolding record_violation
violate_all p [] g = g
violate_all p (t ∷ ts) g = violate_all p ts (record_violation t p g).0

lookup_or-record_violation :
    (t : Instant) (p : PeerId) (g : PeerGuard)
    → lookup_or 0 p (record_violation t p g).0.violations ≡ next32 (lookup_or 0 p g.violations)
unfolding record_violation
lookup_or-record_violation t p g =
    ground (arith, lookup_or-insert 0 p p (next32 (lookup_or 0 p g.violations)) g.violations)

lookup_or-violate_all :
    (ts : List Instant) (p : PeerId) (g : PeerGuard)
    → lookup_or 0 p g.violations + length ts < 100
    → lookup_or 0 p (violate_all p ts g).violations ≡ lookup_or 0 p g.violations + length ts
unfolding violate_all
lookup_or-violate_all [] p g h = omega arith
lookup_or-violate_all (t ∷ ts) p g h = omega (
  arith,
  lookup_or-record_violation t p g,
  lookup_or-violate_all ts p (record_violation t p g).0
      (omega (arith, lookup_or-record_violation t p g)),
)

-- From a clean record the first four violations of a peer report no ban, and the fifth does.
pub fifth_violation-bans :
    (ts : List Instant) (now : Instant) (p : PeerId) (g : PeerGuard)
    → lookup_or 0 p g.violations ≡ 0
    → length ts < 5
    → (record_violation now p (violate_all p ts g)).1 ≡ (length ts == 4)
unfolding record_violation
fifth_violation-bans ts now p g clean few = ground (arith, lookup_or-violate_all ts p g)
