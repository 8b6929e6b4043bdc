-- ===== src/Node/PeerGuard/Limits.antt =====
-- The limits on connections, and that the counters keep them.
use velodag_core.Prelude.{
  ℕ, ◌-◌, ◌≤◌, ◌≡◌, false, Option, none, some, List, [], ◌∷◌, Bool-cases, inl, inr, arith, ◌==◌,
  if◌then◌else◌, Map, lookup, lookup_or, lookup_or-insert, lookup-insert, lookup-erase,
}
use velodag_core.Node.PeerGuard.{
  PeerId, IpAddr, Instant, PeerGuard, new_guard, unban, is_banned, over_ip_limit, count_ip, admit,
  on_connection_established, release, release_ip, on_connection_closed, record_violation, next32,
  max_connections_per_peer, max_connections_per_ip, max_total_connections,
}

pub record IsBounded (g : PeerGuard) : Type 0 where
  pub per_peer : (p : PeerId) → lookup_or 0 p g.connections_per_peer ≤ max_connections_per_peer
  pub per_ip : (ip : IpAddr) → lookup_or 0 ip g.connections_per_ip ≤ max_connections_per_ip
  pub total : g.total_connections ≤ max_total_connections

-- What can happen to a guard.
pub data Event : Type 0 where
  established : Instant → PeerId → Option IpAddr → Event
  closed : PeerId → Option IpAddr → Event
  violation : Instant → PeerId → Event
  ban_query : Instant → PeerId → Event
  manual_unban : PeerId → Event

unfoldable pub step : Event → PeerGuard → PeerGuard
step (established now p ip) g = (on_connection_established now p ip g).0
step (closed p ip) g = on_connection_closed p ip g
step (violation now p) g = (record_violation now p g).0
step (ban_query now p) g = (is_banned now p g).0
step (manual_unban p) g = unban p g

unfoldable pub run : List Event → PeerGuard → PeerGuard
unfolding step
run [] g = g
run (e ∷ es) g = run es (step e g)

pub lookup_or-release :
    (k j : ℕ) (m : Map ℕ)
    → lookup_or 0 j (release k m) ≡ (if k == j then lookup_or 0 j m - 1 else lookup_or 0 j m)
unfolding release lookup_or
lookup_or-release k j m =
    ground (arith, lookup-insert k j (lookup_or 0 k m - 1) m, lookup-erase k j m, same)
  where
    same : k ≡ j → lookup k m ≡ lookup j m
    same e = λ i. lookup (e i) m

pub is_banned-counts :
    (now : Instant) (p : PeerId) (g : PeerGuard)
    → ((is_banned now p g).0.connections_per_peer ≡ g.connections_per_peer)
      × ((is_banned now p g).0.connections_per_ip ≡ g.connections_per_ip)
      × ((is_banned now p g).0.total_connections ≡ g.total_connections)
unfolding is_banned
is_banned-counts now p g = (ground arith, ground arith, ground arith)

-- The bounds on the per-IP counters after a connection is counted.
count_ip-bounded :
    (ip : Option IpAddr) (g : PeerGuard) (a : IpAddr)
    → ((b : IpAddr) → lookup_or 0 b g.connections_per_ip ≤ max_connections_per_ip)
    → over_ip_limit ip g ≡ false
    → lookup_or 0 a (count_ip ip g.connections_per_ip) ≤ max_connections_per_ip
unfolding over_ip_limit count_ip
count_ip-bounded none g a h e = h a
count_ip-bounded (some ip) g a h e = ground (
  arith,
  h a,
  lookup_or-insert 0 ip a (next32 (lookup_or 0 ip g.connections_per_ip)) g.connections_per_ip,
)

pub is_banned-IsBounded :
    (now : Instant) (p : PeerId) (g : PeerGuard) → IsBounded g → IsBounded (is_banned now p g).0
is_banned-IsBounded now p g h =
    let (peers, ips, total) = is_banned-counts now p g in
    record {
      per_peer = λ q. rw peers (h.per_peer q);
      per_ip = λ a. rw ips (h.per_ip a);
      total = rw total h.total;
    }

admit-IsBounded :
    (p : PeerId) (ip : Option IpAddr) (g : PeerGuard) → IsBounded g → IsBounded (admit p ip g).0
unfolding admit
admit-IsBounded p ip g h = record {
  per_peer = λ q. ground (
    arith,
    h.per_peer q,
    lookup_or-insert 0 p q (next32 (lookup_or 0 p g.connections_per_peer)) g.connections_per_peer,
  );
  per_ip = λ a. ground (arith, h.per_ip a, count_ip-bounded ip g a h.per_ip);
  total = ground arith;
}

established-IsBounded :
    (now : Instant) (p : PeerId) (ip : Option IpAddr) (g : PeerGuard)
    → IsBounded g
    → IsBounded (on_connection_established now p ip g).0
unfolding on_connection_established
established-IsBounded now p ip g h = elim (Bool-cases (is_banned now p g).1) [
  | inl banned ↦ rw banned (is_banned-IsBounded now p g h)
  | inr free ↦ rw free (admit-IsBounded p ip (is_banned now p g).0 (is_banned-IsBounded now p g h))
]

release_ip-le :
    (ip : Option IpAddr) (a : IpAddr) (m : Map ℕ)
    → lookup_or 0 a (release_ip ip m) ≤ lookup_or 0 a m
unfolding release_ip
release_ip-le none a m = omega arith
release_ip-le (some ip) a m = ground (arith, lookup_or-release ip a m)

step-IsBounded : (e : Event) (g : PeerGuard) → IsBounded g → IsBounded (step e g)
unfolding step
step-IsBounded (established now p ip) g h =
    unfold on_connection_established in established-IsBounded now p ip g h
step-IsBounded (closed p ip) g h =
    unfold on_connection_closed in
    record {
      per_peer = λ q. ground (arith, h.per_peer q, lookup_or-release p q g.connections_per_peer);
      per_ip = λ a. omega (arith, h.per_ip a, release_ip-le ip a g.connections_per_ip);
      total = omega arith;
    }
step-IsBounded (violation now p) g h = unfold record_violation in ground arith
step-IsBounded (ban_query now p) g h = is_banned-IsBounded now p g h
step-IsBounded (manual_unban p) g h =
    unfold unban in record { per_peer = h.per_peer; per_ip = h.per_ip; total = h.total }

run_from-IsBounded : (es : List Event) (g : PeerGuard) → IsBounded g → IsBounded (run es g)
unfolding run
run_from-IsBounded [] g h = h
run_from-IsBounded (e ∷ es) g h = run_from-IsBounded es (step e g) (step-IsBounded e g h)

pub new_guard-IsBounded : IsBounded new_guard
unfolding lookup_or
new_guard-IsBounded = record {
  per_peer = λ p. omega arith;
  per_ip = λ a. omega arith;
  total = omega arith;
}

-- Whatever connections come and go, and whatever bans are set and lifted, a new guard's counters
-- never pass 2 for a peer, 4 for an address and 128 in total.
pub run-IsBounded : (es : List Event) → IsBounded (run es new_guard)
run-IsBounded es = run_from-IsBounded es new_guard new_guard-IsBounded
