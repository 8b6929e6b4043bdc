-- ===== src/Node/PeerGuard/Closing.antt =====
-- What the close of a connection gives back, when it was admitted and when it was refused.
use velodag_core.Prelude.{
  ℕ, ◌+◌, ◌≤◌, ◌≡◌, refl, Option, none, some, ap, arith, Map, lookup_or, insert, lookup_or-insert,
}
use velodag_core.Node.PeerGuard.{
  PeerId, IpAddr, Instant, PeerGuard, allow, count_ip, on_connection_established, release_ip,
  on_connection_closed, next32, max_connections_per_ip,
}
use velodag_core.Node.PeerGuard.Limits.{IsBounded, lookup_or-release, is_banned-counts}

admitted-counts :
    (now : Instant) (p : PeerId) (ip : Option IpAddr) (g g' : PeerGuard)
    → IsBounded g
    → on_connection_established now p ip g ≡ (g', allow)
    → (g'.connections_per_peer
        ≡ insert p (next32 (lookup_or 0 p g.connections_per_peer)) g.connections_per_peer)
      × (g'.connections_per_ip ≡ count_ip ip g.connections_per_ip)
      × (g'.total_connections ≡ g.total_connections + 1)
unfolding on_connection_established
admitted-counts now p ip g g' h e =
    let (peers, ips, total) = is_banned-counts now p g in (ground arith, ground arith, ground arith)

lookup_or-release_ip-count_ip :
    (ip : Option IpAddr) (a : IpAddr) (m : Map ℕ)
    → ((b : IpAddr) → lookup_or 0 b m ≤ max_connections_per_ip)
    → lookup_or 0 a (release_ip ip (count_ip ip m)) ≡ lookup_or 0 a m
unfolding release_ip count_ip
lookup_or-release_ip-count_ip none a m h = refl
lookup_or-release_ip-count_ip (some ip) a m h = ground (
  arith,
  h ip,
  same,
  lookup_or-release ip a (insert ip (next32 (lookup_or 0 ip m)) m),
  lookup_or-insert 0 ip a (next32 (lookup_or 0 ip m)) m,
)
  where
    same : ip ≡ a → lookup_or 0 ip m ≡ lookup_or 0 a m
    same e = λ i. lookup_or 0 (e i) m

-- Closing a connection that was admitted gives back exactly what it was counted for: the total, and
-- the counters of every peer and every address, are those from before it was established.
pub closed-established :
    (now : Instant) (p : PeerId) (ip : Option IpAddr) (g g' : PeerGuard)
    → IsBounded g
    → on_connection_established now p ip g ≡ (g', allow)
    → ((on_connection_closed p ip g').total_connections ≡ g.total_connections)
      × ((q : PeerId)
          → lookup_or 0 q (on_connection_closed p ip g').connections_per_peer
            ≡ lookup_or 0 q g.connections_per_peer)
      × ((a : IpAddr)
          → lookup_or 0 a (on_connection_closed p ip g').connections_per_ip
            ≡ lookup_or 0 a g.connections_per_ip)
unfolding on_connection_closed
closed-established now p ip g g' h e =
    let (peers, ips, total) = admitted-counts now p ip g g' h e in
    (
      omega (arith, total),
      λ q. rw peers (
          ground (
            arith,
            h.per_peer p,
            (λ (e : p ≡ q). ap (λ k. lookup_or 0 k g.connections_per_peer) e),
            lookup_or-release p q
                (insert p (next32 (lookup_or 0 p g.connections_per_peer)) g.connections_per_peer),
            lookup_or-insert 0 p q (next32 (lookup_or 0 p g.connections_per_peer))
                g.connections_per_peer,
          )),
      λ a. rw ips (lookup_or-release_ip-count_ip ip a g.connections_per_ip h.per_ip),
    )
