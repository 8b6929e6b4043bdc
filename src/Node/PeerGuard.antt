-- ===== src/Node/PeerGuard.antt =====
-- vdag-node/src/peer_guard.rs: connection limits, violations and bans. A `PeerId` and an `IpAddr` are
-- numbers that stand for them, of which only equality is used; an `Instant` is a number of
-- nanoseconds, and the clock's value is an argument of the methods that read it.
pub mod Limits
pub mod Bans
pub mod Closing
mod Tests
use velodag_core.Prelude.{
  ℕ, ◌+◌, ◌-◌, ◌*◌, ◌%◌, ◌^◌, Bool, true, false, Option, none, some, List, [], ◌∷◌, ltb, leb, ◌==◌,
  if◌then◌else◌, Map, lookup, lookup_or, insert, erase,
}

abbrev pub PeerId : Type 0
PeerId = ℕ

abbrev pub IpAddr : Type 0
IpAddr = ℕ

abbrev pub Instant : Type 0
Instant = ℕ

abbrev pub max_connections_per_peer : ℕ
max_connections_per_peer = 2

abbrev pub max_total_connections : ℕ
max_total_connections = 128

abbrev pub max_violations_before_ban : ℕ
max_violations_before_ban = 5

abbrev pub max_connections_per_ip : ℕ
max_connections_per_ip = 4

abbrev pub ban_duration : ℕ
ban_duration = 60 * 60 * 1_000_000_000

-- `u32` addition of one in a release build.
abbrev pub next32 : ℕ → ℕ
next32 n = (n + 1) % 2 ^ 32

pub data ConnectionDecision : Type 0 where
  allow reject_already_banned reject_over_peer_limit : ConnectionDecision
  reject_over_ip_limit reject_over_total_limit : ConnectionDecision

pub record PeerGuard : Type 0 where
  pub connections_per_peer : Map ℕ
  pub connections_per_ip : Map ℕ
  pub total_connections : ℕ
  pub violations : Map ℕ
  pub banned_until : Map Instant

-- `PeerGuard::new()`
abbrev pub new_guard : PeerGuard
new_guard = record {
  connections_per_peer = [];
  connections_per_ip = [];
  total_connections = 0;
  violations = [];
  banned_until = [];
}

unfoldable pub unban : PeerId → PeerGuard → PeerGuard
unban peer g = record g {
  violations = erase peer g.violations;
  banned_until = erase peer g.banned_until;
}

-- An expired ban is removed, with the violations.
unfoldable pub is_banned : Instant → PeerId → PeerGuard → PeerGuard × Bool
unfolding unban
is_banned now peer g = elim (lookup peer g.banned_until) [
  | none ↦ (g, false)
  | some expiry ↦ if ltb now expiry then (g, true) else (unban peer g, false)
]

pub over_ip_limit : Option IpAddr → PeerGuard → Bool
over_ip_limit none g = false
over_ip_limit (some ip) g = leb max_connections_per_ip (lookup_or 0 ip g.connections_per_ip)

-- `*entry(ip).or_insert(0) += 1`
pub count_ip : Option IpAddr → Map ℕ → Map ℕ
count_ip none m = m
count_ip (some ip) m = insert ip (next32 (lookup_or 0 ip m)) m

-- The limits, for a peer that is not banned.
pub admit : PeerId → Option IpAddr → PeerGuard → PeerGuard × ConnectionDecision
unfolding over_ip_limit count_ip
admit peer ip g =
    let per_peer_count = lookup_or 0 peer g.connections_per_peer in
    if leb max_connections_per_peer per_peer_count
    then (g, reject_over_peer_limit)
    else if over_ip_limit ip g
    then (g, reject_over_ip_limit)
    else if leb max_total_connections g.total_connections
    then (g, reject_over_total_limit)
    else (
      record g {
        connections_per_peer = insert peer (next32 per_peer_count) g.connections_per_peer;
        connections_per_ip = count_ip ip g.connections_per_ip;
        total_connections = next32 g.total_connections;
      },
      allow,
    )

unfoldable pub on_connection_established :
    Instant → PeerId → Option IpAddr → PeerGuard → PeerGuard × ConnectionDecision
unfolding is_banned admit
on_connection_established now peer ip g =
    let checked = is_banned now peer g in
    if checked.1 then (checked.0, reject_already_banned) else admit peer ip checked.0

-- `saturating_sub(1)`, and the entry goes when it reaches zero; an absent entry stays absent.
pub release : ℕ → Map ℕ → Map ℕ
release k m = elim (lookup k m) [
  | none ↦ m
  | some count ↦ if count - 1 == 0 then erase k m else insert k (count - 1) m
]

pub release_ip : Option IpAddr → Map ℕ → Map ℕ
unfolding release
release_ip none m = m
release_ip (some ip) m = release ip m

unfoldable pub on_connection_closed : PeerId → Option IpAddr → PeerGuard → PeerGuard
unfolding release_ip
on_connection_closed peer ip g = record g {
  connections_per_peer = release peer g.connections_per_peer;
  connections_per_ip = release_ip ip g.connections_per_ip;
  total_connections = g.total_connections - 1;
}

unfoldable pub record_violation : Instant → PeerId → PeerGuard → PeerGuard × Bool
record_violation now peer g =
    let count = next32 (lookup_or 0 peer g.violations) in
    let counted = record g { violations = insert peer count g.violations } in
    if leb max_violations_before_ban count
    then (record counted { banned_until = insert peer (now + ban_duration) g.banned_until }, true)
    else (counted, false)

pub active_bans : Instant → Map Instant → List PeerId
active_bans now [] = []
active_bans now ((peer, expiry) ∷ m) =
    if ltb now expiry then peer ∷ active_bans now m else active_bans now m

unfoldable pub currently_banned : Instant → PeerGuard → List PeerId
unfolding active_bans
currently_banned now g = active_bans now g.banned_until
