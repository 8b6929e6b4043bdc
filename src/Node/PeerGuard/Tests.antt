-- ===== src/Node/PeerGuard/Tests.antt =====
-- Connections and violations of one sample peer.
use velodag_core.Prelude.{◌≡◌, refl, true, Option, some, [], ◌∷◌, lookup, lookup_or, insert}
use velodag_core.Node.PeerGuard.{
  PeerGuard, PeerId, IpAddr, new_guard, allow, on_connection_established, is_banned,
  record_violation, admit, count_ip, over_ip_limit,
}
use velodag_core.Node.PeerGuard.Limits.{
  IsBounded, established, closed, violation, run, run-IsBounded,
}
use velodag_core.Node.PeerGuard.Bans.{violate_all}

abbrev peer : PeerId
peer = 11

abbrev address : Option IpAddr
address = some 22

-- The peer is connected twice.
abbrev busy : PeerGuard
busy = run (established 0 peer address ∷ established 1 peer address ∷ []) new_guard

run-IsBounded_example :
    IsBounded
      (run (established 0 peer address ∷ closed peer address ∷ violation 3 peer ∷ []) new_guard)
run-IsBounded_example =
    run-IsBounded (established 0 peer address ∷ closed peer address ∷ violation 3 peer ∷ [])

abbrev connected : PeerGuard
connected = (on_connection_established 5 peer address new_guard).0

connected-allow : on_connection_established 5 peer address new_guard ≡ (connected, allow)
unfolding on_connection_established admit is_banned count_ip over_ip_limit lookup lookup_or
connected-allow = refl

-- Four violations, and a fifth.
abbrev warned : PeerGuard
warned = violate_all peer (0 ∷ 1 ∷ 2 ∷ 3 ∷ []) new_guard

abbrev banned : PeerGuard
banned = (record_violation 4 peer warned).0

fifth : record_violation 4 peer warned ≡ (banned, true)
unfolding record_violation violate_all lookup lookup_or insert
fifth = refl
