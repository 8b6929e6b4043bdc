-- ===== src/Node/Rpc/Connections.antt =====
-- vdag-node/src/rpc.rs, `serve`: which connections are taken, by a semaphore and a counter for each
-- address. The state refines the list of the addresses of the open connections.
use velodag_core.Prelude.{
  ℕ, suc, ◌+◌, ◌-◌, ◌≤◌, ◌≡◌, ◌≢◌, refl, ap, Bool, true, false, ◌&&◌, none, some, List, [], ◌∷◌,
  arith, ltb, leb, ◌==◌, if◌then◌else◌, length, Map, lookup, lookup_or, insert, erase,
  lookup-insert, lookup-erase,
}
use velodag_core.Node.PeerGuard.{IpAddr}

abbrev pub max_concurrent_rpc_connections : ℕ
max_concurrent_rpc_connections = 256

abbrev pub max_connections_per_address : ℕ
max_connections_per_address = 16

-- The permits that the semaphore has left, and `per_ip_connections`.
pub record Server : Type 0 where
  pub permits : ℕ
  pub per_ip : Map ℕ

abbrev pub new_server : Server
new_server = record { permits = max_concurrent_rpc_connections; per_ip = [] }

-- A turn of the accept loop: whether the connection is served. A refusal for the address gives the
-- permit back, but `or_insert(0)` has made an entry if there was none.
unfoldable pub accept : IpAddr → Server → Server × Bool
accept peer_ip s =
    if s.permits == 0
    then (s, false)
    else (let count = lookup_or 0 peer_ip s.per_ip in
        if leb max_connections_per_address count
        then (record s { per_ip = insert peer_ip count s.per_ip }, false)
        else (
          record { permits = s.permits - 1; per_ip = insert peer_ip (count + 1) s.per_ip },
          true,
        ))

-- The end of a connection's task; `count - 1` stops at 0, as `saturating_sub` does.
unfoldable pub finish : IpAddr → Server → Server
finish peer_ip s = elim (lookup peer_ip s.per_ip) [
  | none ↦ record s { permits = s.permits + 1 }
  | some count ↦ record {
    permits = s.permits + 1;
    per_ip = if count - 1 == 0 then erase peer_ip s.per_ip else insert peer_ip (count - 1) s.per_ip;
  }
]

-- How many open connections an address has, and the list without one of them.
abbrev pub occurrences : IpAddr → List IpAddr → ℕ
occurrences ip [] = 0
occurrences ip (i ∷ is) = if i == ip then suc (occurrences ip is) else occurrences ip is

abbrev pub without_one : IpAddr → List IpAddr → List IpAddr
without_one ip [] = []
without_one ip (i ∷ is) = if i == ip then is else i ∷ without_one ip is

-- The server's state stands for the list: the permits and the counters are what the list says.
pub record Represents (s : Server) (opened : List IpAddr) : Type 0 where
  pub permits : s.permits + length opened ≡ 256
  pub counted :
      (ip : IpAddr)
      → lookup ip s.per_ip
        ≡ (if occurrences ip opened == 0 then none else some (occurrences ip opened))
  pub bounded : (ip : IpAddr) → occurrences ip opened ≤ 16

-- What a server goes through: connections come, and open ones end.
pub data Serves : Server → List IpAddr → Type 0 where
  started : Serves new_server []
  joined :
      {s : Server} {opened : List IpAddr} (ip : IpAddr)
      → Serves s opened
      → Serves (accept ip s).0 (if (accept ip s).1 then ip ∷ opened else opened)
  ended :
      {s : Server} {opened : List IpAddr} (ip : IpAddr)
      → Serves s opened
      → occurrences ip opened ≢ 0
      → Serves (finish ip s) (without_one ip opened)

length-without_one :
    (ip : IpAddr) (opened : List IpAddr)
    → occurrences ip opened ≢ 0
    → length (without_one ip opened) + 1 ≡ length opened
length-without_one ip [] h = absurd (h refl)
length-without_one ip (i ∷ is) h = ground (arith, h, length-without_one ip is)

occurrences-without_one :
    (ip asked : IpAddr) (opened : List IpAddr)
    → occurrences ip opened ≢ 0
    → occurrences asked (without_one ip opened)
      ≡ (if ip == asked then occurrences ip opened - 1 else occurrences asked opened)
occurrences-without_one ip asked [] h = absurd (h refl)
occurrences-without_one ip asked (i ∷ is) h =
    ground (arith, h, occurrences-without_one ip asked is, same)
  where
    same : ip ≡ asked → occurrences ip is ≡ occurrences asked is
    same e = ap (λ k. occurrences k is) e

count_of :
    (s : Server) (opened : List IpAddr) (ip : IpAddr)
    → Represents s opened
    → lookup_or 0 ip s.per_ip ≡ occurrences ip opened
unfolding lookup_or
count_of s opened ip r = ground (arith, r.counted ip)

-- The decision: a connection is served exactly if fewer than 256 are open, and fewer than 16 from its
-- address.
accept-decides :
    (ip : IpAddr) (s : Server) (opened : List IpAddr)
    → Represents s opened
    → (accept ip s).1 ≡ (ltb (length opened) 256 && ltb (occurrences ip opened) 16)
unfolding accept
accept-decides ip s opened r = ground (arith, r.permits, count_of s opened ip r)

accept-Represents :
    (ip : IpAddr) (s : Server) (opened : List IpAddr)
    → Represents s opened
    → Represents (accept ip s).0 (if (accept ip s).1 then ip ∷ opened else opened)
unfolding accept
accept-Represents ip s opened r = record {
  permits = ground (arith, r.permits, count_of s opened ip r);
  counted = λ asked. ground (
    arith,
    r.permits,
    count_of s opened ip r,
    r.counted asked,
    r.counted ip,
    lookup-insert ip asked (lookup_or 0 ip s.per_ip) s.per_ip,
    lookup-insert ip asked (lookup_or 0 ip s.per_ip + 1) s.per_ip,
    (λ (e : ip ≡ asked). ap (λ k. occurrences k opened) e),
  );
  bounded = λ asked. ground (
    arith,
    count_of s opened ip r,
    r.bounded asked,
    (λ (e : ip ≡ asked). ap (λ k. occurrences k opened) e),
  );
}

finish-Represents :
    (ip : IpAddr) (s : Server) (opened : List IpAddr)
    → Represents s opened
    → occurrences ip opened ≢ 0
    → Represents (finish ip s) (without_one ip opened)
unfolding finish
finish-Represents ip s opened r h =
    let n = occurrences ip opened in
    let there : lookup ip s.per_ip ≡ some n = ground (arith, r.counted ip, h) in
    record {
      permits = ground (arith, r.permits, length-without_one ip opened h, there);
      counted = λ asked. ground (
        arith,
        h,
        there,
        r.counted asked,
        occurrences-without_one ip asked opened h,
        lookup-insert ip asked (n - 1) s.per_ip,
        lookup-erase ip asked s.per_ip,
        (λ (e : ip ≡ asked). ap (λ k. occurrences k opened) e),
      );
      bounded = λ asked.
          ground (arith, occurrences-without_one ip asked opened h, r.bounded asked, r.bounded ip);
    }

-- Whatever connections come and go, the semaphore and the counters are those of the list of opened
-- connections, of which there are at most 256 and at most 16 from an address; and the next
-- connection is served exactly if fewer are opened.
pub Serves-Represents :
    (s : Server) (opened : List IpAddr) (ip : IpAddr)
    → Serves s opened
    → Represents s opened
      × (length opened ≤ 256)
      × ((accept ip s).1 ≡ (ltb (length opened) 256 && ltb (occurrences ip opened) 16))
unfolding lookup
Serves-Represents s opened ip reached =
    let r = all reached in (r, omega (arith, r.permits), accept-decides ip s opened r)
  where
    all : {s : Server} {opened : List IpAddr} → Serves s opened → Represents s opened
    all started = record { permits = refl; counted = λ ip. refl; bounded = λ ip. omega arith }
    all (joined {s} {opened} ip before) = accept-Represents ip s opened (all before)
    all (ended {s} {opened} ip before h) = finish-Represents ip s opened (all before) h
