-- ===== src/Node/Rpc/Limiter.antt =====
-- vdag-node/src/rpc.rs, `RateLimiter`: how many requests a connection may make. An `Instant` is a
-- number of nanoseconds.
use velodag_core.Prelude.{
  ℕ, ◌+◌, ◌-◌, ◌*◌, ◌^◌, ◌≤◌, ◌<◌, Bool, List, [], ◌∷◌, arith, leb, if◌then◌else◌, length,
}
use velodag_core.Node.PeerGuard.{Instant, next32}

pub record RateLimiter : Type 0 where
  pub window_start : Instant
  pub count : ℕ
  pub max_per_second : ℕ

unfoldable pub new_limiter : Instant → ℕ → RateLimiter
new_limiter now max_per_second = record {
  window_start = now;
  count = 0;
  max_per_second = max_per_second;
}

abbrev pub one_second : ℕ
one_second = 1_000_000_000

-- `if now.duration_since(self.window_start) >= Duration::from_secs(1) { … }`
unfoldable pub refresh_window : Instant → RateLimiter → RateLimiter
refresh_window now l =
    if leb one_second (now - l.window_start) then record l { window_start = now; count = 0 } else l

-- `check`
unfoldable pub check_limit : Instant → RateLimiter → RateLimiter × Bool
unfolding refresh_window
check_limit now l =
    let fresh = refresh_window now l in
    let counted = record fresh { count = next32 fresh.count } in
    (counted, leb counted.count counted.max_per_second)

-- How many of the requests at these instants are let through.
unfoldable pub allowed : List Instant → RateLimiter → ℕ
allowed [] l = 0
allowed (now ∷ rest) l =
    let checked = check_limit now l in
    let later = allowed rest checked.0 in if checked.1 then 1 + later else later

-- All instants are at least the first number and below the second.
abbrev pub AllBetween : ℕ → ℕ → List Instant → Type 0
AllBetween low high [] = Unit
AllBetween low high (t ∷ ts) = (low ≤ t) × (t < high) × AllBetween low high ts

-- While the window stays, what is let through is what the count leaves.
allowed-window :
    (ts : List Instant) (low : ℕ) (l : RateLimiter)
    → AllBetween low (l.window_start + one_second) ts
    → l.count + length ts < 2 ^ 32
    → allowed ts l ≤ l.max_per_second - l.count
unfolding allowed check_limit refresh_window
allowed-window [] low l between few = omega arith
allowed-window (t ∷ ts) low l between few =
    ground (arith, between, few, allowed-window ts low (record l { count = l.count + 1 }) between.2)

AllBetween-raise :
    (low high higher : ℕ) (ts : List Instant)
    → high ≤ higher
    → AllBetween low high ts
    → AllBetween low higher ts
AllBetween-raise low high higher [] le between = tt
AllBetween-raise low high higher (t ∷ ts) le between =
    (between.0, omega (arith, between.1), AllBetween-raise low high higher ts le between.2)

-- What the count leaves, and one window more.
allowed-two_windows :
    (ts : List Instant) (start : Instant) (l : RateLimiter)
    → AllBetween start (start + one_second) ts
    → l.count + length ts < 2 ^ 32
    → allowed ts l ≤ l.max_per_second - l.count + l.max_per_second
unfolding allowed check_limit refresh_window
allowed-two_windows [] start l between few = omega arith
allowed-two_windows (t ∷ ts) start l between few =
    let wider =
      AllBetween-raise start (start + one_second) (t + one_second) ts (omega (arith, between.0))
        between.2 in
    ground (
      arith,
      few,
      allowed-two_windows ts start (record l { count = l.count + 1 }) between.2,
      allowed-window ts start (record l { window_start = t; count = 1 }) wider,
    )

-- Of the requests in any span of less than a second, a connection gets at most twice the limit
-- through, whenever its window began, as long as fewer than 2^32 requests are counted.
pub allowed-le-twice :
    (ts : List Instant) (start : Instant) (l : RateLimiter)
    → AllBetween start (start + one_second) ts
    → l.count + length ts < 2 ^ 32
    → allowed ts l ≤ 2 * l.max_per_second
allowed-le-twice ts start l between few = omega (arith, allowed-two_windows ts start l between few)
