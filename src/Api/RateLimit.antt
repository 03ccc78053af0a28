-- ===== src/Api/RateLimit.antt =====
-- apps/api/middleware/ratelimit.go: the fixed-window rate limiter. The mutex makes each call one
-- step; the limit is a signed number, the window a minute.
use infrawatch.Prelude.{
  ℕ, suc, ◌+◌, String, Bool, true, false, List, [], ◌∷◌, Option, none, some, ltb, if◌then◌else◌,
}
use infrawatch.Prelude.Int.{ℤ, pos, leb_ℤ}
use infrawatch.Prelude.Map.{Map, lookup, insert}
use infrawatch.Prelude.Time.{Instant}
pub mod Bounded
pub mod Cleanup

pub record WindowState : Type 0 where
  pub count : ℕ
  pub window_end : Instant

pub record FixedWindowLimiter : Type 0 where
  pub clients : Map WindowState
  pub max : ℤ
  pub window : ℕ

unfoldable pub new_fixed_window_limiter : ℤ → ℕ → FixedWindowLimiter
new_fixed_window_limiter max window = record { clients = []; max = max; window = window }

open_window : FixedWindowLimiter → String → Instant → FixedWindowLimiter × Bool
open_window l key now = (
  record l { clients = insert key (record { count = 1; window_end = now + l.window }) l.clients },
  true,
)

allow_in : FixedWindowLimiter → String → Instant → Option WindowState → FixedWindowLimiter × Bool
unfolding open_window
allow_in l key now none = open_window l key now
allow_in l key now (some ws) =
    if ltb ws.window_end now
    then open_window l key now
    else (if leb_ℤ l.max (pos ws.count) then (l, false) else (
      record l { clients = insert key (record ws { count = suc ws.count }) l.clients },
      true,
    ))

-- `allow`.
unfoldable pub allow : FixedWindowLimiter → String → Instant → FixedWindowLimiter × Bool
unfolding allow_in
allow l key now = allow_in l key now (lookup key l.clients)

-- `windowEnd.Before(now.Add(-window))`.
unfoldable pub is_stale : ℕ → Instant → WindowState → Bool
is_stale window now ws = ltb (ws.window_end + window) now

unfoldable pub drop_stale : ℕ → Instant → Map WindowState → Map WindowState
drop_stale window now [] = []
drop_stale window now ((key, ws) ∷ m) =
    let rest = drop_stale window now m in if is_stale window now ws then rest else (key, ws) ∷ rest

-- One round of `cleanup`.
unfoldable pub cleanup : FixedWindowLimiter → Instant → FixedWindowLimiter
cleanup l now = record l { clients = drop_stale l.window now l.clients }

-- What a client gets: the request's turn, or the refusal.
pub data Answer : Type 0 where
  next : Answer
  abort : ℕ → Answer

-- `MutationRateLimit`, for one request of the address `ip`: 429 beyond the limit.
unfoldable pub mutation_rate_limit :
    FixedWindowLimiter → String → Instant → FixedWindowLimiter × Answer
mutation_rate_limit l ip now = let (l', ok) = allow l ip now in (l', if ok then next else abort 429)
