-- ===== src/Api/RateLimit/Bounded.antt =====
-- How many requests a client gets through (apps/api/middleware/ratelimit.go).
use infrawatch.Prelude.{
  ℕ, suc, ◌+◌, ◌≤◌, ◌<◌, ◌≡◌, refl, String, false, List, [], ◌∷◌, Option, none, some, arith, All,
  Bool-cases, inl, inr, if◌then◌else◌, ltb,
}
use infrawatch.Prelude.Int.{pos, leb_ℤ}
use infrawatch.Prelude.Map.{lookup, insert, lookup-insert_self}
use infrawatch.Prelude.Time.{Instant}
use infrawatch.Api.RateLimit.{WindowState, FixedWindowLimiter, allow, allow_in, open_window}

-- How many of a series of requests of one client are allowed.
unfoldable pub allowed : FixedWindowLimiter → String → List Instant → ℕ
allowed l key [] = 0
allowed l key (now ∷ more) =
    let (l', ok) = allow l key now in
    let rest = allowed l' key more in if ok then suc rest else rest

-- No request comes after the window's end.
abbrev pub Until : Instant → List Instant → Type 0
Until until = All (λ now. now ≤ until)

allowed_in :
    (l : FixedWindowLimiter) (key : String) (limit : ℕ) (ws : WindowState) (times : List Instant)
    → l.max ≡ pos limit
    → lookup key l.clients ≡ some ws
    → ws.count ≤ limit
    → Until ws.window_end times
    → allowed l key times + ws.count ≤ limit
unfolding allowed allow
allowed_in l key limit ws [] m h c t = omega arith
allowed_in l key limit ws (now ∷ more) m h c t =
    let in_time : ltb ws.window_end now ≡ false = ground (arith, t.0) in
    elim (Bool-cases (leb_ℤ l.max (pos ws.count))) [
      | inl full ↦ rw (h, allow_in, in_time, full) (allowed_in l key limit ws more m h c t.1)
      | inr free ↦
          let ws' : WindowState = record ws { count = suc ws.count } in
          let l' : FixedWindowLimiter = record l { clients = insert key ws' l.clients } in
          let rest =
            allowed_in l' key limit ws' more m (lookup-insert_self key ws' l.clients)
              (ground (arith, free, m)) t.1 in
          rw (h, allow_in, in_time, free) (omega (arith, rest))
    ]

-- The client has no window, or one that has ended.
abbrev pub Ended : Instant → Option WindowState → Type 0
Ended now none = Unit {0}
Ended now (some ws) = ws.window_end < now

opens :
    (l : FixedWindowLimiter) (key : String) (now : Instant) (o : Option WindowState)
    → Ended now o
    → allow_in l key now o ≡ open_window l key now
unfolding allow_in
opens l key now none h = refl
opens l key now (some ws) h = ground (arith, h)

-- Of one client's requests within one window at most as many as the limit are allowed, however many
-- there are; the limit is at least 1. The first request opens the window: the client has none yet,
-- or one that has ended.
pub requests_bounded :
    (l : FixedWindowLimiter) (key : String) (limit : ℕ) (start : Instant) (more : List Instant)
    → l.max ≡ pos limit
    → 1 ≤ limit
    → Ended start (lookup key l.clients)
    → Until (start + l.window) more
    → allowed l key (start ∷ more) ≤ limit
unfolding allowed allow
requests_bounded l key limit start more m one ended t =
    let ws : WindowState = record { count = 1; window_end = start + l.window } in
    let l' : FixedWindowLimiter = record l { clients = insert key ws l.clients } in
    let rest = allowed_in l' key limit ws more m (lookup-insert_self key ws l.clients) one t in
    rw (opens l key start (lookup key l.clients) ended, open_window) (omega (arith, rest))
