-- ===== src/Api/RateLimit/Cleanup.antt =====
-- The cleanup of the rate limiter is invisible (apps/api/middleware/ratelimit.go).
use infrawatch.Prelude.{
  ℕ, ◌≤◌, ◌≡◌, refl, String, Bool, true, [], ◌∷◌, Option, none, some, arith, Bool-cases, inl, inr,
  if◌then◌else◌, str_eq, eq_iff, ltb, subst, ap, ◌∙◌,
}
use infrawatch.Prelude.Int.{pos, leb_ℤ}
use infrawatch.Prelude.Map.{Map, lookup, insert, Distinct, lookup-insert_self}
use infrawatch.Prelude.Time.{Instant}
use infrawatch.Api.RateLimit.{
  WindowState, FixedWindowLimiter, allow, allow_in, open_window, is_stale, drop_stale, cleanup,
}

-- What the cleanup leaves of a client's window.
abbrev keep : ℕ → Instant → Option WindowState → Option WindowState
keep window now none = none
keep window now (some ws) = if is_stale window now ws then none else some ws

lookup-drop_stale :
    (key : String) (window : ℕ) (now : Instant) (m : Map WindowState)
    → Distinct m
    → lookup key (drop_stale window now m) ≡ keep window now (lookup key m)
unfolding lookup drop_stale
lookup-drop_stale key window now [] d = refl
lookup-drop_stale key window now ((j, ws) ∷ m) d =
    let rest = lookup-drop_stale key window now m d.1 in
    elim (Bool-cases (str_eq j key)) [
      | inl e ↦
          let gone : lookup key m ≡ none =
            subst (λ i. lookup i m ≡ none) ((eq_iff j key).0 e) d.0 in
          let none_left : lookup key (drop_stale window now m) ≡ none = rest ∙ rw gone refl in
          elim (Bool-cases (is_stale window now ws)) [
            | inl old ↦ rw (e, old) none_left
            | inr new ↦ rw (e, new, e) refl
          ]
      | inr e ↦ elim (Bool-cases (is_stale window now ws)) [
        | inl old ↦ rw (e, old) rest
        | inr new ↦ rw (e, new, e) rest
      ]
    ]

ended_before :
    (window : ℕ) (before now : Instant) (ws : WindowState)
    → before ≤ now
    → is_stale window before ws ≡ true
    → ltb ws.window_end now ≡ true
unfolding is_stale
ended_before window before now ws b old = ground (arith, b, old)

-- What a client has after its request: the answer and its window.
abbrev seen : String → FixedWindowLimiter × Bool → Bool × Option WindowState
seen key (l, ok) = (ok, lookup key l.clients)

inserted_kept :
    (key : String) (ws : WindowState) (ok : Bool) (m m' : Map WindowState)
    → ◌≡◌ {A = Bool × Option WindowState}
        (ok, lookup key (insert key ws m))
        (ok, lookup key (insert key ws m'))
inserted_kept key ws ok m m' = rw (lookup-insert_self key ws m, lookup-insert_self key ws m') refl

allow_in_kept :
    (l : FixedWindowLimiter) (key : String) (before now : Instant) (o : Option WindowState)
    → lookup key l.clients ≡ o
    → lookup key (cleanup l before).clients ≡ keep l.window before o
    → before ≤ now
    → seen key (allow_in (cleanup l before) key now (keep l.window before o))
      ≡ seen key (allow_in l key now o)
unfolding allow_in open_window cleanup
allow_in_kept l key before now none h h' b = inserted_kept key _ true _ l.clients
allow_in_kept l key before now (some ws) h h' b = elim (Bool-cases (is_stale l.window before ws)) [
  | inl old ↦
      let over : ltb ws.window_end now ≡ true = ended_before l.window before now ws b old in
      rw (old, over) (inserted_kept key _ true _ l.clients)
  | inr new ↦
      let left : lookup key (drop_stale l.window before l.clients) ≡ some ws = h' ∙ rw new refl in
      rw new (elim (Bool-cases (ltb ws.window_end now)) [
        | inl over ↦ rw over (inserted_kept key _ true _ l.clients)
        | inr runs ↦ elim (Bool-cases (leb_ℤ l.max (pos ws.count))) [
          | inl full ↦ rw (runs, full, left, h) refl
          | inr free ↦ rw (runs, free) (inserted_kept key _ true _ l.clients)
        ]
      ])
]

-- The cleanup is invisible: a client's next request, which does not come before the cleanup, gets
-- the answer that it gets without the cleanup, and then the client has the same window. The map of
-- the clients has each key once.
pub cleanup_invisible :
    (l : FixedWindowLimiter) (key : String) (before now : Instant)
    → Distinct l.clients
    → before ≤ now
    → let (cleaned, ok) = allow (cleanup l before) key now in
      let (left, ok') = allow l key now in
      (ok ≡ ok') × (lookup key cleaned.clients ≡ lookup key left.clients)
unfolding allow cleanup
cleanup_invisible l key before now d b =
    let dropped = lookup-drop_stale key l.window before l.clients d in
    let same : seen key (allow (cleanup l before) key now) ≡ seen key (allow l key now) =
      ap (λ o. seen key (allow_in (cleanup l before) key now o)) dropped
      ∙ allow_in_kept l key before now (lookup key l.clients) refl dropped b in
    (ap (λ p. p.0) same, ap (λ p. p.1) same)
