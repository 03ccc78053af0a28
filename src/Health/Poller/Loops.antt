-- ===== src/Health/Poller/Loops.antt =====
-- The polling loops and the configured services (apps/engine/internal/health/poller.go).
use infrawatch.Prelude.{
  ◌≡◌, ◌≢◌, refl, ap, inl, inr, ℕ, suc, ◌+◌, ◌<◌, String, false, List, [], ◌∷◌, ◌++◌, none, some,
  is_some, str_eq, ◌==◌, arith, eq_iff, eq_refl, if◌then◌else◌, Bool-cases, Option-cases, All,
}
use infrawatch.Prelude.Map.{Map, lookup, lookup-insert, lookup-insert_self, lookup-delete}
use infrawatch.Config.{ServiceConfig}
use infrawatch.Health.Poller.{
  Loop, Poller, close_chan, close_found, update_services, upsert_service, without, remove_service,
  find_service,
}

pub find-update_services :
    (name : String) (services : List ServiceConfig) (svc : ServiceConfig)
    → find_service name (update_services services svc)
      ≡ (if str_eq svc.name name then some svc else find_service name services)
unfolding find_service update_services
find-update_services name [] svc = refl
find-update_services name (s ∷ services) svc = ground (
  arith,
  eq_iff s.name svc.name,
  eq_iff svc.name name,
  eq_iff s.name name,
  find-update_services name services svc,
)

pub find-without :
    (name gone : String) (services : List ServiceConfig)
    → find_service name (without gone services)
      ≡ (if str_eq gone name then none else find_service name services)
unfolding find_service without
find-without name gone [] = ground arith
find-without name gone (s ∷ services) = ground (
  arith,
  eq_iff s.name gone,
  eq_iff gone name,
  eq_iff s.name name,
  find-without name gone services,
)

-- The running loops of a service.
unfoldable pub count_loops : String → List Loop → ℕ
count_loops name [] = 0
count_loops name (l ∷ loops) =
    let rest = count_loops name loops in if str_eq l.svc.name name then suc rest else rest

-- What ties a running loop to the poller: it waits for the channel that is kept for its service, and
-- polls the service as it is configured.
abbrev pub Tied : Map ℕ → List ServiceConfig → Loop → Type 0
Tied chans services l =
    (lookup l.svc.name chans ≡ some l.stop) × (find_service l.svc.name services ≡ some l.svc)

-- The channels are fresh and no two services share one; each loop is tied to the poller; and each
-- service that has a channel has just one loop, any other none.
pub record IsValid (p : Poller) : Type 0 where
  pub fresh : (name : String) (ch : ℕ) → lookup name p.stop_chans ≡ some ch → ch < p.next_chan
  pub own :
      (name other : String) (ch : ℕ)
      → lookup name p.stop_chans ≡ some ch
      → lookup other p.stop_chans ≡ some ch
      → name ≡ other
  pub tied : All (Tied p.stop_chans p.services) p.loops
  pub counted :
      (name : String)
      → count_loops name p.loops ≡ (if is_some (lookup name p.stop_chans) then 1 else 0)

All-close_chan :
    (P Q : Loop → Type 0) (ch : ℕ) (loops : List Loop)
    → ((l : Loop) → P l → (l.stop == ch) ≡ false → Q l)
    → All P loops
    → All Q (close_chan ch loops)
unfolding close_chan
All-close_chan P Q ch [] f all = tt
All-close_chan P Q ch (l ∷ loops) f all = elim (Bool-cases (l.stop == ch)) [
  | inl e ↦ rw e (All-close_chan P Q ch loops f all.1)
  | inr e ↦ rw e (f l all.0 e, All-close_chan P Q ch loops f all.1)
]

pub All-map :
    (P Q : Loop → Type 0) (loops : List Loop) → ((l : Loop) → P l → Q l) → All P loops → All Q loops
All-map P Q [] f all = tt
All-map P Q (l ∷ loops) f all = (f l all.0, All-map P Q loops f all.1)

All-append :
    (P : Loop → Type 0) (loops : List Loop) (l : Loop) → All P loops → P l → All P (loops ++ l ∷ [])
All-append P [] l all p = (p, tt)
All-append P (x ∷ loops) l all p = (all.0, All-append P loops l all.1 p)

count_loops-append :
    (name : String) (loops : List Loop) (l : Loop)
    → count_loops name (loops ++ l ∷ [])
      ≡ count_loops name loops + (if str_eq l.svc.name name then 1 else 0)
unfolding count_loops
count_loops-append name [] l = ground arith
count_loops-append name (x ∷ loops) l = ground (arith, count_loops-append name loops l)

-- Closing the channel of a service ends the loops of that service only.
count_loops-close_chan :
    (name gone : String) (ch : ℕ) (chans : Map ℕ) (services : List ServiceConfig)
    (loops : List Loop)
    → lookup gone chans ≡ some ch
    → ((other : String) → lookup other chans ≡ some ch → gone ≡ other)
    → All (Tied chans services) loops
    → count_loops name (close_chan ch loops)
      ≡ (if str_eq gone name then 0 else count_loops name loops)
unfolding count_loops close_chan
count_loops-close_chan name gone ch chans services [] h own all = ground arith
count_loops-close_chan name gone ch chans services (l ∷ loops) h own all =
    let rest = count_loops-close_chan name gone ch chans services loops h own all.1 in
    elim (Bool-cases (l.stop == ch)) [
      | inl e ↦
          let same : gone ≡ l.svc.name = own l.svc.name (ground (arith, all.0.0, e)) in
          rw e ground (arith, rest, same, eq_iff gone name, eq_iff l.svc.name name)
      | inr e ↦
          let other : str_eq gone l.svc.name ≡ false =
            ground (arith, all.0.0, h, e, eq_iff gone l.svc.name) in
          rw e ground
            (arith, rest, other, eq_iff gone name, eq_iff gone l.svc.name, eq_iff l.svc.name name)
    ]

-- The loops that are left when the loop of `gone`, if there is one, is told to stop.
abbrev left : Poller → String → List Loop
left p gone = close_found (lookup gone p.stop_chans) p.loops

left-Tied :
    (p : Poller) (gone : String) (Q : Loop → Type 0)
    → IsValid p
    → ((l : Loop) → Tied p.stop_chans p.services l → gone ≢ l.svc.name → Q l)
    → All Q (left p gone)
unfolding close_found
left-Tied p gone Q v f = elim (Option-cases (lookup gone p.stop_chans)) [
  | inl h ↦
      rw (h, close_found)
        (All-map (Tied p.stop_chans p.services) Q p.loops
          (λ l t. f l t (λ e. ground (arith, h, t.0, ap (λ n. lookup n p.stop_chans) e))) v.tied)
  | inr (ch, h) ↦
      rw (h, close_found)
        (All-close_chan (Tied p.stop_chans p.services) Q ch p.loops
          (λ l t n. f l t (λ e. ground (arith, h, n, t.0, ap (λ n. lookup n p.stop_chans) e)))
          v.tied)
]

left_counted :
    (p : Poller) (gone name : String)
    → IsValid p
    → count_loops name (left p gone) ≡ (if str_eq gone name then 0 else count_loops name p.loops)
unfolding close_found
left_counted p gone name v = elim (Option-cases (lookup gone p.stop_chans)) [
  | inl h ↦ rw (h, close_found) ground (arith, v.counted name, h, eq_iff gone name)
  | inr (ch, h) ↦
      rw (h, close_found)
        (count_loops-close_chan name gone ch p.stop_chans p.services p.loops h
          (λ other e. v.own gone other ch h e) v.tied)
]

upsert-Tied :
    (p : Poller) (svc : ServiceConfig) (l : Loop)
    → Tied p.stop_chans p.services l
    → svc.name ≢ l.svc.name
    → Tied (upsert_service p svc).stop_chans (upsert_service p svc).services l
unfolding upsert_service
upsert-Tied p svc l t n = (
  ground (
    arith,
    t.0,
    eq_iff svc.name l.svc.name,
    lookup-insert l.svc.name svc.name p.next_chan p.stop_chans,
  ),
  ground (arith, t.1, eq_iff svc.name l.svc.name, find-update_services l.svc.name p.services svc),
)

-- Adding or replacing a service keeps the poller valid.
pub upsert_service-IsValid :
    (p : Poller) (svc : ServiceConfig) → IsValid p → IsValid (upsert_service p svc)
unfolding upsert_service
upsert_service-IsValid p svc v = record {
  fresh = λ name ch h.
      ground (arith, v.fresh name ch, lookup-insert name svc.name p.next_chan p.stop_chans);
  own = λ name other ch h h'. ground (
    arith,
    v.fresh name ch,
    v.fresh other ch,
    v.own name other ch,
    eq_iff svc.name name,
    eq_iff svc.name other,
    lookup-insert name svc.name p.next_chan p.stop_chans,
    lookup-insert other svc.name p.next_chan p.stop_chans,
  );
  tied =
      All-append _ (left p svc.name) (record { svc = svc; stop = p.next_chan })
        (left-Tied p svc.name _ v (upsert-Tied p svc))
        (
          lookup-insert_self svc.name p.next_chan p.stop_chans,
          ground (arith, eq_refl svc.name, find-update_services svc.name p.services svc),
        );
  counted = λ name. ground (
    arith,
    count_loops-append name (left p svc.name) (record { svc = svc; stop = p.next_chan }),
    left_counted p svc.name name v,
    v.counted name,
    lookup-insert name svc.name p.next_chan p.stop_chans,
  );
}

remove-Tied :
    (p : Poller) (name : String) (l : Loop)
    → Tied p.stop_chans p.services l
    → name ≢ l.svc.name
    → Tied (remove_service p name).stop_chans (remove_service p name).services l
unfolding remove_service
remove-Tied p name l t n = (
  ground (arith, t.0, eq_iff name l.svc.name, lookup-delete l.svc.name name p.stop_chans),
  ground (arith, t.1, eq_iff name l.svc.name, find-without l.svc.name name p.services),
)

-- Removing a service keeps the poller valid.
pub remove_service-IsValid :
    (p : Poller) (gone : String) → IsValid p → IsValid (remove_service p gone)
unfolding remove_service
remove_service-IsValid p gone v = record {
  fresh = λ name ch h. ground (arith, v.fresh name ch, lookup-delete name gone p.stop_chans);
  own = λ name other ch h h'. ground (
    arith,
    v.own name other ch,
    lookup-delete name gone p.stop_chans,
    lookup-delete other gone p.stop_chans,
  );
  tied = left-Tied p gone _ v (remove-Tied p gone);
  counted = λ name.
      ground
        (arith, left_counted p gone name v, v.counted name, lookup-delete name gone p.stop_chans);
}
