-- ===== src/Health/Poller/Edits.antt =====
-- The loops after any changes of the configuration (apps/engine/internal/health/poller.go).
use infrawatch.Prelude.{
  ◌≡◌, refl, String, ◌||◌, List, [], ◌∷◌, some, is_some, arith, if◌then◌else◌, All,
}
use infrawatch.Prelude.Map.{lookup, lookup-insert, lookup-delete}
use infrawatch.Config.{ServiceConfig}
use infrawatch.Health.Poller.{
  Poller, new_poller, start, start_all, upsert_service, remove_service, find_service,
  lookup_service,
}
use infrawatch.Health.Poller.Loops.{
  IsValid, Tied, count_loops, All-map, find-update_services, find-without, upsert_service-IsValid,
  remove_service-IsValid,
}

-- The services that have a channel are those that are configured.
abbrev Matched : Poller → Type 0
Matched p =
    (name : String) → is_some (lookup name p.stop_chans) ≡ is_some (find_service name p.services)

-- A change of the configuration while the engine runs.
pub data Edit : Type 0 where
  upsert : ServiceConfig → Edit
  remove : String → Edit

abbrev pub edit : Poller → Edit → Poller
edit p (upsert svc) = upsert_service p svc
edit p (remove name) = remove_service p name

edit-IsValid : (p : Poller) (x : Edit) → IsValid p → IsValid (edit p x)
edit-IsValid p (upsert svc) v = upsert_service-IsValid p svc v
edit-IsValid p (remove name) v = remove_service-IsValid p name v

edit-Matched : (p : Poller) (x : Edit) → Matched p → Matched (edit p x)
unfolding upsert_service remove_service
edit-Matched p (upsert svc) m name = ground (
  arith,
  m name,
  lookup-insert name svc.name p.next_chan p.stop_chans,
  find-update_services name p.services svc,
)
edit-Matched p (remove gone) m name =
    ground (arith, m name, lookup-delete name gone p.stop_chans, find-without name gone p.services)

unfoldable pub after_edits : Poller → List Edit → Poller
after_edits p [] = p
after_edits p (x ∷ edits) = after_edits (edit p x) edits

-- Each configured service has one running loop, which polls it as it is configured, and there is no
-- other loop.
abbrev pub OneLoopEach : Poller → Type 0
OneLoopEach p =
    ((name : String)
      → count_loops name p.loops ≡ (if is_some (lookup_service p name) then 1 else 0))
    × All (λ l. lookup_service p l.svc.name ≡ some l.svc) p.loops

after_edits-OneLoopEach :
    (p : Poller) (edits : List Edit) → IsValid p → Matched p → OneLoopEach (after_edits p edits)
unfolding after_edits
after_edits-OneLoopEach p [] v m = (
  λ name. ground (arith, v.counted name, m name),
  All-map (Tied p.stop_chans p.services) _ p.loops (λ l t. t.1) v.tied,
)
after_edits-OneLoopEach p (x ∷ edits) v m =
    after_edits-OneLoopEach (edit p x) edits (edit-IsValid p x v) (edit-Matched p x m)

new_poller-IsValid : (services : List ServiceConfig) → IsValid (new_poller services)
unfolding new_poller lookup count_loops
new_poller-IsValid services = record {
  fresh = λ name ch h. ground arith;
  own = λ name other ch h h'. ground arith;
  tied = tt;
  counted = λ name. refl;
}

start_all-IsValid :
    (p : Poller) (services : List ServiceConfig) → IsValid p → IsValid (start_all p services)
unfolding start_all
start_all-IsValid p [] v = v
start_all-IsValid p (svc ∷ services) v =
    start_all-IsValid (upsert_service p svc) services (upsert_service-IsValid p svc v)

start_all_known :
    (p : Poller) (services : List ServiceConfig) (name : String)
    → let q = start_all p services in
      (is_some (lookup name q.stop_chans)
        ≡ (is_some (lookup name p.stop_chans) || is_some (find_service name services)))
      × (is_some (find_service name q.services)
          ≡ (is_some (find_service name p.services) || is_some (find_service name services)))
unfolding start_all upsert_service find_service
start_all_known p [] name = ground arith
start_all_known p (svc ∷ services) name = ground (
  arith,
  start_all_known (upsert_service p svc) services name,
  lookup-insert name svc.name p.next_chan p.stop_chans,
  find-update_services name p.services svc,
)

start-Matched : (services : List ServiceConfig) → Matched (start (new_poller services))
unfolding start new_poller lookup
start-Matched services name = ground (arith, start_all_known (new_poller services) services name)

-- Once the poller is started, and after any additions, replacements and removals of services, each
-- configured service has just one running loop, which polls it as it is configured now, and no other
-- service has a loop.
pub edits-OneLoopEach :
    (services : List ServiceConfig) (edits : List Edit)
    → OneLoopEach (after_edits (start (new_poller services)) edits)
unfolding start
edits-OneLoopEach services edits =
    after_edits-OneLoopEach (start (new_poller services)) edits
      (start_all-IsValid (new_poller services) (new_poller services).services
        (new_poller-IsValid services))
      (start-Matched services)
