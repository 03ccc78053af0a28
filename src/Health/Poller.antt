-- ===== src/Health/Poller.antt =====
-- apps/engine/internal/health/poller.go: the polling loops and one cycle of a poll. A channel that
-- stops a loop is a number; each loop that has started and was not stopped is in `loops`. The
-- anomaly detector, which a poll feeds with the latency, is not modelled: it only logs and fills a
-- channel of its own.
use infrawatch.Prelude.{
  ℕ, suc, String, Bool, true, false, not, ◌||◌, List, [], ◌∷◌, ◌++◌, Option, none, some, str_eq,
  ◌==◌, is_some, if◌then◌else◌,
}
use infrawatch.Prelude.Map.{Map, lookup, insert, delete}
use infrawatch.Prelude.Time.{Instant}
use infrawatch.Config.{ServiceConfig, is_passive}
use infrawatch.Circuit.Breaker
use infrawatch.Circuit.Breaker.{Breaker, is_open, record_success, record_failure}
use infrawatch.Circuit.Registry.{get, put}
use infrawatch.Events.{circuit_state, publish}
use infrawatch.Health.Checker.{CheckResult, source_alertmanager, check}
use infrawatch.Health.Fsm.{State, dead, unhealthy, state_name, state_eq, ServiceStateSnapshot}
use infrawatch.Health.Manager.{
  Outside, Engine, floor_status, get_snapshot, record_result, set_alert_floor, clear_alert_floor,
}
use Prim.Native.String.{◌++◌ as ◌+++◌}
pub mod Poll
pub mod Dependencies
pub mod Loops
pub mod Edits

pub record Loop : Type 0 where
  pub svc : ServiceConfig
  pub stop : ℕ

pub record Poller : Type 0 where
  pub services : List ServiceConfig
  pub stop_chans : Map ℕ
  pub next_chan : ℕ
  pub loops : List Loop

unfoldable pub new_poller : List ServiceConfig → Poller
new_poller services = record { services = services; stop_chans = []; next_chan = 0; loops = [] }

-- `close(ch)`: the loop that waits for the channel ends.
unfoldable pub close_chan : ℕ → List Loop → List Loop
close_chan ch [] = []
close_chan ch (l ∷ loops) =
    let rest = close_chan ch loops in if l.stop == ch then rest else l ∷ rest

close_found : Option ℕ → List Loop → List Loop
close_found none loops = loops
close_found (some ch) loops = close_chan ch loops

-- The first service of the name is replaced; if there is none, the service is appended.
unfoldable pub update_services : List ServiceConfig → ServiceConfig → List ServiceConfig
update_services [] svc = svc ∷ []
update_services (s ∷ services) svc =
    let rest = update_services services svc in
    if str_eq s.name svc.name then svc ∷ services else s ∷ rest

-- `UpsertService`.
unfoldable pub upsert_service : Poller → ServiceConfig → Poller
unfolding close_found
upsert_service p svc = record {
  services = update_services p.services svc;
  stop_chans = insert svc.name p.next_chan p.stop_chans;
  next_chan = suc p.next_chan;
  loops =
      close_found (lookup svc.name p.stop_chans) p.loops
      ++ record { svc = svc; stop = p.next_chan } ∷ [];
}

unfoldable pub start_all : Poller → List ServiceConfig → Poller
start_all p [] = p
start_all p (svc ∷ services) = start_all (upsert_service p svc) services

-- `Start`. The services are those of the configuration when it is called.
unfoldable pub start : Poller → Poller
start p = start_all p p.services

unfoldable pub close_all : Map ℕ → List Loop → List Loop
close_all [] loops = loops
close_all ((_, ch) ∷ m) loops = close_all m (close_chan ch loops)

-- `Stop`, as far as it changes the poller: the waiting for the loops is left out.
unfoldable pub stop : Poller → Poller
stop p = record p { stop_chans = []; loops = close_all p.stop_chans p.loops }

unfoldable pub without : String → List ServiceConfig → List ServiceConfig
without name [] = []
without name (s ∷ services) =
    let rest = without name services in if str_eq s.name name then rest else s ∷ rest

-- `RemoveService`.
unfoldable pub remove_service : Poller → String → Poller
unfolding close_found
remove_service p name = record p {
  services = without name p.services;
  stop_chans = delete name p.stop_chans;
  loops = close_found (lookup name p.stop_chans) p.loops;
}

unfoldable pub find_service : String → List ServiceConfig → Option ServiceConfig
find_service name [] = none
find_service name (s ∷ services) = if str_eq s.name name then some s else find_service name services

-- `Lookup`.
abbrev pub lookup_service : Poller → String → Option ServiceConfig
lookup_service p name = find_service name p.services

-- Whether a dependency is down; one that has not been polled is not.
unfoldable pub is_down : Option ServiceStateSnapshot → Bool
is_down none = false
is_down (some snap) = state_eq snap.current_state dead || state_eq snap.current_state unhealthy

state_text : Option ServiceStateSnapshot → String
state_text none = ""
state_text (some snap) = state_name snap.current_state

unfoldable pub failure_reason : Outside → Engine → List String → String
unfolding state_text
failure_reason out e [] = ""
failure_reason out e (dep ∷ deps) =
    let rest = failure_reason out e deps in
    if is_down (get_snapshot e dep)
    then out.quote dep +++ " is " +++ state_text (get_snapshot e dep)
    else rest

-- `dependencyFailureReason`.
unfoldable pub dependency_failure_reason : Outside → Engine → ServiceConfig → String
unfolding failure_reason
dependency_failure_reason out e svc = failure_reason out e svc.dependencies

-- What a passive service's alert floor amounts to.
unfoldable pub passive_result : ServiceConfig → Bool → String → Instant → CheckResult
passive_result svc active reason now = record {
  service_name = svc.name;
  ok = not active;
  status_code = 0;
  response_time = 0;
  error = if active then some ("external alert: " +++ reason) else none;
  timestamp = now;
  source = source_alertmanager;
}

-- The result of the service's own check.
unfoldable pub own_check : Outside → Engine → ServiceConfig → Instant → Engine × CheckResult
own_check out e svc now =
    if is_passive svc
    then (let (e', active, reason) = floor_status e svc.name in
        (e', passive_result svc active reason now))
    else (e, check out.http svc now)

-- A check that passed fails if a dependency is down.
unfoldable pub with_dependencies : CheckResult → String → CheckResult
with_dependencies r reason =
    if r.ok
    then (if str_eq reason ""
        then r
        else record r { ok = false; error = some ("dependency failure: " +++ reason) })
    else r

-- `ErrCircuitOpen`, as the result of a poll.
unfoldable pub open_result : ServiceConfig → Instant → CheckResult
open_result svc now = record {
  service_name = svc.name;
  ok = false;
  status_code = 0;
  response_time = 0;
  error = some "circuit breaker is OPEN — check skipped";
  timestamp = now;
  source = "";
}

abbrev pub feed : Breaker → Bool → Instant → Breaker
feed b true now = record_success b now
feed b false now = record_failure b now

-- The cycle behind the gate of the breaker `b`.
unfoldable pub poll_through : Outside → Engine → Breaker → ServiceConfig → Instant → Engine
poll_through out e b svc now =
    let (checked, own) = own_check out e svc now in
    let result = with_dependencies own (dependency_failure_reason out checked svc) in
    let fed = feed b result.ok now in
    let published = record checked {
      cb = put checked.cb svc.name fed;
      published = publish checked.published (
          circuit_state
            (record { service_name = svc.name; snapshot = Breaker.snapshot fed; timestamp = now }));
    } in
    record_result out published svc result now

-- `poll`.
unfoldable pub poll : Outside → Engine → ServiceConfig → Instant → Engine
poll out e svc now =
    let (cb, b) = get e.cb svc.name in
    let (gated, skip) = is_open b now in
    let e' = record e { cb = put cb svc.name gated } in
    if skip
    then record_result out e' svc (open_result svc now) now
    else poll_through out e' gated svc now

unfoldable pub poll_found : Outside → Engine → Option ServiceConfig → Instant → Engine × Bool
poll_found out e none now = (e, false)
poll_found out e (some svc) now = (poll out e svc now, true)

-- `PollNow`: false for a service that is not configured.
unfoldable pub poll_now : Outside → Poller → Engine → String → Instant → Engine × Bool
unfolding poll_found
poll_now out p e name now = poll_found out e (lookup_service p name) now
