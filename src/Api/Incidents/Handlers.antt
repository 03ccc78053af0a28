-- ===== src/Api/Incidents/Handlers.antt =====
-- The handlers of apps/api/handlers/incidents.go. The configuration file, the stream of Redis and the
-- queries of the database are parameters, as what they return or their error; no database is `none`. The
-- 2000 messages are given from the newest to the oldest, as `XRevRangeN` returns them.
use infrawatch.Prelude.{
  ℕ, zero, suc, ◌+◌, ◌-◌, ◌*◌, String, Bool, true, false, not, ◌&&◌, ◌==◌, List, [], ◌∷◌, ◌++◌,
  Option, none, some, ◌⊎◌, inl, inr, str_eq, ltb, leb, length, map, if◌then◌else◌,
}
use Prim.Native.Char.{code}
use Prim.Native.Nat.{◌^◌}
use infrawatch.Prelude.Int.{ℤ, pos, negsuc, ltb_ℤ, int_eq}
use infrawatch.Prelude.Map.{Map}
use infrawatch.Prelude.Time.{Instant}
use infrawatch.Config.{ServiceConfig}
use infrawatch.Api.Tags.{service_tags_map, tags_of, has_tag}
use infrawatch.Api.Incidents.{Incident, StateChange, build_incidents}
use infrawatch.Api.Incidents.Rows.{DbIncident, db_incident_to_api}
use infrawatch.Api.Incidents.Selection.{filter_incidents, filter_tag, sort_incidents}

digits : ℕ → String → Option ℕ
digits n String.[] = some n
digits n (String.◌∷◌ c s) =
    let rest = digits (n * 10 + (code c - b'0')) s in
    if leb b'0' (code c) && leb (code c) b'9' then rest else none

unsigned : String → Option ℕ
unfolding digits
unsigned String.[] = none
unsigned (String.◌∷◌ c s) = digits 0 (String.◌∷◌ c s)

negated : ℕ → ℤ
negated zero = pos 0
negated (suc n) = negsuc n

signed : Bool → Option ℕ → Option ℤ
unfolding negated
signed minus none = none
signed true (some n) = if leb n (2 ^ 63) then some (negated n) else none
signed false (some n) = if ltb n (2 ^ 63) then some (pos n) else none

-- `strconv.Atoi`: a sign and digits within 64 bits.
unfoldable pub atoi : String → Option ℤ
unfolding unsigned signed
atoi String.[] = none
atoi (String.◌∷◌ c s) =
    if code c == b'-'
    then signed true (unsigned s)
    else (if code c == b'+'
        then signed false (unsigned s)
        else signed false (unsigned (String.◌∷◌ c s)))

-- What is called outside.
pub record Sources : Type 0 where
  pub config : List ServiceConfig ⊎ String
  pub db :
      Option ((String → ℤ → ℤ → List DbIncident ⊎ String) × (String → Option DbIncident ⊎ String))
  pub messages : List (Option StateChange) ⊎ String
  pub now : Instant

pub data Answer : Type 0 where
  bad_request : String → Answer
  internal_error : String → Answer
  not_found : String → Answer
  found : Incident → Answer
  page : List Incident → ℤ → ℤ → Bool → Answer
  all_of : List Incident → Answer
  empty_page : Answer

abbrev from_db : Sources → Map (List String) → String → ℤ → ℤ → List DbIncident → Answer
from_db src tags tag limit offset rows =
    page (filter_tag tags tag (map (db_incident_to_api src.now) rows)) limit offset
      (int_eq (pos (length rows)) limit)

abbrev pub reversed : List (Option StateChange) → List (Option StateChange)
reversed [] = []
reversed (m ∷ msgs) = reversed msgs ++ m ∷ []

unfoldable pub list_from_redis : Sources → String → String → Map (List String) → Answer
list_from_redis src service tag tags = elim src.messages [
  | inr e ↦ internal_error e
  | inl msgs ↦ all_of (
      sort_incidents
        (filter_tag tags tag (filter_incidents (build_incidents src.now (reversed msgs)) service)))
]

unfoldable pub list_from_db :
    (String → ℤ → ℤ → List DbIncident ⊎ String)
    → Sources
    → String
    → String
    → Map (List String)
    → ℤ
    → ℤ
    → Answer
list_from_db query src service tag tags limit offset = elim (query service limit offset) [
  | inr e ↦ internal_error e
  | inl rows ↦ from_db src tags tag limit offset rows
]

-- The end of `List`, once its parameters are read.
unfoldable pub list_from : Sources → String → String → Map (List String) → ℤ → ℤ → Answer
list_from src service tag tags limit offset =
    if not (str_eq tag "") && not (str_eq service "") && not (has_tag (tags_of tags service) tag)
    then empty_page
    else elim src.db [
      | some (query, by_id) ↦ list_from_db query src service tag tags limit offset
      | none ↦ list_from_redis src service tag tags
    ]

-- The services' tags are read only if a tag is asked for.
unfoldable pub list_tagged : Sources → String → String → ℤ → ℤ → Answer
list_tagged src service tag limit offset =
    if str_eq tag "" then list_from src service tag [] limit offset else elim src.config [
      | inr e ↦ internal_error e
      | inl services ↦ list_from src service tag (service_tags_map services) limit offset
    ]

-- A parameter of the query, or its default; none if it is no number within the bound.
unfoldable pub parameter : ℤ → ℤ → String → Option ℤ
parameter least default q =
    if str_eq q ""
    then some default
    else elim (atoi q) [ none ↦ none | some n ↦ if ltb_ℤ n least then none else some n ]

-- `List`, with the parameters of the request.
unfoldable pub list_incidents : Sources → String → String → String → String → Answer
list_incidents src service tag limit offset = elim (parameter (pos 1) (pos 50) limit) [
  | none ↦ bad_request "limit must be a positive integer"
  | some l ↦ elim (parameter (pos 0) (pos 0) offset) [
    | none ↦ bad_request "offset must be a non-negative integer"
    | some o ↦ list_tagged src service tag l o
  ]
]

find_incident : List Incident → String → Option Incident
find_incident [] id = none
find_incident (inc ∷ all) id =
    let rest = find_incident all id in if str_eq inc.id id then some inc else rest

unfoldable pub fetch_from_redis : Sources → String → Option Incident ⊎ String
unfolding find_incident
fetch_from_redis src id = elim src.messages [
  | inr e ↦ inr e
  | inl msgs ↦ inl (find_incident (build_incidents src.now (reversed msgs)) id)
]

unfoldable pub fetch_from_db :
    (String → Option DbIncident ⊎ String) → Sources → String → Option Incident ⊎ String
fetch_from_db by_id src id = elim (by_id id) [
  | inr e ↦ inr e
  | inl none ↦ inl none
  | inl (some di) ↦ inl (some (db_incident_to_api src.now di))
]

answer_found : String → Option Incident ⊎ String → Answer
answer_found id (inr e) = internal_error e
answer_found id (inl none) = not_found id
answer_found id (inl (some inc)) = found inc

-- `Get`.
unfoldable pub get_incident : Sources → String → Answer
unfolding answer_found
get_incident src id = answer_found id (elim src.db [
  | some (query, by_id) ↦ fetch_from_db by_id src id
  | none ↦ fetch_from_redis src id
])
