-- ===== src/Api/Incidents/Selection.antt =====
-- Which incidents apps/api/handlers/incidents.go lists, and in which order.
use infrawatch.Prelude.{String, Bool, not, ◌&&◌, ◌||◌, List, [], ◌∷◌, str_eq, ltb, if◌then◌else◌}
use infrawatch.Prelude.Map.{Map}
use infrawatch.Api.Tags.{tags_of, has_tag}
use infrawatch.Api.Incidents.{Incident}

unfoldable pub filter_incidents : List Incident → String → List Incident
filter_incidents [] service = []
filter_incidents (inc ∷ all) service =
    let rest = filter_incidents all service in
    if str_eq service "" || str_eq inc.service_name service then inc ∷ rest else rest

-- The incidents of the services that have a tag, all if none is asked for.
unfoldable pub filter_tag : Map (List String) → String → List Incident → List Incident
filter_tag tags tag [] = []
filter_tag tags tag (inc ∷ all) =
    let rest = filter_tag tags tag all in
    if str_eq tag "" || has_tag (tags_of tags inc.service_name) tag then inc ∷ rest else rest

-- `less` of the sort: open ones first, then the newest.
abbrev pub comes_before : Incident → Incident → Bool
comes_before i j =
    if (i.is_open && not j.is_open) || (not i.is_open && j.is_open)
    then i.is_open
    else ltb j.started_at i.started_at

unfoldable pub insert_incident : Incident → List Incident → List Incident
insert_incident i [] = i ∷ []
insert_incident i (j ∷ js) =
    let rest = insert_incident i js in if comes_before j i then j ∷ rest else i ∷ j ∷ js

-- `sort.Slice`, which leaves the order of equal elements open.
unfoldable pub sort_incidents : List Incident → List Incident
sort_incidents [] = []
sort_incidents (i ∷ is) = insert_incident i (sort_incidents is)
