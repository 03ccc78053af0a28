-- ===== src/Api/Tags.antt =====
-- The tags of the configured services: `serviceTagsMap` and `hasTag` of apps/api/handlers/services.go.
use infrawatch.Prelude.{String, Bool, false, ◌||◌, List, [], ◌∷◌, str_eq, get_or}
use infrawatch.Prelude.Map.{Map, lookup, insert}
use infrawatch.Config.{ServiceConfig}

tags_from : Map (List String) → List ServiceConfig → Map (List String)
tags_from out [] = out
tags_from out (svc ∷ services) = tags_from (insert svc.name svc.tags out) services

unfoldable pub service_tags_map : List ServiceConfig → Map (List String)
unfolding tags_from
service_tags_map services = tags_from [] services

-- `m[service]`, nil for a service that is not configured.
abbrev pub tags_of : Map (List String) → String → List String
tags_of m service = get_or (lookup service m) []

abbrev pub has_tag : List String → String → Bool
has_tag [] tag = false
has_tag (t ∷ tags) tag = str_eq t tag || has_tag tags tag
