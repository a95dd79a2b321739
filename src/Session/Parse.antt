-- ===== src/Session/Parse.antt =====
-- `parse_orgs` and `parse_projects`: items that lack a field are left out.
use datum_connect.Base.{Option, some, List, option_eq, nat_eq, text_eq, filter_map}
use datum_connect.Text.{codes}
use datum_connect.Json.{Json, ◌>>=◌, get_object, get_str}
use datum_connect.Session.{Organization, Project}

module _ (J : Json) where
  -- The closure of `parse_orgs`
  abbrev pub parse_org : J.Value → Option Organization
  parse_org value = do
    item ← J.as_object value
    status ← get_object J item (codes "status")
    org ← get_object J status (codes "organization")
    name ← get_str J org (codes "displayName")
    kind ← get_str J org (codes "type")
    spec ← get_object J item (codes "spec")
    reference ← get_object J spec (codes "organizationRef")
    resource_id ← get_str J reference (codes "name")
    some (record { resource_id = resource_id; display_name = name; kind = kind })

  -- The closure of `parse_projects`
  abbrev pub parse_project : J.Value → Option Project
  parse_project value = do
    item ← J.as_object value
    metadata ← get_object J item (codes "metadata")
    resource_id ← get_str J metadata (codes "name")
    annotations ← get_object J metadata (codes "annotations")
    display_name ← get_str J annotations (codes "kubernetes.io/description")
    some (record { resource_id = resource_id; display_name = display_name })

  abbrev items_of : J.Value → Option (List J.Value)
  items_of json = do reply ← J.as_object json; items ← J.get reply (codes "items"); J.as_array items

  abbrev pub parse_orgs : J.Value → Option (List Organization)
  parse_orgs json = do items ← items_of json; some (filter_map parse_org items)

  abbrev pub parse_projects : J.Value → Option (List Project)
  parse_projects json = do items ← items_of json; some (filter_map parse_project items)
