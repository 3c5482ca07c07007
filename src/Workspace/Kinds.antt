-- ===== src/Workspace/Kinds.antt =====
-- workspace/resourceKinds.ts: where each Grafana resource kind is mounted.
use grafana_pi_app.Prelude.{
  ℕ, suc, ◌≡◌, refl, Bool, true, false, ◌&&◌, ◌||◌, Option, none, some, List, [], ◌∷◌, ◌++◌, Text,
  codes, length, drop, leb, ◌==◌, text_eq, starts_with, if◌then◌else◌,
}
use grafana_pi_app.Paths.{slash, split}

pub data Kind : Type 0 where
  dashboard alert_rule : Kind

abbrev pub kinds : List Kind
kinds = dashboard ∷ alert_rule ∷ []

abbrev pub kind_eq : Kind → Kind → Bool
kind_eq dashboard dashboard = true
kind_eq dashboard alert_rule = false
kind_eq alert_rule dashboard = false
kind_eq alert_rule alert_rule = true

abbrev pub root_of : Kind → Text
root_of dashboard = codes "/grafana/dashboards"
root_of alert_rule = codes "/grafana/alert-rules"

abbrev pub document_of : Kind → Text
document_of dashboard = codes "dashboard.json"
document_of alert_rule = codes "rule.json"

abbrev pub resource_meta : Text
resource_meta = codes "meta.json"

-- `/^[A-Za-z0-9_-]{1,40}$/`
abbrev pub uid_unit : ℕ → Bool
uid_unit c =
    leb b'A' c && leb c b'Z'
    || leb b'a' c && leb c b'z'
    || leb b'0' c && leb c b'9'
    || c == b'_'
    || c == b'-'

abbrev pub all_uid_units : Text → Bool
all_uid_units [] = true
all_uid_units (c ∷ s) = uid_unit c && all_uid_units s

unfoldable pub is_uid : Text → Bool
is_uid s = leb 1 (length s) && leb (length s) 40 && all_uid_units s

unfoldable pub resource_document_path : Kind → Text → Text
resource_document_path kind uid = root_of kind ++ slash ∷ (uid ++ slash ∷ document_of kind)

unfoldable pub resource_meta_path : Kind → Text → Text
resource_meta_path kind uid = root_of kind ++ slash ∷ (uid ++ slash ∷ resource_meta)

abbrev pub kind_name : Kind → Text
kind_name dashboard = codes "dashboard"
kind_name alert_rule = codes "alertRule"

-- `${kind}:${uid}`
unfoldable pub resource_key : Kind → Text → Text
resource_key kind uid = kind_name kind ++ b':' ∷ uid

-- `indexOf(':')` with the two slices, as the text before the separator and the one behind it.
abbrev pub cut : Text → Text × Text
cut [] = ([], [])
cut (c ∷ s) = let rest = cut s in if c == b':' then ([], s) else (c ∷ rest.0, rest.1)

-- The source casts the text before the separator to a kind unchecked; keys are only ever built by
-- `resourceKey`, and another text is no kind here.
abbrev pub kind_of_name : Text → Option Kind
kind_of_name name =
    if text_eq name (kind_name dashboard)
    then some dashboard
    else if text_eq name (kind_name alert_rule)
    then some alert_rule
    else none

unfoldable pub parse_resource_key : Text → Option (Kind × Text)
unfolding text_eq
parse_resource_key key = elim (kind_of_name (cut key).0) [
  | some kind ↦ some (kind, (cut key).1)
  | none ↦ none
]

-- The loop body of `resourceAtPath` behind the root, on the segments below it.
abbrev pub resource_below : Kind → List Text → Option (Kind × Text)
resource_below kind [] = none
resource_below kind (uid ∷ []) = if is_uid uid then some (kind, uid) else none
resource_below kind (uid ∷ file ∷ []) =
    if is_uid uid && text_eq file (document_of kind) then some (kind, uid) else none
resource_below kind (uid ∷ file ∷ more ∷ rest) = none

resource_at_path_from : List Kind → Text → Option (Kind × Text)
unfolding is_uid text_eq starts_with split
resource_at_path_from [] path = none
resource_at_path_from (kind ∷ rest) path =
    let later = resource_at_path_from rest path in
    let here = resource_below kind (split slash (drop (suc (length (root_of kind))) path)) in
    if starts_with path (root_of kind ++ slash ∷ [])
    then (elim here [ some found ↦ some found | none ↦ later ])
    else later

unfoldable pub resource_at_path : Text → Option (Kind × Text)
unfolding resource_at_path_from
resource_at_path path = resource_at_path_from kinds path

-- The key of a resource parses back to its kind and its UID, whatever the UID.
pub parse_resource_key-resource_key :
    (kind : Kind) (uid : Text) → parse_resource_key (resource_key kind uid) ≡ some (kind, uid)
unfolding parse_resource_key resource_key
parse_resource_key-resource_key dashboard uid = refl
parse_resource_key-resource_key alert_rule uid = refl
