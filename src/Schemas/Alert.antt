-- ===== src/Schemas/Alert.antt =====
-- schemas/alert.py: the webhook payload of the Alertmanager.
--
-- Python's `str.lower` and `str.upper` are arguments.
use fault_warden.Base.{Bool, Option, none, some, List, [], ◌∷◌, if◌then◌else◌, String, str_eq}

pub record AlertItem : Type 0 where
  pub labels : List (String × String)
  pub fingerprint : Option String

pub record AlertmanagerPayload : Type 0 where
  pub group_key : String
  pub status : String
  pub common_labels : List (String × String)
  pub common_annotations : List (String × String)
  pub alerts : List AlertItem

-- `labels.get(key)`
abbrev pub get_label : String → List (String × String) → Option String
get_label key [] = none
get_label key ((k, v) ∷ labels) = if str_eq k key then some v else get_label key labels

abbrev pub or_default : Option String → String → String
or_default none d = d
or_default (some v) d = v

-- The text if it is there and not empty.
abbrev pub truthy : Option String → Option String
truthy none = none
truthy (some v) = if str_eq v "" then none else some v

-- A common label, or else what the first alert says, or else a default.
abbrev pub common_or_first :
    (common : Option String) → (AlertItem → String) → List AlertItem → (default : String) → String
common_or_first (some v) f alerts d = v
common_or_first none f [] d = d
common_or_first none f (a ∷ alerts) d = f a

abbrev pub primary_alertname : AlertmanagerPayload → String
primary_alertname p =
    common_or_first (truthy (get_label "alertname" p.common_labels))
      (λ a. or_default (get_label "alertname" a.labels) "UnknownAlert") p.alerts "UnknownAlert"

abbrev pub alert_service : AlertItem → String
alert_service a =
    or_default (get_label "service" a.labels)
      (or_default (get_label "job" a.labels) "unknown-service")

abbrev pub first_text : Option String → Option String → Option String
first_text none o = o
first_text (some v) o = some v

abbrev pub primary_service : AlertmanagerPayload → String
primary_service p =
    common_or_first
      (first_text (truthy (get_label "service" p.common_labels))
        (truthy (get_label "job" p.common_labels)))
      alert_service p.alerts "unknown-service"

abbrev pub fingerprint_or : Option String → (group_key : String) → String
fingerprint_or o group_key = or_default (truthy o) group_key

abbrev pub first_fingerprint : List AlertItem → (group_key : String) → String
first_fingerprint [] group_key = group_key
first_fingerprint (a ∷ alerts) group_key = fingerprint_or a.fingerprint group_key

abbrev pub primary_fingerprint : AlertmanagerPayload → String
primary_fingerprint p = first_fingerprint p.alerts p.group_key

module _ (upper : String → String) where
  abbrev pub uppercase : Option String → Option String
  uppercase none = none
  uppercase (some v) = some (upper v)

  abbrev pub primary_severity : AlertmanagerPayload → String
  primary_severity p =
      common_or_first (uppercase (truthy (get_label "severity" p.common_labels)))
        (λ a. upper (or_default (get_label "severity" a.labels) "medium")) p.alerts "MEDIUM"

abbrev pub is_resolved : (lower : String → String) → AlertmanagerPayload → Bool
is_resolved lower p = str_eq (lower p.status) "resolved"
