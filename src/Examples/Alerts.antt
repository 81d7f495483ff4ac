-- ===== src/Examples/Alerts.antt =====
-- The theorems on services/alert_service.py: one alert that is reported twice, with texts that are
-- in lower or upper case already.
use fault_warden.Base.{arith, ◌≤◌, refl, true, some, [], ◌∷◌, String}
use fault_warden.Alerts.{AlertStore, process_alertmanager_webhook}
use fault_warden.Schemas.Alert.{AlertmanagerPayload}
use fault_warden.Alerts.Updates.{IsDeduplicated}
use fault_warden.Alerts.Deduplication.{process_alertmanager_webhook-IsDeduplicated}
use fault_warden.Alerts.Storms.{OpensNothing, webhook, repeated_alert-OpensNothing}

abbrev same_text : String → String
same_text text = text

abbrev high_error_rate : AlertmanagerPayload
high_error_rate = record {
  group_key = "demo";
  status = "firing";
  common_labels = ("alertname", "HighErrorRate") ∷ ("severity", "CRITICAL") ∷ [];
  common_annotations = ("summary", "errors") ∷ [];
  alerts = record { labels = []; fingerprint = some "abc" } ∷ [];
}

abbrev no_alerts : AlertStore
no_alerts = record { incidents = []; jobs = []; background_tasks = [] }

abbrev one_alert : AlertStore
one_alert = (webhook same_text same_text true 1 2 10 high_error_rate no_alerts).0

none_match : 0 ≤ 1
none_match = ground arith

process_alertmanager_webhook-IsDeduplicated_example :
    IsDeduplicated
      (process_alertmanager_webhook same_text same_text true 1 2 10 high_error_rate
        no_alerts).0.incidents
process_alertmanager_webhook-IsDeduplicated_example =
    process_alertmanager_webhook-IsDeduplicated same_text same_text true 1 2 10 high_error_rate
      no_alerts refl (tt, λ fingerprint. none_match)

repeated_alert-OpensNothing_example :
    OpensNothing one_alert (webhook same_text same_text true 3 4 20 high_error_rate one_alert)
repeated_alert-OpensNothing_example =
    repeated_alert-OpensNothing same_text same_text true true 1 2 10 3 4 20 high_error_rate
      high_error_rate no_alerts refl refl refl
