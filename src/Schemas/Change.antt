-- ===== src/Schemas/Change.antt =====
-- schemas/change.py: operational changes and their correlation with an incident. A timestamp is a
-- number of microseconds.
use fault_warden.Base.{ℕ, String, Bool, Option, List}

pub data ChangeType : Type 0 where
  git_commit deployment configuration release unknown_type : ChangeType

pub data CausalChangeType : Type 0 where
  config_regression code_regression deployment_failure dependency_version_change
        resource_limit_change unrelated_change unknown :
      CausalChangeType

pub record ConfigurationChange : Type 0 where
  pub key : String
  pub old_value : Option String
  pub new_value : Option String
  pub sensitive : Bool

pub record OperationalChange : Type 0 where
  pub id : String
  pub change_type : ChangeType
  pub service : String
  pub timestamp : ℕ
  pub title : String
  pub description : Option String
  pub files_changed : List String
  pub config_changes : List ConfigurationChange

pub record ChangeCorrelation : Type 0 where
  pub change_id : String
  pub temporal_score : ℕ
  pub component_match : Bool
  pub symptom_match : Bool
  pub evidence_links : List String
  pub relevance_score : ℕ
  pub causal_category : CausalChangeType
  pub is_causal_candidate : Bool
