-- ===== src/Examples/Changes.antt =====
-- The theorem on integrations/change/composite.py: two providers, one of which raises.
use fault_warden.Base.{none, some, [], ◌∷◌}
use fault_warden.Schemas.Change.{OperationalChange, deployment, git_commit}
use fault_warden.Changes.{list_changes}
use fault_warden.Changes.Merge.{IsMerge, list_changes-IsMerge}

abbrev old_commit : OperationalChange
old_commit = record {
  id = "commit";
  change_type = git_commit;
  service = "demo";
  timestamp = 10;
  title = "fix";
  description = none;
  files_changed = [];
  config_changes = [];
}

abbrev new_deployment : OperationalChange
new_deployment = record {
  id = "deploy";
  change_type = deployment;
  service = "demo";
  timestamp = 20;
  title = "v2";
  description = none;
  files_changed = [];
  config_changes = [];
}

list_changes-IsMerge_example :
    let results = some (old_commit ∷ new_deployment ∷ []) ∷ none ∷ some (old_commit ∷ []) ∷ [] in
    IsMerge 50 results (list_changes 50 results)
list_changes-IsMerge_example =
    list_changes-IsMerge 50
      (some (old_commit ∷ new_deployment ∷ []) ∷ none ∷ some (old_commit ∷ []) ∷ [])
