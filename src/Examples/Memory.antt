-- ===== src/Examples/Memory.antt =====
-- The theorems on services/memory_service.py: the incident of the demo service, resolved. A float is
-- a natural number, the vector of a text is one number and the distance of two vectors is 0.
use fault_warden.Base.{
  ℕ, ◌+◌, ◌-◌, ◌*◌, ◌/◌, ◌==◌, ◌≡◌, refl, Option, none, some, List, [], ◌∷◌, String, false, leb,
}
use fault_warden.Audit.{Store}
use fault_warden.Investigation.{resolved}
use fault_warden.Incidents.{IncidentModel}
use fault_warden.Memory.Quality.{
  eligible, IncidentMemoryModel, get_memory_by_incident_id, is_eligible_for_memory,
}
use fault_warden.Memory.Index.{memory_of, index_incident_memory}
use fault_warden.Memory.Indexing.{
  IsIndexed, index_incident_memory-IsIndexed, indexed_memory_is_found,
}
use fault_warden.Memory.Search.{SearchFilter, Floats, search_similar}
use fault_warden.Memory.Hits.{Question, IsAnswer}
use fault_warden.Memory.Retrieval.{search_similar-IsAnswer}
use fault_warden.Examples.{same_case, sample_evidence, sample_cause}

abbrev pub no_rows : Store
no_rows = record { proposals = []; actions = []; results = []; validations = [] }

abbrev pub resolved_incident : IncidentModel
resolved_incident = record {
  id = 1;
  title = "errors";
  status = resolved;
  severity = "HIGH";
  source = "ALERTMANAGER";
  summary = none;
  service = some "demo-service";
  langgraph_thread_id = some 1;
  alert_payload = record {
    present = false;
    group_labels = [];
    common_annotations = [];
    starts_at = none;
  };
  evidence = sample_evidence ∷ [];
  hypotheses = [];
  root_cause = some (record {
    analysis = sample_cause;
    causal_change_summary = none;
    causal_change_type = none;
    contributing_factors = [];
    identified_at = some 9;
  });
  proposed_remediations = [];
  resolution = some "reset";
  classification = none;
  recent_changes = [];
  candidate_causal_changes = [];
  causal_changes = [];
  iteration_count = 1;
  created_at = 5;
  updated_at = 25;
}

abbrev pub embed_text : String → Option (List ℕ)
embed_text text = some (1 ∷ [])

abbrev stored_memory : IncidentMemoryModel (List ℕ)
stored_memory = record (memory_of (List ℕ) 7 none no_rows resolved_incident) {
  embedding = some (1 ∷ []);
}

index_incident_memory-IsIndexed_example :
    IsIndexed same_case embed_text no_rows resolved_incident []
      (index_incident_memory same_case embed_text 7 none no_rows resolved_incident [])
index_incident_memory-IsIndexed_example =
    index_incident_memory-IsIndexed same_case embed_text 7 none no_rows resolved_incident []

is_stored :
    (index_incident_memory same_case embed_text 7 none no_rows resolved_incident []).0
    ≡ some stored_memory
unfolding index_incident_memory is_eligible_for_memory get_memory_by_incident_id
is_stored = refl

stays_eligible : is_eligible_for_memory same_case no_rows resolved_incident ≡ eligible
unfolding is_eligible_for_memory
stays_eligible = refl

abbrev memories_after : List (IncidentMemoryModel (List ℕ))
memories_after = (index_incident_memory same_case embed_text 7 none no_rows resolved_incident []).1

indexed_memory_is_found_example :
    (get_memory_by_incident_id (List ℕ) 1 memories_after ≡ some stored_memory)
    × (index_incident_memory same_case embed_text 8
          (some 3)
          no_rows
          resolved_incident
          memories_after
        ≡ (some stored_memory, memories_after))
indexed_memory_is_found_example =
    indexed_memory_is_found same_case embed_text 7 8 none (some 3) no_rows no_rows resolved_incident
      stored_memory [] is_stored stays_eligible

abbrev number_floats : Floats ℕ
number_floats = record {
  nought = 0;
  one = 1;
  plus = λ a b. a + b;
  minus = λ a b. a - b;
  times = λ a b. a * b;
  over = λ a b. a / b;
  sqrt = λ a. a;
  round4 = λ a. a;
  is_zero = λ a. a == 0;
  at_most = leb;
}

abbrev no_distance : List ℕ → List ℕ → ℕ
no_distance v w = 0

abbrev demo_filter : SearchFilter
demo_filter = record {
  service = some "demo-service";
  classification = none;
  exclude_incident_id = some 2;
}

abbrev sample_question : Question ℕ
sample_question = record {
  floats = number_floats;
  cosine_distance = no_distance;
  query = 1 ∷ [];
  least = 1;
  filter = demo_filter;
  memories = stored_memory ∷ [];
}

search_similar-IsAnswer_example : IsAnswer sample_question false 5 (
    search_similar number_floats no_distance false 5 0
      (stored_memory ∷ [])
      (some (1 ∷ []))
      demo_filter
      none
      (some 1))
search_similar-IsAnswer_example = search_similar-IsAnswer sample_question false 5 0 none (some 1)
