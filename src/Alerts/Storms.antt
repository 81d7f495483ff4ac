-- ===== src/Alerts/Storms.antt =====
-- A firing alert that is reported again.
use fault_warden.Base.{
  ℕ, suc, ◌≡◌, refl, sym, ap, ◌∙◌, subst, Bool, true, false, Option, none, some, List, [], ◌∷◌, map,
  length, ◌≢◌, arith, ◌==◌, ◌&&◌, if◌then◌else◌, keep, In, String, str_eq, eq_iff, inl, inr,
  Option-cases,
}
use fault_warden.Investigation.{detected}
use fault_warden.Jobs.{new_job}
use fault_warden.Alerts.{
  created, AlertSummary, IncidentRow, AlertStore, AlertIngestResponse, updated, matches_active,
  matches_firing, find_firing_by_fingerprint, update_incident, fire, new_incident,
  handle_firing_alert, process_alertmanager_webhook, summary_of, enqueue,
}
use fault_warden.Schemas.Alert.{AlertmanagerPayload, is_resolved, primary_fingerprint}
use fault_warden.Alerts.Updates.{latest-none, matching-In}
use fault_warden.Alerts.Deduplication.{both}

In-keep :
    (p : IncidentRow → Bool) (xs : List IncidentRow) (a : IncidentRow)
    → In a xs
    → p a ≡ true
    → In a (keep p xs)
In-keep p [] a h e = h
In-keep p (x ∷ xs) a (inl h) e = head (p x) (ap p (sym h) ∙ e)
  where
    head : (b : Bool) → b ≡ true → In a (if b then x ∷ keep p xs else keep p xs)
    head true t = inl h
    head false t = absurd (ground arith)
In-keep p (x ∷ xs) a (inr h) e = tail (p x) (In-keep p xs a h e)
  where
    tail : (b : Bool) → In a (keep p xs) → In a (if b then x ∷ keep p xs else keep p xs)
    tail true i = inr i
    tail false i = i

In-map :
    (g : IncidentRow → IncidentRow) (xs : List IncidentRow) (a : IncidentRow)
    → In a xs
    → In (g a) (map g xs)
In-map g [] a h = absurd h.1
In-map g (x ∷ xs) a (inl h) = inl (ap g h)
In-map g (x ∷ xs) a (inr h) = inr (In-map g xs a h)

-- A firing incident of this fingerprint is found.
abbrev IsFound : String → List IncidentRow → Type 0
IsFound fp rows = (i : IncidentRow) × (find_firing_by_fingerprint fp rows ≡ some i)

found :
    (fp : String) (rows : List IncidentRow) (i : IncidentRow)
    → In i rows
    → matches_firing fp i ≡ true
    → IsFound fp rows
unfolding find_firing_by_fingerprint
found fp rows i here e = elim (Option-cases (find_firing_by_fingerprint fp rows)) [
  | inl missing ↦
      absurd (subst (In i) (latest-none _ missing) (In-keep (matches_firing fp) rows i here e)).1
  | inr there ↦ there
]

-- The alert that an update sets to firing is found.
fire-found :
    (s : AlertSummary) (p : AlertmanagerPayload) (fp : String) (rows : List IncidentRow)
    (i : IncidentRow)
    → find_firing_by_fingerprint fp rows ≡ some i
    → IsFound fp (update_incident i.id (fire s p) rows)
unfolding find_firing_by_fingerprint update_incident
fire-found s p fp rows i h =
    let (here, firing) = matching-In (matches_firing fp) rows i h in
    let change : IncidentRow → IncidentRow = λ x. if x.id == i.id then fire s p x else x in
    let own : (i.id == i.id) ≡ true = ground arith in
    found fp (map change rows) (fire s p i)
      (subst (λ x. In x (map change rows)) (chosen (i.id == i.id) own) (In-map change rows i here))
      (still (both (matches_active fp i) _ firing).0)
  where
    chosen : (b : Bool) → b ≡ true → (if b then fire s p i else i) ≡ fire s p i
    chosen true e = refl
    chosen false e = absurd (ground arith)

    still : matches_active fp i ≡ true → matches_firing fp (fire s p i) ≡ true
    still active = ground arith

length-update :
    (id : ℕ) (g : IncidentRow → IncidentRow) (rows : List IncidentRow)
    → length (update_incident id g rows) ≡ length rows
unfolding update_incident
length-update id g [] = refl
length-update id g (x ∷ xs) = ap suc (length-update id g xs)

-- Nothing was opened: the tables have the same size, the queue and the tasks are the same, and the
-- answer says updated.
abbrev pub OpensNothing : AlertStore → AlertStore × AlertIngestResponse → Type 0
OpensNothing before (after, response) =
    (length after.incidents ≡ length before.incidents)
    × (after.jobs ≡ before.jobs)
    × (after.background_tasks ≡ before.background_tasks)
    × (response.status ≡ updated)

-- A new incident was opened, with its job and its task if it is to be investigated.
abbrev pub Opens :
    (auto : Bool) (id job_id now : ℕ) → AlertStore → AlertStore × AlertIngestResponse → Type 0
Opens auto id job_id now before (after, response) =
    (length after.incidents ≡ suc (length before.incidents))
    × (response.status ≡ created)
    × (response.incident_id ≡ id)
    × (after.jobs ≡ (if auto then new_job job_id id now 3 ∷ before.jobs else before.jobs))
    × (after.background_tasks
        ≡ (if auto then id ∷ before.background_tasks else before.background_tasks))

module _ (lower upper : String → String) where
  -- A webhook call with its fresh values.
  abbrev pub webhook :
      (auto : Bool) (id job_id now : ℕ)
      → AlertmanagerPayload
      → AlertStore
      → AlertStore × AlertIngestResponse
  webhook = process_alertmanager_webhook lower upper

  module _ (auto : Bool) (id job_id now : ℕ) (p : AlertmanagerPayload) (store : AlertStore) where
    firing_only :
        (b : Bool) (x y : AlertStore × AlertIngestResponse) → b ≡ false → (if b then x else y) ≡ y
    firing_only true x y e = absurd (ground arith)
    firing_only false x y e = refl

    webhook-firing :
        is_resolved lower p ≡ false
        → webhook auto id job_id now p store
          ≡ handle_firing_alert lower upper auto id job_id now p
              (find_firing_by_fingerprint (primary_fingerprint p) store.incidents)
              store
    unfolding process_alertmanager_webhook
    webhook-firing fires = firing_only (is_resolved lower p) _ _ fires

    found-OpensNothing :
        (o : Option IncidentRow) (i : IncidentRow)
        → o ≡ some i
        → OpensNothing store (handle_firing_alert lower upper auto id job_id now p o store)
    found-OpensNothing none i e = absurd (ground arith)
    found-OpensNothing (some j) i e =
        (length-update j.id (fire (summary_of lower upper p) p) store.incidents, refl, refl, refl)

    none-Opens :
        (b : Bool)
        → Opens b id job_id now store (handle_firing_alert lower upper b id job_id now p none store)
    none-Opens true = (refl, refl, refl, refl, refl)
    none-Opens false = (refl, refl, refl, refl, refl)

    pub firing_webhook-Opens :
        is_resolved lower p ≡ false
        → (find_firing_by_fingerprint (primary_fingerprint p) store.incidents ≡ none
            → Opens auto id job_id now store (webhook auto id job_id now p store))
          × (find_firing_by_fingerprint (primary_fingerprint p) store.incidents ≢ none
              → OpensNothing store (webhook auto id job_id now p store))
    firing_webhook-Opens fires =
        let same = sym (webhook-firing fires) in
        (
          λ missing.
              subst (Opens auto id job_id now store) (ap handled (sym missing) ∙ same)
                (none-Opens auto),
          λ there.
              elim (Option-cases
                (find_firing_by_fingerprint (primary_fingerprint p) store.incidents)) [
                  | inl missing ↦ absurd (there missing)
                  | inr (i, e) ↦ subst (OpensNothing store) same (found-OpensNothing _ i e)
                ],
        )
      where
        handled : Option IncidentRow → AlertStore × AlertIngestResponse
        handled o = handle_firing_alert lower upper auto id job_id now p o store

    handled_found :
        (o : Option IncidentRow)
        → find_firing_by_fingerprint (primary_fingerprint p) store.incidents ≡ o
        → IsFound
            (primary_fingerprint p)
            (handle_firing_alert lower upper auto id job_id now p o store).0.incidents
    handled_found (some i) h =
        fire-found (summary_of lower upper p) p (primary_fingerprint p) store.incidents i h
    handled_found none h =
        subst (IsFound (primary_fingerprint p)) (sym (enqueue_incidents auto _)) (
          found (primary_fingerprint p) (row ∷ store.incidents) row (inl refl) (
            fires_new (str_eq (primary_fingerprint p) (primary_fingerprint p))
              ((eq_iff (primary_fingerprint p) (primary_fingerprint p)).1 refl)))
      where
        row : IncidentRow
        row = new_incident lower upper id now detected "firing" p

        fires_new : (b : Bool) → b ≡ true → ((b && true) && str_eq "firing" "firing") ≡ true
        fires_new true e = refl
        fires_new false e = absurd (ground arith)

        enqueue_incidents :
            (b : Bool) (s : AlertStore) → (enqueue b job_id id now s).incidents ≡ s.incidents
        enqueue_incidents true s = refl
        enqueue_incidents false s = refl

    webhook-found :
        is_resolved lower p ≡ false
        → IsFound (primary_fingerprint p) (webhook auto id job_id now p store).0.incidents
    webhook-found fires =
        subst (λ r. IsFound (primary_fingerprint p) r.0.incidents) (sym (webhook-firing fires))
          (handled_found (find_firing_by_fingerprint (primary_fingerprint p) store.incidents) refl)

  -- Two firing webhooks with one fingerprint, one after the other: the second opens no incident and
  -- queues no job.
  pub repeated_alert-OpensNothing :
      (auto again : Bool) (id job_id now id2 job_id2 later : ℕ) (p q : AlertmanagerPayload)
      (store : AlertStore)
      → is_resolved lower p ≡ false
      → is_resolved lower q ≡ false
      → primary_fingerprint p ≡ primary_fingerprint q
      → let first = (webhook auto id job_id now p store).0 in
        OpensNothing first (webhook again id2 job_id2 later q first)
  repeated_alert-OpensNothing auto again id job_id now id2 job_id2 later p q store fires fires_too
        same =
      let first = (webhook auto id job_id now p store).0 in
      let (i, e) =
        subst (λ fp. IsFound fp first.incidents) same
          (webhook-found auto id job_id now p store fires) in
      (firing_webhook-Opens again id2 job_id2 later q first fires_too).1
        (λ missing. absurd (ground arith))
