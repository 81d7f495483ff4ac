-- ===== src/Alerts/Deduplication.antt =====
-- At most one incident with a firing alert for each fingerprint.
use fault_warden.Base.{
  ℕ, suc, some_unique, ◌≡◌, ◌≤◌, refl, sym, subst, Bool, true, false, Option, none, some, List, ◌∷◌,
  arith, ◌==◌, ◌&&◌, if◌then◌else◌, find, count_if, In, String, str_eq, eq_iff, Distinct,
  Distinct-find,
}
use fault_warden.Investigation.{detected, resolved}
use fault_warden.Alerts.{
  AlertSummary, IncidentRow, AlertStore, matches_active, matches_firing, column_is,
  find_active_by_fingerprint, find_firing_by_fingerprint, update_incident, fire, resolve_alert,
  new_incident, handle_firing_alert, handle_resolved_alert, process_alertmanager_webhook,
  summary_of, enqueue,
}
use fault_warden.Schemas.Alert.{AlertmanagerPayload, is_resolved, primary_fingerprint}
use fault_warden.Alerts.Updates.{IsDeduplicated, latest-none, keep-none, matching-In, changed}

pub both : (a b : Bool) → (a && b) ≡ true → (a ≡ true) × (b ≡ true)
both true b h = (refl, h)
both false b h = absurd (ground arith)

-- The incident that a firing alert updates had a firing alert before.
fired :
    (s : AlertSummary) (p : AlertmanagerPayload) (fp : String) (i : IncidentRow)
    (rows : List IncidentRow)
    → find_firing_by_fingerprint fp rows ≡ some i
    → IsDeduplicated rows
    → IsDeduplicated (update_incident i.id (fire s p) rows)
unfolding find_firing_by_fingerprint
fired s p fp i rows h inv =
    let (here, firing) = matching-In (matches_firing fp) rows i h in
    changed i.id (fire s p) rows (λ x. refl)
      (λ f x at same m. still f x (one x i rows at here same inv.0) firing m) inv
  where
    one :
        (x y : IncidentRow) (rows : List IncidentRow)
        → In x rows
        → In y rows
        → x.id ≡ y.id
        → Distinct (λ i. i.id) rows
        → x ≡ y
    one x y rows a b e d = some_unique x y _ (Distinct-find (λ i. i.id) x rows d a) (
        subst (λ k. find (λ i. i.id == k) rows ≡ some y) (sym e)
          (Distinct-find (λ i. i.id) y rows d b))

    still :
        (f : String) (x : IncidentRow)
        → x ≡ i
        → matches_firing fp i ≡ true
        → matches_firing f (fire s p x) ≡ true
        → matches_firing f x ≡ true
    still f x e firing m =
        let alert = (both (matches_active fp i) _ firing).1 in
        let at = subst (λ y. column_is y.alert_status "firing" ≡ true) (sym e) alert in
        let active : matches_active f x ≡ true = (both (matches_active f x) _ m).0 in ground arith

cleared :
    (p : AlertmanagerPayload) (id : ℕ) (rows : List IncidentRow)
    → IsDeduplicated rows
    → IsDeduplicated (update_incident id (resolve_alert p) rows)
cleared p id rows inv =
    changed id (resolve_alert p) rows (λ x. refl)
      (λ f x at same m. absurd (
        let no : str_eq "resolved" "firing" ≡ true = (both (matches_active f x) _ m).1 in
        ground arith))
      inv

inserted :
    (i : IncidentRow) (rows : List IncidentRow)
    → find (λ x. x.id == i.id) rows ≡ none
    → ((f : String) → matches_firing f i ≡ true → count_if (matches_firing f) rows ≡ 0)
    → IsDeduplicated rows
    → IsDeduplicated (i ∷ rows)
inserted i rows fresh h inv = ((fresh, inv.0), λ f. counted (matches_firing f i) (h f) (inv.1 f))
  where
    counted : (b : Bool) {n : ℕ} → (b ≡ true → n ≡ 0) → n ≤ 1 → (if b then suc n else n) ≤ 1
    counted true none_there at_most = let e = none_there refl in ground arith
    counted false none_there at_most = at_most

module _ (lower upper : String → String) (auto : Bool) (id job_id now : ℕ)
    (p : AlertmanagerPayload) where
  firing_handled :
      (store : AlertStore) (o : Option IncidentRow)
      → find_firing_by_fingerprint (primary_fingerprint p) store.incidents ≡ o
      → find (λ x. x.id == id) store.incidents ≡ none
      → IsDeduplicated store.incidents
      → IsDeduplicated (handle_firing_alert lower upper auto id job_id now p o store).0.incidents
  unfolding find_firing_by_fingerprint
  firing_handled store (some i) h fresh inv =
      fired (summary_of lower upper p) p (primary_fingerprint p) i store.incidents h inv
  firing_handled store none h fresh inv = subst IsDeduplicated (sym (enqueue_incidents auto _)) (
      inserted (new_incident lower upper id now detected "firing" p) store.incidents fresh first
        inv)
    where
      enqueue_incidents :
          (b : Bool) (s : AlertStore) → (enqueue b job_id id now s).incidents ≡ s.incidents
      enqueue_incidents true s = refl
      enqueue_incidents false s = refl

      first :
          (f : String)
          → matches_firing f (new_incident lower upper id now detected "firing" p) ≡ true
          → count_if (matches_firing f) store.incidents ≡ 0
      first f m =
          let same : str_eq (primary_fingerprint p) f ≡ true = (both _ _ (both _ _ m).0).0 in
          subst (λ g. count_if (matches_firing g) store.incidents ≡ 0)
            ((eq_iff (primary_fingerprint p) f).0 same)
            (keep-none _ store.incidents (latest-none _ h))

  resolved_handled :
      (store : AlertStore) (o : Option IncidentRow)
      → find (λ x. x.id == id) store.incidents ≡ none
      → IsDeduplicated store.incidents
      → IsDeduplicated (handle_resolved_alert lower upper id now p o store).0.incidents
  resolved_handled store (some i) fresh inv = cleared p i.id store.incidents inv
  resolved_handled store none fresh inv =
      inserted (new_incident lower upper id now resolved "resolved" p) store.incidents fresh
        (λ f m. absurd (
          let no : false ≡ true =
            (both (str_eq (primary_fingerprint p) f) false
              (both (str_eq (primary_fingerprint p) f && false) _ m).0).1 in
          ground arith))
        inv

  -- A webhook with a fresh id keeps the ids of the incidents unique, and of each fingerprint at most one active incident
  -- whose alert is firing: whatever the payload says, it never opens a second one.
  pub process_alertmanager_webhook-IsDeduplicated :
      (store : AlertStore)
      → find (λ x. x.id == id) store.incidents ≡ none
      → IsDeduplicated store.incidents
      → IsDeduplicated
          (process_alertmanager_webhook lower upper auto id job_id now p store).0.incidents
  unfolding process_alertmanager_webhook
  process_alertmanager_webhook-IsDeduplicated store fresh inv = by_status (is_resolved lower p)
    where
      by_status :
          (b : Bool)
          → IsDeduplicated
              (if b
                then handle_resolved_alert lower upper id now p
                    (find_active_by_fingerprint (primary_fingerprint p) store.incidents)
                    store
                else handle_firing_alert lower upper auto id job_id now p
                    (find_firing_by_fingerprint (primary_fingerprint p) store.incidents)
                    store).0.incidents
      by_status true =
          resolved_handled store
            (find_active_by_fingerprint (primary_fingerprint p) store.incidents) fresh inv
      by_status false =
          firing_handled store (find_firing_by_fingerprint (primary_fingerprint p) store.incidents)
            refl fresh inv
