-- ===== src/Requests/Cycle.antt =====
-- One cycle of the collector over its requests: images/dmcr/internal/garbagecollection/runner.go
-- (`runRequestCycle`, `runActiveRequestCycle` and what they call), with `pruneExpiredCompletedRequests` and
-- `markRequestsCompleted` of request_result.go and publication_guard.go. A function that returns an error
-- beside a result has the error's text in `failure`. The API server of the secrets is a parameter.
pub mod Life
pub mod Refines
pub mod Guard
use ai_models.Prelude.{
  ℕ, ◌+◌, ◌≡◌, ◌⊎◌, ◌≢◌, String, Bool, true, false, not, List, [], ◌∷◌, ◌++◌, Option, none, some,
  if◌then◌else◌, ltb, In, All,
}
use ai_models.Prelude.Int64.{Int64}
use ai_models.Publication.Handle.{Result, ok, err}
use ai_models.Requests.Options.{Options}
use ai_models.Requests.{
  Secret, TimeText, armed, requeued, finished, active_request_secrets, queued_request_secrets,
  secret_names, completed_request_expired, should_activate_garbage_collection,
}

pub data Write : Type 0 where
  written not_found : Write
  write_failed : String → Write

abbrev pub NamesDistinct : List Secret → Type 0
NamesDistinct [] = Unit {0}
NamesDistinct (s ∷ secrets) = All (λ (t : Secret). t.name ≢ s.name) secrets × NamesDistinct secrets

-- The secrets on the API server: `list` returns what is stored, each name once; an update changes one name,
-- and only where what is stored is what was read (its resource version is compared); a deletion takes one
-- name out. A request that fails may have been carried out all the same.
pub record SecretClient (S : Type 0) : Type 0 where
  pub stored : S → String → Option Secret
  pub list : S → Result (List Secret)
  pub update : S → Secret → Secret → S × Write
  pub delete_by_name : S → String → S × Write
  pub list-stored :
      (s : S) (xs : List Secret) (x : Secret) → list s ≡ ok xs → In x xs → stored s x.name ≡ some x
  pub list-NamesDistinct : (s : S) (xs : List Secret) → list s ≡ ok xs → NamesDistinct xs
  pub update-stored :
      (s : S) (old new : Secret) (n : String)
      → (stored (update s old new).0 n ≡ stored s n)
        ⊎ ((stored s n ≡ some old) × (stored (update s old new).0 n ≡ some new))
  pub delete_by_name-stored :
      (s : S) (name n : String)
      → (stored (delete_by_name s name).0 n ≡ stored s n)
        ⊎ ((n ≡ name) × (stored (delete_by_name s name).0 n ≡ none))

-- The phases of a pod that count as active, and the others.
pub data PodPhase : Type 0 where
  pod_pending pod_running pod_unknown pod_ended : PodPhase

abbrev pub is_active_pod : PodPhase → Bool
is_active_pod pod_ended = false
is_active_pod _ = true

pub active_publication_pod_count : List PodPhase → ℕ
active_publication_pod_count [] = 0
active_publication_pod_count (p ∷ pods) =
    active_publication_pod_count pods + (if is_active_pod p then 1 else 0)

pub garbage_collection_deferral : Result (List PodPhase) → Result ℕ
unfolding active_publication_pod_count
garbage_collection_deferral (err e) = err e
garbage_collection_deferral (ok pods) = ok (active_publication_pod_count pods)

-- What `activateMaintenanceGate` returns; without a gate there is nothing to release.
pub data Gate : Type 0 where
  no_gate opened quorum_not_ready : Gate
  gate_failed : String → Gate

pub data Event : Type 0 where
  gate_opened cleaned gate_closed : Event

-- What a cycle asks of the rest of the program, by its answers: the pods' list, the policy, the gate, the
-- cleanup and the encoding of its result for the requests of these names. The times are its clock's readings.
pub record Surroundings : Type 0 where
  pub pods : Result (List PodPhase)
  pub policy_failure : Option String
  pub gate : Gate
  pub cleanup_failure : Option String
  pub payload : List String → Result String
  pub prune_at : ℕ
  pub decide_at : ℕ
  pub write_at : ℕ

-- A cycle's end: the server, what it did beside the server, and what it returns.
pub record Cycle (S : Type 0) : Type 0 where
  pub after : S
  pub trace : List Event
  pub handled : Bool
  pub failure : Option String

-- After a write: go on where it was made or its secret is gone, and stop at another error.
abbrev pub continued : {A : Type 0} → (String → A) → A → Write → A
continued failed rest written = rest
continued failed rest not_found = rest
continued failed rest (write_failed e) = failed e

-- A secret that is kept goes before the others.
abbrev pub with_kept : {S : Type 0} → Secret → S × Result (List Secret) → S × Result (List Secret)
with_kept x (s, err e) = (s, err e)
with_kept x (s, ok ys) = (s, ok (x ∷ ys))

module _ {S : Type 0} (client : SecretClient S) (times : TimeText) where
  open client use {list, update, delete_by_name}

  -- The loop of `armQueuedRequests`, `requeueActiveRequests` and `markRequestsCompleted`.
  unfoldable pub update_each : (Secret → Secret) → S → List Secret → S × Option String
  update_each f s [] = (s, none)
  update_each f s (x ∷ secrets) =
      let (after, w) = update s x (f x) in
      let rest = update_each f after secrets in continued (λ e. (after, some e)) rest w

  pub arm_queued_requests : S → List Secret → ℕ → S × Option String
  arm_queued_requests s secrets at = update_each (armed times at) s secrets

  pub requeue_active_requests : S → List Secret → ℕ → S × Option String
  requeue_active_requests s secrets at = update_each (requeued times at) s secrets

  pub mark_requests_completed : S → List Secret → Result String → ℕ → S × Option String
  mark_requests_completed s secrets (err e) at = (s, some e)
  mark_requests_completed s secrets (ok payload) at =
      update_each (finished times at payload) s secrets

  unfoldable pub prune_expired_completed_requests :
      S → List Secret → ℕ → Int64 → S × Result (List Secret)
  prune_expired_completed_requests s [] now ttl = (s, ok [])
  prune_expired_completed_requests s (x ∷ secrets) now ttl =
      let kept = prune_expired_completed_requests s secrets now ttl in
      let (after, w) = delete_by_name s x.name in
      let rest = prune_expired_completed_requests after secrets now ttl in
      if not (completed_request_expired times x now ttl)
      then with_kept x kept
      else continued (λ e. (after, err e)) rest w

  abbrev pub stop : S → Bool → Option String → Cycle S
  stop s handled failure = record { after = s; trace = []; handled = handled; failure = failure }

  -- The part of `runActiveRequestCycle` under the gate, which is closed at its end.
  pub clean_up : Option String → Surroundings → S → List Secret → List Event → List Event → Cycle S
  unfolding mark_requests_completed
  clean_up (some e) env s actives before after = record {
    after = s;
    trace = before ++ after;
    handled = true;
    failure = some e;
  }
  clean_up none env s actives before after =
      let (end, failure) =
        mark_requests_completed s actives (env.payload (secret_names actives)) env.write_at in
      record { after = end; trace = before ++ cleaned ∷ after; handled = true; failure = failure }

  pub under_gate : Gate → Surroundings → S → List Secret → Cycle S
  unfolding clean_up
  under_gate no_gate env s actives = clean_up env.cleanup_failure env s actives [] []
  under_gate opened env s actives =
      clean_up env.cleanup_failure env s actives (gate_opened ∷ []) (gate_closed ∷ [])
  under_gate quorum_not_ready env s actives = stop s false none
  under_gate (gate_failed e) env s actives = stop s true (some e)

  abbrev pub defer_active : S × Option String → Cycle S
  defer_active (after, some e) = stop after true (some e)
  defer_active (after, none) = stop after false none

  pub run_unless_deferred : Result ℕ → Surroundings → S → List Secret → Cycle S
  unfolding requeue_active_requests under_gate
  run_unless_deferred (err e) env s actives = stop s true (some e)
  run_unless_deferred (ok pods) env s actives =
      if ltb 0 pods
      then defer_active (requeue_active_requests s actives env.write_at)
      else under_gate env.gate env s actives

  pub run_active_request_cycle : Option String → Surroundings → S → List Secret → Cycle S
  unfolding run_unless_deferred garbage_collection_deferral
  run_active_request_cycle (some e) env s actives = stop s true (some e)
  run_active_request_cycle none env s actives =
      run_unless_deferred (garbage_collection_deferral env.pods) env s actives

  -- The part of `runRequestCycle` for queued requests that are due.
  pub arm_unless_deferred : Result ℕ → Surroundings → S → List Secret → Cycle S
  unfolding arm_queued_requests
  arm_unless_deferred (err e) env s queueds = stop s false (some e)
  arm_unless_deferred (ok pods) env s queueds =
      if ltb 0 pods
      then stop s false none
      else (let (after, failure) = arm_queued_requests s queueds env.write_at in
          stop after true failure)

  pub run_queued : Surroundings → Options → S → List Secret → Cycle S
  unfolding arm_unless_deferred garbage_collection_deferral
  run_queued env options s queueds =
      if not
        (should_activate_garbage_collection times queueds env.decide_at options.activation_delay)
      then stop s false none
      else arm_unless_deferred (garbage_collection_deferral env.pods) env s queueds

  pub choose_cycle : Surroundings → Options → S → List Secret → List Secret → Cycle S
  unfolding run_active_request_cycle run_queued
  choose_cycle env options s (x ∷ actives) queueds =
      run_active_request_cycle env.policy_failure env s (x ∷ actives)
  choose_cycle env options s [] [] = stop s false none
  choose_cycle env options s [] (x ∷ queueds) = run_queued env options s (x ∷ queueds)

  pub cycle_pruned : Surroundings → Options → S × Result (List Secret) → Cycle S
  unfolding choose_cycle
  cycle_pruned env options (s, err e) = stop s false (some e)
  cycle_pruned env options (s, ok xs) =
      choose_cycle env options s (active_request_secrets xs) (queued_request_secrets xs)

  pub cycle_listed : Surroundings → Options → S → Result (List Secret) → Cycle S
  unfolding cycle_pruned prune_expired_completed_requests
  cycle_listed env options s (err e) = stop s false (some e)
  cycle_listed env options s (ok xs) =
      cycle_pruned env options
        (prune_expired_completed_requests s xs env.prune_at options.completed_request_ttl)

  unfoldable pub run_request_cycle : Surroundings → Options → S → Cycle S
  unfolding cycle_listed
  run_request_cycle env options s = cycle_listed env options s (list s)
