-- ===== src/Requests/Examples/Runs.antt =====
-- The theorems about the requests at concrete servers.
use ai_models.Prelude.{◌+◌, ◌≡◌, refl, false, [], ◌∷◌, none, some, arith}
use ai_models.Prelude.Text.{trim_space}
use ai_models.Publication.Handle.{ok}
use ai_models.Requests.{
  Secret, classify_request, completed, request_label_key, request_queued_at_annotation_key,
  switch_annotation_key, has_pending_request, completed_request_expired, request_secrets_by_state,
  finished,
}
use ai_models.Prelude.Assoc.{lookup, insert, remove}
use ai_models.Requests.Options.{Options}
use ai_models.Requests.Cycle.{
  Surroundings, opened, pod_ended, run_request_cycle, prune_expired_completed_requests, update_each,
}
use ai_models.Requests.Cycle.Life.{Life, state_of}
use ai_models.Requests.Cycle.Refines.{run_request_cycle-Life}
use ai_models.Requests.Cycle.Guard.{IsGated, run_request_cycle-IsGated}
use ai_models.Requests.Schedule.{Planner, due, mark_triggered, maybe_enqueue_scheduled_request}
use ai_models.Requests.Schedule.Times.{IsFirstAfter, mark_triggered-IsFirstAfter}
use ai_models.Requests.Schedule.Enqueue.{IsPlanned, maybe_enqueue_scheduled_request-IsPlanned}
use ai_models.Requests.Examples.Server.{server, schedule_server, marked_times}

abbrev armed_request : Secret
armed_request = record {
  name = "gc";
  labels = (request_label_key, "true") ∷ [];
  annotations = (switch_annotation_key, "|||") ∷ (request_queued_at_annotation_key, "|") ∷ [];
  data_fields = [];
}

abbrev answers : Surroundings
answers = record {
  pods = ok (pod_ended ∷ []);
  policy_failure = none;
  gate = opened;
  cleanup_failure = none;
  payload = λ names. ok "{}";
  prune_at = 10;
  decide_at = 10;
  write_at = 11;
}

abbrev empty_options : Options
empty_options = record {
  request_namespace = "d8-ai-models";
  request_label_selector = "";
  registry_binary = "";
  config_path = " ";
  gc_timeout = 0;
  rescan_interval = 0;
  activation_delay = 0;
  completed_request_ttl = 0;
  schedule = "";
  executor_lease_name = "";
  executor_identity = "";
  executor_lease_duration = 0;
  executor_lease_renew_interval = 0;
  maintenance_gate_name = "";
  maintenance_gate_duration = 0;
  maintenance_gate_delay = 0;
  maintenance_gate_file = "";
  maintenance_gate_mirror_interval = 0;
  maintenance_gate_ack_quorum = 0;
  maintenance_gate_ack_ttl = 0;
}

-- The armed request is completed under the gate.
armed_is_completed :
    state_of
      ((run_request_cycle server marked_times answers empty_options (some armed_request)).after)
    ≡ some completed
unfolding run_request_cycle prune_expired_completed_requests completed_request_expired
    classify_request request_secrets_by_state update_each finished lookup insert remove trim_space
armed_is_completed = refl

run_request_cycle-Life_example : Life answers (state_of (server.stored (some armed_request) "gc")) (
    state_of (
      server.stored
        (run_request_cycle server marked_times answers empty_options (some armed_request)).after
        "gc"))
run_request_cycle-Life_example =
    run_request_cycle-Life server marked_times answers empty_options (some armed_request) "gc"

run_request_cycle-IsGated_example :
    IsGated server marked_times answers
      (run_request_cycle server marked_times answers empty_options (some armed_request)).trace
run_request_cycle-IsGated_example =
    run_request_cycle-IsGated server marked_times answers empty_options (some armed_request)

-- A schedule with a time every ten nanoseconds.
abbrev planner : Planner
planner = record {
  schedule = λ t. t + 10;
  next = 30;
  startup_backfill_checked = false;
  startup_backfill_retry_after = 0;
}

mark_triggered-IsFirstAfter_example :
    IsFirstAfter planner.schedule planner.next 57 (mark_triggered planner 57).next
mark_triggered-IsFirstAfter_example = mark_triggered-IsFirstAfter planner 57 (λ t. omega arith)

maybe_enqueue_scheduled_request-IsPlanned_example :
    IsPlanned server schedule_server marked_times
      (maybe_enqueue_scheduled_request server schedule_server marked_times planner none 30).after
    × (due
          (maybe_enqueue_scheduled_request server schedule_server marked_times planner none
            30).planner
          30
        ≡ false)
maybe_enqueue_scheduled_request-IsPlanned_example =
    maybe_enqueue_scheduled_request-IsPlanned server schedule_server marked_times planner none 30 []
      (λ t. omega arith) (unfold due in refl) refl (unfold has_pending_request in refl)
      (unfold maybe_enqueue_scheduled_request in unfold has_pending_request in unfold due in refl)
