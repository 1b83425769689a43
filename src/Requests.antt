-- ===== src/Requests.antt =====
-- The requests for garbage collection: images/dmcr/internal/garbagecollection/request_state.go and the
-- helpers of request_result.go and runner.go on one secret. A secret has the fields that the program reads
-- and writes; its data is text. A nil map and an empty one are the same list. `time.Parse` and
-- `Time.Format` with the layout RFC3339Nano are parameters.
pub mod Options
pub mod Cycle
pub mod Schedule
pub mod Transitions
mod Examples
use ai_models.Prelude.{
  ℕ, ◌+◌, ◌-◌, ◌≡◌, String, Bool, true, false, not, ◌&&◌, ◌||◌, List, [], ◌∷◌, Option, none, some,
  if◌then◌else◌, keep, map, leb, ltb, length, min,
}
use ai_models.Prelude.Text.{is_empty, trim_space, str_eq}
use ai_models.Prelude.Int64.{Int64, lt64, le64, half}
use ai_models.Prelude.Assoc.{lookup, insert, remove, read}

pub record Secret : Type 0 where
  pub name : String
  pub labels : List (String × String)
  pub annotations : List (String × String)
  pub data_fields : List (String × String)

abbrev pub request_label_key : String
request_label_key = "ai.deckhouse.io/dmcr-gc-request"

abbrev pub request_queued_at_annotation_key : String
request_queued_at_annotation_key = "ai.deckhouse.io/dmcr-gc-requested-at"

abbrev pub switch_annotation_key : String
switch_annotation_key = "ai.deckhouse.io/dmcr-gc-switch"

abbrev pub phase_annotation_key : String
phase_annotation_key = "ai.deckhouse.io/dmcr-gc-phase"

abbrev pub completed_at_annotation_key : String
completed_at_annotation_key = "ai.deckhouse.io/dmcr-gc-completed-at"

abbrev pub result_data_key : String
result_data_key = "result.json"

abbrev pub direct_upload_token_data_key : String
direct_upload_token_data_key = "direct-upload-session-token"

pub data RequestState : Type 0 where
  ignored queued active completed : RequestState

-- The tests of `classifyRequest`, in its order: the label, the phase, the switch and the time.
abbrev pub state_by : Bool → Bool → Bool → Bool → RequestState
state_by labelled done switched timed =
    if not labelled
    then ignored
    else if done
    then completed
    else if switched
    then active
    else if timed
    then queued
    else ignored

unfoldable pub classify_request : Secret → RequestState
classify_request s =
    state_by (str_eq (read request_label_key s.labels) "true")
      (str_eq (trim_space (read phase_annotation_key s.annotations)) "done")
      (not (is_empty (trim_space (read switch_annotation_key s.annotations))))
      (not (is_empty (trim_space (read request_queued_at_annotation_key s.annotations))))

abbrev pub is_state : RequestState → RequestState → Bool
is_state ignored ignored = true
is_state queued queued = true
is_state active active = true
is_state completed completed = true
is_state _ _ = false

abbrev pub is_completed_request : Secret → Bool
is_completed_request s = is_state (classify_request s) completed

abbrev pub is_queued_request : Secret → Bool
is_queued_request s = is_state (classify_request s) queued

unfoldable pub has_pending_request : List Secret → Bool
has_pending_request [] = false
has_pending_request (s ∷ secrets) =
    is_state (classify_request s) queued
    || is_state (classify_request s) active
    || has_pending_request secrets

unfoldable pub request_secrets_by_state : List Secret → RequestState → List Secret
request_secrets_by_state secrets state = keep (λ s. is_state (classify_request s) state) secrets

abbrev pub queued_request_secrets : List Secret → List Secret
queued_request_secrets secrets = request_secrets_by_state secrets queued

abbrev pub active_request_secrets : List Secret → List Secret
active_request_secrets secrets = request_secrets_by_state secrets active

abbrev pub secret_names : List Secret → List String
secret_names secrets = map (λ (s : Secret). s.name) secrets

-- `time.RFC3339Nano`: a time that was printed is read back, and its text is not blank.
pub record TimeText : Type 0 where
  pub parse : String → Option ℕ
  pub format : ℕ → String
  pub parse-format : (t : ℕ) → parse (format t) ≡ some t
  pub format_filled : (t : ℕ) → is_empty (trim_space (format t)) ≡ false

module _ (times : TimeText) where
  open times use {parse, format}

  -- `!now.Before(completedAt.Add(ttl))`; a duration below 0 is taken off.
  abbrev pub ended : Option ℕ → ℕ → Int64 → Bool
  ended none now ttl = true
  ended (some t) now ttl =
      if lt64 ttl 0 then leb (t + ttl) (now + half + half) else leb (t + ttl) now

  unfoldable pub completed_request_expired : Secret → ℕ → Int64 → Bool
  completed_request_expired s now ttl =
      if not (is_completed_request s)
      then false
      else ended (parse (read completed_at_annotation_key s.annotations)) now ttl

  -- `now.Sub(requestedAt) >= activationDelay`, where `Sub` saturates.
  abbrev pub due : Option ℕ → ℕ → Int64 → Bool
  due none now delay = true
  due (some t) now delay =
      if ltb now t
      then le64 delay (half + half - min (t - now) half)
      else le64 delay (min (now - t) (half - 1))

  unfoldable pub should_activate_garbage_collection : List Secret → ℕ → Int64 → Bool
  should_activate_garbage_collection [] now delay = false
  should_activate_garbage_collection (s ∷ secrets) now delay =
      let rest = should_activate_garbage_collection secrets now delay in
      if not (is_queued_request s)
      then rest
      else if due (parse (read request_queued_at_annotation_key s.annotations)) now delay
      then true
      else rest

  -- What `armQueuedRequests` writes to one secret.
  unfoldable pub armed : ℕ → Secret → Secret
  armed at s = record s {
    annotations =
        insert phase_annotation_key "armed"
          (insert switch_annotation_key (format at) s.annotations);
  }

  -- What `requeueActiveRequests` writes to one secret.
  unfoldable pub requeued : ℕ → Secret → Secret
  requeued at s = record s {
    annotations = insert phase_annotation_key "queued" (
        insert request_queued_at_annotation_key (format at)
          (remove switch_annotation_key s.annotations));
  }

  -- What `markRequestsCompleted` writes to one secret.
  unfoldable pub finished : ℕ → String → Secret → Secret
  finished at payload s = record s {
    annotations = remove switch_annotation_key (
        insert completed_at_annotation_key (format at)
          (insert phase_annotation_key "done" s.annotations));
    data_fields =
        insert result_data_key payload (remove direct_upload_token_data_key s.data_fields);
  }

  -- What `ensureScheduledRequest` writes over a secret that exists.
  unfoldable pub rescheduled : ℕ → Secret → Secret
  rescheduled at s = record s {
    labels = insert request_label_key "true" s.labels;
    annotations = remove switch_annotation_key (
        insert phase_annotation_key "queued"
          (insert request_queued_at_annotation_key (format at) s.annotations));
  }
