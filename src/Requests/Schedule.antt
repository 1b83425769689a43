-- ===== src/Requests/Schedule.antt =====
-- The planned requests and the loop's step: images/dmcr/internal/garbagecollection/schedule.go, with
-- `runLoopStep` and the waiting time of `RunLoop` of runner.go. The cron library's parser and a schedule's
-- `Next` are parameters, as is the check for stale prefixes. A time is its nanoseconds, and the zero time
-- is 0; a planner that is missing is `none`.
pub mod Times
pub mod Enqueue
use ai_models.Prelude.{
  ℕ, zero, suc, ◌+◌, ◌-◌, ◌*◌, ◌≡◌, ◌⊎◌, String, Bool, true, false, not, ◌&&◌, List, [], ◌∷◌,
  Option, none, some, if◌then◌else◌, leb, ltb, ◌==◌, min,
}
use ai_models.Prelude.Text.{is_empty, trim_space}
use ai_models.Prelude.Int64.{Int64, lt64, half}
use ai_models.Publication.Handle.{Result, ok, err}
use ai_models.Requests.{
  Secret, TimeText, rescheduled, has_pending_request, request_label_key,
  request_queued_at_annotation_key, phase_annotation_key,
}
use ai_models.Requests.Options.{Options, minute}
use ai_models.Requests.Cycle.{
  SecretClient, Write, written, not_found, write_failed, Cycle, Surroundings, run_request_cycle,
  stop,
}

abbrev pub scheduled_request_name : String
scheduled_request_name = "dmcr-gc-scheduled"

pub record Planner : Type 0 where
  pub schedule : ℕ → ℕ
  pub next : ℕ
  pub startup_backfill_checked : Bool
  pub startup_backfill_retry_after : ℕ

pub new_schedule_planner : (String → Result (ℕ → ℕ)) → String → ℕ → Result (Option Planner)
new_schedule_planner parse spec now =
    if is_empty (trim_space spec) then ok none else elim (parse (trim_space spec)) [
      | err e ↦ err e
      | ok schedule ↦ ok (
          some record {
            schedule = schedule;
            next = schedule now;
            startup_backfill_checked = false;
            startup_backfill_retry_after = 0;
          })
    ]

unfoldable pub due : Planner → ℕ → Bool
due p now = not (p.next == 0) && leb p.next now

-- The loop of `MarkTriggered`, with its rounds as fuel.
unfoldable pub triggered : ℕ → (ℕ → ℕ) → ℕ → ℕ → ℕ
triggered zero schedule next now = next
triggered (suc rounds) schedule next now =
    let later = triggered rounds schedule (schedule next) now in
    if leb next now then later else next

-- A schedule that goes forward at each round is past `now` after so many rounds.
unfoldable pub mark_triggered : Planner → ℕ → Planner
unfolding triggered
mark_triggered p now = record p { next = triggered (now + 1 - p.next) p.schedule p.next now }

-- A duration of an int64, at which `Sub` saturates.
unfoldable pub wait_duration : Planner → ℕ → Int64
wait_duration p now =
    if p.next == 0 then 0 else if leb p.next now then 0 else min (p.next - now) (half - 1)

abbrev pub schedule_wait : Option Planner → ℕ → Int64
schedule_wait none now = 0
schedule_wait (some p) now = wait_duration p now

abbrev pub shorter : Int64 → Int64 → Int64
shorter candidate wait = if lt64 0 candidate && lt64 candidate wait then candidate else wait

-- The time that `RunLoop` waits after a step that handled nothing.
unfoldable pub loop_wait : Options → Option Planner → ℕ → Int64
unfolding wait_duration
loop_wait options planner now =
    shorter options.maintenance_gate_mirror_interval
      (shorter (schedule_wait planner now) options.rescan_interval)

pub data Lookup : Type 0 where
  found : Secret → Lookup
  missing : Lookup
  lookup_failed : String → Lookup

-- What else the schedule asks of the API server: a secret by its name, and its creation, which is
-- refused where there is one. A write that succeeds is made.
pub record ScheduleClient {S : Type 0} (client : SecretClient S) : Type 0 where
  pub get : S → String → Lookup
  pub create : S → Secret → S × Option String
  pub get-stored :
      (s : S) (n : String) (x : Secret) → get s n ≡ found x → client.stored s n ≡ some x
  pub create-stored :
      (s : S) (x : Secret) (n : String)
      → (client.stored (create s x).0 n ≡ client.stored s n)
        ⊎ ((n ≡ x.name) × (client.stored s n ≡ none) × (client.stored (create s x).0 n ≡ some x))
  pub created :
      (s : S) (x : Secret) → (create s x).1 ≡ none → client.stored (create s x).0 x.name ≡ some x
  pub updated :
      (s : S) (old new : Secret)
      → (client.update s old new).1 ≡ written
      → client.stored (client.update s old new).0 new.name ≡ some new
  pub stored_name : (s : S) (n : String) (x : Secret) → client.stored s n ≡ some x → x.name ≡ n

abbrev pub failure_of : Write → Option String
failure_of written = none
failure_of not_found = some "not found"
failure_of (write_failed e) = some e

-- What a function over the planner and the server leaves, and the error that it returns.
pub record Planned (S : Type 0) : Type 0 where
  pub planner : Planner
  pub after : S
  pub failure : Option String

module _ {S : Type 0} (client : SecretClient S) (schedule : ScheduleClient client)
    (times : TimeText) where
  open client use {list, update}
  open schedule use {get, create}
  open times use {format}

  -- The secret that `ensureScheduledRequest` creates.
  unfoldable pub scheduled_request : ℕ → Secret
  scheduled_request at = record {
    name = scheduled_request_name;
    labels = (request_label_key, "true") ∷ [];
    annotations =
        (request_queued_at_annotation_key, format at) ∷ (phase_annotation_key, "queued") ∷ [];
    data_fields = [];
  }

  unfoldable pub ensure_found : S → ℕ → Lookup → S × Option String
  unfolding scheduled_request
  ensure_found s at missing = create s (scheduled_request at)
  ensure_found s at (lookup_failed e) = (s, some e)
  ensure_found s at (found x) =
      let (after, w) = update s x (rescheduled times at x) in (after, failure_of w)

  unfoldable pub ensure_scheduled_request : S → ℕ → S × Option String
  unfolding ensure_found
  ensure_scheduled_request s at = ensure_found s at (get s scheduled_request_name)

  abbrev pub unplanned : Planner → S → Planned S
  unplanned p s = record { planner = p; after = s; failure = none }

  abbrev pub ensured : Planner → S × Option String → Planned S
  ensured p (s, e) = record { planner = p; after = s; failure = e }

  -- `maybeEnqueueScheduledRequest`, where the planner is due, by the answer to the list.
  unfoldable pub enqueue_due : Planner → S → ℕ → Result (List Secret) → Planned S
  unfolding ensure_scheduled_request mark_triggered
  enqueue_due p s now (err e) = record { planner = p; after = s; failure = some e }
  enqueue_due p s now (ok xs) =
      if has_pending_request xs
      then unplanned (mark_triggered p now) s
      else ensured (mark_triggered p now) (ensure_scheduled_request s now)

  unfoldable pub maybe_enqueue_scheduled_request : Planner → S → ℕ → Planned S
  unfolding enqueue_due due
  maybe_enqueue_scheduled_request p s now =
      if not (due p now) then unplanned p s else enqueue_due p s now (list s)

  abbrev pub checked : Planner → Planner
  checked p = record p { startup_backfill_checked = true }

  -- The end of `maybeEnqueueStartupBackfillRequest`, by whether there are stale prefixes.
  unfoldable pub backfill_checked : Planner → S → ℕ → Result Bool → Planned S
  unfolding ensure_scheduled_request
  backfill_checked p s now (err e) =
      unplanned (record p { startup_backfill_retry_after = now + minute }) s
  backfill_checked p s now (ok false) = unplanned (checked p) s
  backfill_checked p s now (ok true) = ensured (checked p) (ensure_scheduled_request s now)

  unfoldable pub backfill_listed : Planner → S → ℕ → Result Bool → Result (List Secret) → Planned S
  unfolding backfill_checked
  backfill_listed p s now stale (err e) = record { planner = p; after = s; failure = some e }
  backfill_listed p s now stale (ok xs) =
      if has_pending_request xs then unplanned (checked p) s else backfill_checked p s now stale

  unfoldable pub maybe_enqueue_startup_backfill_request : Planner → S → ℕ → Result Bool → Planned S
  unfolding backfill_listed
  maybe_enqueue_startup_backfill_request p s now stale =
      if p.startup_backfill_checked
      then unplanned p s
      else if ltb now p.startup_backfill_retry_after
      then unplanned p s
      else backfill_listed p s now stale (list s)

  -- `runLoopStep` with a planner; each step ends at an error, and otherwise hands its state on.
  unfoldable pub step_cycle : Surroundings → Options → Planned S → Planner × Cycle S
  unfolding run_request_cycle
  step_cycle env options r = elim r.failure [
    | some e ↦ (r.planner, stop client times r.after false (some e))
    | none ↦ (r.planner, run_request_cycle client times env options r.after)
  ]

  unfoldable pub run_loop_step :
      Surroundings → Options → Result Bool → ℕ → ℕ → Planner → S → Planner × Cycle S
  unfolding step_cycle maybe_enqueue_startup_backfill_request maybe_enqueue_scheduled_request
  run_loop_step env options stale first second p s =
      let r = maybe_enqueue_startup_backfill_request p s first stale in
      elim r.failure [
        | some e ↦ (r.planner, stop client times r.after false (some e))
        | none ↦ step_cycle env options (maybe_enqueue_scheduled_request r.planner r.after second)
      ]
