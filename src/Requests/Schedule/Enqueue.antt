-- ===== src/Requests/Schedule/Enqueue.antt =====
-- What the planned requests leave on the server.
use ai_models.Prelude.{
  ℕ, ◌≡◌, ◌<◌, ltb, ◌⊎◌, ◌∙◌, refl, sym, ap, subst, String, Bool, true, false, not, List, [], ◌∷◌,
  Option, none, some, if◌then◌else◌, arith, inl, inr, Bool-cases,
}
use ai_models.Prelude.Text.{trim_space}
use ai_models.Publication.Handle.{Result, ok, err}
use ai_models.Requests.{
  Secret, TimeText, queued, classify_request, rescheduled, has_pending_request,
}
use ai_models.Requests.Transitions.{rescheduled_lem}
use ai_models.Requests.Cycle.{SecretClient, Write, written, not_found, write_failed}
use ai_models.Requests.Schedule.{
  Planner, due, Lookup, found, missing, lookup_failed, ScheduleClient, failure_of, Planned,
  scheduled_request, ensure_found, ensure_scheduled_request, enqueue_due,
  maybe_enqueue_scheduled_request, backfill_checked, backfill_listed,
  maybe_enqueue_startup_backfill_request, scheduled_request_name,
}
use ai_models.Requests.Schedule.Times.{GoesOn, due-mark_triggered}

module _ {S : Type 0} (client : SecretClient S) (schedule : ScheduleClient client)
    (times : TimeText) where
  open client use {stored, list, update}
  open schedule use {get, create, get-stored, create-stored, created, updated, stored_name}
  open times use {format, format_filled}

  scheduled_request-queued :
      (at : ℕ) → classify_request (scheduled_request client schedule times at) ≡ queued
  unfolding classify_request scheduled_request ai_models.Prelude.Assoc.lookup
  scheduled_request-queued at = rw (format_filled at) (unfold trim_space in refl)

  -- The planned request is stored and queued.
  abbrev pub IsPlanned : S → Type 0
  IsPlanned s =
      (x : Secret) × (stored s scheduled_request_name ≡ some x) × (classify_request x ≡ queued)

  failure_of-written : (w : Write) → failure_of w ≡ none → w ≡ written
  failure_of-written written h = refl
  failure_of-written not_found h = absurd (cc)
  failure_of-written (write_failed e) h = absurd (cc)

  ensure_found-IsPlanned :
      (s : S) (at : ℕ) (l : Lookup)
      → get s scheduled_request_name ≡ l
      → (ensure_found client schedule times s at l).1 ≡ none
      → IsPlanned (ensure_found client schedule times s at l).0
  unfolding ensure_found scheduled_request rescheduled
  ensure_found-IsPlanned s at missing g h = (
    scheduled_request client schedule times at,
    created s (scheduled_request client schedule times at) h,
    scheduled_request-queued at,
  )
  ensure_found-IsPlanned s at (lookup_failed e) g h = absurd (cc)
  ensure_found-IsPlanned s at (found x) g h =
      let name = stored_name s scheduled_request_name x (get-stored s scheduled_request_name x g) in
      (
        rescheduled times at x,
        subst
            (λ n. stored (update s x (rescheduled times at x)).0 n ≡ some (rescheduled times at x))
            name (updated s x (rescheduled times at x) (failure_of-written _ h)),
        rescheduled_lem times at x,
      )

  ensure_scheduled_request-IsPlanned :
      (s : S) (at : ℕ)
      → (ensure_scheduled_request client schedule times s at).1 ≡ none
      → IsPlanned (ensure_scheduled_request client schedule times s at).0
  unfolding ensure_scheduled_request
  ensure_scheduled_request-IsPlanned s at h = ensure_found-IsPlanned s at _ refl h

  -- Where the schedule goes on, the planner is due and the listed requests have none that is
  -- queued or active, a call without an error leaves the scheduled request on the server in state
  -- queued, and the planner is not due again at that time.
  pub maybe_enqueue_scheduled_request-IsPlanned :
      (p : Planner) (s : S) (now : ℕ) (xs : List Secret)
      → GoesOn p.schedule
      → due p now ≡ true
      → list s ≡ ok xs
      → has_pending_request xs ≡ false
      → (maybe_enqueue_scheduled_request client schedule times p s now).failure ≡ none
      → IsPlanned (maybe_enqueue_scheduled_request client schedule times p s now).after
        × (due (maybe_enqueue_scheduled_request client schedule times p s now).planner now ≡ false)
  unfolding maybe_enqueue_scheduled_request enqueue_due
  maybe_enqueue_scheduled_request-IsPlanned p s now xs g d l n =
      rw (d, l, enqueue_due, n)
        (λ h. (ensure_scheduled_request-IsPlanned s now h, due-mark_triggered p now g))

  enqueue_due-spares :
      (p : Planner) (s : S) (now : ℕ) (r : Result (List Secret))
      → list s ≡ r
      → ((enqueue_due client schedule times p s now r).after ≡ s)
        ⊎ ((xs : List Secret) × (list s ≡ ok xs) × (has_pending_request xs ≡ false))
  unfolding enqueue_due
  enqueue_due-spares p s now (err e) l = inl refl
  enqueue_due-spares p s now (ok xs) l = elim (Bool-cases (has_pending_request xs)) [
    | inl pending ↦ rw pending (inl refl)
    | inr free ↦ inr (xs, l, free)
  ]

  -- Any call
  pub maybe_enqueue_scheduled_request-spares :
      (p : Planner) (s : S) (now : ℕ)
      → ((maybe_enqueue_scheduled_request client schedule times p s now).after ≡ s)
        ⊎ ((due p now ≡ true)
            × ((xs : List Secret) × (list s ≡ ok xs) × (has_pending_request xs ≡ false)))
  unfolding maybe_enqueue_scheduled_request
  maybe_enqueue_scheduled_request-spares p s now = elim (Bool-cases (due p now)) [
    | inr not_yet ↦ rw not_yet (inl refl)
    | inl now_due ↦ rw now_due (elim (enqueue_due-spares p s now (list s) refl) [
      | inl same ↦ inl same
      | inr free ↦ inr (refl, free)
    ])
  ]

  -- The backfill
  pub maybe_enqueue_startup_backfill_request-IsPlanned :
      (p : Planner) (s : S) (now : ℕ) (xs : List Secret)
      → p.startup_backfill_checked ≡ false
      → ltb now p.startup_backfill_retry_after ≡ false
      → list s ≡ ok xs
      → has_pending_request xs ≡ false
      → (maybe_enqueue_startup_backfill_request client schedule times p s now (ok true)).failure
        ≡ none
      → IsPlanned
          (maybe_enqueue_startup_backfill_request client schedule times p s now (ok true)).after
        × ((maybe_enqueue_startup_backfill_request client schedule times p s now
              (ok true)).planner.startup_backfill_checked
            ≡ true)
  unfolding maybe_enqueue_startup_backfill_request backfill_listed backfill_checked
  maybe_enqueue_startup_backfill_request-IsPlanned p s now xs c r l n =
      rw (c, r, l, backfill_listed, n) (λ h. (ensure_scheduled_request-IsPlanned s now h, refl))

  -- The planner's check is done, or put off with nothing written.
  abbrev pub IsSettled : S → ℕ → Planned S → Type 0
  IsSettled s now r =
      (r.planner.startup_backfill_checked ≡ true)
      ⊎ ((r.after ≡ s) × (now < r.planner.startup_backfill_retry_after))

  backfill_checked-IsSettled :
      (p : Planner) (s : S) (now : ℕ) (stale : Result Bool)
      → IsSettled s now (backfill_checked client schedule times p s now stale)
  unfolding backfill_checked
  backfill_checked-IsSettled p s now (err e) = inr (refl, omega arith)
  backfill_checked-IsSettled p s now (ok false) = inl refl
  backfill_checked-IsSettled p s now (ok true) = inl refl

  backfill_listed-IsSettled :
      (p : Planner) (s : S) (now : ℕ) (stale : Result Bool) (r : Result (List Secret))
      → (backfill_listed client schedule times p s now stale r).failure ≡ none
      → IsSettled s now (backfill_listed client schedule times p s now stale r)
  unfolding backfill_listed
  backfill_listed-IsSettled p s now stale (err e) h = absurd (cc)
  backfill_listed-IsSettled p s now stale (ok xs) h = elim (Bool-cases (has_pending_request xs)) [
    | inl pending ↦ rw pending (inl refl)
    | inr free ↦ rw free (backfill_checked-IsSettled p s now stale)
  ]

  three_ways :
      (P : Planned S → Type 0) (a b : Bool) (early late : Planned S)
      → (a ≡ true → P early)
      → (b ≡ true → P early)
      → P late
      → P (if a then early else if b then early else late)
  three_ways P true b early late x y z = x refl
  three_ways P false true early late x y z = y refl
  three_ways P false false early late x y z = z

  ltb→lt : (a b : ℕ) → ltb a b ≡ true → a < b
  ltb→lt a b h = ground arith

  -- After a call
  pub maybe_enqueue_startup_backfill_request-IsSettled :
      (p : Planner) (s : S) (now : ℕ) (stale : Result Bool)
      → (maybe_enqueue_startup_backfill_request client schedule times p s now stale).failure ≡ none
      → IsSettled s now (maybe_enqueue_startup_backfill_request client schedule times p s now stale)
  unfolding maybe_enqueue_startup_backfill_request
  maybe_enqueue_startup_backfill_request-IsSettled p s now stale =
      three_ways (λ r. r.failure ≡ none → IsSettled s now r) p.startup_backfill_checked
        (ltb now p.startup_backfill_retry_after) _ _ (λ done h. inl done)
        (λ early h. inr (refl, ltb→lt _ _ early)) (backfill_listed-IsSettled p s now stale (list s))
