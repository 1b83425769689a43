-- ===== src/Requests/Transitions.antt =====
-- What each write does to the state of a request.

use ai_models.Prelude.{ℕ, ◌≡◌, ◌∙◌, refl, String, Bool, true, false, not}
use ai_models.Prelude.Text.{is_empty, trim_space, str_eq}
use ai_models.Prelude.Assoc.{read, read-insert, read-remove}
use ai_models.Requests.{
  Secret, TimeText, queued, active, completed, classify_request, state_by, request_label_key,
  request_queued_at_annotation_key, switch_annotation_key, phase_annotation_key,
  completed_at_annotation_key, armed, requeued, finished, rescheduled,
}

-- The state by the three annotations that it is read from.
classify_request-eq :
    (s : Secret) (phase switch time : String)
    → read phase_annotation_key s.annotations ≡ phase
    → read switch_annotation_key s.annotations ≡ switch
    → read request_queued_at_annotation_key s.annotations ≡ time
    → classify_request s
      ≡ state_by
          (str_eq (read request_label_key s.labels) "true")
          (str_eq (trim_space phase) "done")
          (not (is_empty (trim_space switch)))
          (not (is_empty (trim_space time)))
unfolding classify_request
classify_request-eq s phase switch time p q r = rw (p, q, r)

-- Only a labelled request that is not done is pending.
queued_lem : (l d w t : Bool) → state_by l d w t ≡ queued → l ≡ true
queued_lem true d w t h = refl
queued_lem false d w t h = absurd (cc)

active_lem : (l d w t : Bool) → state_by l d w t ≡ active → l ≡ true
active_lem true d w t h = refl
active_lem false d w t h = absurd (cc)

is_labelled : Secret → Bool
is_labelled s = str_eq (read request_label_key s.labels) "true"

queued-is_labelled : (s : Secret) → classify_request s ≡ queued → is_labelled s ≡ true
unfolding classify_request is_labelled
queued-is_labelled s h = queued_lem _ _ _ _ h

active-is_labelled : (s : Secret) → classify_request s ≡ active → is_labelled s ≡ true
unfolding classify_request is_labelled
active-is_labelled s h = active_lem _ _ _ _ h

module _ (times : TimeText) (at : ℕ) where
  open times use {format, format_filled}

  armed_lem : (s : Secret) → is_labelled s ≡ true → classify_request (armed times at s) ≡ active
  unfolding armed is_labelled
  armed_lem s l =
      classify_request-eq (armed times at s) "armed" (format at)
        (read request_queued_at_annotation_key s.annotations)
        (rw (read-insert phase_annotation_key phase_annotation_key "armed" _))
        (rw (read-insert phase_annotation_key switch_annotation_key "armed" _)
          (rw (read-insert switch_annotation_key switch_annotation_key (format at) s.annotations)))
        (rw (read-insert phase_annotation_key request_queued_at_annotation_key "armed" _) (
          rw (
            read-insert switch_annotation_key request_queued_at_annotation_key (format at)
              s.annotations)))
      ∙ rw (l, format_filled at) (unfold trim_space in refl)

  requeued_lem :
      (s : Secret) → is_labelled s ≡ true → classify_request (requeued times at s) ≡ queued
  unfolding requeued is_labelled
  requeued_lem s l =
      classify_request-eq (requeued times at s) "queued" "" (format at)
        (rw (read-insert phase_annotation_key phase_annotation_key "queued" _))
        (rw (read-insert phase_annotation_key switch_annotation_key "queued" _) (
          rw (read-insert request_queued_at_annotation_key switch_annotation_key (format at) _)
            (rw (read-remove switch_annotation_key switch_annotation_key s.annotations))))
        (rw (read-insert phase_annotation_key request_queued_at_annotation_key "queued" _) (
          rw (
            read-insert request_queued_at_annotation_key request_queued_at_annotation_key
              (format at) _)))
      ∙ rw (l, format_filled at) (unfold trim_space in refl)

  finished_lem :
      (payload : String) (s : Secret)
      → is_labelled s ≡ true
      → classify_request (finished times at payload s) ≡ completed
  unfolding finished is_labelled
  finished_lem payload s l =
      classify_request-eq (finished times at payload s) "done" _ _
        (rw (read-remove switch_annotation_key phase_annotation_key _) (
          rw (read-insert completed_at_annotation_key phase_annotation_key (format at) _)
            (rw (read-insert phase_annotation_key phase_annotation_key "done" s.annotations))))
        refl refl
      ∙ rw l (unfold trim_space in refl)

  pub rescheduled_lem : (s : Secret) → classify_request (rescheduled times at s) ≡ queued
  unfolding rescheduled
  rescheduled_lem s =
      classify_request-eq (rescheduled times at s) "queued" "" (format at)
        (rw (read-remove switch_annotation_key phase_annotation_key _)
          (rw (read-insert phase_annotation_key phase_annotation_key "queued" _)))
        (rw (read-remove switch_annotation_key switch_annotation_key _))
        (rw (read-remove switch_annotation_key request_queued_at_annotation_key _) (
          rw (read-insert phase_annotation_key request_queued_at_annotation_key "queued" _) (
            rw (
              read-insert request_queued_at_annotation_key request_queued_at_annotation_key
                (format at) s.annotations))))
      ∙ rw (read-insert request_label_key request_label_key "true" s.labels, format_filled at)
          (unfold trim_space in refl)

  -- A queued request that is armed is active.
  pub armed-active :
      (s : Secret) → classify_request s ≡ queued → classify_request (armed times at s) ≡ active
  armed-active s h = armed_lem s (queued-is_labelled s h)

  -- An active request that is requeued is queued.
  pub requeued-queued :
      (s : Secret) → classify_request s ≡ active → classify_request (requeued times at s) ≡ queued
  requeued-queued s h = requeued_lem s (active-is_labelled s h)

  -- An active request that is finished is completed.
  pub finished-completed :
      (payload : String) (s : Secret)
      → classify_request s ≡ active
      → classify_request (finished times at payload s) ≡ completed
  finished-completed payload s h = finished_lem payload s (active-is_labelled s h)
