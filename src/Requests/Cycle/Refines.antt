-- ===== src/Requests/Cycle/Refines.antt =====
-- The whole cycle of Requests/Cycle.antt against the life of a request.
use ai_models.Prelude.{
  ℕ, ◌≡◌, ◌∙◌, refl, ap, inl, inr, String, List, [], ◌∷◌, Option, none, some, All, Bool-cases,
  All-of_In, ltb,
}
use ai_models.Publication.Handle.{Result, ok, err}
use ai_models.Requests.{
  Secret, TimeText, queued, active, completed, armed, requeued, finished,
  should_activate_garbage_collection,
}
use ai_models.Requests.Transitions.{armed-active, requeued-queued, finished-completed}
use ai_models.Requests.Options.{Options}
use ai_models.Requests.Cycle.{
  SecretClient, Surroundings, Gate, no_gate, opened, quorum_not_ready, gate_failed,
  run_request_cycle, clean_up, under_gate, run_unless_deferred, run_active_request_cycle,
  arm_unless_deferred, run_queued, choose_cycle, cycle_pruned, cycle_listed, defer_active,
  arm_queued_requests, requeue_active_requests, Event, garbage_collection_deferral,
  mark_requests_completed,
}
use ai_models.Requests.Cycle.Life.{
  IsPassed, Move, arms, requeues, completes, is_busy, not_busy, Life, stays, state_of, InState,
  Lives, Lives-trans, update_each-Lives, prune-Lives, request_secrets_by_state-InState,
}

module _ {S : Type 0} (client : SecretClient S) (times : TimeText) (env : Surroundings) where
  open client use {stored, list, list-stored, list-NamesDistinct}

  mark_requests_completed-Lives :
      (s : S) (xs : List Secret) (payload : Result String) (at : ℕ)
      → Move env (some active) (some completed)
      → All (InState active) xs
      → Lives client times env s (mark_requests_completed client times s xs payload at).0
  unfolding mark_requests_completed
  mark_requests_completed-Lives s xs (err e) at m h = λ n. stays
  mark_requests_completed-Lives s xs (ok payload) at m h =
      update_each-Lives client times env (finished times at payload) active completed m
        (finished-completed times at payload) s xs h

  clean_up-Lives :
      (fault : Option String) (s : S) (xs : List Secret) (before after : List Event)
      → (fault ≡ none → Move env (some active) (some completed))
      → All (InState active) xs
      → Lives client times env s (clean_up client times fault env s xs before after).after
  unfolding clean_up
  clean_up-Lives (some e) s xs before after m h = λ n. stays
  clean_up-Lives none s xs before after m h =
      mark_requests_completed-Lives s xs _ env.write_at (m refl) h

  under_gate-Lives :
      (gate : Gate) (s : S) (xs : List Secret)
      → (env.cleanup_failure ≡ none → IsPassed gate → Move env (some active) (some completed))
      → All (InState active) xs
      → Lives client times env s (under_gate client times gate env s xs).after
  unfolding under_gate
  under_gate-Lives no_gate s xs m h = clean_up-Lives env.cleanup_failure s xs [] [] (λ e. m e tt) h
  under_gate-Lives opened s xs m h = clean_up-Lives env.cleanup_failure s xs _ _ (λ e. m e tt) h
  under_gate-Lives quorum_not_ready s xs m h = λ n. stays
  under_gate-Lives (gate_failed e) s xs m h = λ n. stays

  defer_active-Life :
      (s : S) (p : S × Option String) (n : String)
      → Life env (state_of (stored s n)) (state_of (stored p.0 n))
      → Life env (state_of (stored s n)) (state_of (stored (defer_active client times p).after n))
  defer_active-Life s (t, none) n l = l
  defer_active-Life s (t, some e) n l = l

  run_unless_deferred-Lives :
      (r : Result ℕ) (s : S) (xs : List Secret)
      → garbage_collection_deferral env.pods ≡ r
      → env.policy_failure ≡ none
      → All (InState active) xs
      → Lives client times env s (run_unless_deferred client times r env s xs).after
  unfolding run_unless_deferred requeue_active_requests
  run_unless_deferred-Lives (err e) s xs d p h = λ n. stays
  run_unless_deferred-Lives (ok pods) s xs d p h = λ n. elim (Bool-cases (ltb 0 pods)) [
    | inl busy ↦ rw busy (
        defer_active-Life s _ n (
          update_each-Lives client times env (requeued times env.write_at) active queued
            (requeues pods (is_busy pods busy) d) (requeued-queued times env.write_at) s xs h n))
    | inr idle ↦ rw idle (
        under_gate-Lives env.gate s xs (λ c g. completes p (d ∙ ap ok (not_busy pods idle)) c g) h
          n)
  ]

  run_active_request_cycle-Lives :
      (policy : Option String) (s : S) (xs : List Secret)
      → env.policy_failure ≡ policy
      → All (InState active) xs
      → Lives client times env s (run_active_request_cycle client times policy env s xs).after
  unfolding run_active_request_cycle
  run_active_request_cycle-Lives (some e) s xs p h = λ n. stays
  run_active_request_cycle-Lives none s xs p h =
      run_unless_deferred-Lives (garbage_collection_deferral env.pods) s xs refl p h

  arm_unless_deferred-Lives :
      (r : Result ℕ) (s : S) (xs : List Secret)
      → garbage_collection_deferral env.pods ≡ r
      → All (InState queued) xs
      → Lives client times env s (arm_unless_deferred client times r env s xs).after
  unfolding arm_unless_deferred arm_queued_requests
  arm_unless_deferred-Lives (err e) s xs d h = λ n. stays
  arm_unless_deferred-Lives (ok pods) s xs d h = λ n. elim (Bool-cases (ltb 0 pods)) [
    | inl busy ↦ rw busy stays
    | inr idle ↦ rw idle (
        update_each-Lives client times env (armed times env.write_at) queued active
          (arms (d ∙ ap ok (not_busy pods idle))) (armed-active times env.write_at) s xs h n)
  ]

  module _ (options : Options) where
    run_queued-Lives :
        (s : S) (xs : List Secret)
        → All (InState queued) xs
        → Lives client times env s (run_queued client times env options s xs).after
    unfolding run_queued
    run_queued-Lives s xs h = λ n.
        elim (Bool-cases
          (should_activate_garbage_collection times xs env.decide_at options.activation_delay)) [
            | inl now_due ↦
                rw now_due
                  (arm_unless_deferred-Lives (garbage_collection_deferral env.pods) s xs refl h n)
            | inr not_due ↦ rw not_due stays
          ]

    choose_cycle-Lives :
        (s : S) (xs ys : List Secret)
        → All (InState active) xs
        → All (InState queued) ys
        → Lives client times env s (choose_cycle client times env options s xs ys).after
    unfolding choose_cycle
    choose_cycle-Lives s (x ∷ xs) ys h k =
        run_active_request_cycle-Lives env.policy_failure s (x ∷ xs) refl h
    choose_cycle-Lives s [] [] h k = λ n. stays
    choose_cycle-Lives s [] (y ∷ ys) h k = run_queued-Lives s (y ∷ ys) k

    cycle_pruned-Lives :
        (p : S × Result (List Secret))
        → Lives client times env p.0 (cycle_pruned client times env options p).after
    unfolding cycle_pruned
    cycle_pruned-Lives (s, err e) = λ n. stays
    cycle_pruned-Lives (s, ok xs) =
        choose_cycle-Lives s _ _ (request_secrets_by_state-InState client times env active xs)
          (request_secrets_by_state-InState client times env queued xs)

    cycle_listed-Lives :
        (s : S) (r : Result (List Secret))
        → list s ≡ r
        → Lives client times env s (cycle_listed client times env options s r).after
    unfolding cycle_listed
    cycle_listed-Lives s (err e) h = λ n. stays
    cycle_listed-Lives s (ok xs) h =
        Lives-trans client times env s _ _
          (prune-Lives client times env s xs env.prune_at options.completed_request_ttl
            (All-of_In _ xs (λ x i. list-stored s xs x h i)) (list-NamesDistinct s xs h))
          (cycle_pruned-Lives _)

    -- What a cycle does to the request of any name on the server is a run of the automaton `Move`
    -- from the state it had to the state it has: a queued request is armed only where the pods'
    -- list counts no active publication pod, an active one is requeued only where it counts some,
    -- and completed only where it counts none, the policy and the cleanup did not fail and the
    -- gate, if any, was opened, and a request is removed only when it is completed.
    pub run_request_cycle-Life :
        (s : S) (n : String)
        → Life env
            (state_of (stored s n))
            (state_of (stored (run_request_cycle client times env options s).after n))
    unfolding run_request_cycle
    run_request_cycle-Life s n = cycle_listed-Lives s (list s) refl n
