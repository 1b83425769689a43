-- ===== src/Requests/Cycle/Guard.antt =====
-- What a cycle of Requests/Cycle.antt does beside the server, in which order.
use ai_models.Prelude.{
  ℕ, ◌≡◌, ◌∙◌, refl, ap, ◌⊎◌, inl, inr, String, List, [], ◌∷◌, Option, none, some, Bool-cases, ltb,
}
use ai_models.Publication.Handle.{Result, ok, err}
use ai_models.Requests.{Secret, TimeText, should_activate_garbage_collection}
use ai_models.Requests.Options.{Options}
use ai_models.Requests.Cycle.{
  SecretClient, Surroundings, Gate, no_gate, opened, cleaned, gate_opened, gate_closed,
  quorum_not_ready, gate_failed, run_request_cycle, clean_up, under_gate, run_unless_deferred,
  run_active_request_cycle, arm_unless_deferred, run_queued, choose_cycle, cycle_pruned,
  cycle_listed, defer_active, requeue_active_requests, Event, garbage_collection_deferral,
}
use ai_models.Requests.Cycle.Life.{not_busy}

-- The gate is opened before the cleanup and closed after it, also where the cleanup fails.
abbrev pub gated : Gate → Option String → List Event
gated no_gate none = cleaned ∷ []
gated no_gate (some e) = []
gated opened none = gate_opened ∷ cleaned ∷ gate_closed ∷ []
gated opened (some e) = gate_opened ∷ gate_closed ∷ []
gated quorum_not_ready fault = []
gated (gate_failed e) fault = []

module _ {S : Type 0} (client : SecretClient S) (times : TimeText) (env : Surroundings) where
  open client use {list}

  clean_up-trace_no_gate :
      (fault : Option String) (s : S) (xs : List Secret)
      → (clean_up client times fault env s xs [] []).trace ≡ gated no_gate fault
  unfolding clean_up
  clean_up-trace_no_gate none s xs = refl
  clean_up-trace_no_gate (some e) s xs = refl

  clean_up-trace_opened :
      (fault : Option String) (s : S) (xs : List Secret)
      → (clean_up client times fault env s xs (gate_opened ∷ []) (gate_closed ∷ [])).trace
        ≡ gated opened fault
  unfolding clean_up
  clean_up-trace_opened none s xs = refl
  clean_up-trace_opened (some e) s xs = refl

  under_gate-trace :
      (gate : Gate) (s : S) (xs : List Secret)
      → (under_gate client times gate env s xs).trace ≡ gated gate env.cleanup_failure
  unfolding under_gate
  under_gate-trace no_gate s xs = clean_up-trace_no_gate env.cleanup_failure s xs
  under_gate-trace opened s xs = clean_up-trace_opened env.cleanup_failure s xs
  under_gate-trace quorum_not_ready s xs = refl
  under_gate-trace (gate_failed e) s xs = refl

  defer_active-trace : (p : S × Option String) → (defer_active client times p).trace ≡ []
  defer_active-trace (s, none) = refl
  defer_active-trace (s, some e) = refl

  -- The answers under which a cleanup is tried.
  abbrev pub IsClear : Type 0
  IsClear = (env.policy_failure ≡ none) × (garbage_collection_deferral env.pods ≡ ok 0)

  abbrev pub IsGated : List Event → Type 0
  IsGated trace = (trace ≡ []) ⊎ (IsClear × (trace ≡ gated env.gate env.cleanup_failure))

  run_unless_deferred-IsGated :
      (r : Result ℕ) (s : S) (xs : List Secret)
      → garbage_collection_deferral env.pods ≡ r
      → env.policy_failure ≡ none
      → IsGated (run_unless_deferred client times r env s xs).trace
  unfolding run_unless_deferred
  run_unless_deferred-IsGated (err e) s xs d p = inl refl
  run_unless_deferred-IsGated (ok pods) s xs d p = elim (Bool-cases (ltb 0 pods)) [
    | inl busy ↦
        rw busy (inl (defer_active-trace (requeue_active_requests client times s xs env.write_at)))
    | inr idle ↦ rw idle (inr ((p, d ∙ ap ok (not_busy pods idle)), under_gate-trace env.gate s xs))
  ]

  run_active_request_cycle-IsGated :
      (policy : Option String) (s : S) (xs : List Secret)
      → env.policy_failure ≡ policy
      → IsGated (run_active_request_cycle client times policy env s xs).trace
  unfolding run_active_request_cycle
  run_active_request_cycle-IsGated (some e) s xs p = inl refl
  run_active_request_cycle-IsGated none s xs p =
      run_unless_deferred-IsGated (garbage_collection_deferral env.pods) s xs refl p

  arm_unless_deferred-trace :
      (r : Result ℕ) (s : S) (xs : List Secret)
      → (arm_unless_deferred client times r env s xs).trace ≡ []
  unfolding arm_unless_deferred
  arm_unless_deferred-trace (err e) s xs = refl
  arm_unless_deferred-trace (ok pods) s xs = elim (Bool-cases (ltb 0 pods)) [
    | inl busy ↦ rw busy
    | inr idle ↦ rw idle
  ]

  module _ (options : Options) where
    run_queued-trace :
        (s : S) (xs : List Secret) → (run_queued client times env options s xs).trace ≡ []
    unfolding run_queued
    run_queued-trace s xs =
        elim (Bool-cases
          (should_activate_garbage_collection times xs env.decide_at options.activation_delay)) [
            | inl now_due ↦
                rw now_due (arm_unless_deferred-trace (garbage_collection_deferral env.pods) s xs)
            | inr not_due ↦ rw not_due
          ]

    choose_cycle-IsGated :
        (s : S) (xs ys : List Secret)
        → IsGated (choose_cycle client times env options s xs ys).trace
    unfolding choose_cycle
    choose_cycle-IsGated s (x ∷ xs) ys =
        run_active_request_cycle-IsGated env.policy_failure s (x ∷ xs) refl
    choose_cycle-IsGated s [] [] = inl refl
    choose_cycle-IsGated s [] (y ∷ ys) = inl (run_queued-trace s (y ∷ ys))

    cycle_pruned-IsGated :
        (p : S × Result (List Secret)) → IsGated (cycle_pruned client times env options p).trace
    unfolding cycle_pruned
    cycle_pruned-IsGated (s, err e) = inl refl
    cycle_pruned-IsGated (s, ok xs) = choose_cycle-IsGated s _ _

    cycle_listed-IsGated :
        (s : S) (r : Result (List Secret))
        → IsGated (cycle_listed client times env options s r).trace
    unfolding cycle_listed
    cycle_listed-IsGated s (err e) = inl refl
    cycle_listed-IsGated s (ok xs) = cycle_pruned-IsGated _

    -- A cycle opens or closes no gate and cleans nothing up, or else the policy was made, the
    -- pods' list counted no active publication pod, and what it did is what the gate and the
    -- cleanup's failure say: a gate that is opened is closed at the end, the cleanup is between
    -- the two, and without the quorum there is none.
    pub run_request_cycle-IsGated :
        (s : S) → IsGated (run_request_cycle client times env options s).trace
    unfolding run_request_cycle
    run_request_cycle-IsGated s = cycle_listed-IsGated s (list s)
