-- ===== src/Publication/Project/Phases.antt =====
-- `ProjectStatus` and `InitialStatus` by the phase of the operation.
use ai_models.Prelude.{
  ℕ, ◌≡◌, refl, subst, String, Bool, true, false, not, ◌&&◌, Option, none, some, arith, is_some,
  Bool-cases, inl, inr,
}
use ai_models.Prelude.Text.{str_eq}
use ai_models.Publication.Handle.{Handle, ok, ok-injective, is_ok}
use ai_models.Publication.Snapshot.{Snapshot}
use ai_models.Publication.Conditions.{ConditionSetter}
use ai_models.Publication.Status.{
  ModelStatus, ModelUploadStatus, publishing_status, pending_upload_status, wait_for_upload_status,
  failed_status,
}
use ai_models.Publication.Ready.{ready_status}
use ai_models.Publication.Project.{
  OperationPhase, Observation, Projection, project_status, running_status, initial_status,
  is_terminal_operation_phase, project_phase, running_projection, staged_projection,
  succeeded_projection, running_upload_status, upload_source, is_upload_session,
}
use ai_models.Publication.Project.Consistent.{
  Consistent, is_ready, publishing-Consistent, pending-Consistent, wait-Consistent,
  failed-Consistent, ready-Consistent,
}

abbrev pub is_succeeded : OperationPhase → Bool
is_succeeded OperationPhase.succeeded = true
is_succeeded _ = false

-- The observation carries what its phase asks for.
abbrev pub is_complete : Observation → Bool
is_complete o = elim o.phase [
  | OperationPhase.staged ↦ is_some o.cleanup_handle
  | OperationPhase.succeeded ↦ is_some o.snapshot && is_some o.cleanup_handle
  | OperationPhase.other p ↦ false
  | _ ↦ true
]

module _ (setter : ConditionSetter) (now : ℕ) (current : ModelStatus) (generation : ℕ)
    (source_type : String) where
  -- The status while the runtime works: consistent, and not ready.
  abbrev Working : ModelStatus → Type 0
  Working s = Consistent current generation s × (is_ready s.phase ≡ false)

  publishing-Working :
      (reason message progress : String)
      → Working
          (publishing_status setter now current generation source_type reason message progress)
  unfolding publishing_status
  publishing-Working reason message progress = (
    publishing-Consistent setter now current generation source_type reason message progress,
    refl,
  )

  pending-Working :
      (progress message : String)
      → Working (pending_upload_status setter now current generation source_type progress message)
  unfolding pending_upload_status
  pending-Working progress message =
      (pending-Consistent setter now current generation source_type progress message, refl)

  wait-Working :
      (upload : ModelUploadStatus) (progress message : String)
      → Working
          (wait_for_upload_status setter now current generation source_type upload progress message)
  unfolding wait_for_upload_status
  wait-Working upload progress message =
      (wait-Consistent setter now current generation source_type upload progress message, refl)

  upload-Working :
      (o : Observation) (u : Option ModelUploadStatus)
      → Working (running_upload_status setter now current generation source_type o u)
  unfolding running_upload_status
  upload-Working o (some upload) = wait-Working upload o.progress o.message
  upload-Working o none = elim (Bool-cases (is_upload_session o.runtime_kind)) [
    | inl session ↦ rw session (pending-Working o.progress o.message)
    | inr worker ↦ rw worker (publishing-Working o.condition_reason o.message "")
  ]

  running-Working :
      (o : Observation) → Working (running_status setter now current generation source_type o)
  unfolding running_status
  running-Working o = elim (Bool-cases (str_eq source_type upload_source)) [
    | inl up ↦ rw up (unfold running_status in upload-Working o o.upload)
    | inr remote ↦ rw remote (publishing-Working o.condition_reason o.message o.progress)
  ]

  -- The initial status of a model is consistent as a projected one is: its conditions, artifact
  -- and resolved facts agree with its phase, it observes the generation, and the conditions of
  -- other types are those of the current status.
  pub initial_status-Consistent :
      Consistent current generation (initial_status setter now current generation source_type)
  unfolding initial_status
  initial_status-Consistent = elim (Bool-cases (str_eq source_type upload_source)) [
    | inl up ↦ rw up (pending-Consistent setter now current generation source_type "0%" "")
    | inr remote ↦
        rw remote (publishing-Consistent setter now current generation source_type "Pending" "" "")
  ]

  -- What a projection says.
  pub record Faithful (o : Observation) (p : Projection) : Type 0 where
    pub status : Consistent current generation p.status
    pub requeue : p.requeue ≡ not (is_terminal_operation_phase o.phase)
    pub is_ready_lem : is_ready p.status.phase ≡ is_succeeded o.phase

  running-Faithful :
      (o : Observation) (p : Projection)
      → is_terminal_operation_phase o.phase ≡ false
      → is_succeeded o.phase ≡ false
      → running_projection setter now current generation source_type o ≡ ok p
      → Faithful o p
  unfolding running_projection
  running-Faithful o p t e h =
      let w = running-Working o in
      subst (Faithful o) (ok-injective h)
        (record { status = w.0; requeue = rw t; is_ready_lem = rw e w.1 })

  staged-Faithful :
      (o : Observation) (p : Projection) (handle : Option Handle)
      → o.phase ≡ OperationPhase.staged
      → staged_projection setter now current generation source_type handle ≡ ok p
      → Faithful o p
  unfolding staged_projection
  staged-Faithful o p none e h = absurd (cc)
  staged-Faithful o p (some handle) e h =
      let w = publishing-Working "Pending" "" "" in
      subst (Faithful o) (ok-injective h)
        (record { status = w.0; requeue = rw e; is_ready_lem = rw e w.1 })

  succeeded-Faithful :
      (o : Observation) (p : Projection) (snapshot : Option Snapshot) (handle : Option Handle)
      → o.phase ≡ OperationPhase.succeeded
      → succeeded_projection setter now current generation source_type snapshot handle ≡ ok p
      → Faithful o p
  unfolding succeeded_projection ready_status
  succeeded-Faithful o p none handle e h = absurd (cc)
  succeeded-Faithful o p (some snapshot) none e h = absurd (cc)
  succeeded-Faithful o p (some snapshot) (some handle) e h =
      subst (Faithful o) (ok-injective h) (record {
        status = ready-Consistent setter now current generation source_type snapshot;
        requeue = rw e;
        is_ready_lem = rw e;
      })

  phase-Faithful :
      (phase : OperationPhase) (o : Observation) (p : Projection)
      → o.phase ≡ phase
      → project_phase setter now phase current generation source_type o ≡ ok p
      → Faithful o p
  unfolding project_phase failed_status
  phase-Faithful OperationPhase.pending o p e h = running-Faithful o p (rw e) (rw e) h
  phase-Faithful OperationPhase.running o p e h = running-Faithful o p (rw e) (rw e) h
  phase-Faithful OperationPhase.staged o p e h = staged-Faithful o p o.cleanup_handle e h
  phase-Faithful OperationPhase.failed o p e h = subst (Faithful o) (ok-injective h) (record {
    status =
        failed-Consistent setter now current generation source_type o.condition_reason o.message;
    requeue = rw e;
    is_ready_lem = rw e;
  })
  phase-Faithful OperationPhase.succeeded o p e h =
      succeeded-Faithful o p o.snapshot o.cleanup_handle e h
  phase-Faithful (OperationPhase.other t) o p e h = absurd (cc)

  -- Where `ProjectStatus` returns a projection, its requeue is set exactly when the operation's
  -- phase is not terminal, its phase is Ready exactly when the operation's is `Succeeded`, and its
  -- status is consistent: it observes the generation, its three conditions are true, and its
  -- artifact and resolved facts there, exactly for a ready model, its upload exactly for one that
  -- waits for it, and the conditions of other types are those of the current status.
  pub project_status-Faithful :
      (o : Observation) (p : Projection)
      → project_status setter now current generation source_type o ≡ ok p
      → Faithful o p
  unfolding project_status
  project_status-Faithful o p h = phase-Faithful o.phase o p refl h

  -- `ProjectStatus` returns a projection exactly for an observation in a known phase that carries what
  -- the phase asks for: a cleanup handle when staged, and a snapshot too when succeeded.
  pub project_status_total :
      (o : Observation)
      → is_ok (project_status setter now current generation source_type o) ≡ is_complete o
  unfolding project_status
  project_status_total o = ground arith
