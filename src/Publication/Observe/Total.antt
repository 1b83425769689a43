-- ===== src/Publication/Observe/Total.antt =====
-- The observation of a runtime always has a result, which the projection takes.
use ai_models.Prelude.{
  ℕ, ◌≡◌, refl, String, true, false, Option, none, some, arith, Bool-cases, inl, inr,
}
use ai_models.Prelude.Text.{is_empty, trim_space}
use ai_models.Publication.Handle.{Handle, Result, ok, err, is_ok, Result-cases}
use ai_models.Publication.Snapshot.{Identity, ArtifactResult}
use ai_models.Publication.Conditions.{ConditionSetter}
use ai_models.Publication.Status.{ModelStatus}
use ai_models.Publication.Project.{RuntimeState}
use ai_models.Publication.Project.Phases.{is_complete, project_status_total}
use ai_models.Publication.Runtime.{
  PublicationSuccess, UploadSessionDecision, observe_source_worker, observe_upload_session,
}
use ai_models.Publication.Observe.{
  PodPhase, pod_succeeded, pod_failed, pod_other, SourceWorkerHandle, UploadSessionHandle,
  RuntimeObservationDecision, failed_observation, default_failure_message,
  source_worker_interrupted, interrupted_source_worker_decision, map_source_worker_decision,
  blank_source_input, completed_source, completed_upload, source_input, source_decision,
  observe_source, upload_input, upload_decision, observe_upload, expired_at,
}
use ai_models.Publication.Observe.Mutation.{
  CatalogStatusRuntimeResult, plan_catalog_status_mutation,
}
use ai_models.Publication.Observe.Errors.{
  told, decode_runtime_result-told, decode_upload_staging_handle-told,
}

-- The observation's decision is a value whose observation a projection takes.
abbrev pub Projects : Result RuntimeObservationDecision → Type 0
Projects r = (d : RuntimeObservationDecision) × (r ≡ ok d) × (is_complete d.observation ≡ true)

failed-Projects :
    (h : SourceWorkerHandle) (unmarshal : String → Result ArtifactResult) (identity : Identity)
    (failure : String)
    → is_empty failure ≡ false
    → Projects (
        source_decision unmarshal identity h
          (some (record blank_source_input { state = RuntimeState.failed; failure = failure })))
unfolding source_decision observe_source_worker map_source_worker_decision failed_observation
failed-Projects h unmarshal identity failure e =
    (record { observation = failed_observation failure; delete_runtime = true }, ground arith, refl)

succeeded-Projects :
    (h : SourceWorkerHandle) (unmarshal : String → Result ArtifactResult) (identity : Identity)
    (success : PublicationSuccess)
    → Projects (source_decision unmarshal identity h (some (completed_source (ok success))))
unfolding source_decision observe_source_worker map_source_worker_decision
succeeded-Projects h unmarshal identity success = (_, refl, refl)

completed-Projects :
    (h : SourceWorkerHandle) (unmarshal : String → Result ArtifactResult) (identity : Identity)
    (r : Result PublicationSuccess)
    → told r ≡ true
    → Projects (source_decision unmarshal identity h (some (completed_source r)))
completed-Projects h unmarshal identity (ok success) t =
    succeeded-Projects h unmarshal identity success
completed-Projects h unmarshal identity (err e) t =
    failed-Projects h unmarshal identity e (ground arith)

running-Projects :
    (h : SourceWorkerHandle) (unmarshal : String → Result ArtifactResult) (identity : Identity)
    → Projects (
        source_decision unmarshal identity h
          (some (record blank_source_input { state = RuntimeState.running })))
unfolding source_decision observe_source_worker map_source_worker_decision
running-Projects h unmarshal identity = (_, refl, refl)

interrupted-Projects :
    (h : SourceWorkerHandle) (unmarshal : String → Result ArtifactResult) (identity : Identity)
    → Projects (source_decision unmarshal identity h none)
unfolding source_decision interrupted_source_worker_decision
interrupted-Projects h unmarshal identity = (_, refl, refl)

default-told :
    (message fallback : String)
    → is_empty fallback ≡ false
    → is_empty (default_failure_message message fallback) ≡ false
default-told message fallback h = ground arith

phase-Projects :
    (phase : PodPhase) (h : SourceWorkerHandle) (unmarshal : String → Result ArtifactResult)
    (identity : Identity)
    → ((raw : String) → told (unmarshal raw) ≡ true)
    → Projects (source_decision unmarshal identity h (source_input unmarshal identity phase h))
unfolding source_input
phase-Projects pod_succeeded h unmarshal identity t =
    elim (Bool-cases (is_empty (trim_space h.termination_message))) [
      | inl e ↦
          rw e (
            failed-Projects h unmarshal identity "source worker pod completed without a result"
              refl)
      | inr e ↦ rw e (
          completed-Projects h unmarshal identity _
            (decode_runtime_result-told unmarshal identity _ (t _)))
    ]
phase-Projects pod_failed h unmarshal identity t =
    elim (Bool-cases (source_worker_interrupted h.termination_message)) [
      | inl e ↦ rw e (interrupted-Projects h unmarshal identity)
      | inr e ↦ rw e (
          failed-Projects h unmarshal identity _
            (default-told h.termination_message "source worker pod failed" refl))
    ]
phase-Projects (pod_other phase) h unmarshal identity t = running-Projects h unmarshal identity

-- The input of the status mutation that a decision gives.
abbrev pub runtime_result : ℕ → String → RuntimeObservationDecision → CatalogStatusRuntimeResult
runtime_result generation source_type d = record {
  generation = generation;
  source_type = source_type;
  observation = d.observation;
  delete_runtime = d.delete_runtime;
}

plan_ok :
    (setter : ConditionSetter) (now : ℕ) (current : ModelStatus) (r : CatalogStatusRuntimeResult)
    → is_complete r.observation ≡ true
    → is_ok (plan_catalog_status_mutation setter now current r) ≡ true
unfolding plan_catalog_status_mutation
plan_ok setter now current r c =
    ground (arith, project_status_total setter now current r.generation r.source_type r.observation)

-- Where the decoder's errors have a text, every state of a source worker, a missing one too, leads
-- to a decision, and that to a plan for the model's status: neither step returns an error.
pub observe_source_total :
    (unmarshal : String → Result ArtifactResult) (identity : Identity) (setter : ConditionSetter)
    (now : ℕ) (current : ModelStatus) (generation : ℕ) (source_type : String)
    (handle : Option SourceWorkerHandle)
    → ((raw : String) → told (unmarshal raw) ≡ true)
    → (d : RuntimeObservationDecision) × (observe_source unmarshal identity handle ≡ ok d)
      × (is_ok (
            plan_catalog_status_mutation setter now current
              (runtime_result generation source_type d))
          ≡ true)
unfolding observe_source failed_observation
observe_source_total unmarshal identity setter now current generation source_type none t =
    (_, refl, plan_ok setter now current _ refl)
observe_source_total unmarshal identity setter now current generation source_type (some h) t =
    let (d, e, c) = phase-Projects h.phase h unmarshal identity t in
    (d, e, plan_ok setter now current _ c)

completed_upload-Projects :
    (r : Result Handle) → told r ≡ true → is_ok (observe_upload_session (completed_upload r)) ≡ true
unfolding observe_upload_session
completed_upload-Projects (ok h) t = refl
completed_upload-Projects (err e) t = ground arith

upload_input-Projects :
    (unmarshal : String → Result Handle) (now : ℕ) (phase : PodPhase) (h : UploadSessionHandle)
    → ((raw : String) → told (unmarshal raw) ≡ true)
    → is_ok (observe_upload_session (upload_input unmarshal now phase h)) ≡ true
unfolding upload_input observe_upload_session
upload_input-Projects unmarshal now pod_succeeded h t =
    elim (Bool-cases (is_empty (trim_space h.termination_message))) [
      | inl e ↦ rw e (unfold observe_upload_session in refl)
      | inr e ↦
          rw e (completed_upload-Projects _ (decode_upload_staging_handle-told unmarshal _ (t _)))
    ]
upload_input-Projects unmarshal now pod_failed h t =
    let e = default-told h.termination_message "upload session failed" refl in
    rw (e, observe_upload_session)
upload_input-Projects unmarshal now (pod_other phase) h t =
    elim (Bool-cases (expired_at h.upload_status.expires_at now)) [
      | inl e ↦ rw (e, observe_upload_session)
      | inr e ↦ rw (e, observe_upload_session)
    ]

upload_decision-is_complete :
    (unmarshal : String → Result Handle) (now : ℕ) (h : UploadSessionHandle)
    (d : UploadSessionDecision)
    → is_complete (upload_decision unmarshal now h d).observation ≡ true
unfolding upload_decision failed_observation
upload_decision-is_complete unmarshal now h d = ground arith

-- Where the decoder's errors have a text, every state of an upload session, a missing one too,
-- leads to a decision, and that to a plan for the model's status: neither step returns an error.
pub observe_upload_total :
    (unmarshal : String → Result Handle) (clock : ℕ) (setter : ConditionSetter) (now : ℕ)
    (current : ModelStatus) (generation : ℕ) (source_type : String)
    (handle : Option UploadSessionHandle)
    → ((raw : String) → told (unmarshal raw) ≡ true)
    → (d : RuntimeObservationDecision) × (observe_upload unmarshal clock handle ≡ ok d)
      × (is_ok (
            plan_catalog_status_mutation setter now current
              (runtime_result generation source_type d))
          ≡ true)
unfolding observe_upload failed_observation
observe_upload_total unmarshal clock setter now current generation source_type none t =
    (_, refl, plan_ok setter now current _ refl)
observe_upload_total unmarshal clock setter now current generation source_type (some h) t =
    elim (Result-cases (observe_upload_session (upload_input unmarshal clock h.phase h))) [
      | inl (d, e) ↦ (
        upload_decision unmarshal clock h d,
        rw (e, observe_upload),
        plan_ok setter now current _ (upload_decision-is_complete unmarshal clock h d),
      )
      | inr (x, e) ↦ let total = upload_input-Projects unmarshal clock h.phase h t in absurd (cc)
    ]
