-- ===== src/Publication/Observe/Success.antt =====
-- What an observed success rests on, and when the runtime is deleted.
use ai_models.Prelude.{
  ℕ, ◌≡◌, ap, refl, subst, String, Bool, true, false, ◌||◌, Option, none, some, arith, Bool-cases,
  inl, inr, Option-cases,
}
use ai_models.Prelude.Text.{is_empty, trim_space}
use ai_models.Publication.Handle.{
  Handle, Kind, Result, ok, err, ok-injective, Result-cases, checked,
}
use ai_models.Publication.Handle
use ai_models.Publication.Snapshot.{
  Snapshot, Identity, ArtifactResult, decode_result, validate_result, or_else, validate_source,
  validate_artifact, validate_identity, validate_snapshot,
}
use ai_models.Publication.Project.{Observation}
use ai_models.Publication.Project.Phases.{is_succeeded}
use ai_models.Publication.Runtime.{
  PublicationSuccess, observe_source_worker, observe_upload_session,
}
use ai_models.Publication.Observe.{
  PodPhase, pod_succeeded, pod_failed, pod_other, SourceWorkerHandle, UploadSessionHandle,
  RuntimeObservationDecision, failed_observation, interrupted_source_worker_decision,
  map_source_worker_decision, decode_runtime_result, completed_source, source_input,
  source_decision, observe_source, observe_upload, expired_at,
}

abbrev pub has_terminated : PodPhase → Bool
has_terminated (pod_other phase) = false
has_terminated _ = true

-- A check that passes passes in each of its parts.
or_else-none : (a b : Option String) → or_else a b ≡ none → (a ≡ none) × (b ≡ none)
or_else-none none b h = (refl, h)
or_else-none (some e) b h = absurd (cc)

checked-ok :
    {A : Type 0} (check : A → Option String) (r : Result A) (a : A)
    → checked check r ≡ ok a
    → (r ≡ ok a) × (check a ≡ none)
checked-ok check (err e) a h = absurd (cc)
checked-ok check (ok b) a h = elim (Option-cases (check b)) [
  | inl e ↦
      let same : b ≡ a = ok-injective (rw (e, checked) at h) in
      (ap ok same, subst (λ c. check c ≡ none) same e)
  | inr (x, e) ↦ absurd (ground arith)
]

decode_result-valid :
    (unmarshal : String → Result ArtifactResult) (raw : String) (r : ArtifactResult)
    → decode_result unmarshal raw ≡ ok r
    → (validate_source r.source ≡ none)
      × (validate_artifact r.artifact ≡ none)
      × (Handle.validate r.cleanup_handle ≡ none)
unfolding decode_result validate_result
decode_result-valid unmarshal raw r h = elim (Bool-cases (is_empty (trim_space raw))) [
  | inl e ↦ absurd (cc)
  | inr e ↦
      let valid : validate_result r ≡ none =
        (checked-ok validate_result (unmarshal raw) r (rw (e, decode_result) at h)).1 in
      let (source, rest) = or_else-none (validate_source r.source) _ valid in
      let (artifact, handle) = or_else-none (validate_artifact r.artifact) _ rest in
      (source, artifact, handle)
]

-- What `decodeRuntimeResult` makes of a decoded result.
abbrev published : Identity → ArtifactResult → PublicationSuccess
published identity r = record {
  snapshot = record {
    identity = identity;
    source = r.source;
    artifact = r.artifact;
    resolved = r.resolved;
    result = record { state = "Published"; ready = true };
  };
  cleanup_handle = r.cleanup_handle;
}

-- What the decoded result gives is a snapshot of a published model with a cleanup handle, both valid
-- where the identity of the request is.
decoded_valid :
    (unmarshal : String → Result ArtifactResult) (identity : Identity) (raw : String)
    (s : PublicationSuccess)
    → validate_identity identity ≡ none
    → decode_runtime_result unmarshal identity raw ≡ ok s
    → (validate_snapshot s.snapshot ≡ none) × (Handle.validate s.cleanup_handle ≡ none)
unfolding decode_runtime_result validate_snapshot trim_space
decoded_valid unmarshal identity raw s i h = elim (Result-cases (decode_result unmarshal raw)) [
  | inr (x, e) ↦ absurd (ground arith)
  | inl (r, e) ↦
      let (source, artifact, handle) = decode_result-valid unmarshal raw r e in
      let same : published identity r ≡ s = ok-injective (rw (e, decode_runtime_result) at h) in
      subst (λ t. (validate_snapshot t.snapshot ≡ none) × (Handle.validate t.cleanup_handle ≡ none))
        same (rw (i, source, artifact), handle)
]

-- The observation has a valid snapshot and a valid cleanup handle.
abbrev pub HasValid : Observation → Type 0
HasValid o =
    (s : Snapshot) × (c : Handle) × (o.snapshot ≡ some s)
    × (o.cleanup_handle ≡ some c)
    × (validate_snapshot s ≡ none)
    × (Handle.validate c ≡ none)

completed-HasValid :
    (unmarshal : String → Result ArtifactResult) (identity : Identity) (h : SourceWorkerHandle)
    (raw : String) (d : RuntimeObservationDecision) (r : Result PublicationSuccess)
    → validate_identity identity ≡ none
    → decode_runtime_result unmarshal identity raw ≡ r
    → source_decision unmarshal identity h (some (completed_source r)) ≡ ok d
    → is_succeeded d.observation.phase ≡ true
    → HasValid d.observation
unfolding source_decision observe_source_worker map_source_worker_decision failed_observation
completed-HasValid unmarshal identity h raw d (err x) i p e s = absurd (ground arith)
completed-HasValid unmarshal identity h raw d (ok t) i p e s =
    let (valid, handle) = decoded_valid unmarshal identity raw t i p in
    (t.snapshot, t.cleanup_handle, ground arith, ground arith, valid, handle)

phase-success :
    (unmarshal : String → Result ArtifactResult) (identity : Identity) (phase : PodPhase)
    (h : SourceWorkerHandle) (d : RuntimeObservationDecision)
    → validate_identity identity ≡ none
    → source_decision unmarshal identity h (source_input unmarshal identity phase h) ≡ ok d
    → is_succeeded d.observation.phase ≡ true
    → (phase ≡ pod_succeeded) × HasValid d.observation
unfolding source_input
phase-success unmarshal identity pod_succeeded h d i e s =
    elim (Bool-cases (is_empty (trim_space h.termination_message))) [
      | inl no_result ↦ absurd (
          unfold source_decision observe_source_worker map_source_worker_decision
            failed_observation in
          (ground arith))
      | inr result ↦ (
        refl,
        completed-HasValid unmarshal identity h (trim_space h.termination_message) d _ i refl
            (rw (result, source_input) at e) s,
      )
    ]
phase-success unmarshal identity pod_failed h d i e s = absurd (
    unfold source_decision observe_source_worker map_source_worker_decision failed_observation
      interrupted_source_worker_decision in
    (ground arith))
phase-success unmarshal identity (pod_other phase) h d i e s =
    absurd
      (unfold source_decision observe_source_worker map_source_worker_decision in (ground arith))

-- Where the identity of the request is valid, a source worker's observation is a success only if
-- its pod succeeded, and then it has a valid snapshot and a valid cleanup handle.
pub observe_source_success :
    (unmarshal : String → Result ArtifactResult) (identity : Identity) (h : SourceWorkerHandle)
    (d : RuntimeObservationDecision)
    → validate_identity identity ≡ none
    → observe_source unmarshal identity (some h) ≡ ok d
    → is_succeeded d.observation.phase ≡ true
    → (h.phase ≡ pod_succeeded) × HasValid d.observation
unfolding observe_source
observe_source_success unmarshal identity h d i e s =
    phase-success unmarshal identity h.phase h d i e s

-- The runtime of a source worker is deleted exactly when its pod has terminated.
pub observe_source-delete_runtime :
    (unmarshal : String → Result ArtifactResult) (identity : Identity) (h : SourceWorkerHandle)
    (d : RuntimeObservationDecision)
    → observe_source unmarshal identity (some h) ≡ ok d
    → d.delete_runtime ≡ has_terminated h.phase
unfolding observe_source observe_source_worker map_source_worker_decision
    interrupted_source_worker_decision
observe_source-delete_runtime unmarshal identity h d e = ground arith

-- The runtime of an upload session is deleted exactly when its pod has terminated or its expiry is past.
pub observe_upload-delete_runtime :
    (unmarshal : String → Result Handle) (clock : ℕ) (h : UploadSessionHandle)
    (d : RuntimeObservationDecision)
    → observe_upload unmarshal clock (some h) ≡ ok d
    → d.delete_runtime ≡ (has_terminated h.phase || expired_at h.upload_status.expires_at clock)
unfolding observe_upload observe_upload_session
observe_upload-delete_runtime unmarshal clock h d e = ground arith
