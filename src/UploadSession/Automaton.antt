-- ===== src/UploadSession/Automaton.antt =====
-- The writes of a session's secret and the automaton of its phases: the methods of
-- images/controller/internal/adapters/k8s/uploadsessionstate/client.go that write, and the failed publication
-- of ../uploadsession/sync.go.
use ai_models.Prelude.{◌≡◌, refl, String, Bool, not, List, if◌then◌else◌}
use ai_models.Prelude.Text.{is_empty, trim_space}
use ai_models.Prelude.Int64.{Int64}
use ai_models.Prelude.Assoc.{read}
use ai_models.Publication.Handle.{Result, Handle}
use ai_models.UploadSession.{
  Phase, issued, probing, uploading, uploaded, publishing, completed, failed, aborted, expired,
  parse_phase, UploadedPart, SessionState, ProbeState, Codec,
}
use ai_models.UploadSession.Write.{
  Entries, clear_multipart, allows_publishing, allows_completed, allows_publishing_failed,
  mark_publishing, mark_completed, mark_publishing_failed, mark_failed, mark_aborted, mark_expired,
  set_uploaded_parts, save_multipart, save_probe, mark_uploaded,
}

-- The writes of the client. `SaveMultipartParts` is `save_parts_op`.
pub data Op : Type 0 where
  save_multipart_op : SessionState → Op
  save_parts_op : List UploadedPart → Op
  save_probe_op : Int64 → ProbeState → Op
  clear_multipart_op : Op
  mark_uploaded_op : Handle → Op
  mark_publishing_op : Op
  mark_completed_op : Op
  mark_failed_op : String → Op
  mark_aborted_op : String → Op
  mark_expired_op : String → Op

abbrev pub apply : Codec → Op → Entries → Result Entries
apply codec (save_multipart_op state) m = save_multipart codec state m
apply codec (save_parts_op parts) m = set_uploaded_parts codec parts m
apply codec (save_probe_op size state) m = save_probe codec size state m
apply codec clear_multipart_op m = clear_multipart m
apply codec (mark_uploaded_op handle) m = mark_uploaded codec handle m
apply codec mark_publishing_op m = mark_publishing m
apply codec mark_completed_op m = mark_completed m
apply codec (mark_failed_op message) m = mark_failed message m
apply codec (mark_aborted_op message) m = mark_aborted message m
apply codec (mark_expired_op message) m = mark_expired message m

-- A write of a session's secret: one of the client, or a failed publication that the controller's
-- service marks (`Service.MarkFailed` of ../uploadsession/sync.go).
pub data SecretWrite : Type 0 where
  by_client : Op → SecretWrite
  publishing_failed_write : String → SecretWrite

abbrev pub apply_write : Codec → SecretWrite → Entries → Result Entries
apply_write codec (by_client op) m = apply codec op m
apply_write codec (publishing_failed_write message) m = mark_publishing_failed message m

-- The automaton: where the marks of a publication lead from each phase.
abbrev pub publishing_from : Phase → Phase
publishing_from issued = publishing
publishing_from probing = publishing
publishing_from uploading = publishing
publishing_from uploaded = publishing
publishing_from publishing = publishing
publishing_from completed = completed
publishing_from failed = failed
publishing_from aborted = aborted
publishing_from expired = expired

abbrev pub completed_from : Phase → Phase
completed_from issued = completed
completed_from probing = completed
completed_from uploading = completed
completed_from uploaded = completed
completed_from publishing = completed
completed_from completed = completed
completed_from failed = failed
completed_from aborted = aborted
completed_from expired = expired

abbrev pub failed_from : Phase → Phase
failed_from issued = failed
failed_from probing = failed
failed_from uploading = failed
failed_from uploaded = failed
failed_from publishing = failed
failed_from completed = completed
failed_from failed = failed
failed_from aborted = aborted
failed_from expired = expired

-- The phase that a write leads to, by whether a file's name was probed.
abbrev pub next_phase : SecretWrite → Bool → Phase → Phase
next_phase (by_client (save_multipart_op state)) probed p = uploading
next_phase (by_client (save_parts_op parts)) probed p = p
next_phase (by_client (save_probe_op size state)) probed p = probing
next_phase (by_client clear_multipart_op) probed p = if probed then probing else issued
next_phase (by_client (mark_uploaded_op handle)) probed p = uploaded
next_phase (by_client mark_publishing_op) probed p = publishing_from p
next_phase (by_client mark_completed_op) probed p = completed_from p
next_phase (by_client (mark_failed_op message)) probed p = failed
next_phase (by_client (mark_aborted_op message)) probed p = aborted
next_phase (by_client (mark_expired_op message)) probed p = expired
next_phase (publishing_failed_write message) probed p = failed_from p

abbrev pub stored_phase : Entries → Result Phase
stored_phase m = parse_phase (read "phase" m)

abbrev pub is_probed : Entries → Bool
is_probed m = not (is_empty (trim_space (read "probeFileName" m)))

-- The guards of the code let through what the automaton moves.
pub publishing_from_lem :
    (p : Phase) → (if allows_publishing p then publishing else p) ≡ publishing_from p
publishing_from_lem issued = refl
publishing_from_lem probing = refl
publishing_from_lem uploading = refl
publishing_from_lem uploaded = refl
publishing_from_lem publishing = refl
publishing_from_lem completed = refl
publishing_from_lem failed = refl
publishing_from_lem aborted = refl
publishing_from_lem expired = refl

pub completed_from_lem :
    (p : Phase) → (if allows_completed p then completed else p) ≡ completed_from p
completed_from_lem issued = refl
completed_from_lem probing = refl
completed_from_lem uploading = refl
completed_from_lem uploaded = refl
completed_from_lem publishing = refl
completed_from_lem completed = refl
completed_from_lem failed = refl
completed_from_lem aborted = refl
completed_from_lem expired = refl

pub failed_from_lem :
    (p : Phase) → (if allows_publishing_failed p then failed else p) ≡ failed_from p
failed_from_lem issued = refl
failed_from_lem probing = refl
failed_from_lem uploading = refl
failed_from_lem uploaded = refl
failed_from_lem publishing = refl
failed_from_lem completed = refl
failed_from_lem failed = refl
failed_from_lem aborted = refl
failed_from_lem expired = refl
