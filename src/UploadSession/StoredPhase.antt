-- ===== src/UploadSession/StoredPhase.antt =====
-- What each write of images/controller/internal/adapters/k8s/uploadsessionstate leaves under the key of the
-- phase.
use ai_models.Prelude.{
  ◌≡◌, ◌∙◌, refl, ap, subst, String, Bool, true, false, not, List, [], ◌∷◌, if◌then◌else◌, inl, inr,
  Bool-cases,
}
use ai_models.Prelude.Text.{is_empty, trim_space, str_eq}
use ai_models.Prelude.Int64.{Int64, lt64}
use ai_models.Prelude.Assoc.{read, insert, remove, read-insert, read-remove}
use ai_models.Publication.Handle.{Result, ok, err}
use ai_models.ModelPack.Results.{ok_same}
use ai_models.UploadSession.{
  Phase, issued, probing, uploading, uploaded, publishing, completed, failed, aborted, expired,
  phase_text, parse_phase, UploadedPart, ProbeState, Codec,
}
use ai_models.UploadSession.Write.{
  Entries, set_phase, set_runtime_phase, clear_multipart_state, mark_terminal, clear_multipart,
  insert_parts, set_uploaded_parts, save_probe,
}
use ai_models.UploadSession.Automaton.{stored_phase, is_probed}

parse_phase-phase_text : (p : Phase) → parse_phase (phase_text p) ≡ ok p
unfolding parse_phase trim_space
parse_phase-phase_text issued = refl
parse_phase-phase_text probing = refl
parse_phase-phase_text uploading = refl
parse_phase-phase_text uploaded = refl
parse_phase-phase_text publishing = refl
parse_phase-phase_text completed = refl
parse_phase-phase_text failed = refl
parse_phase-phase_text aborted = refl
parse_phase-phase_text expired = refl

-- Writes under other keys leave the phase.
pub phase-insert :
    (k v : String) (m : Entries)
    → str_eq k "phase" ≡ false
    → read "phase" (insert k v m) ≡ read "phase" m
phase-insert k v m h = read-insert k "phase" v m ∙ rw h refl

pub phase-remove :
    (k : String) (m : Entries)
    → str_eq k "phase" ≡ false
    → read "phase" (remove k m) ≡ read "phase" m
phase-remove k m h = read-remove k "phase" m ∙ rw h refl

pub phase-set_phase : (p : Phase) (m : Entries) → stored_phase (set_phase p m) ≡ ok p
phase-set_phase p m =
    ap parse_phase (read-insert "phase" "phase" (phase_text p) m) ∙ parse_phase-phase_text p

pub phase-set_runtime_phase :
    (p : Phase) (clear : Bool) (m : Entries) → stored_phase (set_runtime_phase p clear m) ≡ ok p
unfolding set_runtime_phase
phase-set_runtime_phase p true m =
    ap parse_phase (
      phase-remove "stagedHandle" (remove "failureMessage" (set_phase p m)) refl
      ∙ phase-remove "failureMessage" (set_phase p m) refl)
    ∙ phase-set_phase p m
phase-set_runtime_phase p false m =
    ap parse_phase (phase-remove "failureMessage" (set_phase p m) refl) ∙ phase-set_phase p m

-- What a successful write leaves, and what it says of its phase.
pub from_ok :
    (m n : Entries) (p : Phase) → ok m ≡ ok n → stored_phase m ≡ ok p → stored_phase n ≡ ok p
from_ok m n p h e = subst (λ (k : Entries). stored_phase k ≡ ok p) (ok_same m n h) e

pub phase-mark_terminal :
    (p : Phase) (message : String) (clear : Bool) (m n : Entries)
    → mark_terminal p message clear m ≡ ok n
    → stored_phase n ≡ ok p
unfolding mark_terminal
phase-mark_terminal p message clear m n = elim (Bool-cases (is_empty (trim_space message))) [
  | inl blank ↦ rw blank (λ h. absurd (cc))
  | inr filled ↦ rw filled (λ h. from_ok _ n p h (
      ap parse_phase (phase-insert "failureMessage" (trim_space message) _ refl)
      ∙ phase-set_phase p _))
]

phase-insert_parts :
    (codec : Codec) (r : Result String) (m n : Entries)
    → insert_parts codec m r ≡ ok n
    → read "phase" n ≡ read "phase" m
phase-insert_parts codec (err e) m n h = absurd (cc)
phase-insert_parts codec (ok payload) m n h =
    subst (λ (k : Entries). read "phase" k ≡ read "phase" m) (ok_same _ n h)
      (phase-insert "multipartUploadedParts" payload m refl)

pub phase-set_uploaded_parts :
    (codec : Codec) (parts : List UploadedPart) (m n : Entries)
    → set_uploaded_parts codec parts m ≡ ok n
    → read "phase" n ≡ read "phase" m
unfolding set_uploaded_parts
phase-set_uploaded_parts codec [] m n h =
    subst (λ (k : Entries). read "phase" k ≡ read "phase" m) (ok_same _ n h)
      (phase-remove "multipartUploadedParts" m refl)
phase-set_uploaded_parts codec (p ∷ parts) m n h =
    phase-insert_parts codec (codec.marshal_parts (p ∷ parts)) m n h

probed_of_clear :
    (m : Entries) → read "probeFileName" (clear_multipart_state m) ≡ read "probeFileName" m
unfolding clear_multipart_state
probed_of_clear m =
    read-remove "multipartUploadedParts" "probeFileName" _
    ∙ read-remove "multipartFileName" "probeFileName" _
    ∙ read-remove "multipartKey" "probeFileName" _
    ∙ read-remove "multipartUploadID" "probeFileName" m

either_way :
    (b : Bool) → ok (if b then issued else probing) ≡ ok (if not b then probing else issued)
either_way true = refl
either_way false = refl

pub phase-clear_multipart :
    (m n : Entries)
    → clear_multipart m ≡ ok n
    → stored_phase n ≡ ok (if is_probed m then probing else issued)
unfolding clear_multipart
phase-clear_multipart m n h =
    from_ok _ n _ h (
      ap parse_phase (phase-remove "stagedHandle" _ refl ∙ phase-remove "failureMessage" _ refl)
      ∙ phase-set_phase _ (clear_multipart_state m))
    ∙ ap (λ (t : String). ok (if is_empty (trim_space t) then issued else probing))
        (probed_of_clear m)
    ∙ either_way (is_empty (trim_space (read "probeFileName" m)))

pub phase-save_probe :
    (codec : Codec) (size : Int64) (state : ProbeState) (m n : Entries)
    → save_probe codec size state m ≡ ok n
    → stored_phase n ≡ ok probing
unfolding save_probe
phase-save_probe codec size state m n = elim (Bool-cases (is_empty (trim_space state.file_name))) [
  | inl blank ↦ rw blank (λ h. absurd (cc))
  | inr filled ↦ rw filled (elim (Bool-cases (lt64 size 0)) [
    | inl negative ↦ rw negative (λ h. absurd (cc))
    | inr sized ↦ rw sized (λ h. from_ok _ n probing h (phase-set_runtime_phase probing false _))
  ])
]
