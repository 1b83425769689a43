-- ===== src/UploadSession/Phases.antt =====
-- The writes of a session's secret against the automaton of the phases.
use ai_models.Prelude.{◌≡◌, ◌∙◌, refl, sym, ap, subst, String, Bool, true, false, if◌then◌else◌}
use ai_models.Publication.Handle.{Result, ok, err}
use ai_models.ModelPack.Results.{ok_same, >>=-ok}
use ai_models.UploadSession.{
  Phase, uploading, uploaded, publishing, completed, failed, aborted, expired, parse_phase, Codec,
}
use ai_models.UploadSession.Write.{
  Entries, set_runtime_phase, mark_terminal, allows_publishing, allows_completed,
  allows_publishing_failed, mark_publishing, mark_completed, mark_publishing_failed,
  set_multipart_state, save_multipart, encode_handle, mark_uploaded,
}
use ai_models.UploadSession.Automaton.{
  save_multipart_op, save_parts_op, save_probe_op, clear_multipart_op, mark_uploaded_op,
  mark_publishing_op, mark_completed_op, mark_failed_op, mark_aborted_op, mark_expired_op,
  SecretWrite, by_client, publishing_failed_write, apply_write, publishing_from, completed_from,
  failed_from, next_phase, stored_phase, is_probed, publishing_from_lem, completed_from_lem,
  failed_from_lem,
}
use ai_models.UploadSession.Verdicts.{IsRefused, Tells, apply_write-Tells}
use ai_models.UploadSession.StoredPhase.{
  phase-set_phase, phase-insert, phase-remove, phase-set_runtime_phase, from_ok,
  phase-mark_terminal, phase-set_uploaded_parts, phase-clear_multipart, phase-save_probe,
}

-- A write that a phase may hold back.
held_back :
    (allowed : Bool) (new p : Phase) (clear : Bool) (m n : Entries)
    → stored_phase m ≡ ok p
    → ok (if allowed then set_runtime_phase new clear m else m) ≡ ok n
    → stored_phase n ≡ ok (if allowed then new else p)
held_back true new p clear m n s h = from_ok _ n new h (phase-set_runtime_phase new clear m)
held_back false new p clear m n s h = from_ok m n p h s

failed_back :
    (allowed : Bool) (message : String) (p : Phase) (m n : Entries)
    → stored_phase m ≡ ok p
    → (if allowed then mark_terminal failed message false m else ok m) ≡ ok n
    → stored_phase n ≡ ok (if allowed then failed else p)
failed_back true message p m n s h = phase-mark_terminal failed message false m n h
failed_back false message p m n s h = from_ok m n p h s

-- The writes that look at the phase.
phase-mark_publishing :
    (m n : Entries) (p : Phase)
    → stored_phase m ≡ ok p
    → mark_publishing m ≡ ok n
    → stored_phase n ≡ ok (publishing_from p)
unfolding mark_publishing
phase-mark_publishing m n p s h =
    let step = >>=-ok (stored_phase m) _ n h in
    held_back (allows_publishing p) publishing p false m n s (
      subst
        (λ q. ok (if allows_publishing q then set_runtime_phase publishing false m else m) ≡ ok n)
        (ok_same step.0 p (sym step.1 ∙ s)) step.2)
    ∙ ap ok (publishing_from_lem p)

phase-mark_completed :
    (m n : Entries) (p : Phase)
    → stored_phase m ≡ ok p
    → mark_completed m ≡ ok n
    → stored_phase n ≡ ok (completed_from p)
unfolding mark_completed
phase-mark_completed m n p s h =
    let step = >>=-ok (stored_phase m) _ n h in
    held_back (allows_completed p) completed p true m n s (
      subst (λ q. ok (if allows_completed q then set_runtime_phase completed true m else m) ≡ ok n)
        (ok_same step.0 p (sym step.1 ∙ s)) step.2)
    ∙ ap ok (completed_from_lem p)

phase-mark_publishing_failed :
    (message : String) (m n : Entries) (p : Phase)
    → stored_phase m ≡ ok p
    → mark_publishing_failed message m ≡ ok n
    → stored_phase n ≡ ok (failed_from p)
unfolding mark_publishing_failed
phase-mark_publishing_failed message m n p s h =
    let step = >>=-ok (stored_phase m) _ n h in
    failed_back (allows_publishing_failed p) message p m n s (
      subst
        (λ q.
          (if allows_publishing_failed q then mark_terminal failed message false m else ok m)
          ≡ ok n)
        (ok_same step.0 p (sym step.1 ∙ s)) step.2)
    ∙ ap ok (failed_from_lem p)

-- A write that succeeds leaves the phase that the automaton leads to.
apply-next_phase :
    (codec : Codec) (write : SecretWrite) (m n : Entries) (p : Phase)
    → stored_phase m ≡ ok p
    → apply_write codec write m ≡ ok n
    → stored_phase n ≡ ok (next_phase write (is_probed m) p)
unfolding save_multipart mark_uploaded
apply-next_phase codec (by_client (save_multipart_op state)) m n p s h =
    let step = >>=-ok (set_multipart_state codec state m) _ n h in
    from_ok _ n uploading step.2 (phase-set_runtime_phase uploading true step.0)
apply-next_phase codec (by_client (save_parts_op parts)) m n p s h =
    ap parse_phase (phase-set_uploaded_parts codec parts m n h) ∙ s
apply-next_phase codec (by_client (save_probe_op size state)) m n p s h =
    phase-save_probe codec size state m n h
apply-next_phase codec (by_client clear_multipart_op) m n p s h = phase-clear_multipart m n h
apply-next_phase codec (by_client (mark_uploaded_op handle)) m n p s h =
    let step = >>=-ok (encode_handle codec handle) _ n h in
    from_ok _ n uploaded step.2 (
      ap parse_phase
        (phase-remove "failureMessage" _ refl ∙ phase-insert "stagedHandle" step.0 _ refl)
      ∙ phase-set_phase uploaded m)
apply-next_phase codec (by_client mark_publishing_op) m n p s h = phase-mark_publishing m n p s h
apply-next_phase codec (by_client mark_completed_op) m n p s h = phase-mark_completed m n p s h
apply-next_phase codec (by_client (mark_failed_op message)) m n p s h =
    phase-mark_terminal failed message true m n h
apply-next_phase codec (by_client (mark_aborted_op message)) m n p s h =
    phase-mark_terminal aborted message true m n h
apply-next_phase codec (by_client (mark_expired_op message)) m n p s h =
    phase-mark_terminal expired message true m n h
apply-next_phase codec (publishing_failed_write message) m n p s h =
    phase-mark_publishing_failed message m n p s h

-- What a write from the phase `p` may return.
abbrev pub Follows : Codec → SecretWrite → Bool → Phase → Result Entries → Type 0
Follows codec write probed p (ok n) =
    (stored_phase n ≡ ok (next_phase write probed p)) × (¬ IsRefused codec write p)
Follows codec write probed p (err e) = IsRefused codec write p

result-Follows :
    (codec : Codec) (write : SecretWrite) (m : Entries) (p : Phase) (r : Result Entries)
    → stored_phase m ≡ ok p
    → apply_write codec write m ≡ r
    → Tells (IsRefused codec write p) r
    → Follows codec write (is_probed m) p r
result-Follows codec write m p (ok n) s e t = (apply-next_phase codec write m n p s e, t)
result-Follows codec write m p (err x) s e t = t

-- Where a secret's entries have a readable phase, a write of the client, or of a failed publication,
-- fails exactly if it is refused for what it is given, and otherwise leaves the phase that the
-- automaton `next_phase` leads to: publishing is held back once completed, failed, aborted or expired,
-- completing once failed, aborted or expired, a failed publication once completed, aborted or expired,
-- and multipart state that is cleared goes back to probing or issued.
pub apply_write-Follows :
    (codec : Codec) (write : SecretWrite) (m : Entries) (p : Phase)
    → stored_phase m ≡ ok p
    → Follows codec write (is_probed m) p (apply_write codec write m)
apply_write-Follows codec write m p s =
    result-Follows codec write m p _ s refl (apply_write-Tells codec write m p s)
