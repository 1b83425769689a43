-- ===== src/UploadSession/Verdicts.antt =====
-- Which writes of a session's secret are refused.
use ai_models.Prelude.{
  ◌≡◌, ◌⊎◌, refl, inl, inr, String, Bool, true, false, List, [], ◌∷◌, none, some, if◌then◌else◌,
  Bool-cases, Option-cases,
}
use ai_models.Prelude.Text.{is_empty, trim_space}
use ai_models.Prelude.Int64.{Int64, lt64}
use ai_models.Publication.Handle.{Result, ok, err, Handle, validate}
use ai_models.Prelude.Assoc.{insert, remove}
use ai_models.ModelPack.Results.{◌>>=◌}
use ai_models.UploadSession.{
  Phase, issued, probing, uploading, uploaded, publishing, completed, failed, aborted, expired,
  UploadedPart, SessionState, ProbeState, Codec, validate_multipart_state,
}
use ai_models.UploadSession.Write.{
  Entries, set_phase, mark_terminal, clear_multipart, set_uploaded_parts, insert_parts,
  set_multipart_state, save_multipart, save_probe, encode_handle, mark_uploaded, mark_publishing,
  mark_completed, mark_publishing_failed, allows_publishing_failed, insert_state, set_runtime_phase,
}
use ai_models.UploadSession.Automaton.{
  save_multipart_op, save_parts_op, save_probe_op, clear_multipart_op, mark_uploaded_op,
  mark_publishing_op, mark_completed_op, mark_failed_op, mark_aborted_op, mark_expired_op,
  SecretWrite, by_client, publishing_failed_write, apply_write, failed_from, stored_phase,
}

abbrev pub IsBlank : String → Type 0
IsBlank message = is_empty (trim_space message) ≡ true

-- Parts that have no text; a list of none needs no text.
abbrev pub NoPartsText : Codec → List UploadedPart → Type 0
NoPartsText codec [] = ⊥
NoPartsText codec (p ∷ parts) = (e : String) × (codec.marshal_parts (p ∷ parts) ≡ err e)

-- A write is refused for what it is given: for an invalid state or handle, one that has no text, a
-- blank message or file name, or a negative size. A failed publication needs its message only where
-- it has an effect.
abbrev pub IsRefused : Codec → SecretWrite → Phase → Type 0
IsRefused codec (by_client (save_multipart_op state)) p =
    ((e : String) × (validate_multipart_state state ≡ some e))
    ⊎ NoPartsText codec state.uploaded_parts
IsRefused codec (by_client (save_parts_op parts)) p = NoPartsText codec parts
IsRefused codec (by_client (save_probe_op size state)) p =
    IsBlank state.file_name ⊎ (lt64 size 0 ≡ true)
IsRefused codec (by_client clear_multipart_op) p = ⊥
IsRefused codec (by_client (mark_uploaded_op handle)) p =
    ((e : String) × (validate handle ≡ some e))
    ⊎ ((e : String) × (codec.marshal_handle handle ≡ err e))
IsRefused codec (by_client mark_publishing_op) p = ⊥
IsRefused codec (by_client mark_completed_op) p = ⊥
IsRefused codec (by_client (mark_failed_op message)) p = IsBlank message
IsRefused codec (by_client (mark_aborted_op message)) p = IsBlank message
IsRefused codec (by_client (mark_expired_op message)) p = IsBlank message
IsRefused codec (publishing_failed_write message) p = IsBlank message × (failed_from p ≡ failed)

-- A result that is an error exactly where the write is refused.
abbrev pub Tells : Type 0 → Result Entries → Type 0
Tells R (ok n) = ¬ R
Tells R (err e) = R

mark_terminal-Tells :
    (new : Phase) (message : String) (clear : Bool) (m : Entries)
    → Tells (IsBlank message) (mark_terminal new message clear m)
unfolding mark_terminal
mark_terminal-Tells new message clear m = elim (Bool-cases (is_empty (trim_space message))) [
  | inl blank ↦ rw blank refl
  | inr filled ↦ rw filled (λ h. absurd (cc))
]

insert_parts-Tells :
    (r : Result String) (codec : Codec) (m : Entries)
    → Tells ((e : String) × (r ≡ err e)) (insert_parts codec m r)
insert_parts-Tells (ok t) codec m = λ (e, h). absurd (cc)
insert_parts-Tells (err e) codec m = (e, refl)

set_uploaded_parts-Tells :
    (codec : Codec) (parts : List UploadedPart) (m : Entries)
    → Tells (NoPartsText codec parts) (set_uploaded_parts codec parts m)
unfolding set_uploaded_parts
set_uploaded_parts-Tells codec [] m = λ h. h
set_uploaded_parts-Tells codec (p ∷ parts) m =
    insert_parts-Tells (codec.marshal_parts (p ∷ parts)) codec m

Tells-bind :
    (R : Type 0) (r : Result Entries) (f : Entries → Entries)
    → Tells R r
    → Tells R (r >>= λ n. ok (f n))
Tells-bind R (ok n) f h = h
Tells-bind R (err e) f h = h

Tells-inr : (L R : Type 0) (r : Result Entries) → ¬ L → Tells R r → Tells (L ⊎ R) r
Tells-inr L R (ok n) never h = λ x. elim x [ inl l ↦ never l | inr y ↦ h y ]
Tells-inr L R (err e) never h = inr h

Tells-also : (R Q : Type 0) (r : Result Entries) → Q → Tells R r → Tells (R × Q) r
Tells-also R Q (ok n) q h = λ x. h x.0
Tells-also R Q (err e) q h = (h, q)

no_error : ¬ ((e : String) × (none ≡ some e))
no_error (e, h) = absurd (cc)

save_multipart-Tells :
    (codec : Codec) (state : SessionState) (m : Entries) (p : Phase)
    → Tells (IsRefused codec (by_client (save_multipart_op state)) p) (save_multipart codec state m)
unfolding save_multipart set_multipart_state
save_multipart-Tells codec state m p =
    let stored = set_uploaded_parts codec state.uploaded_parts (insert_state codec state m) in
    let bad_parts = NoPartsText codec state.uploaded_parts in
    let bad_state : Type 0 = (e : String) × (validate_multipart_state state ≡ some e) in
    elim (Option-cases (validate_multipart_state state)) [
      | inr (e, h) ↦ rw (h, save_multipart, set_multipart_state) (inl (e, refl))
      | inl h ↦
          let fine : ¬ bad_state = rw h no_error in
          let told =
            set_uploaded_parts-Tells codec state.uploaded_parts (insert_state codec state m) in
          let all : Tells (bad_state ⊎ bad_parts)
              (stored >>= λ n. ok (set_runtime_phase uploading true n)) =
            Tells-bind (bad_state ⊎ bad_parts) stored (set_runtime_phase uploading true)
              (Tells-inr bad_state bad_parts stored fine told) in
          rw (h, save_multipart, set_multipart_state) (rw h at all)
    ]

save_probe-Tells :
    (codec : Codec) (size : Int64) (state : ProbeState) (m : Entries)
    → Tells (IsBlank state.file_name ⊎ (lt64 size 0 ≡ true)) (save_probe codec size state m)
unfolding save_probe
save_probe-Tells codec size state m = elim (Bool-cases (is_empty (trim_space state.file_name))) [
  | inl blank ↦ rw blank (inl refl)
  | inr filled ↦ rw filled (elim (Bool-cases (lt64 size 0)) [
    | inl negative ↦ rw negative (inr refl)
    | inr sized ↦ rw sized (λ h. elim h [ inl b ↦ absurd (cc) | inr n ↦ absurd (cc) ])
  ])
]

encoded-Tells :
    (r : Result String) (f : String → Entries)
    → Tells ((e : String) × (r ≡ err e)) (r >>= λ t. ok (f t))
encoded-Tells (ok t) f = λ (e, h). absurd (cc)
encoded-Tells (err e) f = (e, refl)

mark_uploaded-Tells :
    (codec : Codec) (handle : Handle) (m : Entries) (p : Phase)
    → Tells (IsRefused codec (by_client (mark_uploaded_op handle)) p) (mark_uploaded codec handle m)
unfolding mark_uploaded
mark_uploaded-Tells codec handle m p = elim (Option-cases (validate handle)) [
  | inr (e, h) ↦ rw (h, mark_uploaded, encode_handle) (inl (e, refl))
  | inl h ↦
      rw (h, mark_uploaded, encode_handle)
        (Tells-inr _ _ _ no_error (
          encoded-Tells (codec.marshal_handle handle)
            (λ t. remove "failureMessage" (insert "stagedHandle" t (set_phase uploaded m)))))
]

failed_arm :
    (message : String) (m : Entries) (p : Phase)
    → Tells
        (IsBlank message × (failed_from p ≡ failed))
        (if allows_publishing_failed p then mark_terminal failed message false m else ok m)
failed_arm message m issued = Tells-also _ _ _ refl (mark_terminal-Tells failed message false m)
failed_arm message m probing = Tells-also _ _ _ refl (mark_terminal-Tells failed message false m)
failed_arm message m uploading = Tells-also _ _ _ refl (mark_terminal-Tells failed message false m)
failed_arm message m uploaded = Tells-also _ _ _ refl (mark_terminal-Tells failed message false m)
failed_arm message m publishing = Tells-also _ _ _ refl (mark_terminal-Tells failed message false m)
failed_arm message m completed = λ (b, e). absurd (cc)
failed_arm message m failed = Tells-also _ _ _ refl (mark_terminal-Tells failed message false m)
failed_arm message m aborted = λ (b, e). absurd (cc)
failed_arm message m expired = λ (b, e). absurd (cc)

mark_publishing_failed-Tells :
    (message : String) (m : Entries) (p : Phase)
    → stored_phase m ≡ ok p
    → Tells (IsBlank message × (failed_from p ≡ failed)) (mark_publishing_failed message m)
unfolding mark_publishing_failed
mark_publishing_failed-Tells message m p s = rw s (failed_arm message m p)

-- Where the phase can be read, a write returns an error exactly where it is refused.
pub apply_write-Tells :
    (codec : Codec) (write : SecretWrite) (m : Entries) (p : Phase)
    → stored_phase m ≡ ok p
    → Tells (IsRefused codec write p) (apply_write codec write m)
unfolding clear_multipart mark_publishing mark_completed
apply_write-Tells codec (by_client (save_multipart_op state)) m p s =
    save_multipart-Tells codec state m p
apply_write-Tells codec (by_client (save_parts_op parts)) m p s =
    set_uploaded_parts-Tells codec parts m
apply_write-Tells codec (by_client (save_probe_op size state)) m p s =
    save_probe-Tells codec size state m
apply_write-Tells codec (by_client clear_multipart_op) m p s = λ h. h
apply_write-Tells codec (by_client (mark_uploaded_op handle)) m p s =
    mark_uploaded-Tells codec handle m p
apply_write-Tells codec (by_client mark_publishing_op) m p s = rw s (λ h. h)
apply_write-Tells codec (by_client mark_completed_op) m p s = rw s (λ h. h)
apply_write-Tells codec (by_client (mark_failed_op message)) m p s =
    mark_terminal-Tells failed message true m
apply_write-Tells codec (by_client (mark_aborted_op message)) m p s =
    mark_terminal-Tells aborted message true m
apply_write-Tells codec (by_client (mark_expired_op message)) m p s =
    mark_terminal-Tells expired message true m
apply_write-Tells codec (publishing_failed_write message) m p s =
    mark_publishing_failed-Tells message m p s
