-- ===== src/UploadSession/Examples.antt =====
-- Sessions with a concrete codec.
use ai_models.Prelude.{
  ℕ, ◌*◌, ◌/◌, ◌^◌, ◌≡◌, ◌∙◌, refl, ap, String, true, false, List, [], ◌∷◌, Option, none, some,
  arith,
}
use ai_models.Prelude.Text.{is_empty, trim_space}
use ai_models.Prelude.Assoc.{lookup, insert, remove}
use ai_models.Prelude.Marks.{marks, count_marks, count_marks-marks, marks_clean}
use ai_models.Publication.Handle.{ok, err}
use ai_models.Requests.{Secret}
use ai_models.Requests.Schedule.{found}
use ai_models.UploadSession.{
  Codec, SessionSpec, is_valid_token_hash, completed, whole_seconds, parse_phase,
  parse_input_format,
}
use ai_models.UploadSession.Read.{session_from_secret}
use ai_models.UploadSession.Write.{
  new_secret, check_spec, spec_entries, spec_annotations, store_token_hash, set_optional_int64,
  set_optional_string, Entries, mark_completed, set_runtime_phase, mark_publishing_failed,
}
use ai_models.UploadSession.Automaton.{
  mark_completed_op, by_client, publishing_failed_write, apply_write, stored_phase, is_probed,
}
use ai_models.UploadSession.Phases.{Follows, apply_write-Follows}
use ai_models.UploadSession.RoundTrip.{new_session, session_from_secret-new_secret}
use ai_models.UploadSession.Client.{
  Round, accepted, conflict, update, stored, IsSettled, update-IsSettled, with_entries,
}

abbrev one_hash : String
one_hash = "0123456789abcdef0123456789abcdef0123456789abcdef0123456789abcdef"

one_hash_valid : is_valid_token_hash one_hash ≡ true
unfolding is_valid_token_hash
one_hash_valid = refl

one_hash_clean : (trim_space one_hash ≡ one_hash) × (is_empty one_hash ≡ false)
unfolding trim_space
one_hash_clean = (refl, refl)

seconds_of : Option ℕ → Option ℕ
seconds_of none = none
seconds_of (some n) = some (n * 10 ^ 9)

seconds_read : (t : ℕ) → seconds_of (count_marks (marks (t / 10 ^ 9))) ≡ some (whole_seconds t)
unfolding seconds_of
seconds_read t = ap seconds_of (count_marks-marks (t / 10 ^ 9)) ∙ ap some (omega arith)

abbrev codec : Codec
codec = record {
  hash = λ t. one_hash;
  format_int = marks;
  parse_int = count_marks;
  format_time = λ t. marks (t / 10 ^ 9);
  parse_time = λ s. seconds_of (count_marks s);
  marshal_parts = λ parts. ok "[]";
  unmarshal_parts = λ s. ok [];
  marshal_handle = λ h. ok "{}";
  unmarshal_handle = λ s. err "no handle";
  hash_valid = λ t. one_hash_valid;
  hash_clean = λ t. one_hash_clean;
  int_clean = marks_clean;
  parse-format_int = λ n h. count_marks-marks n;
  time_clean = λ t. marks_clean (t / 10 ^ 9);
  parse-format_time = seconds_read;
}

abbrev spec : SessionSpec
spec = record {
  name = "upload";
  namespace = "d8-ai-models";
  token = "secret ";
  expected_size_bytes = 3;
  staging_key_prefix = "raw/1";
  declared_input_format = "GGUF";
  owner_generation = 2;
  expires_at = 5 * 10 ^ 9;
}

abbrev entries : Entries
entries =
    ("stagingKeyPrefix", "raw/1")
    ∷ ("phase", "issued")
    ∷ ("tokenHash", one_hash)
    ∷ ("expectedSizeBytes", "||||")
    ∷ ("declaredInputFormat", "GGUF")
    ∷ []

abbrev secret : Secret
secret = record {
  name = "upload";
  labels = [];
  annotations =
      ("ai.deckhouse.io/upload-expires-at", "||||||")
      ∷ ("ai.deckhouse.io/upload-owner-generation", "|||")
      ∷ [];
  data_fields = entries;
}

new_secret_made : new_secret codec spec ≡ ok secret
unfolding new_secret check_spec spec_entries spec_annotations store_token_hash set_optional_int64
    set_optional_string trim_space marks parse_input_format insert remove
new_secret_made = refl

session_from_secret-new_secret_example :
    session_from_secret codec (some secret) ≡ ok (new_session codec spec)
session_from_secret-new_secret_example =
    session_from_secret-new_secret codec spec secret (omega arith) (omega arith) new_secret_made

abbrev publishing_entries : Entries
publishing_entries = ("phase", "publishing") ∷ ("failureMessage", "gone") ∷ []

abbrev completed_entries : Entries
completed_entries = ("phase", "completed") ∷ []

phase_read : stored_phase completed_entries ≡ ok completed
unfolding parse_phase trim_space lookup
phase_read = refl

-- A failed publication leaves a session that is completed.
failure_held_back :
    apply_write codec (publishing_failed_write "gone") completed_entries ≡ ok completed_entries
unfolding mark_publishing_failed parse_phase trim_space lookup
failure_held_back = refl

phase_written :
    apply_write codec (by_client mark_completed_op) publishing_entries ≡ ok completed_entries
unfolding mark_completed set_runtime_phase parse_phase trim_space lookup insert remove
phase_written = refl

apply_write-Follows_example :
    Follows codec
      (publishing_failed_write "gone")
      (is_probed completed_entries)
      completed
      (apply_write codec (publishing_failed_write "gone") completed_entries)
apply_write-Follows_example =
    apply_write-Follows codec (publishing_failed_write "gone") completed_entries completed
      phase_read

abbrev old_secret : Secret
old_secret = record secret { data_fields = publishing_entries }

-- A round that meets a conflict, and one that does not.
abbrev answers : List Round
answers =
    record { read_answer = found secret; write_answer = conflict }
    ∷ record { read_answer = found old_secret; write_answer = accepted }
    ∷ []

update_stored :
    update codec "upload" mark_completed_op answers
    ≡ stored (with_entries old_secret completed_entries)
unfolding update mark_completed set_runtime_phase parse_phase trim_space lookup insert remove
update_stored = refl

update-IsSettled_example :
    IsSettled codec mark_completed_op (with_entries old_secret completed_entries) answers
update-IsSettled_example =
    update-IsSettled codec "upload" mark_completed_op (with_entries old_secret completed_entries)
      answers update_stored
