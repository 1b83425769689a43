-- ===== src/NodeCache/Examples.antt =====
-- The node cache on concrete entries and artifacts.
use ai_models.Prelude.{
  ℕ, ◌≡◌, ◌≢◌, ◌↔◌, ◌⊎◌, ◌≤◌, ◌%◌, inl, refl, true, false, ◌||◌, none, List, [], ◌∷◌, arith, All,
}
use ai_models.Prelude.Text.{trim_space}
use ai_models.Prelude.Int64.{modulus, half, add64, le64}
use ai_models.Prelude.Assoc.{lookup, insert, member}
use ai_models.NodeCache.Plan.{
  Entry, Snapshot, PlanInput, CandidateReason, plan_eviction, plan_timed, planned_by_state,
  relieve_pressure, append_all, append_until_fits, append_candidate, malformed_candidates,
  unused_age_candidates, size_pressure_candidates, protected_digest_set, is_protected_digest,
  entry_last_used, sort_slice, timed,
}
use ai_models.NodeCache.Plan.Loop.{has_dir, DirsDistinct}
use ai_models.NodeCache.Plan.Candidates.{Justified, Sized}
use ai_models.NodeCache.Plan.Eviction.{
  stays, plan_eviction-Justified, plan_eviction_adds_up, plan_eviction_fits,
}
use ai_models.NodeCache.Desired.{
  DesiredArtifact, ok, normalize_desired_artifacts, protected_digests,
  validate_desired_artifacts_fit, normalize_loop, add_trimmed, merge_seen, merge_desired_artifact,
  replace_desired_artifact, sort_by_digest, insert_by_digest,
}
use ai_models.NodeCache.Desired.Normal.{Normalized, normalize_desired_artifacts-Normalized}
use ai_models.NodeCache.Desired.Capacity.{total_size, IsSized, validate_fit_exact}
use ai_models.NodeCache.Keep.{plan_eviction_keeps_desired}

abbrev broken : Entry
broken = record {
  digest = "sha256:a";
  destination_dir = "/cache/a";
  ready_at = 0;
  last_used_at = 0;
  size_bytes = 5;
  current = false;
  ready = false;
  failure = "marker is missing";
}

abbrev cold : Entry
cold = record broken {
  digest = "sha256:b";
  destination_dir = "/cache/b";
  ready_at = 10;
  ready = true;
  size_bytes = 30;
  failure = "";
}

abbrev warm : Entry
warm = record cold {
  digest = "sha256:c";
  destination_dir = "/cache/c";
  last_used_at = 900;
  size_bytes = 40;
}

abbrev kept : Entry
kept = record cold { digest = "sha256:d"; destination_dir = "/cache/d"; size_bytes = 60 }

abbrev cache : Snapshot
cache = record { entries = broken ∷ cold ∷ warm ∷ kept ∷ []; total_size_bytes = 135 }

abbrev policy : PlanInput
policy = record {
  now = 0;
  max_total_size_bytes = 70;
  max_unused_age = 500;
  protected_digests = "sha256:d" ∷ [];
}

-- The broken entry goes for its state, the cold one for its age, and the warm one for its size.
plans :
    (plan_eviction cache policy 1000).candidates
    ≡ record {
      digest = "sha256:a";
      destination_dir = "/cache/a";
      reclaim_bytes = 5;
      reason = CandidateReason.malformed;
      failure = "marker is missing";
    }
      ∷ record {
        digest = "sha256:b";
        destination_dir = "/cache/b";
        reclaim_bytes = 30;
        reason = CandidateReason.unused_age;
        failure = "";
      }
      ∷ record {
        digest = "sha256:c";
        destination_dir = "/cache/c";
        reclaim_bytes = 40;
        reason = CandidateReason.size_pressure;
        failure = "";
      }
      ∷ []
unfolding plan_eviction plan_timed planned_by_state relieve_pressure append_all append_until_fits
    append_candidate malformed_candidates unused_age_candidates size_pressure_candidates
    protected_digest_set is_protected_digest entry_last_used sort_slice trim_space member
plans = refl

cache-Sized : Sized cache.entries
cache-Sized = (omega arith, (omega arith, (omega arith, (omega arith, tt))))

plan_eviction-Justified_example :
    All (Justified cache.entries (timed policy 1000)) (plan_eviction cache policy 1000).candidates
plan_eviction-Justified_example = plan_eviction-Justified cache policy 1000

plan_eviction_adds_up_example :
    DirsDistinct (plan_eviction cache policy 1000).candidates
    × (add64
          (plan_eviction cache policy 1000).residual_size_bytes
          (plan_eviction cache policy 1000).reclaim_bytes
        ≡ (plan_eviction cache policy 1000).total_size_bytes % modulus)
plan_eviction_adds_up_example = plan_eviction_adds_up cache policy 1000 cache-Sized

plan_eviction_fits_example :
    (le64 (plan_eviction cache policy 1000).residual_size_bytes 70 ≡ true)
    ⊎ All
        (λ e.
          (stays policy e || has_dir e.destination_dir (plan_eviction cache policy 1000).candidates)
          ≡ true)
        cache.entries
plan_eviction_fits_example = plan_eviction_fits cache policy 1000 cache-Sized refl

abbrev wanted : DesiredArtifact
wanted = record { artifact_uri = "oci://d"; digest = " sha256:d"; family = ""; size_bytes = 0 }

abbrev wanted_again : DesiredArtifact
wanted_again = record {
  artifact_uri = "oci://d ";
  digest = "sha256:d";
  family = "llama";
  size_bytes = 60;
}

abbrev wanted_first : DesiredArtifact
wanted_first = record { artifact_uri = "oci://a"; digest = "sha256:a"; family = ""; size_bytes = 9 }

abbrev request : List DesiredArtifact
request = wanted ∷ wanted_again ∷ wanted_first ∷ []

abbrev merged : DesiredArtifact
merged = record { artifact_uri = "oci://d"; digest = "sha256:d"; family = "llama"; size_bytes = 60 }

abbrev normal : List DesiredArtifact
normal = wanted_first ∷ merged ∷ []

normalizes : normalize_desired_artifacts request ≡ ok normal
unfolding normalize_desired_artifacts normalize_loop add_trimmed merge_seen merge_desired_artifact
    replace_desired_artifact sort_by_digest insert_by_digest trim_space lookup insert
normalizes = refl

normalize_desired_artifacts-Normalized_example : Normalized request normal
normalize_desired_artifacts-Normalized_example =
    normalize_desired_artifacts-Normalized request normal normalizes

validate_fit_exact_example :
    (validate_desired_artifacts_fit 70 request ≡ none)
    ↔ ((◌≡◌ {A = ℕ} 70 0) ⊎ ((half ≤ 70) ⊎ (All IsSized normal × (total_size normal ≤ 70))))
unfolding total_size
validate_fit_exact_example =
    validate_fit_exact 70 request normal (omega arith) normalizes (omega arith, (omega arith, tt))
      (omega arith)

abbrev request_policy : PlanInput
request_policy = record policy { protected_digests = protected_digests request }

plan_eviction_keeps_desired_example :
    All
      (λ c. trim_space c.digest ≢ trim_space " sha256:d")
      (plan_eviction cache request_policy 1000).candidates
plan_eviction_keeps_desired_example =
    plan_eviction_keeps_desired cache request_policy 1000 request normal wanted normalizes refl
      (inl refl)
